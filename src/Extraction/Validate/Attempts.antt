-- ===== src/Extraction/Validate/Attempts.antt =====
-- `validate_llm_output`: two attempts at a payload.
use ai_researcher.Prelude.{
  ℕ, ◌≡◌, refl, sym, ◌∙◌, ◌≤◌, false, Option, none, some, List, nat_eq, String, ◌⊎◌, inl, inr,
  if_ind, if◌then◌else◌, Result, ok, err, Yields, returns, raises, Yields-bind, Yields-weaken,
  arith,
}
use ai_researcher.Json.{Value, null, bool, int, float, str, obj, arr}
use ai_researcher.Extraction.Errors.{
  Error, overflow, oversized, LoadError, not_json, too_long, malformed, Reason, malformed_payload,
  fetch_failed, unparseable,
}
use ai_researcher.Extraction.Validate.{
  Schema, ValidationOutcome, failed_outcome, Attempt, settled, failed, is_parseable, attempt,
  outcome_of, attempt_again, validate_llm_output, validate_batch, coerce_records, depth,
}
use ai_researcher.Extraction.Validate.Payload.{AreShorter}
use ai_researcher.Extraction.Validate.Anchored.{
  IsOverflow, infinite_number, IsBatch, malformed_batch, sorted, validate_batch-IsBatch,
}

load_cases :
    (r : Result LoadError Value)
    → ((v : Value) × (r ≡ ok v)) ⊎ ((r ≡ err not_json) ⊎ (r ≡ err too_long))
load_cases (ok v) = inl (v, refl)
load_cases (err not_json) = inr (inl refl)
load_cases (err too_long) = inr (inr refl)

module _ {Model : Type 0} (schema : Schema Model) (allowed : List ℕ) where
  -- The records of the payload were sorted.
  pub data IsPassed (raw : Value) (o : ValidationOutcome Model) : Type 0 where
    passed : o.paper_failed ≡ false → IsBatch schema allowed raw o → IsPassed raw o

  -- Why a call of `fetch` gives no records: it raises, its text is no JSON, or its value is no
  -- payload.
  pub data HasFailed (fetched : Option Value) : Reason → Type 0 where
    no_value : fetched ≡ none → HasFailed fetched fetch_failed
    no_json :
        (s : String)
        → fetched ≡ some (str s)
        → schema.loads s ≡ err not_json
        → HasFailed fetched unparseable
    no_payload :
        (raw : Value)
        → fetched ≡ some raw
        → coerce_records schema.loads (depth raw) raw ≡ err malformed
        → HasFailed fetched malformed_payload

  -- The outcome of the first attempt, or of the second when the first has failed; or, when both
  -- have, the paper fails for the reason of the second, with nothing accepted or rejected.
  pub data IsOutput (fetch : ℕ → Option Value) : ValidationOutcome Model → Type 0 where
    at_first :
        {o : ValidationOutcome Model} (raw : Value)
        → fetch 0 ≡ some raw
        → IsPassed raw o
        → IsOutput fetch o
    at_second :
        {o : ValidationOutcome Model} (reason : Reason) (raw : Value)
        → HasFailed (fetch 0) reason
        → fetch 1 ≡ some raw
        → IsPassed raw o
        → IsOutput fetch o
    given_up :
        (first second : Reason)
        → HasFailed (fetch 0) first
        → HasFailed (fetch 1) second
        → IsOutput fetch (failed_outcome schema second)

  -- What raises for the value of a call of `fetch`: an infinite number in it, or that it is a text
  -- in which `json.loads` finds an integer of too many digits.
  pub data IsRaisedBy (fetched : Option Value) : Error → Type 0 where
    infinite : IsRaisedBy fetched overflow
    too_many_digits :
        (s : String)
        → fetched ≡ some (str s)
        → schema.loads s ≡ err too_long
        → IsRaisedBy fetched oversized

  pub data IsRaised (fetch : ℕ → Option Value) (e : Error) : Type 0 where
    raised_by : (n : ℕ) → n ≤ 1 → IsRaisedBy (fetch n) e → IsRaised fetch e

  abbrev IsAttempt : Option Value → Attempt schema → Type 0
  IsAttempt fetched (settled o) = (raw : Value) × (fetched ≡ some raw) × IsPassed raw o
  IsAttempt fetched (failed none) = ⊥
  IsAttempt fetched (failed (some reason)) = HasFailed fetched reason

  is_parseable-IsRaisedBy :
      (raw : Value)
      → Yields
          (IsRaisedBy (some raw))
          (λ b. b ≡ false → HasFailed (some raw) unparseable)
          (is_parseable schema raw)
  unfolding is_parseable
  is_parseable-IsRaisedBy null = returns (λ h. cc)
  is_parseable-IsRaisedBy (bool b) = returns (λ h. cc)
  is_parseable-IsRaisedBy (int n) = returns (λ h. cc)
  is_parseable-IsRaisedBy (float x) = returns (λ h. cc)
  is_parseable-IsRaisedBy (obj fs) = returns (λ h. cc)
  is_parseable-IsRaisedBy (arr vs) = returns (λ h. cc)
  is_parseable-IsRaisedBy (str s) = elim (load_cases (schema.loads s)) [
    | inl (v, q) ↦ rw q (returns (λ h. cc))
    | inr (inl q) ↦ rw q (returns (λ _. no_json s refl q))
    | inr (inr q) ↦ rw q (raises (too_many_digits s refl q))
  ]

  validate_batch-IsRaisedBy :
      AreShorter schema.loads
      → (raw : Value)
      → Yields
          (IsRaisedBy (some raw))
          (IsBatch schema allowed raw)
          (validate_batch schema raw allowed)
  validate_batch-IsRaisedBy shorter raw =
      Yields-weaken only (λ o b. b) (validate_batch-IsBatch schema allowed shorter raw)
    where
      only : (e : Error) → IsOverflow e → IsRaisedBy (some raw) e
      only e infinite_number = infinite

  attempt-IsAttempt :
      AreShorter schema.loads
      → (fetched : Option Value)
      → Yields (IsRaisedBy fetched) (IsAttempt fetched) (attempt schema allowed fetched)
  unfolding attempt
  attempt-IsAttempt shorter none = returns (no_value refl)
  attempt-IsAttempt shorter (some raw) =
      Yields-bind _ _ (is_parseable-IsRaisedBy raw) λ parseable bad.
        if_ind (Yields (IsRaisedBy (some raw)) (IsAttempt (some raw))) parseable
          (λ _. Yields-bind _ _ (validate_batch-IsRaisedBy shorter raw) λ o b. returns (tried o b))
          (λ q. returns (bad q))
    where
      tried :
          (o : ValidationOutcome Model)
          → IsBatch schema allowed raw o
          → IsAttempt (some raw) (if o.paper_failed then failed o.failure_reason else settled o)
      tried _ (malformed_batch q) = no_payload raw refl q
      tried o (sorted records q h) =
          if_ind (IsAttempt (some raw)) o.paper_failed (λ k. cc (sym k ∙ h.passed))
            (λ k. (raw, refl, passed k (sorted records q h)))

  -- The same for the attempt with a number.
  attempt-IsRaised :
      AreShorter schema.loads
      → (fetch : ℕ → Option Value) (n : ℕ) → n ≤ 1
      → Yields (IsRaised fetch) (IsAttempt (fetch n)) (attempt schema allowed (fetch n))
  attempt-IsRaised shorter fetch n small =
      Yields-weaken (λ e x. raised_by n small x) (λ a h. h) (attempt-IsAttempt shorter (fetch n))

  outcome_of-IsOutput :
      (fetch : ℕ → Option Value) (reason : Reason) (a : Attempt schema)
      → HasFailed (fetch 0) reason
      → IsAttempt (fetch 1) a
      → IsOutput fetch (outcome_of schema a)
  unfolding outcome_of
  outcome_of-IsOutput fetch reason (settled o) f (raw, q, p) = at_second reason raw f q p
  outcome_of-IsOutput fetch reason (failed none) f h = absurd h
  outcome_of-IsOutput fetch reason (failed (some second)) f h = given_up reason second f h

  attempt_again-IsOutput :
      AreShorter schema.loads
      → (fetch : ℕ → Option Value) (a : Attempt schema) → IsAttempt (fetch 0) a
      → Yields (IsRaised fetch) (IsOutput fetch) (attempt_again schema allowed (fetch 1) a)
  unfolding attempt_again
  attempt_again-IsOutput shorter fetch (settled o) (raw, q, p) = returns (at_first raw q p)
  attempt_again-IsOutput shorter fetch (failed none) h = absurd h
  attempt_again-IsOutput shorter fetch (failed (some reason)) h =
      Yields-bind _ _ (attempt-IsRaised shorter fetch 1 (omega arith))
        λ second k. returns (outcome_of-IsOutput fetch reason second h k)

  -- `validate_llm_output` ends with the records of the first attempt, or of the second when the
  -- first has failed, sorted into those that are anchored to the paper and those that are rejected;
  -- or, only when both have failed, with a paper that failed for the reason of the second and no
  -- records. An attempt fails if `fetch` raises, its text is no JSON or its value is no payload.
  -- It raises an exception at most for an infinite number, or when one of the two fetched values is
  -- a text for which `json.loads` raises a ValueError that is no JSONDecodeError, an integer of too
  -- many digits; where `json.loads` raises nothing but a ValueError and a text that it reads from a
  -- text is shorter.
  pub validate_llm_output-IsOutput :
      AreShorter schema.loads
      → (fetch : ℕ → Option Value)
      → Yields (IsRaised fetch) (IsOutput fetch) (validate_llm_output schema fetch allowed)
  unfolding validate_llm_output
  validate_llm_output-IsOutput shorter fetch =
      Yields-bind _ _ (attempt-IsRaised shorter fetch 0 (omega arith))
        λ first h. attempt_again-IsOutput shorter fetch first h
