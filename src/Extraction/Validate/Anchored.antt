-- ===== src/Extraction/Validate/Anchored.antt =====
-- `validate_batch` accepts no record that is not anchored to a node of the paper.
use ai_researcher.Prelude.{
  ℕ, ◌+◌, suc, ◌≡◌, refl, sym, subst, true, false, Option, none, some, List, [], ◌∷◌, length,
  nat_eq, string_eq, contains, All, All-append, Exists, Exists-self, Exists-weaken, length-append,
  Result, ok, err, if◌then◌else◌, if_ind, Yields, returns, raises, Yields-bind, Yields-map,
  Yields-err, arith,
}
use ai_researcher.Json.{
  ℤ, pos, negsuc, finite, infinite, nan, Value, Fields, null, bool, int, float, str, obj, arr, get,
}
use ai_researcher.Extraction.Errors.{
  Error, malformed, overflow, oversized, out_of_fuel, malformed_payload,
}
use ai_researcher.Extraction.Validate.Payload.{
  AreShorter, IsMalformed, bad_payload, coerce_records-Yields,
}
use ai_researcher.Extraction.Validate.{
  RecordKind, SchemaError, Schema, missing_anchor, no_record_type, invalid, ValidationOutcome,
  coerce_records, depth, as_int, is_missing, is_anchor_failure, record_type, model_payload,
  is_allowed, Verdict, accept, reject, validate_model, validate_node, validate_record, add_verdict,
  validate_all, no_outcome, failed_outcome, validate_coerced, validate_batch,
}

pub data IsOverflow : Error → Type 0 where
  infinite_number : IsOverflow overflow

module _ {Model : Type 0} (schema : Schema Model) (allowed : List ℕ) where
  -- The model is what the schema makes of the record, which names a node of the paper.
  pub record IsAnchored (v : Value) (m : Model) : Type 0 where
    pub fields : Fields
    pub is_record : v ≡ obj fields
    pub node : ℕ
    pub anchor : as_int schema.parse_int (get "tree_node_id" fields) ≡ ok (some (pos node))
    pub inside : contains allowed node ≡ true
    pub kind : RecordKind
    pub valid : schema.model_validate kind (model_payload fields) ≡ ok m

  abbrev IsVerdict : Value → Verdict Model → Type 0
  IsVerdict v (accept m) = IsAnchored v m
  IsVerdict v (reject e) = Unit

  validate_model-IsVerdict :
      (fs : Fields) (n : ℕ)
      → as_int schema.parse_int (get "tree_node_id" fs) ≡ ok (some (pos n))
      → contains allowed n ≡ true
      → IsVerdict (obj fs) (validate_model schema fs)
  unfolding validate_model
  validate_model-IsVerdict fs n anchor inside = by_kind (record_type fs)
    where
      by_result :
          (kind : RecordKind) (r : Result SchemaError Model)
          → schema.model_validate kind (model_payload fs) ≡ r
          → IsVerdict (obj fs) (elim r as (λ _. Verdict Model) [
            | ok validated ↦ accept validated
            | err e ↦
                reject (if is_anchor_failure schema.lower e fs then missing_anchor else invalid e)
          ])
      by_result kind (err e) q = tt
      by_result kind (ok m) q = record {
        fields = fs;
        is_record = refl;
        node = n;
        anchor = anchor;
        inside = inside;
        kind = kind;
        valid = q;
      }

      by_kind :
          (o : Option RecordKind)
          → IsVerdict (obj fs) (elim o as (λ _. Verdict Model) [
            | none ↦
                reject
                  (if is_missing (get "tree_node_id" fs) then missing_anchor else no_record_type)
            | some kind ↦
                elim (schema.model_validate kind (model_payload fs)) as (λ _. Verdict Model) [
                  | ok validated ↦ accept validated
                  | err e ↦
                      reject
                        (if is_anchor_failure schema.lower e fs then missing_anchor else invalid e)
                ]
          ])
      by_kind none = tt
      by_kind (some kind) = by_result kind (schema.model_validate kind (model_payload fs)) refl

  validate_node-IsVerdict :
      (fs : Fields) (o : Option ℤ)
      → as_int schema.parse_int (get "tree_node_id" fs) ≡ ok o
      → IsVerdict (obj fs) (validate_node schema allowed fs o)
  unfolding validate_node is_allowed
  validate_node-IsVerdict fs none q = tt
  validate_node-IsVerdict fs (some (negsuc n)) q = tt
  validate_node-IsVerdict fs (some (pos n)) q =
      if_ind (IsVerdict (obj fs)) (contains allowed n)
        (λ inside. validate_model-IsVerdict fs n q inside) (λ _. tt)

  as_int-Yields :
      (v : Value)
      → Yields IsOverflow (λ o. as_int schema.parse_int v ≡ ok o) (as_int schema.parse_int v)
  unfolding as_int
  as_int-Yields null = returns refl
  as_int-Yields (bool true) = returns refl
  as_int-Yields (bool false) = returns refl
  as_int-Yields (int n) = returns refl
  as_int-Yields (float (finite n whole)) = returns refl
  as_int-Yields (float infinite) = raises infinite_number
  as_int-Yields (float nan) = returns refl
  as_int-Yields (str s) = returns refl
  as_int-Yields (obj fs) = returns refl
  as_int-Yields (arr vs) = returns refl

  validate_record-IsVerdict :
      (v : Value) → Yields IsOverflow (IsVerdict v) (validate_record schema allowed v)
  unfolding validate_record
  validate_record-IsVerdict null = returns tt
  validate_record-IsVerdict (bool b) = returns tt
  validate_record-IsVerdict (int n) = returns tt
  validate_record-IsVerdict (float x) = returns tt
  validate_record-IsVerdict (str s) = returns tt
  validate_record-IsVerdict (arr vs) = returns tt
  validate_record-IsVerdict (obj fs) =
      if_ind (Yields IsOverflow (IsVerdict (obj fs))) (is_missing (get "tree_node_id" fs))
        (λ _. returns tt)
        (λ _.
          Yields-bind _ _ (as_int-Yields (get "tree_node_id" fs))
            λ o q. returns (validate_node-IsVerdict fs o q))

  -- Every record is accepted, anchored, or rejected.
  pub record IsSorted (records : List Value) (o : ValidationOutcome Model) : Type 0 where
    pub anchored : All (λ m. Exists (λ v. IsAnchored v m) records) o.accepted
    pub counted : length o.accepted + length o.rejected ≡ length records
    pub passed : o.paper_failed ≡ false
    pub no_reason : o.failure_reason ≡ none

  -- After the first records.
  record IsSorting (all : List Value) (n : ℕ) (o : ValidationOutcome Model) : Type 0 where
    anchored : All (λ m. Exists (λ v. IsAnchored v m) all) o.accepted
    counted : length o.accepted + length o.rejected ≡ n
    passed : o.paper_failed ≡ false
    no_reason : o.failure_reason ≡ none

  add_verdict-IsSorting :
      (all : List Value) (n : ℕ) (o : ValidationOutcome Model) (v : Value) (d : Verdict Model)
      → Exists (λ x. x ≡ v) all
      → IsVerdict v d
      → IsSorting all n o
      → IsSorting all (suc n) (add_verdict schema o v d)
  unfolding add_verdict
  add_verdict-IsSorting all n o v (accept m) there good h = record {
    anchored =
        All-append _ o.accepted (m ∷ []) h.anchored
          (Exists-weaken _ _ all (λ x q. subst (λ y. IsAnchored y m) (sym q) good) there, tt);
    counted = (let a = h.counted in let b = length-append o.accepted (m ∷ []) in omega arith);
    passed = h.passed;
    no_reason = h.no_reason;
  }
  add_verdict-IsSorting all n o v (reject e) there good h = record {
    anchored = h.anchored;
    counted =
        (let a = h.counted in
          let b = length-append o.rejected (record { entry = v; error = e } ∷ []) in omega arith);
    passed = h.passed;
    no_reason = h.no_reason;
  }

  validate_all-IsSorting :
      (all records : List Value) (n : ℕ) (o : ValidationOutcome Model)
      → All (λ v. Exists (λ x. x ≡ v) all) records
      → IsSorting all n o
      → Yields IsOverflow
          (IsSorting all (length records + n))
          (validate_all schema allowed o records)
  unfolding validate_all
  validate_all-IsSorting all [] n o there h =
      subst (λ k. Yields IsOverflow (IsSorting all k) (validate_all schema allowed o []))
        (omega arith) (returns h)
  validate_all-IsSorting all (v ∷ records) n o there h =
      Yields-bind _ _ (validate_record-IsVerdict v) λ d good.
        subst
          (λ k.
            Yields IsOverflow (IsSorting all k)
              (validate_all schema allowed (add_verdict schema o v d) records))
          (omega arith)
          (validate_all-IsSorting all records (suc n) (add_verdict schema o v d) there.1
            (add_verdict-IsSorting all n o v d there.0 good h))

  validate_all-IsSorted :
      (records : List Value)
      → Yields IsOverflow
          (IsSorted records)
          (validate_all schema allowed (no_outcome schema) records)
  validate_all-IsSorted records =
      Yields-map
        (λ o h. record {
          anchored = h.anchored;
          counted = (let a = h.counted in omega arith);
          passed = h.passed;
          no_reason = h.no_reason;
        })
        (validate_all-IsSorting records records 0 (no_outcome schema) (Exists-self records)
          (record { anchored = tt; counted = refl; passed = refl; no_reason = refl }))

  -- The outcome of a batch: the paper fails for its payload and nothing is accepted; or the records
  -- of the payload are sorted.
  pub data IsBatch (raw : Value) : ValidationOutcome Model → Type 0 where
    malformed_batch :
        coerce_records schema.loads (depth raw) raw ≡ err malformed
        → IsBatch raw (failed_outcome schema malformed_payload)
    sorted :
        {o : ValidationOutcome Model} (records : List Value)
        → coerce_records schema.loads (depth raw) raw ≡ ok records
        → IsSorted records o
        → IsBatch raw o

  -- `validate_batch` fails a malformed payload; or else every record of the payload is rejected or
  -- accepted, and each that is accepted is what the schema makes of a record that names a node of
  -- the paper. It raises an exception at most for an infinite number; where a text that `json.loads`
  -- reads from a text is shorter.
  pub validate_batch-IsBatch :
      AreShorter schema.loads
      → (raw : Value) → Yields IsOverflow (IsBatch raw) (validate_batch schema raw allowed)
  unfolding validate_batch validate_coerced
  validate_batch-IsBatch shorter raw =
      go (coerce_records schema.loads (depth raw) raw) refl
        (coerce_records-Yields schema.loads shorter (depth raw) raw (omega arith))
    where
      IsPayload : Error → Type 0
      IsPayload malformed = Unit
      IsPayload _ = ⊥

      only : (e : Error) → IsMalformed e → IsPayload e
      only e bad_payload = tt

      go :
          (r : Result Error (List Value))
          → coerce_records schema.loads (depth raw) raw ≡ r
          → Yields IsMalformed (λ _. Unit {0}) r
          → Yields IsOverflow (IsBatch raw) (validate_coerced schema allowed r)
      go (err malformed) q y = returns (malformed_batch q)
      go (err overflow) q y = absurd (only overflow (Yields-err y refl))
      go (err oversized) q y = absurd (only oversized (Yields-err y refl))
      go (err out_of_fuel) q y = absurd (only out_of_fuel (Yields-err y refl))
      go (ok records) q y = Yields-map (λ o h. sorted records q h) (validate_all-IsSorted records)
