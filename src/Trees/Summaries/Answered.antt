-- ===== src/Trees/Summaries/Answered.antt =====
-- What `_validated_summaries` has checked of the model's response.
use ai_researcher.Prelude.{
  false_of_not, ℕ, ◌≡◌, refl, sym, subst, String, true, false, not, some, List, [], ◌∷◌, nat_eq,
  contains, keys, same_set, All, All-insert, Exists, Exists-weaken, Exists-self, All-map, Yields,
  returns, Yields-need, Yields-guard, Yields-bind,
}
use ai_researcher.Text.{strip, is_blank}
use ai_researcher.Json.{Value, Fields, get, as_dict, as_list, as_string}
use ai_researcher.Trees.Errors.{Error, invalid_object, invalid_record, incomplete}
use ai_researcher.Trees.Summaries.{
  Summaries, as_section_id, summarize, summarize_all, validated_summaries,
}

pub data IsAnswerFault : Error → Type 0 where
  bad_object : IsAnswerFault invalid_object
  bad_record : IsAnswerFault invalid_record
  too_few : IsAnswerFault incomplete

-- The record is an object that gives the section this text, which is not blank.
abbrev pub Gives : ℕ × String → Value → Type 0
Gives p item =
    (fields : Fields) × (raw : String) × (as_dict item ≡ some fields)
    × (as_section_id (get "section_id" fields) ≡ some p.0)
    × (as_string (get "summary" fields) ≡ some raw)
    × (strip raw ≡ p.1)
    × (is_blank p.1 ≡ false)

-- Each summary is the stripped text of one of the response's records, and there is one for each of
-- the expected sections and for no other.
pub record IsAnswered (response : Value) (expected_ids : List ℕ) (summaries : Summaries)
    : Type 0 where
  pub fields : Fields
  pub records : List Value
  pub reads : as_dict response ≡ some fields
  pub lists : as_list (get "summaries" fields) ≡ some records
  pub given : All (λ p. Exists (Gives p) records) summaries
  pub complete : same_set (keys summaries) expected_ids ≡ true

module _ (P : ℕ × String → Type 0) (expected_ids : List ℕ) where
  summarize_lem :
      (summaries : Summaries) (item : Value)
      → ((p : ℕ × String) → Gives p item → P p)
      → All P summaries
      → Yields IsAnswerFault (All P) (summarize expected_ids summaries item)
  unfolding summarize
  summarize_lem summaries item f h =
      Yields-bind _ _ (Yields-need _ _ bad_record λ fields e. e) λ fields at.
        Yields-bind _ _ (Yields-need _ _ bad_record λ i e. e) λ i named.
          Yields-bind _ _ (Yields-guard (contains expected_ids i) _ bad_record) λ _ known.
            Yields-bind _ _ (Yields-guard (not (contains (keys summaries) i)) _ bad_record)
              λ _ fresh. Yields-bind _ _ (Yields-need _ _ bad_record λ raw e. e) λ raw text.
                Yields-bind _ _ (Yields-guard (not (is_blank (strip raw))) _ bad_record) λ _ full.
                  returns (
                    All-insert P i (strip raw) summaries
                      (f (i, strip raw) (fields, raw, at, named, text, refl, false_of_not _ full))
                      h)

  summarize_all_lem :
      (summaries : Summaries) (records : List Value)
      → All (λ item. (p : ℕ × String) → Gives p item → P p) records
      → All P summaries
      → Yields IsAnswerFault (All P) (summarize_all expected_ids summaries records)
  unfolding summarize_all
  summarize_all_lem summaries [] f h = returns h
  summarize_all_lem summaries (item ∷ records) f h =
      Yields-bind _ _ (summarize_lem summaries item f.0 h)
        λ next k. summarize_all_lem next records f.1 k

pub validated_summaries-IsAnswered :
    (response : Value) (expected_ids : List ℕ)
    → Yields IsAnswerFault
        (IsAnswered response expected_ids)
        (validated_summaries response expected_ids)
unfolding validated_summaries
validated_summaries-IsAnswered response expected_ids =
    Yields-bind _ _ (Yields-need _ _ bad_object λ fields e. e) λ fields reads.
      Yields-bind _ _ (Yields-need _ _ bad_object λ records e. e) λ records lists.
        Yields-bind _ _
          (summarize_all_lem (λ p. Exists (Gives p) records) expected_ids [] records
            (All-map _ _ records
              (λ item here p g. Exists-weaken _ _ records (λ a e. subst (Gives p) (sym e) g) here)
              (Exists-self records))
            tt)
          λ summaries given.
            Yields-bind _ _ (Yields-guard (same_set (keys summaries) expected_ids) _ too_few)
              λ _ complete. returns (record {
                fields = fields;
                records = records;
                reads = reads;
                lists = lists;
                given = given;
                complete = complete;
              })
