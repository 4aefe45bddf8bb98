-- ===== src/Retrieval/Judgement.antt =====
-- `_validated_judgements` of src/ai_researcher/retrieval/traverse.py: the model has to judge every
-- opened node exactly once.
pub mod Sound
use ai_researcher.Prelude.{
  ℕ, ◌≤◌, String, ◌≡◌, Bool, true, false, not, ◌&&◌, Option, none, some, List, [], ◌∷◌, leb, nat_eq,
  ◌==◌, string_eq, contains, same_set, keys, lookup, insert, Result, ok, err, guard, need, ◌>>=◌,
  ◌>>◌,
}
use ai_researcher.Text.{strip, is_blank}
use ai_researcher.Json.{Value, get, as_dict, as_list, as_bool, as_string, as_natural}
use ai_researcher.Retrieval.Errors.{Error, invalid_object, invalid_judgement, incomplete_judgements}

-- `_Judgement`
pub record Judgement : Type 0 where
  pub relevance : ℕ
  pub selected : Bool
  pub expand : Bool
  pub reason : String

abbrev pub Judgements : Type 0
Judgements = List (ℕ × Judgement)

-- One turn of the loop over the records.
unfoldable pub judge : List ℕ → Judgements → Value → Result Error Judgements
judge expected_ids judgements item = do
  fields ← need (as_dict item) invalid_judgement
  node_id ← need (as_natural (get "node_id" fields)) invalid_judgement
  guard (contains expected_ids node_id) invalid_judgement
  guard (not (contains (keys judgements) node_id)) invalid_judgement
  relevance ← need (as_natural (get "relevance" fields)) invalid_judgement
  guard (leb relevance 100) invalid_judgement
  selected ← need (as_bool (get "selected" fields)) invalid_judgement
  expand ← need (as_bool (get "expand" fields)) invalid_judgement
  reason ← need (as_string (get "reason" fields)) invalid_judgement
  guard (not (is_blank (strip reason))) invalid_judgement
  ok (
      insert node_id
        (record {
          relevance = relevance;
          selected = selected;
          expand = expand;
          reason = strip reason;
        })
        judgements)

unfoldable pub judge_all : List ℕ → Judgements → List Value → Result Error Judgements
judge_all expected_ids judgements [] = ok judgements
judge_all expected_ids judgements (item ∷ records) = do
  next ← judge expected_ids judgements item
  judge_all expected_ids next records

-- `set(judgements) != expected_ids` ends the function.
unfoldable pub validated_judgements : Value → List ℕ → Result Error (Judgements × Bool)
validated_judgements response expected_ids = do
  fields ← need (as_dict response) invalid_object
  records ← need (as_list (get "judgements" fields)) invalid_object
  sufficient_evidence ← need (as_bool (get "sufficient_evidence" fields)) invalid_object
  judgements ← judge_all expected_ids [] records
  guard (same_set (keys judgements) expected_ids) incomplete_judgements
  ok (judgements, sufficient_evidence)
