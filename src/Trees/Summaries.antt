-- ===== src/Trees/Summaries.antt =====
-- `_validated_summaries` and `_truncate_summary` of src/ai_researcher/trees/build.py.
pub mod Answered
use ai_researcher.Prelude.{
  ℕ, String, true, false, not, Option, none, some, List, [], ◌∷◌, take, nat_eq, string_eq, contains,
  same_set, insert, keys, Result, ok, guard, need, ◌>>=◌, ◌>>◌,
}
use ai_researcher.Text.{strip, split, join, is_blank}
use ai_researcher.Json.{Value, bool, int, pos, get, as_dict, as_list, as_string}
use ai_researcher.Trees.Errors.{Error, invalid_object, invalid_record, incomplete}

-- `isinstance(section_id, int)` is true of a Boolean too, and `True` equals 1 as a key.
unfoldable pub as_section_id : Value → Option ℕ
as_section_id (int (pos n)) = some n
as_section_id (bool true) = some 1
as_section_id (bool false) = some 0
as_section_id _ = none

abbrev pub Summaries : Type 0
Summaries = List (ℕ × String)

unfoldable pub summarize : List ℕ → Summaries → Value → Result Error Summaries
summarize expected_ids summaries item = do
  fields ← need (as_dict item) invalid_record
  section_id ← need (as_section_id (get "section_id" fields)) invalid_record
  guard (contains expected_ids section_id) invalid_record
  guard (not (contains (keys summaries) section_id)) invalid_record
  summary ← need (as_string (get "summary" fields)) invalid_record
  guard (not (is_blank (strip summary))) invalid_record
  ok (insert section_id (strip summary) summaries)

unfoldable pub summarize_all : List ℕ → Summaries → List Value → Result Error Summaries
summarize_all expected_ids summaries [] = ok summaries
summarize_all expected_ids summaries (item ∷ records) = do
  next ← summarize expected_ids summaries item
  summarize_all expected_ids next records

unfoldable pub validated_summaries : Value → List ℕ → Result Error Summaries
validated_summaries response expected_ids = do
  fields ← need (as_dict response) invalid_object
  records ← need (as_list (get "summaries" fields)) invalid_object
  summaries ← summarize_all expected_ids [] records
  guard (same_set (keys summaries) expected_ids) incomplete
  ok summaries

abbrev pub max_summary_words : ℕ
max_summary_words = 60

unfoldable pub truncate_summary : String → String
truncate_summary summary = join (take max_summary_words (split summary))
