-- ===== src/Trees/Shortlist.antt =====
-- src/ai_researcher/trees/corpus.py: the model picks the papers of a scope that a question needs.
pub mod Selection
use ai_researcher.Prelude.{
  ℕ, String, ◌≡◌, refl, ◌≤◌, Bool, true, false, not, ◌&&◌, ◌||◌, Option, none, some, List, [], ◌∷◌,
  ◌++◌, nat_eq, ◌==◌, leb, min, length, is_empty, take, length-take, if_ind, if◌then◌else◌, All,
  All-append, contains, contains-append, Distinct, Distinct-snoc, Result, ok, err, guard, need,
  ◌>>=◌, ◌>>◌, Yields, returns, raises, Yields-need_any, Yields-guard, Yields-bind, Yields-map,
  All-map, arith, zero, suc,
}
use ai_researcher.Text.{strip, is_blank}
use ai_researcher.Json.{Value, get, as_dict, as_list, as_natural}

pub data Error : Type 0 where
  -- ValueError of the request
  invalid_request : Error
  -- ShortlistResponseError
  invalid_object invalid_paper_id : Error
  -- what the model gateway raises
  model_failed : Error

pub record Candidate : Type 0 where
  pub paper_id : ℕ
  pub title : String
  pub root_summaries : List String

abbrev pub candidate_ids : List Candidate → List ℕ
candidate_ids [] = []
candidate_ids (c ∷ cs) = c.paper_id ∷ candidate_ids cs

-- The rows of the query: a paper, its title, and the summary of one of its root nodes.
pub record CandidateRow : Type 0 where
  pub id : ℕ
  pub title : String
  pub summary : String

-- `setdefault`, and `append` to the summaries of the paper.
unfoldable pub add_row : CandidateRow → List Candidate → List Candidate
add_row row [] =
    record { paper_id = row.id; title = row.title; root_summaries = row.summary ∷ [] } ∷ []
add_row row (c ∷ cs) =
    let rest = add_row row cs in
    if c.paper_id == row.id
    then record c { root_summaries = c.root_summaries ++ row.summary ∷ [] } ∷ cs
    else c ∷ rest

unfoldable pub load_candidates : List Candidate → List CandidateRow → List Candidate
load_candidates candidates [] = candidates
load_candidates candidates (row ∷ rows) = load_candidates (add_row row candidates) rows

unfoldable pub select_papers : List ℕ → List ℕ → List Value → Result Error (List ℕ)
select_papers expected selected [] = ok selected
select_papers expected selected (v ∷ vs) = do
  paper_id ← need (as_natural v) invalid_paper_id
  guard (contains expected paper_id) invalid_paper_id
  guard (not (contains selected paper_id)) invalid_paper_id
  select_papers expected (selected ++ paper_id ∷ []) vs

unfoldable pub validated_paper_ids : Value → List Candidate → ℕ → Result Error (List ℕ)
validated_paper_ids response candidates limit = do
  fields ← need (as_dict response) invalid_object
  values ← need (as_list (get "paper_ids" fields)) invalid_object
  selected ← select_papers (candidate_ids candidates) [] values
  ok (take limit selected)

unfoldable pub validate_shortlist_request : String → String → ℕ → Result Error (Unit {0})
validate_shortlist_request scope question limit = do
  guard (not (is_blank (strip scope))) invalid_request
  guard (not (is_blank (strip question))) invalid_request
  guard (leb 1 limit) invalid_request

-- `PageIndexShortlist.shortlist`, with the rows that `_load_candidates` reads for each scope.
unfoldable pub shortlist :
    (String → List CandidateRow)
    → (List Candidate → Option Value)
    → String
    → String
    → ℕ
    → Result Error (List ℕ)
shortlist rows complete scope question limit =
    let candidates = load_candidates [] (rows scope) in
    let asked = (do
      response ← need (complete candidates) model_failed
      validated_paper_ids response candidates limit) in
    validate_shortlist_request scope question limit
    >> (if is_empty candidates then ok [] else asked)
