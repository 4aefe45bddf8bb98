-- ===== src/Trees/Tests.antt =====
-- A paper whose sections come in no useful order; the theorems of Trees at these inputs.
use ai_researcher.Prelude.{
  String, nat_eq, string_eq, ℕ, ◌≡◌, refl, Option, none, some, List, [], ◌∷◌, ok, Yields,
}
use ai_researcher.Json.{
  Value, int, pos, arr, obj, nil, cons, end, field, get, to_list, as_dict, as_list, as_natural,
}
use ai_researcher.Trees.Shortlist.{
  CandidateRow, Candidate, shortlist, load_candidates, add_row, validate_shortlist_request,
  validated_paper_ids, select_papers,
}
use ai_researcher.Text.{strip}
use ai_researcher.Trees.Shortlist.Selection.{IsRefused, IsShortlist, shortlist-IsShortlist}
use ai_researcher.Trees.Order.{
  SectionTreeInput, order_sections, is_distinct, place_all, visit_all, has_parent, depth_for,
}
use ai_researcher.Trees.Order.Passes.{IsFault}
use ai_researcher.Trees.Order.Placing.{IsPlaced, order_sections-IsPlaced}

abbrev section_at : ℕ → Option ℕ → ℕ → SectionTreeInput
section_at id parent ordinal = record {
  id = id;
  parent_id = parent;
  section_path = "p";
  title = none;
  ordinal = ordinal;
  page_start = none;
  page_end = none;
  body_text = "b";
}

-- Section 3 stands before its parent 1, and 1 before its parent 2.
abbrev sample : List SectionTreeInput
sample = section_at 3 (some 1) 0 ∷ section_at 1 (some 2) 1 ∷ section_at 2 none 2 ∷ []

order_sections_run :
    order_sections sample
    ≡ ok (
      section_at 2 none 2 ∷ section_at 1 (some 2) 1 ∷ section_at 3 (some 1) 0 ∷ [],
      (2, 0) ∷ (1, 1) ∷ (3, 2) ∷ [],
    )
unfolding order_sections is_distinct place_all visit_all has_parent depth_for
order_sections_run = refl

order_sections-IsPlaced_example :
    Yields (IsFault sample) (λ r. IsPlaced sample r.0 r.1) (order_sections sample)
order_sections-IsPlaced_example = order_sections-IsPlaced sample

-- Two papers, one of them with two roots.
abbrev rows : String → List CandidateRow
rows scope =
    record { id = 4; title = "A"; summary = "x" }
    ∷ record { id = 4; title = "A"; summary = "y" }
    ∷ record { id = 9; title = "B"; summary = "z" }
    ∷ []

abbrev choice : List Candidate → Option Value
choice candidates =
    some (obj (field "paper_ids" (arr (cons (int (pos 9)) (cons (int (pos 4)) nil))) end))

shortlist_run : shortlist rows choice "qc" "why?" 1 ≡ ok (9 ∷ [])
unfolding shortlist load_candidates add_row validate_shortlist_request validated_paper_ids
    select_papers strip get to_list as_dict as_list as_natural
shortlist_run = refl

shortlist-IsShortlist_example :
    Yields IsRefused (IsShortlist (rows "qc") 1) (shortlist rows choice "qc" "why?" 1)
shortlist-IsShortlist_example = shortlist-IsShortlist rows choice "qc" "why?" 1
