-- ===== src/Trees/IndexTests.antt =====
-- A store with one scope and two papers; the theorems of Trees.Build and Trees.Index at it.
use ai_researcher.Prelude.{
  String, nat_eq, string_eq, pair_eq, ℕ, ◌+◌, ◌≡◌, refl, Option, none, some, false, List, [], ◌∷◌,
  Result, ok, err, ap, Yields, arith,
}
use ai_researcher.Json.{
  Value, Items, int, pos, str, arr, obj, nil, cons, end, field, get, to_list, as_dict, as_list,
  as_string,
}
use ai_researcher.Text.{strip, split, join, is_space}
use ai_researcher.Tables.{PaperRow, SectionRow}
use ai_researcher.Trees.Errors.{Error}
use ai_researcher.Trees.Order.{
  SectionTreeInput, order_sections, is_distinct, place_all, visit_all, has_parent, depth_for,
  ancestors, by_id, flattened_parent_id, first_at_depth,
}
use ai_researcher.Trees.Summaries.{
  as_section_id, summarize, summarize_all, validated_summaries, truncate_summary,
}
use ai_researcher.Trees.Build.{
  PaperTreeInput, TreeNode, TreeTable, build_node, build_nodes, build_tree, stored_parent,
  insert_nodes, persist_tree,
}
use ai_researcher.Trees.Build.Built.{IsTree, IsTreeFault, build_tree-IsTree}
use ai_researcher.Trees.Build.Stored.{HasGrown, without_paper, persist_tree-HasGrown}
use ai_researcher.Trees.Index.{
  IndexStore, IndexResult, Gateway, is_stale, version_rows, is_current_version, section_input,
  abstract_section, load_paper_input, paper_tree_is_current, index_paper, index_papers,
  eligible_papers, index_scope,
}
use ai_researcher.Trees.Index.Keeping.{AreKeyed}
use ai_researcher.Trees.Index.Settled.{
  IsIndexed, IsUnknown, index_scope-IsIndexed, index_scope-settles,
}

abbrev section_row : ℕ → Option ℕ → ℕ → SectionRow
section_row id parent ordinal = record {
  id = id;
  paper_id = 1;
  parent_id = parent;
  section_path = "p";
  title = none;
  ordinal = ordinal;
  page_start = some 1;
  page_end = some 2;
  char_start = none;
  char_end = none;
  body_text = "b";
}

abbrev paper_row : ℕ → String → PaperRow
paper_row id status = record {
  id = id;
  doi = none;
  arxiv_id = none;
  openalex_id = none;
  s2_id = none;
  title = "t";
  abstract = some "a";
  published_at = none;
  venue = none;
  is_preprint = false;
  oa_status = none;
  pdf_path = none;
  tei_xml = none;
  parse_status = status;
  parse_error = none;
  created_at = 0;
}

abbrev records : List SectionTreeInput → Items
records [] = nil
records (x ∷ xs) =
    cons (obj (field "section_id" (int (pos x.id)) (field "summary" (str "w") end))) (records xs)

abbrev summaries_of : List SectionTreeInput → Value
summaries_of sections = obj (field "summaries" (arr (records sections)) end)

-- Every section is summarised by one word.
abbrev answer : Gateway
answer turn paper sections = some (summaries_of sections)

abbrev silence : Gateway
silence turn paper sections = none

-- Paper 1 has two sections, paper 2 an abstract.
abbrev store : IndexStore
store = record {
  scopes = ("s", 7) ∷ [];
  paper_scopes = record { paper_id = 1; scope_id = 7 } ∷ record { paper_id = 2; scope_id = 7 } ∷ [];
  papers = paper_row 2 "abstract_only" ∷ paper_row 1 "parsed" ∷ [];
  sections = section_row 4 (some 3) 0 ∷ section_row 3 none 1 ∷ [];
  next_section = 5;
  tree = record { rows = []; next_id = 1 };
}

keyed : AreKeyed store.papers
keyed = (
  ((λ e. refl), ((λ e. absurd (omega arith)), tt)),
  (((λ e. absurd (omega arith)), ((λ e. refl), tt)), tt),
)

abbrev returned : Result Error (IndexResult × IndexStore) → IndexResult × IndexStore
returned (ok r) = r
returned (err e) = (record { built = 0; skipped = 0; failed = 0 }, store)

abbrev indexed : IndexResult × IndexStore
indexed = returned (index_scope answer "m" "s" store)

index_scope_run :
    (index_scope answer "m" "s" store ≡ ok indexed)
    × (indexed.0 ≡ record { built = 2; skipped = 0; failed = 0 })
unfolding order_sections is_distinct place_all visit_all has_parent depth_for ancestors by_id
    flattened_parent_id first_at_depth as_section_id summarize summarize_all validated_summaries
    truncate_summary build_node build_nodes build_tree stored_parent insert_nodes persist_tree
    is_stale version_rows is_current_version section_input abstract_section load_paper_input
    paper_tree_is_current index_paper index_papers eligible_papers index_scope get to_list as_dict
    as_list as_string strip split join is_space
index_scope_run = (refl, refl)

index_scope-settles_example :
    index_scope silence "m" "s" indexed.1
    ≡ ok
        (record { built = 0; skipped = indexed.0.built + indexed.0.skipped; failed = 0 }, indexed.1)
index_scope-settles_example =
    index_scope-settles answer silence "m" "s" store indexed keyed index_scope_run.0
      (ap (λ (r : IndexResult). r.failed) index_scope_run.1)

index_scope-IsIndexed_example :
    Yields (IsUnknown "s" store) (IsIndexed answer "m" "s" store) (index_scope answer "m" "s" store)
index_scope-IsIndexed_example = index_scope-IsIndexed answer "m" "s" store keyed

abbrev paper : PaperTreeInput
paper = record {
  id = 1;
  title = "t";
  abstract = none;
  parse_status = "parsed";
  sections = section_input (section_row 4 (some 3) 0) ∷ section_input (section_row 3 none 1) ∷ [];
}

build_tree-IsTree_example :
    Yields
      (IsTreeFault (answer 0 paper) "m" paper)
      (IsTree (answer 0 paper) "m" paper)
      (build_tree (answer 0 paper) "m" paper)
build_tree-IsTree_example = build_tree-IsTree (answer 0 paper) "m" paper

abbrev node : ℕ → Option ℕ → ℕ → TreeNode
node section_id parent depth = record {
  paper_id = 1;
  section_id = section_id;
  parent_section_id = parent;
  node_path = "p";
  title = none;
  summary = "w";
  page_start = none;
  page_end = none;
  depth = depth;
  tree_schema_version = "1";
  summary_model = "m";
}

abbrev nodes : List TreeNode
nodes = node 3 none 0 ∷ node 4 (some 3) 1 ∷ []

persist_tree-HasGrown_example :
    (new : TreeTable) × (persist_tree 1 nodes indexed.1.tree ≡ ok new)
    × HasGrown [] nodes (without_paper 1 indexed.1.tree) new
persist_tree-HasGrown_example =
    persist_tree-HasGrown 1 nodes indexed.1.tree (refl, omega arith, (refl, omega arith, tt))
