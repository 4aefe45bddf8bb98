-- ===== src/Trees/Build.antt =====
-- `build_tree` and `_persist_tree` of src/ai_researcher/trees/build.py.
pub mod Nested
pub mod Built
pub mod Stored
use ai_researcher.Prelude.{
  ℕ, suc, ◌+◌, String, not, Option, none, some, List, [], ◌∷◌, ◌++◌, nat_eq, ◌==◌, length, is_empty,
  lookup, insert, min, select, Result, ok, guard, need, ◌>>=◌, ◌>>◌,
}
use ai_researcher.Json.{Value}
use ai_researcher.Trees.Errors.{Error, no_sections, model_failed, missing_key}
use ai_researcher.Trees.Order.{
  SectionTreeInput, Depths, section_ids, order_sections, ancestors, flattened_parent_id,
  max_tree_depth,
}
use ai_researcher.Trees.Summaries.{Summaries, validated_summaries, truncate_summary}

pub record PaperTreeInput : Type 0 where
  pub id : ℕ
  pub title : String
  pub abstract : Option String
  pub parse_status : String
  pub sections : List SectionTreeInput

pub record TreeNode : Type 0 where
  pub paper_id : ℕ
  pub section_id : ℕ
  pub parent_section_id : Option ℕ
  pub node_path : String
  pub title : Option String
  pub summary : String
  pub page_start : Option ℕ
  pub page_end : Option ℕ
  pub depth : ℕ
  pub tree_schema_version : String
  pub summary_model : String

abbrev pub tree_schema_version : String
tree_schema_version = "1"

-- One turn of the last loop, with the section's entry of `_ancestor_ids`.
unfoldable pub build_node :
    ℕ
    → String
    → List SectionTreeInput
    → Depths
    → Summaries
    → SectionTreeInput
    → Result Error TreeNode
build_node paper_id model_name sections depths summaries item = do
  original_depth ← need (lookup item.id depths) missing_key
  above ← ancestors (suc (length sections)) sections item.parent_id
  parent ← flattened_parent_id item original_depth above depths
  summary ← need (lookup item.id summaries) missing_key
  ok (record {
    paper_id = paper_id;
    section_id = item.id;
    parent_section_id = parent;
    node_path = item.section_path;
    title = item.title;
    summary = truncate_summary summary;
    page_start = item.page_start;
    page_end = item.page_end;
    depth = min original_depth max_tree_depth;
    tree_schema_version = tree_schema_version;
    summary_model = model_name;
  })

unfoldable pub build_nodes :
    ℕ
    → String
    → List SectionTreeInput
    → Depths
    → Summaries
    → List SectionTreeInput
    → Result Error (List TreeNode)
build_nodes paper_id model_name sections depths summaries [] = ok []
build_nodes paper_id model_name sections depths summaries (item ∷ rest) = do
  node ← build_node paper_id model_name sections depths summaries item
  nodes ← build_nodes paper_id model_name sections depths summaries rest
  ok (node ∷ nodes)

-- The model sees the sections in order; `none` stands for any exception that the gateway raises.
unfoldable pub build_tree :
    (List SectionTreeInput → Option Value) → String → PaperTreeInput → Result Error (List TreeNode)
build_tree complete model_name paper = do
  guard (not (is_empty paper.sections)) no_sections
  (ordered, depths) ← order_sections paper.sections
  response ← need (complete ordered) model_failed
  summaries ← validated_summaries response (section_ids ordered)
  build_nodes paper.id model_name ordered depths summaries ordered

-- A row of `tree_node`, with the identifier that the database assigns.
pub record TreeRow : Type 0 where
  pub id : ℕ
  pub parent_id : Option ℕ
  pub node : TreeNode

-- The table, and the next value of its sequence.
pub record TreeTable : Type 0 where
  pub rows : List TreeRow
  pub next_id : ℕ

-- `None if node.parent_section_id is None else section_to_node[node.parent_section_id]`
unfoldable pub stored_parent : List (ℕ × ℕ) → Option ℕ → Result Error (Option ℕ)
stored_parent section_to_node none = ok none
stored_parent section_to_node (some p) = do
  i ← need (lookup p section_to_node) missing_key
  ok (some i)

unfoldable pub insert_nodes : List (ℕ × ℕ) → List TreeNode → TreeTable → Result Error TreeTable
insert_nodes section_to_node [] table = ok table
insert_nodes section_to_node (node ∷ nodes) table = do
  parent ← stored_parent section_to_node node.parent_section_id
  insert_nodes (insert node.section_id table.next_id section_to_node) nodes (record {
    rows = table.rows ++ record { id = table.next_id; parent_id = parent; node = node } ∷ [];
    next_id = table.next_id + 1;
  })

-- The rows of the paper are deleted first.
unfoldable pub persist_tree : ℕ → List TreeNode → TreeTable → Result Error TreeTable
persist_tree paper_id nodes table =
    insert_nodes [] nodes
      (record table { rows = select (λ r. not (r.node.paper_id == paper_id)) table.rows })
