-- ===== src/Retrieval/Store.antt =====
-- `PostgresTraversalStore.load_scope_tree` of src/ai_researcher/retrieval/traverse.py, on the rows
-- that `_persist_tree` writes.
pub mod Places
pub mod Loaded
use ai_researcher.Prelude.{
  ℕ, suc, String, Bool, ◌&&◌, ◌||◌, Option, List, [], ◌∷◌, map, if◌then◌else◌, ltb, leb, nat_eq,
  string_eq, ◌==◌, is_empty, select, contains, lookup, insert, sort, Result, ok, need, ◌>>=◌,
}
use ai_researcher.Trees.Build.{TreeRow}
use ai_researcher.Retrieval.Errors.{Error, unknown_scope, missing_key}
use ai_researcher.Retrieval.Walk.{TraversalNode}

-- `{paper_id: index for index, paper_id in enumerate(paper_ids)}`
unfoldable pub paper_order : ℕ → List ℕ → List (ℕ × ℕ) → List (ℕ × ℕ)
paper_order index [] d = d
paper_order index (i ∷ paper_ids) d = paper_order (suc index) paper_ids (insert i index d)

-- The rows behind the places of their papers, which are computed before the sort.
unfoldable pub keyed_rows : List (ℕ × ℕ) → List TreeRow → Result Error (List (ℕ × TreeRow))
keyed_rows order [] = ok []
keyed_rows order (row ∷ rows) = do
  index ← need (lookup row.node.paper_id order) missing_key
  rest ← keyed_rows order rows
  ok ((index, row) ∷ rest)

-- The key is the paper's place, the depth and the identifier.
abbrev pub key_order : ℕ × TreeRow → ℕ × TreeRow → Bool
key_order p q =
    ltb p.0 q.0
    || p.0 == q.0
      && (ltb p.1.node.depth q.1.node.depth
          || p.1.node.depth == q.1.node.depth && leb p.1.id q.1.id)

abbrev pub traversal_node : TreeRow → TraversalNode
traversal_node row = record {
  id = row.id;
  paper_id = row.node.paper_id;
  parent_id = row.parent_id;
  section_path = row.node.node_path;
  title = row.node.title;
  summary = row.node.summary;
  page_start = row.node.page_start;
  page_end = row.node.page_end;
}

abbrev pub of_papers : List ℕ → List TreeRow → List TreeRow
of_papers paper_ids rows = select (λ r. contains paper_ids r.node.paper_id) rows

-- A scope is its name and its identifier.
unfoldable pub load_scope_tree :
    List (String × ℕ) → List TreeRow → String → List ℕ → Result Error (ℕ × List TraversalNode)
load_scope_tree scopes rows scope paper_ids = do
  scope_id ← need (lookup scope scopes) unknown_scope
  let loaded = (do
    keyed ← keyed_rows (paper_order 0 paper_ids []) (of_papers paper_ids rows)
    ok (scope_id, map (λ p. traversal_node p.1) (sort key_order keyed)))
  (if is_empty paper_ids then ok (scope_id, []) else loaded)
