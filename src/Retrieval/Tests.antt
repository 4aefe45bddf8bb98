-- ===== src/Retrieval/Tests.antt =====
-- A small tree and a model that answers two rounds; the theorems of Retrieval at these inputs.
use ai_researcher.Prelude.{
  ℕ, zero, suc, ◌≡◌, refl, Bool, true, false, Option, none, some, List, [], ◌∷◌, nat_eq, ◌≤◌, ◌++◌,
  All, string_eq, Yields, Result, contains, Distinct, IsSorted, length, ok, err,
}
use ai_researcher.Text.{strip}
use ai_researcher.Json.{
  Value, Items, bool, int, pos, str, arr, obj, nil, cons, end, field, get, to_list, as_dict,
  as_list, as_bool, as_string, as_natural,
}
use ai_researcher.Trees.Build.{TreeRow}
use ai_researcher.Retrieval.Store.{paper_order, keyed_rows, load_scope_tree}
use ai_researcher.Retrieval.Store.Loaded.{IsUnknownScope, IsScopeTree, load_scope_tree-IsScopeTree}
use ai_researcher.Retrieval.Errors.{Error, model_failed}
use ai_researcher.Retrieval.Outcomes.{IsReported}
use ai_researcher.Retrieval.Budget.{create, consume}
use ai_researcher.Retrieval.Judgement.{judge, judge_all, validated_judgements}
use ai_researcher.Retrieval.Walk.{
  ids, TraversalNode, ExpandedNode, Complete, traversal_payload, roots, children, record_batch,
  enqueue, expand_batch, round, loop,
}
use ai_researcher.Retrieval.Walk.Coherence.{IsOpening}
use ai_researcher.Retrieval.Traverse.{
  budget_exhausted, RankedNode, TraversalResult, TraceRow, Services, expansion_index, rankings,
  stop_reason, ranked_ids, trace_row, traversal_result, finish, is_distinct, walk, rank, find,
  traverse,
}
use ai_researcher.Retrieval.Traverse.Ranking.{more_relevant, IsPassage}
use ai_researcher.Retrieval.Traverse.Outcome.{IsLoaded}
use ai_researcher.Retrieval.Traverse.Guarantees.{
  traverse-within_budget, traverse-openings, traverse-ranking, traverse-writes_trace,
  traverse_failure,
}

abbrev tree_node : ℕ → Option ℕ → TraversalNode
tree_node id parent = record {
  id = id;
  paper_id = 7;
  parent_id = parent;
  section_path = "Results";
  title = none;
  summary = "s";
  page_start = some 1;
  page_end = some 2;
}

abbrev tree : List TraversalNode
tree = tree_node 1 none ∷ tree_node 2 (some 1) ∷ tree_node 3 (some 1) ∷ []

abbrev judged : ℕ → ℕ → Bool → Bool → Value
judged id relevance selected expand = obj (
    field "node_id" (int (pos id)) (
      field "relevance" (int (pos relevance)) (
        field "selected" (bool selected)
          (field "expand" (bool expand) (field "reason" (str " why ") end)))))

abbrev answer : Items → Bool → Value
answer items sufficient =
    obj (field "judgements" (arr items) (field "sufficient_evidence" (bool sufficient) end))

-- The first answer asks for the children of node 1.
abbrev two_rounds : Complete
two_rounds zero p = some (answer (cons (judged 1 40 true true) nil) false)
two_rounds (suc _) p = some (answer (cons (judged 2 90 true false) nil) false)

abbrev services : Services
services = record {
  shortlist = λ s q n. some (7 ∷ []);
  load_scope_tree = λ s ids. some (5, tree);
  complete = two_rounds;
}

-- A gateway that is down.
abbrev silent : Services
silent = record services { complete = λ calls p. none }

program : Unit {0}
unfolding traverse find walk rank finish loop round validated_judgements judge judge_all get as_dict
    as_list as_bool as_string as_natural to_list strip create consume roots children record_batch
    enqueue expand_batch traversal_payload expansion_index rankings stop_reason trace_row
    traversal_result is_distinct
program = tt

abbrev ranked : ℕ → ℕ → RankedNode
ranked id relevance = record {
  node_id = id;
  paper_id = 7;
  section_path = "Results";
  title = none;
  summary = "s";
  page_start = some 1;
  page_end = some 2;
  relevance = relevance;
  reason = "why";
}

abbrev expanded : ℕ → ℕ → Bool → ExpandedNode
expanded id relevance expand = record {
  node_id = id;
  paper_id = 7;
  section_path = "Results";
  page_start = some 1;
  page_end = some 2;
  relevance = relevance;
  selected = true;
  expand_children = expand;
  reason = "why";
}

abbrev result : TraversalResult
result = record {
  ranked_nodes = ranked 2 90 ∷ ranked 1 40 ∷ [];
  trace = record {
    expanded_nodes = expanded 1 40 true ∷ expanded 2 90 false ∷ [];
    selected_node_ids = 2 ∷ 1 ∷ [];
    stopped_reason = budget_exhausted;
  };
}

services_run : (traverse services "why?" "qc" 2 []).0 ≡ ok result
unfolding program
services_run = refl

silent_run : (traverse silent "why?" "qc" 2 []).0 ≡ err model_failed
unfolding program
silent_run = refl

traverse-within_budget_example :
    (2 ≤ 2)
    × Distinct {A = ℕ} (1 ∷ 2 ∷ [])
    × (budget_exhausted ≡ budget_exhausted → ◌≡◌ {A = ℕ} 2 2)
traverse-within_budget_example =
    traverse-within_budget services "why?" "qc" 2 [] result services_run

traverse-openings_example :
    (nodes : List TraversalNode) × IsLoaded services "why?" "qc" nodes
    × All (IsOpening nodes result.trace.expanded_nodes) result.trace.expanded_nodes
    × All (IsPassage nodes) result.ranked_nodes
traverse-openings_example = traverse-openings services "why?" "qc" 2 [] result services_run

traverse-ranking_example :
    IsSorted more_relevant result.ranked_nodes
    × All (λ r. contains {A = ℕ} (1 ∷ 2 ∷ []) r.node_id ≡ true) result.ranked_nodes
    × (result.trace.selected_node_ids ≡ ranked_ids result.ranked_nodes)
traverse-ranking_example = traverse-ranking services "why?" "qc" 2 [] result services_run

traverse-writes_trace_example :
    (row : TraceRow) × ((traverse services "why?" "qc" 2 []).1 ≡ [] ++ row ∷ [])
    × (row.question ≡ "why?")
    × (row.expanded_node_ids ≡ 1 ∷ 2 ∷ [])
    × (row.nodes_expanded ≡ length row.expanded_node_ids)
    × (row.selected_node_ids ≡ 2 ∷ 1 ∷ [])
    × (row.stopped_reason ≡ budget_exhausted)
traverse-writes_trace_example = traverse-writes_trace services "why?" "qc" 2 [] result services_run

traverse_failure_example : IsReported model_failed × ((traverse silent "why?" "qc" 2 []).1 ≡ [])
traverse_failure_example = traverse_failure silent "why?" "qc" 2 [] model_failed silent_run

abbrev tree_row : ℕ → ℕ → ℕ → TreeRow
tree_row id paper_id depth = record {
  id = id;
  parent_id = none;
  node = record {
    paper_id = paper_id;
    section_id = id;
    parent_section_id = none;
    node_path = "Results";
    title = none;
    summary = "s";
    page_start = some 1;
    page_end = some 2;
    depth = depth;
    tree_schema_version = "1";
    summary_model = "m";
  };
}

-- The rows of papers 7 and 9, and of a paper that is not proposed.
abbrev stored_rows : List TreeRow
stored_rows = tree_row 1 7 1 ∷ tree_row 2 7 0 ∷ tree_row 3 8 0 ∷ tree_row 4 9 0 ∷ []

load_scope_tree-IsScopeTree_example :
    Yields
      (IsUnknownScope (("qc", 5) ∷ []) "qc")
      (IsScopeTree (("qc", 5) ∷ []) stored_rows "qc" (9 ∷ 7 ∷ []))
      (load_scope_tree (("qc", 5) ∷ []) stored_rows "qc" (9 ∷ 7 ∷ []))
load_scope_tree-IsScopeTree_example =
    load_scope_tree-IsScopeTree (("qc", 5) ∷ []) stored_rows "qc" (9 ∷ 7 ∷ [])
      (refl, (refl, (refl, (refl, tt))))

loaded_ids : Result Error (ℕ × List TraversalNode) → List ℕ
loaded_ids (ok r) = ids r.1
loaded_ids (err e) = []

load_scope_tree_run :
    loaded_ids (load_scope_tree (("qc", 5) ∷ []) stored_rows "qc" (9 ∷ 7 ∷ [])) ≡ 4 ∷ 2 ∷ 1 ∷ []
unfolding loaded_ids load_scope_tree paper_order keyed_rows
load_scope_tree_run = refl
