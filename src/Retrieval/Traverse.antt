-- ===== src/Retrieval/Traverse.antt =====
-- `traverse` of src/ai_researcher/retrieval/traverse.py.
pub mod Ranking
pub mod Outcome
pub mod Guarantees
use ai_researcher.Prelude.{
  ℕ, zero, suc, ◌+◌, String, Bool, true, false, not, ◌&&◌, ◌||◌, Option, none, some, List, [], ◌∷◌,
  ◌++◌, map, if◌then◌else◌, ltb, leb, nat_eq, string_eq, ◌==◌, length, is_empty, contains, Distinct,
  lookup, insert, keys, sort, Result, ok, err, guard, need, ◌>>=◌, ◌>>◌,
}
use ai_researcher.Text.{strip, is_blank}
use ai_researcher.Retrieval.Errors.{
  Error, empty_question, empty_scope, duplicate_node_ids, shortlist_failed, unknown_scope,
  missing_key,
}
use ai_researcher.Retrieval.Budget.{create, exhausted}
use ai_researcher.Retrieval.Judgement.{Judgement}
use ai_researcher.Retrieval.Walk.{
  TraversalNode, ExpandedNode, Complete, Walk, ids, expanded_ids, roots, loop,
}

pub data StopReason : Type 0 where
  sufficient_evidence budget_exhausted no_candidates : StopReason

pub record RankedNode : Type 0 where
  pub node_id : ℕ
  pub paper_id : ℕ
  pub section_path : String
  pub title : Option String
  pub summary : String
  pub page_start : Option ℕ
  pub page_end : Option ℕ
  pub relevance : ℕ
  pub reason : String

pub record TraversalTrace : Type 0 where
  pub expanded_nodes : List ExpandedNode
  pub selected_node_ids : List ℕ
  pub stopped_reason : StopReason

abbrev pub nodes_expanded : TraversalTrace → ℕ
nodes_expanded t = length t.expanded_nodes

pub record TraversalResult : Type 0 where
  pub ranked_nodes : List RankedNode
  pub trace : TraversalTrace

-- A row of `retrieval_trace`.
pub record TraceRow : Type 0 where
  pub question : String
  pub scope_id : ℕ
  pub expanded_node_ids : List ℕ
  pub selected_node_ids : List ℕ
  pub nodes_expanded : ℕ
  pub stopped_reason : StopReason

-- What `traverse` calls: the shortlist, the model and the stored trees.
pub record Services : Type 0 where
  pub shortlist : String → String → ℕ → Option (List ℕ)
  pub load_scope_tree : String → List ℕ → Option (ℕ × List TraversalNode)
  pub complete : Complete

-- `expansion_order[node_id]`: the dictionary holds the last index of a repeated key.
unfoldable pub expansion_index : ℕ → List ExpandedNode → Option ℕ
expansion_index node_id [] = none
expansion_index node_id (e ∷ es) = elim (expansion_index node_id es) [
  | some k ↦ some (suc k)
  | none ↦ if e.node_id == node_id then some 0 else none
]

-- A selected pair behind its place in the order of expansion.
abbrev pub Ranking : Type 0
Ranking = ℕ × (TraversalNode × Judgement)

-- The keys of `sorted`, which are computed before the sort.
unfoldable pub rankings :
    List ExpandedNode → List (ℕ × (TraversalNode × Judgement)) → Result Error (List Ranking)
rankings expanded [] = ok []
rankings expanded ((k, (node, judgement)) ∷ selected) = do
  index ← need (expansion_index node.id expanded) missing_key
  rest ← rankings expanded selected
  ok ((index, (node, judgement)) ∷ rest)

-- The key is `(-relevance, expansion_order)`.
abbrev pub before : Ranking → Ranking → Bool
before p q =
    ltb q.1.1.relevance p.1.1.relevance || p.1.1.relevance == q.1.1.relevance && leb p.0 q.0

abbrev pub ranked_node : Ranking → RankedNode
ranked_node r = record {
  node_id = r.1.0.id;
  paper_id = r.1.0.paper_id;
  section_path = r.1.0.section_path;
  title = r.1.0.title;
  summary = r.1.0.summary;
  page_start = r.1.0.page_start;
  page_end = r.1.0.page_end;
  relevance = r.1.1.relevance;
  reason = r.1.1.reason;
}

unfoldable pub stop_reason : Walk → StopReason
stop_reason w =
    if w.sufficient_evidence
    then sufficient_evidence
    else if exhausted w.budget
    then budget_exhausted
    else no_candidates

abbrev pub ranked_ids : List RankedNode → List ℕ
ranked_ids [] = []
ranked_ids (r ∷ rs) = r.node_id ∷ ranked_ids rs

-- What a traversal hands to `_finish`.
pub record Finding : Type 0 where
  pub scope_id : ℕ
  pub ranked_nodes : List RankedNode
  pub expanded_nodes : List ExpandedNode
  pub stopped_reason : StopReason

-- `_finish`: the result, and the row that is written.
unfoldable pub trace_row : String → Finding → TraceRow
trace_row question f = record {
  question = question;
  scope_id = f.scope_id;
  expanded_node_ids = expanded_ids f.expanded_nodes;
  selected_node_ids = ranked_ids f.ranked_nodes;
  nodes_expanded = length f.expanded_nodes;
  stopped_reason = f.stopped_reason;
}

unfoldable pub traversal_result : Finding → TraversalResult
traversal_result f = record {
  ranked_nodes = f.ranked_nodes;
  trace = record {
    expanded_nodes = f.expanded_nodes;
    selected_node_ids = ranked_ids f.ranked_nodes;
    stopped_reason = f.stopped_reason;
  };
}

-- `_finish` writes one trace; an exception before it leaves the store as it is.
unfoldable pub finish :
    String → Result Error Finding → List TraceRow → Result Error TraversalResult × List TraceRow
finish question (ok f) store = (ok (traversal_result f), store ++ trace_row question f ∷ [])
finish question (err e) store = (err e, store)

abbrev pub start : ℕ → ℕ → List TraversalNode → Walk
start limit used nodes = record {
  budget = record { limit = limit; used = used };
  frontier = roots nodes;
  queued_ids = ids (roots nodes);
  expanded_nodes = [];
  selected = [];
  sufficient_evidence = false;
  calls = 0;
}

-- `len(nodes_by_id) != len(nodes)`
unfoldable pub is_distinct : List ℕ → Bool
is_distinct [] = true
is_distinct (i ∷ rest) = not (contains rest i) && is_distinct rest

abbrev pub shortlist_limit : ℕ
shortlist_limit = 20

module _ (services : Services) (question scope : String) where
  -- The traversal of trees that were found. The fuel is one more than the limit: each round
  -- opens a node.
  unfoldable pub walk : ℕ → List TraversalNode → Result Error Walk
  walk max_nodes nodes = do
    budget ← create max_nodes 0
    guard (is_distinct (ids nodes)) duplicate_node_ids
    loop question scope services.complete nodes (suc budget.limit)
        (start budget.limit budget.used nodes)

  unfoldable pub rank : ℕ → Walk → Result Error Finding
  rank scope_id w = do
    ranked_pairs ← rankings w.expanded_nodes w.selected
    ok (record {
      scope_id = scope_id;
      ranked_nodes = map ranked_node (sort before ranked_pairs);
      expanded_nodes = w.expanded_nodes;
      stopped_reason = stop_reason w;
    })

  unfoldable pub find : ℕ → Result Error Finding
  find max_nodes = do
    guard (not (is_blank (strip question))) empty_question
    guard (not (is_blank (strip scope))) empty_scope
    paper_ids ← need (services.shortlist scope question shortlist_limit) shortlist_failed
    (scope_id, nodes) ← need (services.load_scope_tree scope paper_ids) unknown_scope
    let nothing : Finding = record {
      scope_id = scope_id;
      ranked_nodes = [];
      expanded_nodes = [];
      stopped_reason = no_candidates;
    }
    let traversed = (do w ← walk max_nodes nodes; rank scope_id w)
    (if is_empty paper_ids || is_empty nodes then ok nothing else traversed)

  -- The traces that the store holds are the state.
  unfoldable pub traverse : ℕ → List TraceRow → Result Error TraversalResult × List TraceRow
  traverse max_nodes store = finish question (find max_nodes) store
