-- ===== src/Retrieval/Traverse/Guarantees.antt =====
-- What `traverse` guarantees its callers, whatever the shortlist proposes and the model answers.
use ai_researcher.Prelude.{
  Yields-ok, Yields-err, ℕ, ◌≤◌, String, ◌≡◌, refl, sym, nat_eq, true, ◌++◌, List, [], ◌∷◌, All,
  contains, Distinct, IsSorted, length, Result, ok, err,
}
use ai_researcher.Retrieval.Errors.{Error}
use ai_researcher.Retrieval.Outcomes.{IsReported}
use ai_researcher.Retrieval.Walk.{TraversalNode, expanded_ids}
use ai_researcher.Retrieval.Walk.Steps.{length-expanded_ids}
use ai_researcher.Retrieval.Walk.Coherence.{IsOpening}
use ai_researcher.Retrieval.Traverse.{
  budget_exhausted, TraversalResult, nodes_expanded, TraceRow, Services, Finding, ranked_ids,
  traversal_result, trace_row, find, finish, traverse,
}
use ai_researcher.Retrieval.Traverse.Ranking.{more_relevant, IsPassage}
use ai_researcher.Retrieval.Traverse.Outcome.{IsLoaded, IsOutcome, find-IsOutcome}

finish-ok :
    (q : String) (r : Result Error Finding) (store : List TraceRow) (result : TraversalResult)
    → (finish q r store).0 ≡ ok result
    → (f : Finding) × (r ≡ ok f)
      × (result ≡ traversal_result f)
      × ((finish q r store).1 ≡ store ++ trace_row q f ∷ [])
unfolding finish
finish-ok q (ok f) store result h = (f, refl, cc, refl)
finish-ok q (err e) store result h = cc

finish-err :
    (q : String) (r : Result Error Finding) (store : List TraceRow) (e : Error)
    → (finish q r store).0 ≡ err e
    → (r ≡ err e) × ((finish q r store).1 ≡ store)
unfolding finish
finish-err q (ok f) store e h = cc
finish-err q (err d) store e h = (cc, refl)

module _ (services : Services) (q s : String) (limit : ℕ) (store : List TraceRow)
    (result : TraversalResult) (returned : (traverse services q s limit store).0 ≡ ok result) where
  outcome : (f : Finding) × (result ≡ traversal_result f) × IsOutcome services q s limit f
  unfolding traverse
  outcome =
      let (f, found, same, _) = finish-ok q (find services q s limit) store result returned in
      (f, same, Yields-ok (find-IsOutcome services q s limit) found)

  -- A traversal that returns has opened at most `max_nodes` nodes, none of them twice; and it has
  -- opened exactly `max_nodes` if the reason that it gives for stopping is the budget.
  pub traverse-within_budget :
      (nodes_expanded result.trace ≤ limit)
      × Distinct (expanded_ids result.trace.expanded_nodes)
      × (result.trace.stopped_reason ≡ budget_exhausted → nodes_expanded result.trace ≡ limit)
  unfolding traversal_result
  traverse-within_budget =
      let (f, same, (nodes, loaded, g)) = outcome in rw same (g.within, g.once, g.spent)

  -- Every node that a traversal opened is a node of the tree that the store has for the proposed
  -- papers, and it is a root of the tree, or the child of an opened node whose children
  -- the model asked for. Every piece of evidence is the passage of a node of that tree: it has the
  -- paper, the section, the summary and the pages of the node.
  pub traverse-openings :
      (nodes : List TraversalNode) × IsLoaded services q s nodes
      × All (IsOpening nodes result.trace.expanded_nodes) result.trace.expanded_nodes
      × All (IsPassage nodes) result.ranked_nodes
  unfolding traversal_result
  traverse-openings =
      let (f, same, (nodes, loaded, g)) = outcome in rw same (nodes, loaded, g.openings, g.passages)

  -- The evidence comes in the order of falling relevance, every piece of it was opened, and the
  -- trace names the same nodes in the same order.
  pub traverse-ranking :
      IsSorted more_relevant result.ranked_nodes
      × All
          (λ r. contains (expanded_ids result.trace.expanded_nodes) r.node_id ≡ true)
          result.ranked_nodes
      × (result.trace.selected_node_ids ≡ ranked_ids result.ranked_nodes)
  unfolding traversal_result
  traverse-ranking =
      let (f, same, (nodes, loaded, g)) = outcome in rw same (g.sorted, g.opened, refl)

  -- A traversal that returns has appended one row to the traces, and the row agrees with the
  -- result: the nodes opened in their order, their number, the selection and the reason.
  pub traverse-writes_trace :
      (row : TraceRow) × ((traverse services q s limit store).1 ≡ store ++ row ∷ [])
      × (row.question ≡ q)
      × (row.expanded_node_ids ≡ expanded_ids result.trace.expanded_nodes)
      × (row.nodes_expanded ≡ length row.expanded_node_ids)
      × (row.selected_node_ids ≡ result.trace.selected_node_ids)
      × (row.stopped_reason ≡ result.trace.stopped_reason)
  unfolding traverse traversal_result trace_row
  traverse-writes_trace =
      let (f, found, same, wrote) = finish-ok q (find services q s limit) store result returned in
      rw same
        (trace_row q f, wrote, refl, refl, sym (length-expanded_ids f.expanded_nodes), refl, refl)

-- A traversal that fails raises one of the exceptions that its contract names, never a `KeyError`
-- or an overdrawn budget, its loop ends, and no trace is written.
pub traverse_failure :
    (services : Services) (q s : String) (limit : ℕ) (store : List TraceRow) (e : Error)
    → (traverse services q s limit store).0 ≡ err e
    → IsReported e × ((traverse services q s limit store).1 ≡ store)
unfolding traverse
traverse_failure services q s limit store e h =
    let (failed, kept) = finish-err q (find services q s limit) store e h in
    (Yields-err (find-IsOutcome services q s limit) failed, kept)
