-- ===== src/Retrieval/Walk.antt =====
-- The expansion loop of `traverse` in src/ai_researcher/retrieval/traverse.py. The model gateway is
-- a function of the number of calls made before and of the payload, so that it may answer
-- the same payload differently; `none` stands for any exception that it raises.
pub mod Steps
pub mod Coherence
pub mod Rounds
use ai_researcher.Prelude.{
  ℕ, zero, suc, ◌+◌, String, Bool, true, false, not, ◌&&◌, ◌||◌, Option, none, some, List, [], ◌∷◌,
  ◌++◌, map, if◌then◌else◌, nat_eq, option_eq, ◌==◌, length, take, drop, select, is_empty, contains,
  lookup, insert, Result, ok, err, need, ◌>>=◌, ◌>>◌,
}
use ai_researcher.Json.{Value}
use ai_researcher.Retrieval.Errors.{Error, model_failed, missing_key, out_of_fuel}
use ai_researcher.Retrieval.Budget.{ExpansionBudget, remaining, exhausted, consume}
use ai_researcher.Retrieval.Judgement.{Judgement, Judgements, validated_judgements}

pub record TraversalNode : Type 0 where
  pub id : ℕ
  pub paper_id : ℕ
  pub parent_id : Option ℕ
  pub section_path : String
  pub title : Option String
  pub summary : String
  pub page_start : Option ℕ
  pub page_end : Option ℕ

pub record ExpandedNode : Type 0 where
  pub node_id : ℕ
  pub paper_id : ℕ
  pub section_path : String
  pub page_start : Option ℕ
  pub page_end : Option ℕ
  pub relevance : ℕ
  pub selected : Bool
  pub expand_children : Bool
  pub reason : String

abbrev pub ids : List TraversalNode → List ℕ
ids [] = []
ids (n ∷ ns) = n.id ∷ ids ns

abbrev pub expanded_ids : List ExpandedNode → List ℕ
expanded_ids [] = []
expanded_ids (e ∷ es) = e.node_id ∷ expanded_ids es

-- `_traversal_payload`, less the fixed text of the instructions.
pub record Payload : Type 0 where
  pub question : String
  pub scope : String
  pub max_nodes : ℕ
  pub nodes_expanded : ℕ
  pub nodes_remaining : ℕ
  pub nodes : List TraversalNode

unfoldable pub traversal_payload : String → String → ExpansionBudget → List TraversalNode → Payload
traversal_payload question scope budget nodes = record {
  question = question;
  scope = scope;
  max_nodes = budget.limit;
  nodes_expanded = budget.used;
  nodes_remaining = remaining budget;
  nodes = nodes;
}

abbrev pub Complete : Type 0
Complete = ℕ → Payload → Option Value

-- A node without a parent among the nodes is a root.
abbrev pub is_root : List ℕ → TraversalNode → Bool
is_root known node = elim node.parent_id [ none ↦ true | some p ↦ not (contains known p) ]

unfoldable pub roots : List TraversalNode → List TraversalNode
roots nodes = select (is_root (ids nodes)) nodes

-- `children[node_id]`, for a node of the tree.
unfoldable pub children : List TraversalNode → ℕ → List TraversalNode
children nodes node_id = select (λ n. n.parent_id == some node_id) nodes

-- The local variables of the loop; `calls` counts the calls of the model.
pub record Walk : Type 0 where
  pub budget : ExpansionBudget
  pub frontier : List TraversalNode
  pub queued_ids : List ℕ
  pub expanded_nodes : List ExpandedNode
  pub selected : List (ℕ × (TraversalNode × Judgement))
  pub sufficient_evidence : Bool
  pub calls : ℕ

abbrev pub opened : TraversalNode → Judgement → ExpandedNode
opened node judgement = record {
  node_id = node.id;
  paper_id = node.paper_id;
  section_path = node.section_path;
  page_start = node.page_start;
  page_end = node.page_end;
  relevance = judgement.relevance;
  selected = judgement.selected;
  expand_children = judgement.expand;
  reason = judgement.reason;
}

-- The first `for node in batch` loop.
unfoldable pub record_batch : Judgements → List TraversalNode → Walk → Result Error Walk
record_batch judgements [] w = ok w
record_batch judgements (node ∷ batch) w = do
  judgement ← need (lookup node.id judgements) missing_key
  record_batch judgements batch (record w {
    expanded_nodes = w.expanded_nodes ++ opened node judgement ∷ [];
    selected =
        if judgement.selected then insert node.id (node, judgement) w.selected else w.selected;
  })

-- `for child in children[node.id]`: a child is queued unless it was queued before.
unfoldable pub enqueue : List TraversalNode → Walk → Walk
enqueue [] w = w
enqueue (child ∷ rest) w = enqueue rest (
    if contains w.queued_ids child.id then w else record w {
      frontier = w.frontier ++ child ∷ [];
      queued_ids = w.queued_ids ++ child.id ∷ [];
    })

-- The second `for node in batch` loop.
unfoldable pub expand_batch :
    List TraversalNode → Judgements → List TraversalNode → Walk → Result Error Walk
expand_batch nodes judgements [] w = ok w
expand_batch nodes judgements (node ∷ batch) w = do
  judgement ← need (lookup node.id judgements) missing_key
  expand_batch nodes judgements batch
      (if judgement.expand then enqueue (children nodes node.id) w else w)

module _ (question scope : String) (complete : Complete) (nodes : List TraversalNode) where
  -- The body of the `while` loop. When the evidence suffices it breaks before any child is queued.
  unfoldable pub round : Walk → Result Error Walk
  round w = do
    let batch = take (remaining w.budget) w.frontier
    budget ← consume w.budget (length batch)
    response ← need (complete w.calls (traversal_payload question scope budget batch)) model_failed
    (judgements, sufficient) ← validated_judgements response (ids batch)
    next ← record_batch judgements batch (record w {
      budget = budget;
      frontier = drop (length batch) w.frontier;
      sufficient_evidence = sufficient;
      calls = w.calls + 1;
    })
    if sufficient then ok next else expand_batch nodes judgements batch next

  -- The `while` loop, on fuel.
  unfoldable pub loop : ℕ → Walk → Result Error Walk
  loop zero w = err out_of_fuel
  loop (suc fuel) w =
      let step = (do
        next ← round w
        if next.sufficient_evidence then ok next else loop fuel next) in
      if is_empty w.frontier || exhausted w.budget then ok w else step
