-- ===== src/Retrieval/Traverse/Outcome.antt =====
-- How `find` ends: with a grounded finding or a reported exception.
use mathlib.Core.List.{Mem, mem-cons_self, mem-cons_of_mem}
use ai_researcher.Prelude.{
  Yields, returns, Yields-need, Yields-guard, Yields-bind, Yields-map, ℕ, suc, ◌≤◌, String, ◌≡◌,
  refl, subst, inl, Bool, true, false, not, ◌||◌, some, List, [], ◌∷◌, if_ind, nat_eq, string_eq,
  length, is_empty, select, All, contains, leb, Distinct, Distinct-left, IsSorted, arith,
}
use ai_researcher.Text.{strip, is_blank}
use ai_researcher.Retrieval.Errors.{
  limit_not_positive, duplicate_node_ids, unknown_scope, shortlist_failed, empty_question,
  empty_scope,
}
use ai_researcher.Retrieval.Outcomes.{
  IsReported, bad_limit, no_question, no_scope, duplicates, unknown, shortlist,
}
use ai_researcher.Retrieval.Budget.{ExpansionBudget, create}
use ai_researcher.Retrieval.Walk.{TraversalNode, Walk, ids, expanded_ids, is_root, roots}
use ai_researcher.Retrieval.Walk.Coherence.{IsJustified, IsOpening, IsCoherent}
use ai_researcher.Retrieval.Walk.Rounds.{HasEnded, loop-IsCoherent}
use ai_researcher.Retrieval.Traverse.{
  budget_exhausted, Services, Finding, stop_reason, start, is_distinct, shortlist_limit, walk, rank,
  find,
}
use ai_researcher.Retrieval.Traverse.Ranking.{
  rankings_total, more_relevant, ranked-IsSorted, ranked-opened, IsPassage, ranked-IsPassage,
}

absent :
    (test : TraversalNode → Bool) (k : ℕ) (ns : List TraversalNode)
    → contains (ids ns) k ≡ false
    → contains (ids (select test ns)) k ≡ false
absent test k [] h = refl
absent test k (n ∷ ns) h =
    let rest = absent test k ns (ground arith) in
    if_ind (λ l. contains (ids l) k ≡ false) (test n) (λ _. ground arith) (λ _. rest)

-- The walk starts from the roots.
Distinct-ids :
    (test : TraversalNode → Bool) (ns : List TraversalNode)
    → is_distinct (ids ns) ≡ true
    → Distinct (ids (select test ns))
unfolding is_distinct
Distinct-ids test [] h = tt
Distinct-ids test (n ∷ ns) h =
    let rest = Distinct-ids test ns (ground arith) in
    if_ind (λ l. Distinct (ids l)) (test n) (λ _. (absent test n.id ns (ground arith), rest))
      (λ _. rest)

roots_among :
    (nodes ns : List TraversalNode)
    → ((n : TraversalNode) → Mem n ns → Mem n nodes)
    → All (IsJustified nodes []) (select (is_root (ids nodes)) ns)
roots_among nodes [] f = tt
roots_among nodes (n ∷ ns) f =
    let rest = roots_among nodes ns (λ m i. f m (mem-cons_of_mem n i)) in
    if_ind (All (IsJustified nodes [])) (is_root (ids nodes) n)
      (λ r. ((f n mem-cons_self, inl r), rest)) (λ _. rest)

start-IsCoherent :
    (limit : ℕ) (nodes : List TraversalNode)
    → is_distinct (ids nodes) ≡ true
    → IsCoherent limit nodes (start limit 0 nodes)
unfolding roots
start-IsCoherent limit nodes d = record {
  limited = refl;
  within = omega arith;
  counted = refl;
  queue = refl;
  distinct = Distinct-ids (is_root (ids nodes)) nodes d;
  justified = roots_among nodes nodes (λ n m. m);
  openings = tt;
  selection = tt;
  members = tt;
}

-- What a finding of a traversal of `nodes` with a limit has been shown to satisfy.
pub record IsGrounded (limit : ℕ) (nodes : List TraversalNode) (f : Finding) : Type 0 where
  pub within : length f.expanded_nodes ≤ limit
  pub once : Distinct (expanded_ids f.expanded_nodes)
  pub openings : All (IsOpening nodes f.expanded_nodes) f.expanded_nodes
  pub sorted : IsSorted more_relevant f.ranked_nodes
  pub opened : All (λ r. contains (expanded_ids f.expanded_nodes) r.node_id ≡ true) f.ranked_nodes
  pub passages : All (IsPassage nodes) f.ranked_nodes
  pub spent : f.stopped_reason ≡ budget_exhausted → length f.expanded_nodes ≡ limit

rank-IsGrounded :
    (services : Services) (q s : String) (limit scope_id : ℕ) (nodes : List TraversalNode)
    (w : Walk)
    → IsCoherent limit nodes w
    → Yields IsReported (IsGrounded limit nodes) (rank services q s scope_id w)
unfolding rank stop_reason
rank-IsGrounded services q s limit scope_id nodes w c =
    let (rs, e, placed) = rankings_total nodes w.expanded_nodes w.selected c.selection c.members in
    rw e (
      returns (record {
        within = omega (arith, c.counted, c.within);
        once = Distinct-left _ (ids w.frontier) (subst Distinct c.queue c.distinct);
        openings = c.openings;
        sorted = ranked-IsSorted rs;
        opened = ranked-opened nodes w.expanded_nodes rs placed;
        passages = ranked-IsPassage nodes w.expanded_nodes rs placed;
        spent = λ h. ground (arith, c.counted, c.within, c.limited);
      }))

-- The papers that the shortlist proposes, and the tree that the store has for them.
pub record IsLoaded (services : Services) (q s : String) (nodes : List TraversalNode) : Type 0 where
  pub paper_ids : List ℕ
  pub scope_id : ℕ
  pub proposed : services.shortlist s q shortlist_limit ≡ some paper_ids
  pub found : services.load_scope_tree s paper_ids ≡ some (scope_id, nodes)

abbrev pub IsOutcome : Services → String → String → ℕ → Finding → Type 0
IsOutcome services q s limit f =
    (nodes : List TraversalNode) × IsLoaded services q s nodes × IsGrounded limit nodes f

abbrev fresh_budget : ℕ → ExpansionBudget
fresh_budget limit = record { limit = limit; used = 0 }

zero-leb : (n : ℕ) → leb 0 n ≡ true
zero-leb n = ground arith

create-fresh : (limit : ℕ) → Yields IsReported (λ b. b ≡ fresh_budget limit) (create limit 0)
unfolding create
create-fresh limit =
    Yields-bind _ _ (Yields-guard (leb 1 limit) limit_not_positive bad_limit)
      λ _ _. rw (zero-leb limit) (returns refl)

walk-IsCoherent :
    (services : Services) (q s : String) (limit : ℕ) (nodes : List TraversalNode)
    → Yields IsReported
        (λ w. IsCoherent limit nodes w × HasEnded q s services.complete nodes w)
        (walk services q s limit nodes)
unfolding walk
walk-IsCoherent services q s limit nodes = Yields-bind _ _ (create-fresh limit) λ budget fresh.
    Yields-bind _ _ (Yields-guard (is_distinct (ids nodes)) duplicate_node_ids duplicates)
      λ _ distinct. rw fresh (
        loop-IsCoherent q s services.complete nodes (suc limit) limit (start limit 0 nodes)
          (start-IsCoherent limit nodes distinct) (omega arith))

pub find-IsOutcome :
    (services : Services) (q s : String) (limit : ℕ)
    → Yields IsReported (IsOutcome services q s limit) (find services q s limit)
unfolding find
find-IsOutcome services q s limit =
    Yields-bind _ _ (Yields-guard (not (is_blank (strip q))) empty_question no_question) λ _ _.
      Yields-bind _ _ (Yields-guard (not (is_blank (strip s))) empty_scope no_scope) λ _ _.
        Yields-bind _ _
          (Yields-need {P = λ paper_ids. services.shortlist s q shortlist_limit ≡ some paper_ids}
            (services.shortlist s q shortlist_limit) shortlist_failed shortlist (λ _ e. e))
          λ paper_ids proposed.
            Yields-bind _ _
              (Yields-need {P = λ r. services.load_scope_tree s paper_ids ≡ some r}
                (services.load_scope_tree s paper_ids) unknown_scope unknown (λ _ e. e))
              λ (scope_id, nodes) found.
                let loaded : IsLoaded services q s nodes = record {
                  paper_ids = paper_ids;
                  scope_id = scope_id;
                  proposed = proposed;
                  found = found;
                } in
                if_ind (Yields IsReported (IsOutcome services q s limit))
                  (is_empty paper_ids || is_empty nodes)
                  (λ _. returns (
                    nodes,
                    loaded,
                    record {
                      within = omega arith;
                      once = tt;
                      openings = tt;
                      sorted = tt;
                      opened = tt;
                      passages = tt;
                      spent = λ h. cc;
                    },
                  ))
                  (λ _.
                    Yields-map (λ f g. (nodes, loaded, g))
                      (Yields-bind _ _ (walk-IsCoherent services q s limit nodes)
                        λ w ended. rank-IsGrounded services q s limit scope_id nodes w ended.0))
