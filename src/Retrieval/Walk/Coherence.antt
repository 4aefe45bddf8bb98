-- ===== src/Retrieval/Walk/Coherence.antt =====
-- The invariant of the expansion loop, and why the two parts of a round keep it.
use ai_researcher.Prelude.{
  ℕ, suc, ◌+◌, ◌≤◌, ◌≡◌, refl, sym, ap, subst, ◌∙◌, ◌⊎◌, inl, inr, true, some, List, [], ◌∷◌, ◌++◌,
  append_assoc, nat_eq, option_eq, length, length-append, All, All-append, All-left, All-right,
  All-map, contains, contains-append, Distinct, arith,
}
use ai_researcher.Retrieval.Judgement.{Judgements}
use mathlib.Core.List.{Mem}
use ai_researcher.Retrieval.Walk.{TraversalNode, ExpandedNode, Walk, ids, expanded_ids, is_root}
use ai_researcher.Retrieval.Walk.Steps.{
  ids-append, expanded_ids-append, length-expanded_ids, willing, willing-append, IsOpened, Recorded,
  Grown,
}

-- The model may open `n`: it is a node of the tree, and a root of it or the child of an opened node
-- whose children the model asked for.
abbrev pub IsJustified : List TraversalNode → List ExpandedNode → TraversalNode → Type 0
IsJustified nodes es n =
    Mem n nodes
    × ((is_root (ids nodes) n ≡ true)
        ⊎ ((p : ℕ) × (n.parent_id ≡ some p) × (contains (willing es) p ≡ true)))

abbrev pub IsOpening : List TraversalNode → List ExpandedNode → ExpandedNode → Type 0
IsOpening nodes es e = (n : TraversalNode) × (n.id ≡ e.node_id) × IsJustified nodes es n

-- The queue is what has been opened, in order, and then the frontier; no node is queued twice;
-- each opened node has used one expansion, and there are at most `limit`; what is opened or waits
-- is justified; what is selected has been opened, and is of the tree.
pub record IsCoherent (limit : ℕ) (nodes : List TraversalNode) (w : Walk) : Type 0 where
  pub limited : w.budget.limit ≡ limit
  pub within : w.budget.used ≤ limit
  pub counted : w.budget.used ≡ length w.expanded_nodes
  pub queue : w.queued_ids ≡ expanded_ids w.expanded_nodes ++ ids w.frontier
  pub distinct : Distinct w.queued_ids
  pub justified : All (IsJustified nodes w.expanded_nodes) w.frontier
  pub openings : All (IsOpening nodes w.expanded_nodes) w.expanded_nodes
  pub selection : All (IsOpened w.expanded_nodes) w.selected
  pub members : All (λ entry. Mem entry.1.0 nodes) w.selected

IsJustified-append :
    (nodes : List TraversalNode) (es fs : List ExpandedNode) (n : TraversalNode)
    → IsJustified nodes es n
    → IsJustified nodes (es ++ fs) n
IsJustified-append nodes es fs n (m, inl r) = (m, inl r)
IsJustified-append nodes es fs n (m, inr (p, e, h)) = (
  m,
  inr (p, e, ground (arith, willing-append es fs, contains-append (willing es) (willing fs) p)),
)

-- Nodes that are justified are opened by a justified opening.
All-openings :
    (nodes : List TraversalNode) (all es : List ExpandedNode) (batch : List TraversalNode)
    → expanded_ids es ≡ ids batch
    → All (IsJustified nodes all) batch
    → All (IsOpening nodes all) es
All-openings nodes all [] batch h k = tt
All-openings nodes all (e ∷ es) [] h k = cc
All-openings nodes all (e ∷ es) (n ∷ batch) h k =
    ((n, cc, k.0), All-openings nodes all es batch (cc) k.1)

length-ids : (ns : List TraversalNode) → length (ids ns) ≡ length ns
length-ids [] = refl
length-ids (n ∷ ns) = ap suc (length-ids ns)

length-opened :
    (es : List ExpandedNode) (batch : List TraversalNode)
    → expanded_ids es ≡ ids batch
    → length es ≡ length batch
length-opened es batch h =
    omega (arith, ap (λ (l : List ℕ). length l) h, length-expanded_ids es, length-ids batch)

advance_queue :
    (w v w' : Walk) (batch : List TraversalNode) (fresh : List ExpandedNode)
    → w'.expanded_nodes ≡ w.expanded_nodes ++ fresh
    → expanded_ids fresh ≡ ids batch
    → w.queued_ids ≡ expanded_ids w.expanded_nodes ++ ids w.frontier
    → w'.queued_ids ≡ w.queued_ids
    → batch ++ v.frontier ≡ w.frontier
    → w'.frontier ≡ v.frontier
    → w'.queued_ids ≡ expanded_ids w'.expanded_nodes ++ ids w'.frontier
advance_queue w v w' batch fresh he hi c hq hf hr =
    rw (hq, c, he, hr, ← hf, ids-append, expanded_ids-append, hi)
      (sym (append_assoc (expanded_ids w.expanded_nodes) (ids batch) (ids v.frontier)))

-- A batch moves from the head of the frontier to the end of the opened nodes.
pub advance-IsCoherent :
    (limit : ℕ) (nodes : List TraversalNode) (js : Judgements) (w v w' : Walk)
    (batch : List TraversalNode)
    → IsCoherent limit nodes w
    → v.expanded_nodes ≡ w.expanded_nodes
    → v.queued_ids ≡ w.queued_ids
    → v.selected ≡ w.selected
    → batch ++ v.frontier ≡ w.frontier
    → v.budget.limit ≡ w.budget.limit
    → v.budget.used ≡ w.budget.used + length batch
    → v.budget.used ≤ limit
    → Recorded (λ n. Mem n nodes) js batch v w'
    → IsCoherent limit nodes w'
advance-IsCoherent limit nodes js w v w' batch c he hq hs hf hl hu hb r =
    let es = w.expanded_nodes in
    let grown : w'.expanded_nodes ≡ es ++ r.fresh = r.expanded ∙ ap (λ l. l ++ r.fresh) he in
    let waiting : All (IsJustified nodes (es ++ r.fresh)) (batch ++ v.frontier) =
      All-map _ _ _ (IsJustified-append nodes es r.fresh)
        (subst (All (IsJustified nodes es)) (sym hf) c.justified) in
    record {
      limited = rw r.budget (hl ∙ c.limited);
      within = rw r.budget hb;
      counted =
          rw (r.budget, grown)
            (omega (
              arith,
              hu,
              c.counted,
              length-append es r.fresh,
              length-opened r.fresh batch r.fresh_ids,
            ));
      queue =
          advance_queue w v w' batch r.fresh grown r.fresh_ids c.queue (r.queued ∙ hq) hf
            r.frontier;
      distinct = subst Distinct (sym (r.queued ∙ hq)) c.distinct;
      justified = rw (r.frontier, grown) (All-right _ batch v.frontier waiting);
      openings = rw grown (
          All-append _ es r.fresh
            (All-map _ _ es (λ e o. (o.0, o.1, IsJustified-append nodes es r.fresh o.0 o.2))
              c.openings)
            (All-openings nodes (es ++ r.fresh) r.fresh batch r.fresh_ids
              (All-left _ batch v.frontier waiting)));
      selection = r.selection (rw (he, hs) c.selection);
      members =
          r.members
            (All-map _ _ batch (λ n j. j.0)
              (All-left (IsJustified nodes (es ++ r.fresh)) batch v.frontier waiting))
            (rw hs c.members);
    }

-- The queue grows by nodes that are justified.
pub grow-IsCoherent :
    (limit : ℕ) (nodes : List TraversalNode) (w w' : Walk)
    → IsCoherent limit nodes w
    → Grown (IsJustified nodes w.expanded_nodes) w w'
    → IsCoherent limit nodes w'
grow-IsCoherent limit nodes w w' c g = record {
  limited = rw g.budget c.limited;
  within = rw g.budget c.within;
  counted = rw (g.budget, g.expanded) c.counted;
  queue =
      g.queued
      ∙ ap (λ l. l ++ ids g.more) c.queue
      ∙ append_assoc (expanded_ids w.expanded_nodes) (ids w.frontier) (ids g.more)
      ∙ ap (λ l. expanded_ids w.expanded_nodes ++ l) (sym (ids-append w.frontier g.more))
      ∙ ap (λ l. expanded_ids w.expanded_nodes ++ ids l) (sym g.frontier)
      ∙ ap (λ l. expanded_ids l ++ ids w'.frontier) (sym g.expanded);
  distinct = g.distinct c.distinct;
  justified = rw (g.frontier, g.expanded) (All-append _ w.frontier g.more c.justified g.holds);
  openings = rw g.expanded c.openings;
  selection = rw (g.expanded, g.selected) c.selection;
  members = rw g.selected c.members;
}
