-- ===== src/Retrieval/Walk/Rounds.antt =====
-- A round, and the loop, keep the invariant; the fuel suffices; what the loop leaves behind.
use mathlib.Core.List.{Mem, mem-cons_self, mem-cons_of_mem}
use ai_researcher.Prelude.{
  Yields, returns, Yields-need_any, Yields-bind, ℕ, zero, suc, ◌+◌, ◌≤◌, ◌<◌, String, ◌≡◌, refl, ap,
  ◌∙◌, inr, Bool, true, false, ◌||◌, some, List, [], ◌∷◌, ◌++◌, if◌then◌else◌, if_ind, nat_eq,
  option_eq, ◌==◌, eq_of_beq, length, length-take, take, drop, take-append-drop, is_empty, select,
  All, All-map, contains, contains-append, keys, lookup, every, true_of_&&, ok, arith,
}
use ai_researcher.Retrieval.Errors.{model_failed}
use ai_researcher.Retrieval.Outcomes.{IsReported, failed}
use ai_researcher.Retrieval.Budget.{ExpansionBudget, remaining, exhausted, consume}
use ai_researcher.Retrieval.Judgement.{Judgement, Judgements}
use ai_researcher.Retrieval.Judgement.Sound.{validated_judgements-IsComplete}
use ai_researcher.Retrieval.Walk.{
  TraversalNode, ExpandedNode, Walk, Complete, ids, children, expand_batch, round, loop,
}
use ai_researcher.Retrieval.Walk.Steps.{
  Recorded, record_batch_lem, willing, willing-append, IsAsked, expand_batch_lem,
}
use ai_researcher.Retrieval.Walk.Coherence.{
  IsJustified, IsCoherent, advance-IsCoherent, grow-IsCoherent,
}

drop-length-take : (n : ℕ) (ns : List TraversalNode) → drop (length (take n ns)) ns ≡ drop n ns
drop-length-take zero ns = refl
drop-length-take (suc n) [] = refl
drop-length-take (suc n) (x ∷ ns) = drop-length-take n ns

consume_fits :
    (b : ExpansionBudget) (count : ℕ)
    → count ≤ remaining b
    → consume b count ≡ ok (record b { used = b.used + count })
unfolding consume
consume_fits b count h = ground arith

All-ids :
    (ks : List ℕ) (batch : List TraversalNode)
    → every (contains ks) (ids batch) ≡ true
    → All (λ n. contains ks n.id ≡ true) batch
All-ids ks [] h = tt
All-ids ks (n ∷ batch) h = let both = true_of_&& _ _ h in (both.0, All-ids ks batch both.1)

-- The children of a node that the model asked about are justified.
module _ (nodes : List TraversalNode) (es : List ExpandedNode) (k : ℕ) where
  children_among :
      (ns : List TraversalNode)
      → ((n : TraversalNode) → Mem n ns → Mem n nodes)
      → contains (willing es) k ≡ true
      → All (IsJustified nodes es) (select (λ n. n.parent_id == some k) ns)
  children_among [] f h = tt
  children_among (n ∷ ns) f h =
      let rest = children_among ns (λ m i. f m (mem-cons_of_mem n i)) h in
      if_ind (All (IsJustified nodes es)) (n.parent_id == some k)
        (λ e. ((f n mem-cons_self, inr (k, eq_of_beq n.parent_id (some k) e, h)), rest)) (λ _. rest)

  children-IsJustified :
      contains (willing es) k ≡ true → All (IsJustified nodes es) (children nodes k)
  unfolding children
  children-IsJustified h = children_among nodes (λ n m. m) h

-- What the second loop may queue after the first.
IsAsked-IsJustified :
    (nodes : List TraversalNode) (js : Judgements) (batch : List TraversalNode) (v w : Walk)
    → Recorded (λ n. Mem n nodes) js batch v w
    → All
        (λ n.
          (j : Judgement)
          → lookup n.id js ≡ some j
          → j.expand ≡ true
          → All (IsJustified nodes w.expanded_nodes) (children nodes n.id))
        batch
IsAsked-IsJustified nodes js batch v w r =
    All-map (IsAsked js (willing r.fresh)) _ batch
      (λ n f j e x. children-IsJustified nodes w.expanded_nodes n.id (
        ground (
          arith,
          f j e x,
          ap (λ (l : List ExpandedNode). willing l) r.expanded,
          willing-append v.expanded_nodes r.fresh,
          contains-append (willing v.expanded_nodes) (willing r.fresh) n.id,
        )))
      r.asked

-- The invariant, and that the budget used has grown.
abbrev pub IsFurther : ℕ → List TraversalNode → Walk → Walk → Type 0
IsFurther limit nodes w w' = IsCoherent limit nodes w' × (w.budget.used < w'.budget.used)

finish_round :
    (limit : ℕ) (nodes : List TraversalNode) (js : Judgements) (batch : List TraversalNode)
    (u v w : Walk) (sufficient : Bool)
    → All (λ n. contains (keys js) n.id ≡ true) batch
    → Recorded (λ n. Mem n nodes) js batch v w
    → IsFurther limit nodes u w
    → Yields IsReported
        (IsFurther limit nodes u)
        (if sufficient then ok w else expand_batch nodes js batch w)
finish_round limit nodes js batch u v w sufficient known r (c, less) =
    let (w', run, g) =
      expand_batch_lem (IsJustified nodes w.expanded_nodes) nodes js batch w known
        (IsAsked-IsJustified nodes js batch v w r) in
    if_ind (Yields IsReported (IsFurther limit nodes u)) sufficient (λ _. returns (c, less))
      (λ _. rw run (returns (grow-IsCoherent limit nodes w w' c g, rw g.budget less)))

opens_some :
    (b : ExpansionBudget) (ns : List TraversalNode)
    → exhausted b ≡ false
    → is_empty ns ≡ false
    → 0 < length (take (remaining b) ns)
opens_some b [] h k = cc
opens_some b (n ∷ ns) h k =
    let positive : 0 < remaining b = ground arith in
    omega (arith, length-take (remaining b) (n ∷ ns))

module _ (question scope : String) (complete : Complete) (nodes : List TraversalNode) where
  -- A round keeps the invariant and opens at least one node, or raises for an external reason.
  pub round-IsFurther :
      (limit : ℕ) (w : Walk)
      → IsCoherent limit nodes w
      → is_empty w.frontier ≡ false
      → exhausted w.budget ≡ false
      → Yields IsReported (IsFurther limit nodes w) (round question scope complete nodes w)
  unfolding round
  round-IsFurther limit w c some_left room =
      let n : ℕ = remaining w.budget in
      let batch : List TraversalNode = take n w.frontier in
      let b : ExpansionBudget = record w.budget { used = w.budget.used + length batch } in
      let size = length-take n w.frontier in
      let moved =
        ap (λ l. batch ++ l) (drop-length-take n w.frontier) ∙ take-append-drop n w.frontier in
      rw (consume_fits w.budget (length batch) (omega arith)) (
        Yields-bind _ _ (Yields-need_any (complete w.calls _) model_failed failed) λ response _.
          Yields-bind _ _ (validated_judgements-IsComplete response (ids batch)) λ judged whole.
            let known = All-ids (keys judged.0) batch whole.judged in
            let v : Walk = record w {
              budget = b;
              frontier = drop (length batch) w.frontier;
              sufficient_evidence = judged.1;
              calls = w.calls + 1;
            } in
            let (w₁, run, r) = record_batch_lem (λ n. Mem n nodes) judged.0 batch v known in
            let kept =
              advance-IsCoherent limit nodes judged.0 w v w₁ batch c refl refl refl moved refl refl
                (omega (arith, c.within, c.limited)) r in
            rw run (
              finish_round limit nodes judged.0 batch w v w₁ judged.1 known r
                (kept, rw r.budget (omega (arith, opens_some w.budget w.frontier room some_left)))))

  -- The loop's own test, or the break.
  abbrev pub HasEnded : Walk → Type 0
  HasEnded w = (is_empty w.frontier || exhausted w.budget || w.sufficient_evidence) ≡ true

  -- With more fuel than budget the loop ends by its test or its break, or an external exception
  -- ends it.
  pub loop-IsCoherent :
      (fuel limit : ℕ) (w : Walk)
      → IsCoherent limit nodes w
      → limit < w.budget.used + fuel
      → Yields IsReported
          (λ w'. IsCoherent limit nodes w' × HasEnded w')
          (loop question scope complete nodes fuel w)
  unfolding loop
  loop-IsCoherent zero limit w c h = absurd (omega (arith, c.within))
  loop-IsCoherent (suc fuel) limit w c h =
      if_ind (Yields IsReported _) (is_empty w.frontier || exhausted w.budget)
        (λ stop. returns (c, ground arith))
        (λ go.
          Yields-bind _ _ (round-IsFurther limit w c (ground arith) (ground arith))
            λ next (kept, less).
              if_ind (Yields IsReported _) next.sufficient_evidence
                (λ done. returns (kept, ground arith))
                (λ more. loop-IsCoherent fuel limit next kept (omega arith)))
