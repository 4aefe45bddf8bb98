-- ===== src/Evidence/Identity/Merging.antt =====
-- The loop of `_canonical_groups` over the accepted pairs.
use ai_researcher.Prelude.{
  ℕ, min, ◌<◌, ◌≡◌, sym, ap, subst, ◌∙◌, inl, inr, true, false, some, List, [], ◌∷◌, nat_eq,
  pair_eq, ◌==◌, beq_self, eq_of_beq, leb, contains, lookup, All, if_ind, Yields, returns,
  Yields-bind, Yields-map, Bool-cases, arith,
}
use ai_researcher.Evidence.Identity.{Groups, max, all_accepted, join, merge_roots, merge_pairs}
use ai_researcher.Evidence.Identity.Partition.{
  IsTogether, IsPartition, IsPartition-IsClass, Together-chain,
}
use ai_researcher.Evidence.Identity.Roots.{IsNever, Together-root, find-IsFound}
use ai_researcher.Evidence.Identity.Joining.{
  need_value, AreAccepted, IsDecided, all_accepted-AreAccepted, all_accepted-false, pair_comm,
  joined-IsPartition,
}

pub Together-swap : (g : Groups) (x y : ℕ) → IsTogether g x y → IsTogether g y x
Together-swap g x y t = record {
  root = t.root;
  set = t.set;
  top = t.top;
  at = t.at;
  left = t.right;
  right = t.left;
}

-- After the merge of two roots.
record IsMerged (accepted : List (ℕ × ℕ)) (g : Groups) (l r : ℕ) (h : Groups) : Type 0 where
  part : IsPartition accepted h
  grow : (x y : ℕ) → IsTogether g x y → IsTogether h x y
  decided : IsDecided accepted h l r

module _ (accepted : List (ℕ × ℕ)) where
  join-IsMerged :
      (g : Groups) (new old : ℕ) (s t : List ℕ)
      → new < old
      → lookup new g.parent ≡ some new
      → lookup old g.parent ≡ some old
      → lookup new g.members ≡ some s
      → lookup old g.members ≡ some t
      → AreAccepted accepted s t
      → IsPartition accepted g
      → Yields IsNever (IsMerged accepted g new old) (join new old g)
  unfolding join
  join-IsMerged g new old s t less tn to an ao cross h =
      Yields-bind _ _ (need_value (lookup new g.members) s _ an) λ s' e.
        Yields-bind _ _ (need_value (lookup old g.members) t _ ao) λ t' k.
          let (part, (grow, link)) =
            joined-IsPartition accepted g new old s' t' less tn to (an ∙ ap some (sym e))
              (ao ∙ ap some (sym k))
              (λ x y m n.
                cross x y (subst (λ u. contains u x ≡ true) e m)
                  (subst (λ u. contains u y ≡ true) k n))
              h in
          returns (record { part = part; grow = grow; decided = inl link })

  merge_roots-IsMerged :
      (g : Groups) (l r : ℕ)
      → lookup l g.parent ≡ some l
      → lookup r g.parent ≡ some r
      → IsPartition accepted g
      → Yields IsNever (IsMerged accepted g l r) (merge_roots accepted l r g)
  unfolding merge_roots
  merge_roots-IsMerged g l r tl tr h =
      let (s, al) = h.rooted l tl in
      let (t, ar) = h.rooted r tr in
      let class = Together-root accepted g l h tl in
      if_ind (Yields IsNever (IsMerged accepted g l r)) (l == r)
        (λ same. returns (record {
          part = h;
          grow = λ x y k. k;
          decided = inl (
              subst (λ j. IsTogether g l j) (eq_of_beq l r same) (Together-root accepted g l h tl));
        }))
        (λ apart. Yields-bind _ _ (need_value (lookup l g.members) s _ al) λ s' e.
          Yields-bind _ _ (need_value (lookup r g.members) t _ ar) λ t' k.
            let al' = al ∙ ap some (sym e) in
            let ar' = ar ∙ ap some (sym k) in
            if_ind (Yields IsNever (IsMerged accepted g l r)) (all_accepted accepted s' t')
              (λ good.
                merged_roots g l r s' t' tl tr al' ar' apart
                  (all_accepted-AreAccepted accepted s' t' good) h)
              (λ bad.
                let (x, y, m, n, q) = all_accepted-false accepted s' t' bad in
                returns (record {
                  part = h;
                  grow = λ a b w. w;
                  decided = inr (record {
                    one = x;
                    other = y;
                    left = in_set g l s' x tl al' m h;
                    right = in_set g r t' y tr ar' n h;
                    different = q;
                  });
                })))
    where
      in_set :
          (g : Groups) (r : ℕ) (s : List ℕ) (x : ℕ)
          → lookup r g.parent ≡ some r
          → lookup r g.members ≡ some s
          → contains s x ≡ true
          → IsPartition accepted g
          → IsTogether g r x
      in_set g r s x top at m h = record {
        root = r;
        set = s;
        top = top;
        at = at;
        left = (IsPartition-IsClass accepted g r s h top at).own;
        right = m;
      }

      merged_roots :
          (g : Groups) (l r : ℕ) (s t : List ℕ)
          → lookup l g.parent ≡ some l
          → lookup r g.parent ≡ some r
          → lookup l g.members ≡ some s
          → lookup r g.members ≡ some t
          → (l == r) ≡ false
          → AreAccepted accepted s t
          → IsPartition accepted g
          → Yields IsNever (IsMerged accepted g l r) (join (min l r) (max l r) g)
      merged_roots g l r s t tl tr al ar apart cross h =
          let distinct : ¬ (l ≡ r) = λ q. ground (arith, beq_self r) in
          elim (Bool-cases (leb l r)) [
            | inl le ↦
                let less : l < r = ground arith in
                let a : min l r ≡ l = omega arith in
                let b : max l r ≡ r = ground arith in
                subst (λ i. Yields IsNever (IsMerged accepted g l r) (join i (max l r) g)) (sym a)
                  (subst (λ i. Yields IsNever (IsMerged accepted g l r) (join l i g)) (sym b)
                    (join-IsMerged g l r s t less tl tr al ar cross h))
            | inr gt ↦
                let less : r < l = ground arith in
                let a : min l r ≡ r = omega arith in
                let b : max l r ≡ l = ground arith in
                subst (λ i. Yields IsNever (IsMerged accepted g l r) (join i (max l r) g)) (sym a)
                  (subst (λ i. Yields IsNever (IsMerged accepted g l r) (join r i g)) (sym b)
                    (Yields-map
                      (λ k m. record { part = m.part; grow = m.grow; decided = swap k m.decided })
                      (join-IsMerged g r l t s less tr tl ar al
                        (λ x y m n.
                          subst (λ e. contains accepted e ≡ true) (pair_comm accepted y x)
                            (cross y x n m))
                        h)))
          ]
        where
          swap : (k : Groups) → IsDecided accepted k r l → IsDecided accepted k l r
          swap k (inl t) = inl (Together-swap k r l t)
          swap k (inr b) = inr (record {
            one = b.other;
            other = b.one;
            left = b.right;
            right = b.left;
            different =
                subst (λ e. contains accepted e ≡ false) (pair_comm accepted b.one b.other)
                  b.different;
          })

  -- What is decided for the roots of two claims is decided for the claims, and stays so.
  pub Decided-moves :
      (g h : Groups) (x y l r : ℕ)
      → IsPartition accepted h
      → ((a b : ℕ) → IsTogether g a b → IsTogether h a b)
      → IsTogether h x l
      → IsTogether h y r
      → IsDecided accepted h l r
      → IsDecided accepted h x y
  Decided-moves g h x y l r p grow tx ty (inl t) = inl (
      Together-chain accepted h x l y p tx
        (Together-chain accepted h l r y p t (Together-swap h y r ty)))
  Decided-moves g h x y l r p grow tx ty (inr b) = inr (record {
    one = b.one;
    other = b.other;
    left = Together-chain accepted h x l b.one p tx b.left;
    right = Together-chain accepted h y r b.other p ty b.right;
    different = b.different;
  })

  Decided-grows :
      (g h : Groups) (x y : ℕ)
      → ((a b : ℕ) → IsTogether g a b → IsTogether h a b)
      → IsDecided accepted g x y
      → IsDecided accepted h x y
  Decided-grows g h x y grow (inl t) = inl (grow x y t)
  Decided-grows g h x y grow (inr b) = inr (record {
    one = b.one;
    other = b.other;
    left = grow x b.one b.left;
    right = grow y b.other b.right;
    different = b.different;
  })

  pub record AreMerged (pairs : List (ℕ × ℕ)) (g h : Groups) : Type 0 where
    pub part : IsPartition accepted h
    pub grow : (x y : ℕ) → IsTogether g x y → IsTogether h x y
    pub decided : All (λ p. IsDecided accepted h p.0 p.1) pairs

  -- Every pair ends in one group, or its claims in groups that cannot be one.
  pub merge_pairs-AreMerged :
      (pairs : List (ℕ × ℕ)) (g : Groups)
      → IsPartition accepted g
      → Yields IsNever (AreMerged pairs g) (merge_pairs accepted pairs g)
  unfolding merge_pairs
  merge_pairs-AreMerged [] g h = returns (record { part = h; grow = λ x y t. t; decided = tt })
  merge_pairs-AreMerged ((x, y) ∷ pairs) g h =
      Yields-bind _ _ (find-IsFound accepted g x h) λ left fl.
        Yields-bind _ _ (find-IsFound accepted left.1 y fl.part) λ right fr.
          Yields-bind _ _
            (merge_roots-IsMerged right.1 left.0 right.0 (fr.later.tops left.0 fl.top) fr.top
              fr.part)
            λ next m.
              Yields-map
                (λ k rest. record {
                  part = rest.part;
                  grow = λ a b t.
                      rest.grow a b (m.grow a b (fr.later.together a b (fl.later.together a b t)));
                  decided = (
                    Decided-grows next k x y rest.grow (
                        Decided-moves right.1 next x y left.0 right.0 m.part m.grow
                          (m.grow x left.0 (fr.later.together x left.0 fl.own))
                          (m.grow y right.0 fr.own) m.decided),
                    rest.decided,
                  );
                })
                (merge_pairs-AreMerged pairs next m.part)
