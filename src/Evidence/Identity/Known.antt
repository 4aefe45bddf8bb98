-- ===== src/Evidence/Identity/Known.antt =====
-- The two `setdefault`s of `find`.
use ai_researcher.Prelude.{
  ℕ, ◌≡◌, refl, sym, ap, subst, ◌∙◌, ◌⊎◌, inl, inr, true, false, some, List, [], ◌∷◌, nat_eq,
  pair_eq, beq_self, eq_of_beq, contains, lookup, insert, keys, lookup-insert_cases,
  lookup-insert_self, lookup-insert_new, contains-keys-insert, contains_of_lookup,
  lookup_of_contains, Distinct-insert, Bool-cases, arith,
}
use ai_researcher.Evidence.Identity.{Groups, known}
use ai_researcher.Evidence.Identity.Partition.{
  IsTogether, IsClass, IsLeft, IsPartition, IsLater, IsPartition-IsClass, IsClass-keeps,
}

module _ (accepted : List (ℕ × ℕ)) where
  single-IsClass :
      (parent : List (ℕ × ℕ)) (i : ℕ)
      → lookup i parent ≡ some i
      → IsClass accepted parent i (i ∷ [])
  single-IsClass parent i top = record {
    top = top;
    own = ground (arith, beq_self i);
    least = λ x m. let q = only x m in omega arith;
    clique = λ x y m n l. let p = only x m in let q = only y n in absurd (omega arith);
    inside = λ x m.
        subst (λ j. contains (keys parent) j ≡ true) (only x m) (contains_of_lookup i i parent top);
    distinct = (refl, tt);
  }
    where
      only : (x : ℕ) → contains (i ∷ []) x ≡ true → i ≡ x
      only x m = eq_of_beq i x (ground arith)

  -- A claim that is known as a parent is no root if it has no set.
  left-IsPartition :
      (g : Groups) (i : ℕ)
      → contains (keys g.parent) i ≡ true
      → contains (keys g.members) i ≡ false
      → IsPartition accepted g
      → IsPartition accepted (record g { members = insert i (i ∷ []) g.members })
        × IsLater g (record g { members = insert i (i ∷ []) g.members })
  left-IsPartition g i old new p =
      let (up, higher) = lookup_of_contains i g.parent old in
      let no_root : ¬ (lookup i g.parent ≡ some i) =
        λ top. let (s, at) = p.rooted i top in cc (sym new ∙ contains_of_lookup i s g.members at) in
      let grow : (x y : ℕ)
          → IsTogether g x y
          → IsTogether (record g { members = insert i (i ∷ []) g.members }) x y =
        λ x y t. record {
          root = t.root;
          set = t.set;
          top = t.top;
          at = lookup-insert_new i t.root (i ∷ []) t.set g.members new t.at;
          left = t.left;
          right = t.right;
        } in
      let back : (r : ℕ) (s : List ℕ)
          → lookup r g.parent ≡ some r
          → lookup r (insert i (i ∷ []) g.members) ≡ some s
          → lookup r g.members ≡ some s =
        λ r s top at. elim (lookup-insert_cases i r (i ∷ []) s g.members at) [
          | inl same ↦ absurd (no_root (subst (λ j. lookup j g.parent ≡ some j) (sym same.0) top))
          | inr other ↦ other.1
        ] in
      (
        record {
          below = p.below;
          rooted = λ r top.
              let (s, at) = p.rooted r top in
              (s, lookup-insert_new i r (i ∷ []) s g.members new at);
          owned = λ r s at. elim (lookup-insert_cases i r (i ∷ []) s g.members at) [
            | inr other ↦ p.owned r s other.1
            | inl same ↦ inr (record {
              sole = sym same.1 ∙ ap (λ j. j ∷ []) same.0;
              up = up;
              higher = subst (λ j. lookup j g.parent ≡ some up) same.0 higher;
              apart =
                  λ q. no_root (subst (λ j. lookup i g.parent ≡ some j) (q ∙ sym same.0) higher);
            })
          ];
          apart = λ q r s t x tq aq tr ar m n.
              p.apart q r s t x tq (back q s tq aq) tr (back r t tr ar) m n;
          shared = λ x q h. grow x q (p.shared x q h);
          once = Distinct-insert i (i ∷ []) g.members p.once;
        },
        record { together = grow; tops = λ r h. h },
      )

  -- A claim that is not known yet becomes a root.
  new-IsPartition :
      (g : Groups) (i : ℕ)
      → contains (keys g.parent) i ≡ false
      → contains (keys g.members) i ≡ false
      → IsPartition accepted g
      → let h : Groups = record {
        parent = insert i i g.parent;
        members = insert i (i ∷ []) g.members;
      } in
        IsPartition accepted h × IsLater g h
  new-IsPartition g i new fresh p =
      let h : Groups = record {
        parent = insert i i g.parent;
        members = insert i (i ∷ []) g.members;
      } in
      let top = lookup-insert_self i i g.parent in
      let tops : (x y : ℕ) → lookup x g.parent ≡ some y → lookup x (insert i i g.parent) ≡ some y =
        λ x y. lookup-insert_new i x i y g.parent new in
      let more : (x : ℕ)
          → contains (keys g.parent) x ≡ true
          → contains (keys (insert i i g.parent)) x ≡ true =
        λ x m. ground (arith, contains-keys-insert i x i g.parent) in
      let grow : (x y : ℕ) → IsTogether g x y → IsTogether h x y = λ x y t. record {
        root = t.root;
        set = t.set;
        top = tops t.root t.root t.top;
        at = lookup-insert_new i t.root (i ∷ []) t.set g.members fresh t.at;
        left = t.left;
        right = t.right;
      } in
      let stranger : (r : ℕ) (s : List ℕ)
          → lookup r g.parent ≡ some r
          → lookup r g.members ≡ some s
          → contains s i ≡ true
          → ⊥ =
        λ r s t a m. cc (sym new ∙ (IsPartition-IsClass accepted g r s p t a).inside i m) in
      let owned : (r : ℕ) (s : List ℕ)
          → lookup r h.members ≡ some s
          → IsClass accepted h.parent r s ⊎ IsLeft h.parent r s =
        λ r s at. elim (lookup-insert_cases i r (i ∷ []) s g.members at) [
          | inl same ↦ inl (
              subst (λ t. IsClass accepted h.parent r t) same.1
                (subst (λ j. IsClass accepted h.parent j (i ∷ [])) same.0
                  (single-IsClass h.parent i top)))
          | inr other ↦ elim (p.owned r s other.1) [
            | inl c ↦ inl (IsClass-keeps accepted g.parent h.parent r s (tops r r c.top) more c)
            | inr l ↦ inr (record {
              sole = l.sole;
              up = l.up;
              higher = tops r l.up l.higher;
              apart = l.apart;
            })
          ]
        ] in
      (
        record {
          below = λ x q e. elim (lookup-insert_cases i x i q g.parent e) [
            | inl same ↦ let a = same.0 in let b = same.1 in omega arith
            | inr other ↦ p.below x q other.1
          ];
          rooted = λ r e. elim (lookup-insert_cases i r i r g.parent e) [
            | inl same ↦ (
              i ∷ [],
              subst (λ j. lookup j h.members ≡ some (i ∷ [])) same.0
                  (lookup-insert_self i (i ∷ []) g.members),
            )
            | inr other ↦
                let (s, at) = p.rooted r other.1 in
                (s, lookup-insert_new i r (i ∷ []) s g.members fresh at)
          ];
          owned = owned;
          apart = λ q r s t x tq aq tr ar m n.
              elim (lookup-insert_cases i q (i ∷ []) s g.members aq) [
                | inl a ↦ elim (lookup-insert_cases i r (i ∷ []) t g.members ar) [
                  | inl b ↦ sym a.0 ∙ b.0
                  | inr b ↦ elim (lookup-insert_cases i r i r g.parent tr) [
                    | inl c ↦ sym a.0 ∙ c.0
                    | inr c ↦ absurd (stranger r t c.1 b.1 (at_new s x a.1 m t n))
                  ]
                ]
                | inr a ↦ elim (lookup-insert_cases i q i q g.parent tq) [
                  | inl c ↦ absurd (
                      cc (
                        sym fresh
                        ∙ ap (contains (keys g.members)) c.0
                        ∙ contains_of_lookup q s g.members a.1))
                  | inr c ↦ elim (lookup-insert_cases i r (i ∷ []) t g.members ar) [
                    | inl b ↦ absurd (stranger q s c.1 a.1 (at_new t x b.1 n s m))
                    | inr b ↦ elim (lookup-insert_cases i r i r g.parent tr) [
                      | inl d ↦ absurd (
                          cc (
                            sym fresh
                            ∙ ap (contains (keys g.members)) d.0
                            ∙ contains_of_lookup r t g.members b.1))
                      | inr d ↦ p.apart q r s t x c.1 a.1 d.1 b.1 m n
                    ]
                  ]
                ]
              ];
          shared = λ x q e. elim (lookup-insert_cases i x i q g.parent e) [
            | inl same ↦
                subst (λ j. IsTogether h j q) same.0
                  (subst (λ j. IsTogether h i j) same.1
                    (record {
                      root = i;
                      set = i ∷ [];
                      top = top;
                      at = lookup-insert_self i (i ∷ []) g.members;
                      left = ground (arith, beq_self i);
                      right = ground (arith, beq_self i);
                    }))
            | inr other ↦ grow x q (p.shared x q other.1)
          ];
          once = Distinct-insert i (i ∷ []) g.members p.once;
        },
        record { together = grow; tops = λ r. tops r r },
      )
    where
      at_new :
          (s : List ℕ) (x : ℕ)
          → (i ∷ []) ≡ s
          → contains s x ≡ true
          → (t : List ℕ) → contains t x ≡ true
          → contains t i ≡ true
      at_new s x q m t n =
          let m' : contains (i ∷ []) x ≡ true = subst (λ u. contains u x ≡ true) (sym q) m in
          subst (λ j. contains t j ≡ true) (sym (eq_of_beq i x (ground arith))) n

  -- The two `setdefault`s of `find`.
  pub known-IsPartition :
      (g : Groups) (i : ℕ)
      → IsPartition accepted g
      → (IsPartition accepted (known i g) × IsLater g (known i g))
        × (contains (keys (known i g).parent) i ≡ true)
  unfolding known
  known-IsPartition g i p = elim (Bool-cases (contains (keys g.parent) i)) [
    | inl old ↦ elim (Bool-cases (contains (keys g.members) i)) [
      | inl set ↦ rw (old, set, old) ((p, record { together = λ x y t. t; tops = λ r t. t }), refl)
      | inr new ↦ rw (old, new, old) (left-IsPartition g i old new p, refl)
    ]
    | inr new ↦ elim (Bool-cases (contains (keys g.members) i)) [
      | inl set ↦
          let (s, at) = lookup_of_contains i g.members set in
          absurd (elim (p.owned i s at) [
            | inl c ↦ cc (sym new ∙ contains_of_lookup i i g.parent c.top)
            | inr l ↦ cc (sym new ∙ contains_of_lookup i l.up g.parent l.higher)
          ])
      | inr fresh ↦
          rw (new, fresh)
            (
              new-IsPartition g i new fresh p,
              ground (arith, contains-keys-insert i i i g.parent, beq_self i),
            )
    ]
  ]
