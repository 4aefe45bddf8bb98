-- ===== src/Retrieval/Store/Places.antt =====
-- The order of the nodes of a scope: by the places of their papers, the depths and the identifiers.
use ai_researcher.Prelude.{
  ℕ, suc, ◌+◌, ◌≤◌, ◌<◌, ◌≡◌, refl, sym, ap, ◌∙◌, ◌⊎◌, inl, inr, true, false, some, List, [], ◌∷◌,
  ◌++◌, length, map, nat_eq, ◌==◌, eq_of_beq, Bool-cases, All, contains, lookup, insert,
  lookup-insert, IsSorted, arith,
}
use ai_researcher.Trees.Build.{TreeRow}
use ai_researcher.Retrieval.Store.{paper_order, key_order}

-- The last place of a paper in the proposal, counted from 0.
pub record IsAt (paper_ids : List ℕ) (paper_id place : ℕ) : Type 0 where
  pub before : List ℕ
  pub after : List ℕ
  pub split : paper_ids ≡ before ++ paper_id ∷ after
  pub last : contains after paper_id ≡ false
  pub counted : place ≡ length before

-- The paper of a row comes before that of another; or they are the same and the row is less deep,
-- or as deep and its identifier not above.
pub record IsAhead (paper_ids : List ℕ) (a b : TreeRow) : Type 0 where
  pub first : ℕ
  pub second : ℕ
  pub place_first : IsAt paper_ids a.node.paper_id first
  pub place_second : IsAt paper_ids b.node.paper_id second
  pub ahead :
      (first < second)
      ⊎ ((first ≡ second)
          × ((a.node.depth < b.node.depth) ⊎ ((a.node.depth ≡ b.node.depth) × (a.id ≤ b.id))))

-- Every row is ahead of all that follow.
abbrev pub AreInOrder : List ℕ → List TreeRow → Type 0
AreInOrder paper_ids [] = Unit
AreInOrder paper_ids (r ∷ rows) = All (IsAhead paper_ids r) rows × AreInOrder paper_ids rows

abbrev IsEntry : ℕ → List ℕ → List (ℕ × ℕ) → ℕ → ℕ → Type 0
IsEntry index paper_ids d i p =
    ((contains paper_ids i ≡ false) × (lookup i d ≡ some p))
    ⊎ ((place : ℕ) × IsAt paper_ids i place × (p ≡ index + place))

-- What the dictionary holds, built from the place `index` on.
paper_order-IsEntry :
    (index : ℕ) (paper_ids : List ℕ) (d : List (ℕ × ℕ)) (i p : ℕ)
    → lookup i (paper_order index paper_ids d) ≡ some p
    → IsEntry index paper_ids d i p
unfolding paper_order
paper_order-IsEntry index [] d i p h = inl (refl, h)
paper_order-IsEntry index (j ∷ paper_ids) d i p h =
    elim (paper_order-IsEntry (suc index) paper_ids (insert j index d) i p h) [
      | inr (place, at, q) ↦ inr (
        suc place,
        record {
          before = j ∷ at.before;
          after = at.after;
          split = ap (λ (l : List ℕ). j ∷ l) at.split;
          last = at.last;
          counted = ap suc at.counted;
        },
        omega arith,
      )
      | inl (out, q) ↦ elim (Bool-cases (j == i)) [
        | inl same ↦
            let found : some index ≡ some p = sym (rw same at (lookup-insert j i index d)) ∙ q in
            inr (
              0,
              record {
                before = [];
                after = paper_ids;
                split = ap (λ k. k ∷ paper_ids) (eq_of_beq j i same);
                last = out;
                counted = refl;
              },
              (let e : index ≡ p = cc in omega arith),
            )
        | inr apart ↦ inl (ground arith, sym (rw apart at (lookup-insert j i index d)) ∙ q)
      ]
    ]

paper_order-IsAt :
    (paper_ids : List ℕ) (i p : ℕ)
    → lookup i (paper_order 0 paper_ids []) ≡ some p
    → IsAt paper_ids i p
paper_order-IsAt paper_ids i p h = elim (paper_order-IsEntry 0 paper_ids [] i p h) [
  | inl (out, q) ↦ cc
  | inr (place, at, q) ↦ record {
    before = at.before;
    after = at.after;
    split = at.split;
    last = at.last;
    counted = (let e = at.counted in omega (arith, q));
  }
]

abbrev pub HasPlace : List (ℕ × ℕ) → ℕ × TreeRow → Type 0
HasPlace order p = lookup p.1.node.paper_id order ≡ some p.0

key_order-IsAhead :
    (paper_ids : List ℕ) (p q : ℕ × TreeRow)
    → HasPlace (paper_order 0 paper_ids []) p
    → HasPlace (paper_order 0 paper_ids []) q
    → key_order p q ≡ true
    → IsAhead paper_ids p.1 q.1
key_order-IsAhead paper_ids p q h k o = record {
  first = p.0;
  second = q.0;
  place_first = paper_order-IsAt paper_ids p.1.node.paper_id p.0 h;
  place_second = paper_order-IsAt paper_ids q.1.node.paper_id q.0 k;
  ahead = ground arith;
}

-- Rows sorted by their keys are in order.
pub sorted-AreInOrder :
    (paper_ids : List ℕ) (keyed : List (ℕ × TreeRow))
    → All (HasPlace (paper_order 0 paper_ids [])) keyed
    → IsSorted key_order keyed
    → AreInOrder paper_ids (map (λ p. p.1) keyed)
sorted-AreInOrder paper_ids [] h s = tt
sorted-AreInOrder paper_ids (p ∷ keyed) h s =
    (all keyed h.1 s.0, sorted-AreInOrder paper_ids keyed h.1 s.1)
  where
    all :
        (l : List (ℕ × TreeRow))
        → All (HasPlace (paper_order 0 paper_ids [])) l
        → All (λ q. key_order p q ≡ true) l
        → All (IsAhead paper_ids p.1) (map (λ q. q.1) l)
    all [] k o = tt
    all (q ∷ l) k o = (key_order-IsAhead paper_ids p q h.0 k.0 o.0, all l k.1 o.1)
