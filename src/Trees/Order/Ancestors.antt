-- ===== src/Trees/Order/Ancestors.antt =====
-- The chain of ancestors of an ordered section, and where `_flattened_parent_id` hangs the section.
use ai_researcher.Prelude.{
  ℕ, zero, suc, ◌<◌, ◌≡◌, refl, subst, inl, inr, Bool, true, Option, none, some, List, [], ◌∷◌,
  ◌++◌, nat_eq, ◌==◌, eq_of_beq, All, contains, lookup, Bool-cases, arith, ok,
}
use ai_researcher.Trees.Order.{
  SectionTreeInput, Depths, section_ids, below, depth_under, depth_for, has_parent, by_id,
  ancestors, first_at_depth,
}
use ai_researcher.Trees.Order.Layers.{HasDepth}

-- The sections of a prefix of the order: each has its depth, and its parent in the prefix.
abbrev pub IsClosed : Depths → List ℕ → List SectionTreeInput → Type 0
IsClosed depths seen xs = All (λ x. HasDepth depths x × (has_parent seen x ≡ true)) xs

by_id_lem :
    (P : SectionTreeInput → Type 0) (p : ℕ) (pre post : List SectionTreeInput)
    → All P pre
    → contains (section_ids pre) p ≡ true
    → (x : SectionTreeInput) × (by_id p (pre ++ post) ≡ some x) × (x.id ≡ p) × P x
unfolding by_id
by_id_lem P p [] post h k = cc
by_id_lem P p (x ∷ pre) post h k = elim (Bool-cases (x.id == p)) [
  | inl e ↦ (x, rw e, eq_of_beq x.id p e, h.0)
  | inr e ↦ let (y, q, r, s) = by_id_lem P p pre post h.1 (ground arith) in (y, rw e q, r, s)
]

-- The ancestors of a section of depth `d`, nearest first, with the depths below `d` down to 0, all of
-- them in the prefix.
abbrev pub Descends : Depths → List ℕ → ℕ → List ℕ → Type 0
Descends depths seen d [] = d ≡ 0
Descends depths seen d (a ∷ rest) =
    (e : ℕ) × (d ≡ suc e)
    × (lookup a depths ≡ some e)
    × (contains seen a ≡ true)
    × Descends depths seen e rest

pub below-eq-some : (o : Option ℕ) (d : ℕ) → below o ≡ some d → (e : ℕ) × (o ≡ some e) × (d ≡ suc e)
below-eq-some none d h = cc
below-eq-some (some e) d h = (e, refl, ground arith)

-- The parent, if there is one, is in the prefix.
abbrev pub IsKnownParent : List ℕ → Option ℕ → Type 0
IsKnownParent seen none = Unit
IsKnownParent seen (some p) = contains seen p ≡ true

pub known_of_has_parent :
    (seen : List ℕ) (x : SectionTreeInput)
    → has_parent seen x ≡ true
    → IsKnownParent seen x.parent_id
unfolding has_parent
known_of_has_parent seen x h = go x.parent_id h
  where
    go :
        (o : Option ℕ)
        → elim o as (λ _. Bool) [ none ↦ true | some p ↦ contains seen p ] ≡ true
        → IsKnownParent seen o
    go none q = tt
    go (some p) q = q

pub same_depth :
    (depths : Depths) (k d e : ℕ) → lookup k depths ≡ some d → lookup k depths ≡ some e → d ≡ e
same_depth depths k d e p q = ground arith

module _ (depths : Depths) (pre post : List SectionTreeInput)
    (closed : IsClosed depths (section_ids pre) pre) where
  pub ancestors_lem :
      (fuel d : ℕ) (parent : Option ℕ)
      → depth_under parent depths ≡ some d
      → IsKnownParent (section_ids pre) parent
      → d < fuel
      → (above : List ℕ) × (ancestors fuel (pre ++ post) parent ≡ ok above)
        × Descends depths (section_ids pre) d above
  unfolding ancestors depth_for
  ancestors_lem zero d parent h k f = absurd (omega arith)
  ancestors_lem (suc fuel) d none h k f = ([], refl, ground arith)
  ancestors_lem (suc fuel) d (some p) h k f =
      let (e, deep, step) = below-eq-some (lookup p depths) d h in
      let (x, found, named, (layer, known)) = by_id_lem _ p pre post closed k in
      let same : layer.0 ≡ e =
        same_depth depths p layer.0 e (subst (λ i. lookup i depths ≡ some layer.0) named layer.2)
          deep in
      let (above, run, down) =
        ancestors_lem fuel e x.parent_id (subst (λ n. depth_for x depths ≡ some n) same layer.1)
          (known_of_has_parent (section_ids pre) x known) (omega arith) in
      (p ∷ above, rw (found, run), (e, step, deep, k, down))

pub first_at_depth_lem :
    (target d : ℕ) (depths : Depths) (seen above : List ℕ)
    → Descends depths seen d above
    → target < d
    → (a : ℕ) × (first_at_depth target depths above ≡ ok a)
      × (lookup a depths ≡ some target)
      × (contains seen a ≡ true)
unfolding first_at_depth
first_at_depth_lem target d depths seen [] h k = absurd (omega arith)
first_at_depth_lem target d depths seen (a ∷ above) (e, step, deep, known, down) k =
    elim (Bool-cases (e == target)) [
      | inl q ↦ (a, rw (deep, q), ground arith, known)
      | inr q ↦
          let (b, run, at, within) =
            first_at_depth_lem target e depths seen above down (ground arith) in
          (b, rw (deep, q) run, at, within)
    ]
