-- ===== src/Trees/Order/Layers.antt =====
-- The invariant of the placing loop of `_order_sections`.
use mathlib.Core.List.{Perm, perm_middle}
use mathlib.Core.List.Perm
use ai_researcher.Prelude.{
  ℕ, ◌+◌, ◌≤◌, ◌<◌, ◌≡◌, refl, sym, ap, subst, ◌∙◌, inl, inr, Bool, true, false, ◌||◌, Option, none,
  some, List, [], ◌∷◌, ◌++◌, append_assoc, append-nil, nat_eq, ◌==◌, length, All, contains,
  contains-append, Distinct, lookup, insert, keys, values, lookup-insert_new, contains_of_lookup,
  Bool-cases, arith,
}
use ai_researcher.Trees.Order.{
  SectionTreeInput, Depths, Progress, below, depth_under, section_ids, depth_for, has_parent,
}

pub section_ids-append :
    (xs ys : List SectionTreeInput) → section_ids (xs ++ ys) ≡ section_ids xs ++ section_ids ys
section_ids-append [] ys = refl
section_ids-append (x ∷ xs) ys = ap (λ l. x.id ∷ l) (section_ids-append xs ys)

-- No section of `ys` has an identifier of `known`.
abbrev pub IsApart : List ℕ → List SectionTreeInput → Type 0
IsApart known ys = All (λ y. contains known y.id ≡ false) ys

pub IsApart-snoc :
    (known : List ℕ) (i : ℕ) (ys : List SectionTreeInput)
    → IsApart known ys
    → contains (section_ids ys) i ≡ false
    → IsApart (known ++ i ∷ []) ys
IsApart-snoc known i [] h k = tt
IsApart-snoc known i (y ∷ ys) h k = (
  ground (arith, contains-append known (i ∷ []) y.id),
  IsApart-snoc known i ys h.1 (ground arith),
)

-- A placed section has a depth: 0 without a parent, and otherwise one more than its parent's.
abbrev pub HasDepth : Depths → SectionTreeInput → Type 0
HasDepth depths item = (d : ℕ) × (depth_for item depths ≡ some d) × (lookup item.id depths ≡ some d)

-- A parent stands before its children.
abbrev pub IsParentFirst : List ℕ → List SectionTreeInput → Type 0
IsParentFirst seen [] = Unit
IsParentFirst seen (x ∷ xs) = (has_parent seen x ≡ true) × IsParentFirst (seen ++ x.id ∷ []) xs

-- The parent of a section that cannot be placed is known, and has no depth.
abbrev pub IsStuck : List ℕ → Depths → SectionTreeInput → Type 0
IsStuck known depths item = (has_parent known item ≡ true) × (depth_for item depths ≡ none)

below-insert :
    (depths : Depths) (k v d p : ℕ) (o : Option ℕ)
    → contains (keys depths) k ≡ false
    → lookup p depths ≡ o
    → below o ≡ some d
    → below (lookup p (insert k v depths)) ≡ some d
below-insert depths k v d p none new e h = cc
below-insert depths k v d p (some x) new e h =
    ap (λ (o : Option ℕ). below o) (lookup-insert_new k p v x depths new e) ∙ h

pub depth_under-insert :
    (depths : Depths) (k v d : ℕ) (parent : Option ℕ)
    → contains (keys depths) k ≡ false
    → depth_under parent depths ≡ some d
    → depth_under parent (insert k v depths) ≡ some d
depth_under-insert depths k v d none new h = h
depth_under-insert depths k v d (some p) new h =
    below-insert depths k v d p (lookup p depths) new refl h

pub HasDepth-insert :
    (depths : Depths) (k v : ℕ) (item : SectionTreeInput)
    → contains (keys depths) k ≡ false
    → HasDepth depths item
    → HasDepth (insert k v depths) item
unfolding depth_for
HasDepth-insert depths k v item new (d, h, l) = (
  d,
  depth_under-insert depths k v d item.parent_id new h,
  lookup-insert_new k item.id v d depths new l,
)

-- `rest` is what the pass has not come by, and `before` the number of sections placed before it.
pub record IsLayered (sections : List SectionTreeInput) (known : List ℕ) (before : ℕ)
    (rest : List SectionTreeInput) (w : Progress) : Type 0 where
  pub perm : Perm ((w.ordered ++ w.pending) ++ rest) sections
  pub size : length w.ordered + length w.pending + length rest ≡ length sections
  pub covers :
      (a : ℕ)
      → contains known a ≡ (
          contains (section_ids w.ordered) a
          || contains (section_ids w.pending) a
          || contains (section_ids rest) a)
  pub distinct_pending : Distinct (section_ids w.pending)
  pub distinct_rest : Distinct (section_ids rest)
  pub apart_pending : IsApart (section_ids w.ordered) w.pending
  pub apart_rest : IsApart (section_ids w.ordered) rest
  pub apart : IsApart (section_ids w.pending) rest
  pub same_keys : keys w.depths ≡ section_ids w.ordered
  pub layers : All (HasDepth w.depths) w.ordered
  pub shallow : All (λ d. d < length w.ordered) (values w.depths)
  pub parents : IsParentFirst [] w.ordered
  pub idle : w.progressed ≡ false → All (IsStuck known w.depths) w.pending
  pub still : w.progressed ≡ false → length w.ordered ≤ before
  pub grown : before ≤ length w.ordered
  pub gain : w.progressed ≡ true → before < length w.ordered

-- The item is moved from the head of `rest` to the end of `ordered`.
pub Perm-place :
    (item : SectionTreeInput) (o l r : List SectionTreeInput)
    → Perm (((o ++ item ∷ []) ++ l) ++ r) ((o ++ l) ++ item ∷ r)
Perm-place item o l r =
    subst (λ s. Perm s ((o ++ l) ++ item ∷ r))
      (sym (ap (λ s. s ++ r) (append_assoc o (item ∷ []) l) ∙ append_assoc o (item ∷ l) r))
      (Perm.trans (perm_middle o (l ++ r)) (
        subst (λ s. Perm (item ∷ s) ((o ++ l) ++ item ∷ r)) (append_assoc o l r)
          (Perm.symm (perm_middle (o ++ l) r))))

pub IsParentFirst-snoc :
    (seen : List ℕ) (xs : List SectionTreeInput) (item : SectionTreeInput)
    → IsParentFirst seen xs
    → has_parent (seen ++ section_ids xs) item ≡ true
    → IsParentFirst seen (xs ++ item ∷ [])
IsParentFirst-snoc seen [] item h k = (rw append-nil at k, tt)
IsParentFirst-snoc seen (x ∷ xs) item h k = (
  h.0,
  IsParentFirst-snoc (seen ++ x.id ∷ []) xs item h.1 (
      subst (λ s. has_parent s item ≡ true) (sym (append_assoc seen (x.id ∷ []) (section_ids xs)))
        k),
)

-- A section that has a depth has its parent among the keys.
pub has_parent_of_depth :
    (depths : Depths) (item : SectionTreeInput) (d : ℕ)
    → depth_for item depths ≡ some d
    → has_parent (keys depths) item ≡ true
unfolding depth_for has_parent
has_parent_of_depth depths item d h = go item.parent_id h
  where
    go :
        (o : Option ℕ)
        → depth_under o depths ≡ some d
        → elim o as (λ _. Bool) [ none ↦ true | some p ↦ contains (keys depths) p ] ≡ true
    go none q = refl
    go (some p) q = at_parent (lookup p depths) refl q
      where
        at_parent :
            (l : Option ℕ)
            → lookup p depths ≡ l
            → below l ≡ some d
            → contains (keys depths) p ≡ true
        at_parent none e r = cc
        at_parent (some x) e r = contains_of_lookup p x depths e

pub value_bound :
    (p x : ℕ) (depths : Depths) (n : ℕ)
    → All (λ e. e < n) (values depths)
    → lookup p depths ≡ some x
    → x < n
value_bound p x [] n h e = cc
value_bound p x ((k, v) ∷ depths) n h e = elim (Bool-cases (k == p)) [
  | inl q ↦ ground arith
  | inr q ↦ value_bound p x depths n h.1 (ground arith)
]

-- The new depth is below the number of placed sections.
pub depth_bound :
    (depths : Depths) (n d : ℕ) (parent : Option ℕ)
    → All (λ e. e < n) (values depths)
    → depth_under parent depths ≡ some d
    → d < n + 1
depth_bound depths n d none h q = ground arith
depth_bound depths n d (some p) h q = at_parent (lookup p depths) refl q
  where
    at_parent : (l : Option ℕ) → lookup p depths ≡ l → below l ≡ some d → d < n + 1
    at_parent none e r = cc
    at_parent (some x) e r = let small : x < n = value_bound p x depths n h e in ground arith
