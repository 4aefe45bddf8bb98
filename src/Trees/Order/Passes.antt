-- ===== src/Trees/Order/Passes.antt =====
-- Each turn of a pass keeps the invariant; so do a pass and the whole loop, whose fuel suffices.
use mathlib.Core.List.{Perm, perm_middle}
use mathlib.Core.List.Perm
use ai_researcher.Prelude.{
  Yields, returns, raises, ℕ, ◌≡◌, refl, sym, ap, subst, ◌∙◌, inl, inr, true, false, Option, none,
  some, List, [], ◌∷◌, ◌++◌, append_assoc, nat_eq, length, length-append, is_empty, All, All-append,
  All-map, contains, contains-append, Distinct, Distinct-snoc, lookup, insert, keys, values,
  lookup-insert, All-values-insert, keys-insert_new, Bool-cases, arith,
}
use ai_researcher.Trees.Errors.{Error, missing_parent, cycle, duplicate_ids}
use ai_researcher.Trees.Order.{
  SectionTreeInput, Depths, Progress, section_ids, depth_for, has_parent, visited, visit_all,
  is_distinct,
}
use ai_researcher.Trees.Order.Layers.{
  section_ids-append, IsApart, IsApart-snoc, HasDepth-insert, depth_under-insert,
  IsParentFirst-snoc, IsStuck, IsLayered, Perm-place, has_parent_of_depth, depth_bound,
}

ids-snoc :
    (xs : List SectionTreeInput) (x : SectionTreeInput)
    → section_ids (xs ++ x ∷ []) ≡ section_ids xs ++ x.id ∷ []
ids-snoc xs x = section_ids-append xs (x ∷ [])

here : (k d : ℕ) (depths : Depths) → lookup k (insert k d depths) ≡ some d
here k d depths = ground (arith, lookup-insert k k d depths)

module _ (sections : List SectionTreeInput) (known : List ℕ) (before : ℕ) where
  leave-IsLayered :
      (item : SectionTreeInput) (rest : List SectionTreeInput) (w : Progress)
      → IsLayered sections known before (item ∷ rest) w
      → IsStuck known w.depths item
      → IsLayered sections known before rest (visited item none w)
  leave-IsLayered item rest w c stuck = record {
    perm =
        subst (λ s. Perm s sections)
          (sym (
            ap (λ s. s ++ rest) (sym (append_assoc w.ordered w.pending (item ∷ [])))
            ∙ append_assoc (w.ordered ++ w.pending) (item ∷ []) rest))
          c.perm;
    size = omega (arith, c.size, length-append w.pending (item ∷ []));
    covers = λ a. ground (
      arith,
      c.covers a,
      ids-snoc w.pending item,
      contains-append (section_ids w.pending) (item.id ∷ []) a,
    );
    distinct_pending =
        subst (λ (l : List ℕ). Distinct l) (sym (ids-snoc w.pending item))
          (Distinct-snoc (section_ids w.pending) item.id c.distinct_pending c.apart.0);
    distinct_rest = c.distinct_rest.1;
    apart_pending = All-append _ w.pending (item ∷ []) c.apart_pending (c.apart_rest.0, tt);
    apart_rest = c.apart_rest.1;
    apart =
        subst (λ l. IsApart l rest) (sym (ids-snoc w.pending item))
          (IsApart-snoc (section_ids w.pending) item.id rest c.apart.1 c.distinct_rest.0);
    same_keys = c.same_keys;
    layers = c.layers;
    shallow = c.shallow;
    parents = c.parents;
    idle = λ p. All-append _ w.pending (item ∷ []) (c.idle p) (stuck, tt);
    still = c.still;
    grown = c.grown;
    gain = c.gain;
  }

  place-IsLayered :
      (item : SectionTreeInput) (rest : List SectionTreeInput) (w : Progress) (d : ℕ)
      → IsLayered sections known before (item ∷ rest) w
      → depth_for item w.depths ≡ some d
      → IsLayered sections known before rest (visited item (some d) w)
  unfolding depth_for
  place-IsLayered item rest w d c deep =
      let new : contains (keys w.depths) item.id ≡ false =
        subst (λ (l : List ℕ). contains l item.id ≡ false) (sym c.same_keys) c.apart_rest.0 in
      let more = length-append w.ordered (item ∷ []) in
      record {
        perm = Perm.trans (Perm-place item w.ordered w.pending rest) c.perm;
        size = omega (arith, c.size, more);
        covers = λ a. ground (
          arith,
          c.covers a,
          ids-snoc w.ordered item,
          contains-append (section_ids w.ordered) (item.id ∷ []) a,
        );
        distinct_pending = c.distinct_pending;
        distinct_rest = c.distinct_rest.1;
        apart_pending =
            subst (λ l. IsApart l w.pending) (sym (ids-snoc w.ordered item))
              (IsApart-snoc (section_ids w.ordered) item.id w.pending c.apart_pending c.apart.0);
        apart_rest =
            subst (λ l. IsApart l rest) (sym (ids-snoc w.ordered item))
              (IsApart-snoc (section_ids w.ordered) item.id rest c.apart_rest.1 c.distinct_rest.0);
        apart = c.apart.1;
        same_keys =
            keys-insert_new item.id d w.depths new
            ∙ ap (λ l. l ++ item.id ∷ []) c.same_keys
            ∙ sym (ids-snoc w.ordered item);
        layers =
            All-append _ w.ordered (item ∷ [])
              (All-map _ _ w.ordered (λ x. HasDepth-insert w.depths item.id d x new) c.layers)
              (
                (
                  d,
                  depth_under-insert w.depths item.id d d item.parent_id new deep,
                  here item.id d w.depths,
                ),
                tt,
              );
        shallow =
            All-values-insert _ item.id d w.depths
              (omega (
                arith,
                more,
                depth_bound w.depths (length w.ordered) d item.parent_id c.shallow deep,
              ))
              (All-map _ _ (values w.depths) (λ e h. omega (arith, more)) c.shallow);
        parents = IsParentFirst-snoc [] w.ordered item c.parents (
            subst (λ l. has_parent l item ≡ true) c.same_keys
              (has_parent_of_depth w.depths item d deep));
        idle = λ p. cc;
        still = λ p. cc;
        grown = omega (arith, c.grown, more);
        gain = λ p. omega (arith, c.grown, more);
      }

-- Why a paper's sections cannot be ordered. A cycle is a set of sections that all have a parent in
-- the set.
pub data IsFault (sections : List SectionTreeInput) : Error → Type 0 where
  duplicates : is_distinct (section_ids sections) ≡ false → IsFault sections duplicate_ids
  orphan :
      (x : SectionTreeInput) (others : List SectionTreeInput)
      → Perm (x ∷ others) sections
      → has_parent (section_ids sections) x ≡ false
      → IsFault sections missing_parent
  closed :
      (stuck others : List SectionTreeInput)
      → Perm (others ++ stuck) sections
      → is_empty stuck ≡ false
      → All (λ x. (p : ℕ) × (x.parent_id ≡ some p) × (contains (section_ids stuck) p ≡ true)) stuck
      → IsFault sections cycle

module _ (sections : List SectionTreeInput) (before : ℕ) where
  visit-IsLayered :
      (item : SectionTreeInput) (rest : List SectionTreeInput) (w : Progress)
      → has_parent (section_ids sections) item ≡ true
      → IsLayered sections (section_ids sections) before (item ∷ rest) w
      → IsLayered sections
          (section_ids sections)
          before
          rest
          (visited item (depth_for item w.depths) w)
  visit-IsLayered item rest w known c = go (depth_for item w.depths) refl
    where
      go :
          (o : Option ℕ)
          → depth_for item w.depths ≡ o
          → IsLayered sections (section_ids sections) before rest (visited item o w)
      go none e = leave-IsLayered sections _ before item rest w c (known, e)
      go (some d) e = place-IsLayered sections _ before item rest w d c e

  pub visit_all-IsLayered :
      (rest : List SectionTreeInput) (w : Progress)
      → IsLayered sections (section_ids sections) before rest w
      → Yields
          (IsFault sections)
          (IsLayered sections (section_ids sections) before [])
          (visit_all (section_ids sections) rest w)
  unfolding visit_all
  visit_all-IsLayered [] w c = returns c
  visit_all-IsLayered (item ∷ rest) w c =
      elim (Bool-cases (has_parent (section_ids sections) item)) [
        | inl known ↦ rw known (
            visit_all-IsLayered rest (visited item (depth_for item w.depths) w)
              (visit-IsLayered item rest w known c))
        | inr lost ↦ rw lost (
            raises (
              orphan item ((w.ordered ++ w.pending) ++ rest)
                (Perm.trans (Perm.symm (perm_middle (w.ordered ++ w.pending) rest)) c.perm) lost))
      ]
