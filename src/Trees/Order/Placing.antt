-- ===== src/Trees/Order/Placing.antt =====
-- The `while pending` loop: it ends with every section placed, or with the fault of the sections.
use mathlib.Core.List.{Perm}
use ai_researcher.Prelude.{
  Yields, returns, raises, Yields-bind, ℕ, zero, suc, ◌<◌, ◌≡◌, refl, sym, ap, subst, ◌∙◌, inl, inr,
  Bool, true, false, Option, none, some, List, [], ◌∷◌, ◌++◌, append-nil, if_ind, nat_eq, length,
  is_empty, All, All-map, All_intro, contains, Distinct, lookup, keys, values, lookup_of_contains,
  contains-map-sort, Distinct-map-sort, sort, place, sort-perm, Bool-cases, arith,
}
use ai_researcher.Trees.Errors.{cycle}
use ai_researcher.Trees.Order.{
  SectionTreeInput, Depths, Progress, section_ids, below, depth_under, depth_for, has_parent,
  place_all, precedes, is_distinct, order_sections,
}
use ai_researcher.Trees.Order.Layers.{HasDepth, IsParentFirst, IsStuck, IsLayered}
use ai_researcher.Trees.Order.Passes.{IsFault, duplicates, closed, visit_all-IsLayered}

abbrev restarted : Progress → Progress
restarted w = record w { pending = []; progressed = false }

restart-IsLayered :
    (sections : List SectionTreeInput) (known : List ℕ) (before : ℕ) (w : Progress)
    → IsLayered sections known before [] w
    → IsLayered sections known (length w.ordered) w.pending (restarted w)
restart-IsLayered sections known before w c = record {
  perm =
      subst (λ s. Perm s sections)
        (append-nil (w.ordered ++ w.pending)
          ∙ ap (λ s. s ++ w.pending) (sym (append-nil w.ordered)))
        c.perm;
  size = omega (arith, c.size);
  covers = λ a. ground (arith, c.covers a);
  distinct_pending = tt;
  distinct_rest = c.distinct_pending;
  apart_pending = tt;
  apart_rest = c.apart_pending;
  apart = All_intro _ w.pending (λ y. refl);
  same_keys = c.same_keys;
  layers = c.layers;
  shallow = c.shallow;
  parents = c.parents;
  idle = λ p. tt;
  still = λ p. omega arith;
  grown = omega arith;
  gain = λ p. cc;
}

-- A parent without a depth has not been placed.
unplaced :
    (p : ℕ) (depths : Depths) → below (lookup p depths) ≡ none → contains (keys depths) p ≡ false
unplaced p depths h = elim (Bool-cases (contains (keys depths) p)) [
  | inr out ↦ out
  | inl placed ↦
      let (d, e) = lookup_of_contains p depths placed in
      absurd (some_not_none d (sym (ap (λ (o : Option ℕ). below o) e) ∙ h))
]
  where
    some_not_none : (d : ℕ) → below (some d) ≡ none → ⊥
    some_not_none d q = cc

module _ (sections : List SectionTreeInput) (before : ℕ) (w : Progress)
    (c : IsLayered sections (section_ids sections) before [] w) where
  stuck-closed :
      (x : SectionTreeInput)
      → IsStuck (section_ids sections) w.depths x
      → (p : ℕ) × (x.parent_id ≡ some p) × (contains (section_ids w.pending) p ≡ true)
  unfolding has_parent depth_for
  stuck-closed x s = go x.parent_id refl s.0 s.1
    where
      go :
          (o : Option ℕ)
          → x.parent_id ≡ o
          → elim o as (λ _. Bool) [ none ↦ true | some p ↦ contains (section_ids sections) p ]
            ≡ true
          → depth_under o w.depths ≡ none
          → (p : ℕ) × (x.parent_id ≡ some p) × (contains (section_ids w.pending) p ≡ true)
      go none e known deep = cc
      go (some p) e known deep =
          let out : contains (section_ids w.ordered) p ≡ false =
            subst (λ (l : List ℕ). contains l p ≡ false) c.same_keys (unplaced p w.depths deep) in
          (p, e, ground (arith, c.covers p))

  cycle-IsFault : w.progressed ≡ false → is_empty w.pending ≡ false → IsFault sections cycle
  cycle-IsFault idle some_left =
      closed w.pending w.ordered (subst (λ s. Perm s sections) (append-nil _) c.perm) some_left
        (All-map _ _ w.pending stuck-closed (c.idle idle))

nonempty : {A : Type 0} (xs : List A) → 0 < length xs → is_empty xs ≡ false
nonempty [] h = absurd (omega arith)
nonempty (x ∷ xs) h = refl

pub positive : {A : Type 0} (xs : List A) → is_empty xs ≡ false → 0 < length xs
positive [] h = cc
positive (x ∷ xs) h = omega arith

-- The contract of `_order_sections`: the sections, each as often as it was given, parents before
-- children, and for each its depth, which is below the number of sections.
pub record IsPlaced (sections : List SectionTreeInput) (ordered : List SectionTreeInput)
    (depths : Depths) : Type 0 where
  pub perm : Perm ordered sections
  pub size : length ordered ≡ length sections
  pub same_keys : keys depths ≡ section_ids ordered
  pub layers : All (HasDepth depths) ordered
  pub shallow : All (λ d. d < length ordered) (values depths)
  pub parents : IsParentFirst [] ordered

empty_of : (xs : List SectionTreeInput) → is_empty xs ≡ true → xs ≡ []
empty_of [] h = refl
empty_of (x ∷ xs) h = cc

-- Between two passes.
abbrev IsWaiting : List SectionTreeInput → Progress → Type 0
IsWaiting sections w =
    IsLayered sections (section_ids sections) (length w.ordered) w.pending (restarted w)

done-IsPlaced :
    (sections : List SectionTreeInput) (w : Progress)
    → IsWaiting sections w
    → is_empty w.pending ≡ true
    → IsPlaced sections w.ordered w.depths
done-IsPlaced sections w c done = record {
  perm =
      subst (λ s. Perm s sections)
        (ap (λ s. (w.ordered ++ []) ++ s) (empty_of w.pending done)
          ∙ append-nil (w.ordered ++ [])
          ∙ append-nil w.ordered)
        c.perm;
  size =
      omega (arith, c.size, ap (λ (l : List SectionTreeInput). length l) (empty_of w.pending done));
  same_keys = c.same_keys;
  layers = c.layers;
  shallow = c.shallow;
  parents = c.parents;
}

-- With more fuel than sections to place, every section is placed, or there is a fault.
place_all-IsPlaced :
    (sections : List SectionTreeInput) (fuel : ℕ) (w : Progress)
    → IsWaiting sections w
    → length w.pending < fuel
    → Yields
        (IsFault sections)
        (λ v. IsPlaced sections v.ordered v.depths)
        (place_all fuel (section_ids sections) w)
unfolding place_all
place_all-IsPlaced sections zero w c h = absurd (omega arith)
place_all-IsPlaced sections (suc fuel) w c h =
    if_ind (Yields _ _) (is_empty w.pending) (λ done. returns (done-IsPlaced sections w c done))
      (λ more.
        Yields-bind _ _ (visit_all-IsLayered sections (length w.ordered) w.pending (restarted w) c)
          λ next d.
            if_ind (Yields _ _) next.progressed
              (λ moved.
                place_all-IsPlaced sections fuel next
                  (restart-IsLayered sections _ (length w.ordered) next d)
                  (omega (arith, d.size, c.size, d.gain moved)))
              (λ idle. raises (
                cycle-IsFault sections (length w.ordered) next d idle (
                  nonempty next.pending
                    (omega (arith, positive w.pending more, d.still idle, d.size, c.size))))))

-- The sort by ordinal keeps the identifiers.
distinct_ids : (ids : List ℕ) → is_distinct ids ≡ true → Distinct ids
unfolding is_distinct
distinct_ids [] h = tt
distinct_ids (i ∷ ids) h = (ground arith, distinct_ids ids (ground arith))

length-place :
    (x : SectionTreeInput) (ys : List SectionTreeInput)
    → length (place precedes x ys) ≡ suc (length ys)
length-place x [] = refl
length-place x (y ∷ ys) =
    if_ind (λ l. length l ≡ suc (suc (length ys))) (precedes x y) (λ _. refl)
      (λ _. ap suc (length-place x ys))

pub length-sorted : (xs : List SectionTreeInput) → length (sort precedes xs) ≡ length xs
length-sorted [] = refl
length-sorted (x ∷ xs) = length-place x (sort precedes xs) ∙ ap suc (length-sorted xs)

abbrev unplaced_all : List SectionTreeInput → Progress
unplaced_all sections = record {
  ordered = [];
  depths = [];
  pending = sort precedes sections;
  progressed = false;
}

start-IsWaiting :
    (sections : List SectionTreeInput)
    → is_distinct (section_ids sections) ≡ true
    → IsWaiting sections (unplaced_all sections)
start-IsWaiting sections d = record {
  perm = sort-perm precedes sections;
  size = omega (arith, length-sorted sections);
  covers = λ a. sym (contains-map-sort precedes (λ x. x.id) sections a);
  distinct_pending = tt;
  distinct_rest =
      Distinct-map-sort precedes (λ x. x.id) sections (distinct_ids (section_ids sections) d);
  apart_pending = tt;
  apart_rest = All_intro _ _ (λ y. refl);
  apart = All_intro _ _ (λ y. refl);
  same_keys = refl;
  layers = tt;
  shallow = tt;
  parents = tt;
  idle = λ p. tt;
  still = λ p. omega arith;
  grown = omega arith;
  gain = λ p. cc;
}

-- `_order_sections` returns the sections in an order that keeps its contract, or raises the fault
-- of the sections: its loop ends.
pub order_sections-IsPlaced :
    (sections : List SectionTreeInput)
    → Yields (IsFault sections) (λ r. IsPlaced sections r.0 r.1) (order_sections sections)
unfolding order_sections
order_sections-IsPlaced sections = elim (Bool-cases (is_distinct (section_ids sections))) [
  | inl d ↦ rw d (
      Yields-bind _ _
        (place_all-IsPlaced sections (suc (length sections)) (unplaced_all sections)
          (start-IsWaiting sections d) (omega (arith, length-sorted sections)))
        λ v placed. returns placed)
  | inr d ↦ rw d (raises (duplicates d))
]
