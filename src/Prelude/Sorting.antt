-- ===== src/Prelude/Sorting.antt =====
-- Python's `sorted`, which is stable: `before a b` says that the key of `a` is not above that of
-- `b`, and elements with equal keys keep their order.
use mathlib.Core.Path.{◌≡◌, refl, sym, ◌∙◌}
use mathlib.Core.Logic.{◌⊎◌, inl, inr}
use mathlib.Core.Bool.{Bool, true, false, ◌||◌}
use mathlib.Core.List.{List, [], ◌∷◌, map, Perm}
use mathlib.Core.List.Perm
use native.Mathlib.Omega.{arith}
use ai_researcher.Prelude.Tests.{if◌then◌else◌, Bool-cases}
use ai_researcher.Prelude.Equality.{Comparable, ◌==◌, beq_comm}
use ai_researcher.Prelude.Lists.{if_ind, select, All, All-map, All_map_intro}
use ai_researcher.Prelude.Selections.{Exists}
use ai_researcher.Prelude.Membership.{contains, Distinct}

module _ {ℓ} {A : Type ℓ} (before : A → A → Bool) where
  abbrev pub place : A → List A → List A
  place x [] = x ∷ []
  place x (y ∷ ys) = if before x y then x ∷ y ∷ ys else y ∷ place x ys

  abbrev pub sort : List A → List A
  sort [] = []
  sort (x ∷ xs) = place x (sort xs)

  abbrev pub IsSorted : List A → Type 0
  IsSorted [] = Unit
  IsSorted (x ∷ xs) = All (λ y. before x y ≡ true) xs × IsSorted xs

  pub place-perm : (x : A) (ys : List A) → Perm (place x ys) (x ∷ ys)
  place-perm x [] = Perm.refl _
  place-perm x (y ∷ ys) = elim (Bool-cases (before x y)) [
    | inl h ↦ rw h (Perm.refl _)
    | inr h ↦ rw h (Perm.trans (Perm.cons y (place-perm x ys)) (Perm.swap x y ys))
  ]

  pub sort-perm : (xs : List A) → Perm (sort xs) xs
  sort-perm [] = Perm.refl _
  sort-perm (x ∷ xs) = Perm.trans (place-perm x (sort xs)) (Perm.cons x (sort-perm xs))

  pub All-place {κ} : (P : A → Type κ) (x : A) (ys : List A) → P x → All P ys → All P (place x ys)
  All-place P x [] h k = (h, tt)
  All-place P x (y ∷ ys) h k = elim (Bool-cases (before x y)) [
    | inl p ↦ rw p (h, k)
    | inr p ↦ rw p (k.0, All-place P x ys h k.1)
  ]

  pub All-sort {κ} : (P : A → Type κ) (xs : List A) → All P xs → All P (sort xs)
  All-sort P [] h = tt
  All-sort P (x ∷ xs) h = All-place P x (sort xs) h.0 (All-sort P xs h.1)

module _ {ℓ} {A : Type ℓ} (before : A → A → Bool)
    (total : (a b : A) → before a b ≡ false → before b a ≡ true)
    (chain : (a b c : A) → before a b ≡ true → before b c ≡ true → before a c ≡ true) where
  place-IsSorted : (x : A) (ys : List A) → IsSorted before ys → IsSorted before (place before x ys)
  place-IsSorted x [] s = (tt, tt)
  place-IsSorted x (y ∷ ys) s = elim (Bool-cases (before x y)) [
    | inl h ↦ rw h ((h, All-map _ _ ys (λ z. chain x y z h) s.0), s)
    | inr h ↦ rw h (All-place before _ x ys (total x y h) s.0, place-IsSorted x ys s.1)
  ]

  pub sort-IsSorted : (xs : List A) → IsSorted before (sort before xs)
  sort-IsSorted [] = tt
  sort-IsSorted (x ∷ xs) = place-IsSorted x (sort before xs) (sort-IsSorted xs)

module _ {ℓ} {A : Type ℓ} ⦃e : Comparable A⦄ (before : A → A → Bool) where
  contains-place :
      (x : A) (ys : List A) (a : A) → contains (place before x ys) a ≡ (x == a || contains ys a)
  contains-place x [] a = refl
  contains-place x (y ∷ ys) a = ground (arith, contains-place x ys a)

  pub contains-sort : (xs : List A) (a : A) → contains (sort before xs) a ≡ contains xs a
  contains-sort [] a = refl
  contains-sort (x ∷ xs) a = ground (arith, contains-place x (sort before xs) a, contains-sort xs a)

-- The keys of the elements stay, and so does that they are distinct.
module _ {ℓ κ} {A : Type ℓ} {K : Type κ} ⦃e : Comparable K⦄ (before : A → A → Bool)
    (key : A → K) where
  contains-map-place :
      (x : A) (ys : List A) (k : K)
      → contains (map key (place before x ys)) k ≡ (key x == k || contains (map key ys) k)
  contains-map-place x [] k = refl
  contains-map-place x (y ∷ ys) k =
      if_ind (λ l. contains (map key l) k ≡ (key x == k || contains (map key (y ∷ ys)) k))
        (before x y) (λ _. refl) (λ _. ground (arith, contains-map-place x ys k))

  pub contains-map-sort :
      (xs : List A) (k : K) → contains (map key (sort before xs)) k ≡ contains (map key xs) k
  contains-map-sort [] k = refl
  contains-map-sort (x ∷ xs) k =
      ground (arith, contains-map-place x (sort before xs) k, contains-map-sort xs k)

  Distinct-map-place :
      (x : A) (ys : List A)
      → contains (map key ys) (key x) ≡ false
      → Distinct (map key ys)
      → Distinct (map key (place before x ys))
  Distinct-map-place x [] h d = (refl, tt)
  Distinct-map-place x (y ∷ ys) h d =
      if_ind (λ l. Distinct (map key l)) (before x y) (λ _. (h, d))
        (λ _. (
          ground (arith, contains-map-place x ys (key y), beq_comm (key x) (key y)),
          Distinct-map-place x ys (ground arith) d.1,
        ))

  pub Distinct-map-sort :
      (xs : List A) → Distinct (map key xs) → Distinct (map key (sort before xs))
  Distinct-map-sort [] d = tt
  Distinct-map-sort (x ∷ xs) d =
      Distinct-map-place x (sort before xs) (contains-map-sort xs (key x) ∙ d.0)
        (Distinct-map-sort xs d.1)

-- The keys of what is selected are distinct too.
module _ {ℓ κ} {A : Type ℓ} {K : Type κ} ⦃e : Comparable K⦄ (test : A → Bool) (key : A → K) where
  absent-map-select :
      (xs : List A) (k : K)
      → contains (map key xs) k ≡ false
      → contains (map key (select test xs)) k ≡ false
  absent-map-select [] k h = refl
  absent-map-select (x ∷ xs) k h =
      let rest = absent-map-select xs k (ground arith) in
      if_ind (λ l. contains (map key l) k ≡ false) (test x) (λ _. ground arith) (λ _. rest)

  pub Distinct-map-select :
      (xs : List A) → Distinct (map key xs) → Distinct (map key (select test xs))
  Distinct-map-select [] d = tt
  Distinct-map-select (x ∷ xs) d =
      let rest = Distinct-map-select xs d.1 in
      if_ind (λ l. Distinct (map key l)) (test x) (λ _. (absent-map-select xs (key x) d.0, rest))
        (λ _. rest)

pub map-IsSorted {ℓ κ} :
    {A : Type ℓ} {B : Type κ} (before : A → A → Bool) (before' : B → B → Bool) (f : A → B)
    (xs : List A)
    → ((a b : A) → before a b ≡ true → before' (f a) (f b) ≡ true)
    → IsSorted before xs
    → IsSorted before' (map f xs)
map-IsSorted before before' f [] h s = tt
map-IsSorted before before' f (x ∷ xs) h s =
    (All_map_intro _ _ f xs (h x) s.0, map-IsSorted before before' f xs h s.1)

module _ {ℓ κ} {A : Type ℓ} (before : A → A → Bool) (P : A → Type κ) where
  All_of_place : (x : A) (ys : List A) → All P (place before x ys) → P x × All P ys
  All_of_place x [] h = (h.0, tt)
  All_of_place x (y ∷ ys) h =
      if_ind (λ l. All P l → P x × All P (y ∷ ys)) (before x y) (λ _ k. k)
        (λ _ k. let (p, q) = All_of_place x ys k.1 in (p, (k.0, q))) h

  -- What holds of the sorted elements holds of all.
  pub All_of_sort : (xs : List A) → All P (sort before xs) → All P xs
  All_of_sort [] h = tt
  All_of_sort (x ∷ xs) h = let (p, q) = All_of_place x (sort before xs) h in (p, All_of_sort xs q)

module _ {ℓ} {A : Type ℓ} (before : A → A → Bool)
    (total : (a b : A) → before a b ≡ false → before b a ≡ true)
    (chain : (a b c : A) → before a b ≡ true → before b c ≡ true → before a c ≡ true)
    (test : A → Bool) where
  place_first : (x : A) (ys : List A) → All (λ y. before x y ≡ true) ys → place before x ys ≡ x ∷ ys
  place_first x [] h = refl
  place_first x (y ∷ ys) h = ground (arith, h.0)

  select_all : (P : A → Type 0) (ys : List A) → All P ys → All P (select test ys)
  select_all P [] h = tt
  select_all P (y ∷ ys) h =
      if_ind (λ l. All P l) (test y) (λ _. (h.0, select_all P ys h.1)) (λ _. select_all P ys h.1)

  select-place :
      (x : A) (ys : List A)
      → IsSorted before ys
      → select test (place before x ys)
        ≡ (if test x then place before x (select test ys) else select test ys)
  select-place x [] s = refl
  select-place x (y ∷ ys) s = elim (Bool-cases (before x y)) [
    | inl h ↦
        let later =
          place_first x (select test (y ∷ ys))
            (select_all _ (y ∷ ys) (h, All-map _ _ ys (λ z. chain x y z h) s.0)) in
        rw h (
          if_ind
            (λ l.
              l ≡ (if test x then place before x (select test (y ∷ ys)) else select test (y ∷ ys)))
            (test x) (λ p. rw p (sym later)) (λ p. rw p refl))
    | inr h ↦ rw h (ground (arith, select-place x ys s.1))
  ]

  -- The sort commutes with a selection.
  pub select-sort : (xs : List A) → select test (sort before xs) ≡ sort before (select test xs)
  select-sort [] = refl
  select-sort (x ∷ xs) =
      select-place x (sort before xs) (sort-IsSorted before total chain xs)
      ∙ ground (arith, select-sort xs)

module _ {ℓ} {A : Type ℓ} (before : A → A → Bool) (P : A → Type 0) where
  Exists-place : (x : A) (ys : List A) → P x ⊎ Exists P ys → Exists P (place before x ys)
  Exists-place x [] h = h
  Exists-place x (y ∷ ys) h =
      if_ind (Exists P) (before x y) (λ _. h)
        (λ _. elim h [
          | inl p ↦ inr (Exists-place x ys (inl p))
          | inr e ↦ elim e [ inl p ↦ inl p | inr k ↦ inr (Exists-place x ys (inr k)) ]
        ])

  pub Exists-sort : (xs : List A) → Exists P xs → Exists P (sort before xs)
  Exists-sort [] h = h
  Exists-sort (x ∷ xs) h =
      Exists-place x (sort before xs) (elim h [ inl p ↦ inl p | inr e ↦ inr (Exists-sort xs e) ])
