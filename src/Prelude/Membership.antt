-- ===== src/Prelude/Membership.antt =====
-- Membership as the program tests it (`x in xs`), lists without repetition, and their laws.
use mathlib.Core.Path.{◌≡◌, refl, ap, subst}
use mathlib.Core.Logic.{inl, inr}
use mathlib.Core.Bool.{Bool, true, false, ◌&&◌, ◌||◌}
use mathlib.Core.List.{List, [], ◌∷◌, ◌++◌}
use native.Mathlib.Omega.{arith}
use ai_researcher.Prelude.Tests.{Bool-cases}
use ai_researcher.Prelude.Equality.{Comparable, ◌==◌, eq_of_beq, beq_comm, beq_self}
use ai_researcher.Prelude.Lists.{All, every, select}

module _ {ℓ} {A : Type ℓ} ⦃e : Comparable A⦄ where
  -- `a in xs`
  abbrev pub contains : List A → A → Bool
  contains [] a = false
  contains (x ∷ xs) a = (x == a) || contains xs a

  -- No element twice.
  abbrev pub Distinct : List A → Type 0
  Distinct [] = Unit
  Distinct (x ∷ xs) = (contains xs x ≡ false) × Distinct xs

  -- `set(xs) == set(ys)`
  abbrev pub same_set : List A → List A → Bool
  same_set xs ys = every (contains ys) xs && every (contains xs) ys

module _ {ℓ} {A : Type ℓ} ⦃e : Comparable A⦄ where
  pub contains-append :
      (xs ys : List A) (a : A) → contains (xs ++ ys) a ≡ (contains xs a || contains ys a)
  contains-append [] ys a = refl
  contains-append (x ∷ xs) ys a = ground (arith, contains-append xs ys a)

  pub contains-select :
      (test : A → Bool) (xs : List A) (a : A)
      → contains (select test xs) a ≡ true
      → (contains xs a ≡ true) × (test a ≡ true)
  contains-select test [] a h = cc
  contains-select test (x ∷ xs) a h = elim (Bool-cases (x == a)) [
    | inl p ↦
        let ih = contains-select test xs a in
        let q : test x ≡ test a = ap test (eq_of_beq x a p) in ground (arith, ih)
    | inr p ↦ ground (arith, contains-select test xs a)
  ]

  -- A fact about every element holds of any element.
  pub All-contains {κ} :
      (P : A → Type κ) (xs : List A) (a : A) → All P xs → contains xs a ≡ true → P a
  All-contains P [] a h m = cc
  All-contains P (x ∷ xs) a h m = elim (Bool-cases (x == a)) [
    | inl p ↦ subst P (eq_of_beq x a p) h.0
    | inr p ↦ All-contains P xs a h.1 (ground arith)
  ]

  pub every-contains :
      (test : A → Bool) (xs : List A) (a : A)
      → every test xs ≡ true
      → contains xs a ≡ true
      → test a ≡ true
  every-contains test [] a h m = cc
  every-contains test (x ∷ xs) a h m = elim (Bool-cases (x == a)) [
    | inl p ↦ let q : test x ≡ test a = ap test (eq_of_beq x a p) in ground arith
    | inr p ↦ every-contains test xs a (ground arith) (ground arith)
  ]

  pub Distinct-append :
      (xs ys : List A)
      → Distinct xs
      → Distinct ys
      → All (λ x. contains ys x ≡ false) xs
      → Distinct (xs ++ ys)
  Distinct-append [] ys dx dy h = dy
  Distinct-append (x ∷ xs) ys dx dy h =
      (ground (arith, contains-append xs ys x), Distinct-append xs ys dx.1 dy h.1)

  pub Distinct-left : (xs ys : List A) → Distinct (xs ++ ys) → Distinct xs
  Distinct-left [] ys d = tt
  Distinct-left (x ∷ xs) ys d = (ground (arith, contains-append xs ys x), Distinct-left xs ys d.1)

  pub Distinct-snoc :
      (xs : List A) (a : A) → Distinct xs → contains xs a ≡ false → Distinct (xs ++ a ∷ [])
  Distinct-snoc [] a d h = (refl, tt)
  Distinct-snoc (x ∷ xs) a d h = (
    ground (arith, contains-append xs (a ∷ []) x, beq_comm x a),
    Distinct-snoc xs a d.1 (ground arith),
  )

  pub All_of_contains {κ} :
      (P : A → Type κ) (xs : List A) → ((a : A) → contains xs a ≡ true → P a) → All P xs
  All_of_contains P [] f = tt
  All_of_contains P (x ∷ xs) f =
      (f x (ground (arith, beq_self x)), All_of_contains P xs (λ a h. f a (ground arith)))
