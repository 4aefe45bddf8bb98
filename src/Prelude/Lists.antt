-- ===== src/Prelude/Lists.antt =====
-- Lists measured and indexed by native numbers, under the library's names.
use Prim.Native.Nat.{ℕ, zero, suc, ◌+◌, ◌≤◌, min}
use mathlib.Core.Path.{◌≡◌, refl, ap}
use mathlib.Core.Bool.{Bool, true, false, ◌&&◌, ◌||◌}
use mathlib.Core.List.{List, [], ◌∷◌, ◌++◌, map}
use native.Mathlib.Omega.{arith}
use ai_researcher.Prelude.Tests.{if◌then◌else◌}

module _ {ℓ} {A : Type ℓ} where
  abbrev pub length : List A → ℕ
  length [] = 0
  length (x ∷ xs) = suc (length xs)

  -- `xs[:n]`
  abbrev pub take : ℕ → List A → List A
  take zero xs = []
  take (suc n) [] = []
  take (suc n) (x ∷ xs) = x ∷ take n xs

  -- `xs[n:]`
  abbrev pub drop : ℕ → List A → List A
  drop zero xs = xs
  drop (suc n) [] = []
  drop (suc n) (x ∷ xs) = drop n xs

  -- `[x for x in xs if test(x)]`
  abbrev pub select : (A → Bool) → List A → List A
  select test [] = []
  select test (x ∷ xs) = if test x then x ∷ select test xs else select test xs

  -- `any(test(x) for x in xs)` and `all(…)`
  abbrev pub any : (A → Bool) → List A → Bool
  any test [] = false
  any test (x ∷ xs) = test x || any test xs

  abbrev pub every : (A → Bool) → List A → Bool
  every test [] = true
  every test (x ∷ xs) = test x && every test xs

  abbrev pub is_empty : List A → Bool
  is_empty [] = true
  is_empty (x ∷ xs) = false

  abbrev pub All {κ} : (A → Type κ) → List A → Type κ
  All P [] = Unit
  All P (x ∷ xs) = P x × All P xs

module _ {ℓ} {A : Type ℓ} where
  pub length-append : (xs ys : List A) → length (xs ++ ys) ≡ length xs + length ys
  length-append [] ys = omega arith
  length-append (x ∷ xs) ys = omega (arith, length-append xs ys)

  pub take-append-drop : (n : ℕ) (xs : List A) → take n xs ++ drop n xs ≡ xs
  take-append-drop zero xs = refl
  take-append-drop (suc n) [] = refl
  take-append-drop (suc n) (x ∷ xs) = ap (λ l. x ∷ l) (take-append-drop n xs)

  pub length-take : (n : ℕ) (xs : List A) → length (take n xs) ≡ min n (length xs)
  length-take zero xs = omega arith
  length-take (suc n) [] = omega arith
  length-take (suc n) (x ∷ xs) = omega (arith, length-take n xs)

  pub length-map {κ} : {B : Type κ} (f : A → B) (xs : List A) → length (map f xs) ≡ length xs
  length-map f [] = refl
  length-map f (x ∷ xs) = ap suc (length-map f xs)

  pub length-select-le : (test : A → Bool) (xs : List A) → length (select test xs) ≤ length xs
  length-select-le test [] = omega arith
  length-select-le test (x ∷ xs) = ground (arith, length-select-le test xs)

module _ {ℓ κ} {A : Type ℓ} where
  pub All-append : (P : A → Type κ) (xs ys : List A) → All P xs → All P ys → All P (xs ++ ys)
  All-append P [] ys h k = k
  All-append P (x ∷ xs) ys h k = (h.0, All-append P xs ys h.1 k)

  pub All-left : (P : A → Type κ) (xs ys : List A) → All P (xs ++ ys) → All P xs
  All-left P [] ys h = tt
  All-left P (x ∷ xs) ys h = (h.0, All-left P xs ys h.1)

  pub All-right : (P : A → Type κ) (xs ys : List A) → All P (xs ++ ys) → All P ys
  All-right P [] ys h = h
  All-right P (x ∷ xs) ys h = All-right P xs ys h.1

  pub All-map {μ} :
      (P : A → Type κ) (Q : A → Type μ) (xs : List A) → ((a : A) → P a → Q a) → All P xs → All Q xs
  All-map P Q [] f h = tt
  All-map P Q (x ∷ xs) f h = (f x h.0, All-map P Q xs f h.1)

  pub All_intro : (P : A → Type κ) (xs : List A) → ((a : A) → P a) → All P xs
  All_intro P [] f = tt
  All_intro P (x ∷ xs) f = (f x, All_intro P xs f)

-- A property of both branches is one of the conditional.
pub if_ind {ℓ κ} :
    {A : Type ℓ} (P : A → Type κ) (b : Bool) {x y : A}
    → (b ≡ true → P x)
    → (b ≡ false → P y)
    → P (if b then x else y)
if_ind P true f g = f refl
if_ind P false f g = g refl

pub All_map_intro {ℓ κ μ ν} :
    {A : Type ℓ} {B : Type κ} (P : A → Type μ) (Q : B → Type ν) (f : A → B) (xs : List A)
    → ((a : A) → P a → Q (f a))
    → All P xs
    → All Q (map f xs)
All_map_intro P Q f [] h k = tt
All_map_intro P Q f (x ∷ xs) h k = (h x k.0, All_map_intro P Q f xs h k.1)
