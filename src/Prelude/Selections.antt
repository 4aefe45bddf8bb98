-- ===== src/Prelude/Selections.antt =====
-- Comprehensions, and lists where some element has a property.
use mathlib.Core.Path.{◌≡◌, refl, sym, ap, subst}
use mathlib.Core.Bool.{Bool, true, false}
use mathlib.Core.Option.{Option, none, some}
use mathlib.Core.Logic.{◌⊎◌, inl, inr}
use mathlib.Core.List.{Mem, mem-cons_self, mem-cons_of_mem, List, [], ◌∷◌, ◌++◌, map}
use ai_researcher.Prelude.Tests.{if◌then◌else◌, Bool-cases}
use ai_researcher.Prelude.Lists.{All, All-map, if_ind, select}

-- `[y for x in xs for y in f(x)]`
abbrev pub concat_map {ℓ κ} : {A : Type ℓ} {B : Type κ} → (A → List B) → List A → List B
concat_map f [] = []
concat_map f (x ∷ xs) = f x ++ concat_map f xs

-- The values that `f` gives.
abbrev pub filter_map {ℓ κ} : {A : Type ℓ} {B : Type κ} → (A → Option B) → List A → List B
filter_map f [] = []
filter_map f (x ∷ xs) = elim (f x) [ none ↦ filter_map f xs | some y ↦ y ∷ filter_map f xs ]

-- Some element has the property.
abbrev pub Exists {ℓ} : {A : Type ℓ} → (A → Type 0) → List A → Type 0
Exists P [] = ⊥
Exists P (x ∷ xs) = P x ⊎ Exists P xs

module _ {ℓ κ} {A : Type ℓ} where
  pub All-select :
      (P : A → Type κ) (test : A → Bool) (xs : List A)
      → All P xs
      → All (λ a. (test a ≡ true) × P a) (select test xs)
  All-select P test [] h = tt
  All-select P test (x ∷ xs) h =
      if_ind (λ l. All (λ a. (test a ≡ true) × P a) l) (test x)
        (λ q. ((q, h.0), All-select P test xs h.1)) (λ _. All-select P test xs h.1)

  -- What holds of the selected elements holds of those that pass the test.
  pub All_of_select :
      (P : A → Type κ) (test : A → Bool) (xs : List A)
      → All P (select test xs)
      → All (λ a. test a ≡ true → P a) xs
  All_of_select P test [] h = tt
  All_of_select P test (x ∷ xs) h =
      if_ind (λ l. All P l → All (λ a. test a ≡ true → P a) (x ∷ xs)) (test x)
        (λ q k. (λ _. k.0, All_of_select P test xs k.1))
        (λ q k. (λ p. cc, All_of_select P test xs k)) h

pub All_mem {ℓ} : {A : Type ℓ} (xs : List A) → All (λ a. Mem a xs) xs
All_mem [] = tt
All_mem (x ∷ xs) = (mem-cons_self, All-map _ _ xs (λ a m. mem-cons_of_mem x m) (All_mem xs))

pub All-both {ℓ κ μ} :
    {A : Type ℓ} (P : A → Type κ) (Q : A → Type μ) (xs : List A)
    → All P xs
    → All Q xs
    → All (λ a. P a × Q a) xs
All-both P Q [] h k = tt
All-both P Q (x ∷ xs) h k = ((h.0, k.0), All-both P Q xs h.1 k.1)

module _ {ℓ κ} {A : Type ℓ} {B : Type κ} (f : A → Option B) where
  pub All-filter_map {μ ν} :
      (P : A → Type μ) (Q : B → Type ν) (xs : List A)
      → ((a : A) (b : B) → P a → f a ≡ some b → Q b)
      → All P xs
      → All Q (filter_map f xs)
  All-filter_map P Q [] g h = tt
  All-filter_map P Q (x ∷ xs) g h = go (f x) refl (All-filter_map P Q xs g h.1)
    where
      go :
          (o : Option B)
          → f x ≡ o
          → All Q (filter_map f xs)
          → All Q
              (elim o as (λ _. List B) [ none ↦ filter_map f xs | some y ↦ y ∷ filter_map f xs ])
      go none q k = k
      go (some y) q k = (g x y h.0 q, k)

  pub Exists-filter_map :
      (P : A → Type 0) (Q : B → Type 0) (xs : List A)
      → ((a : A) → P a → (b : B) × (f a ≡ some b) × Q b)
      → Exists P xs
      → Exists Q (filter_map f xs)
  Exists-filter_map P Q [] g h = h
  Exists-filter_map P Q (x ∷ xs) g (inl p) =
      let (y, q, r) = g x p in
      subst
        (λ o.
          Exists Q
            (elim o as (λ _. List B) [ none ↦ filter_map f xs | some y ↦ y ∷ filter_map f xs ]))
        (sym q) (inl r)
  Exists-filter_map P Q (x ∷ xs) g (inr e) = go (f x) (Exists-filter_map P Q xs g e)
    where
      go :
          (o : Option B)
          → Exists Q (filter_map f xs)
          → Exists Q
              (elim o as (λ _. List B) [ none ↦ filter_map f xs | some y ↦ y ∷ filter_map f xs ])
      go none k = k
      go (some y) k = inr k

module _ {ℓ} {A : Type ℓ} where
  pub Exists-weaken :
      (P Q : A → Type 0) (xs : List A) → ((a : A) → P a → Q a) → Exists P xs → Exists Q xs
  Exists-weaken P Q [] f h = h
  Exists-weaken P Q (x ∷ xs) f (inl p) = inl (f x p)
  Exists-weaken P Q (x ∷ xs) f (inr e) = inr (Exists-weaken P Q xs f e)

  pub Exists-left : (P : A → Type 0) (xs ys : List A) → Exists P xs → Exists P (xs ++ ys)
  Exists-left P [] ys h = absurd h
  Exists-left P (x ∷ xs) ys (inl p) = inl p
  Exists-left P (x ∷ xs) ys (inr e) = inr (Exists-left P xs ys e)

  pub Exists-right : (P : A → Type 0) (xs ys : List A) → Exists P ys → Exists P (xs ++ ys)
  Exists-right P [] ys h = h
  Exists-right P (x ∷ xs) ys h = inr (Exists-right P xs ys h)

  pub Exists-map {κ} :
      {B : Type κ} (P : A → Type 0) (Q : B → Type 0) (f : A → B) (xs : List A)
      → ((a : A) → P a → Q (f a))
      → Exists P xs
      → Exists Q (map f xs)
  Exists-map P Q f [] g h = h
  Exists-map P Q f (x ∷ xs) g (inl p) = inl (g x p)
  Exists-map P Q f (x ∷ xs) g (inr e) = inr (Exists-map P Q f xs g e)

  pub Exists-both :
      (P Q : A → Type 0) (xs : List A) → All P xs → Exists Q xs → Exists (λ a. P a × Q a) xs
  Exists-both P Q [] h e = e
  Exists-both P Q (x ∷ xs) h (inl q) = inl (h.0, q)
  Exists-both P Q (x ∷ xs) h (inr e) = inr (Exists-both P Q xs h.1 e)

  -- What is selected is there.
  pub Exists-select :
      (P : A → Type 0) (test : A → Bool) (xs : List A)
      → Exists (λ a. (test a ≡ true) × P a) xs
      → Exists P (select test xs)
  Exists-select P test [] h = h
  Exists-select P test (x ∷ xs) (inl p) = rw p.0 (inl p.1)
  Exists-select P test (x ∷ xs) (inr e) =
      let ih = Exists-select P test xs e in
      if_ind (λ l. Exists P l) (test x) (λ _. inr ih) (λ _. ih)

  pub select-append :
      (test : A → Bool) (xs ys : List A) → select test (xs ++ ys) ≡ select test xs ++ select test ys
  select-append test [] ys = refl
  select-append test (x ∷ xs) ys =
      let ih = select-append test xs ys in
      if_ind (λ l. l ≡ (if test x then x ∷ select test xs else select test xs) ++ select test ys)
        (test x) (λ q. rw q (ap (λ l. x ∷ l) ih)) (λ q. rw q ih)

module _ {ℓ} {A : Type ℓ} (test : A → Bool) where
  pub select_all : (xs : List A) → All (λ a. test a ≡ true) xs → select test xs ≡ xs
  select_all [] h = refl
  select_all (x ∷ xs) h = rw h.0 (ap (λ l. x ∷ l) (select_all xs h.1))

  pub select_none : (xs : List A) → All (λ a. test a ≡ false) xs → select test xs ≡ []
  select_none [] h = refl
  select_none (x ∷ xs) h = rw h.0 (select_none xs h.1)

  -- A wider test before selects nothing out.
  pub select-select :
      (wide : A → Bool) (xs : List A)
      → ((a : A) → test a ≡ true → wide a ≡ true)
      → select test (select wide xs) ≡ select test xs
  select-select wide [] f = refl
  select-select wide (x ∷ xs) f =
      let ih = select-select wide xs f in
      elim (Bool-cases (test x)) [
        | inl in_both ↦ rw (f x in_both, in_both) (ap (λ l. x ∷ l) ih)
        | inr out ↦
            rw out
              (if_ind (λ l. select test l ≡ select test xs) (wide x) (λ _. rw out ih) (λ _. ih))
      ]

pub All-Exists {κ} :
    {A : Type 0} (P : A → Type κ) (xs : List A) (a : A) → All P xs → Exists (λ x. x ≡ a) xs → P a
All-Exists P [] a h e = absurd e
All-Exists P (x ∷ xs) a h (inl same) = subst P same h.0
All-Exists P (x ∷ xs) a h (inr e) = All-Exists P xs a h.1 e

pub Exists-self : {A : Type 0} (xs : List A) → All (λ a. Exists (λ x. x ≡ a) xs) xs
Exists-self [] = tt
Exists-self (x ∷ xs) = (inl refl, All-map _ _ xs (λ a h. inr h) (Exists-self xs))
