-- ===== src/Prelude/Dict.antt =====
-- Python's `dict`: entries in the order of first insertion, at most one for each key. Assignment
-- to a present key keeps its place.
use mathlib.Core.Path.{◌≡◌, refl, sym, ap, subst, ◌∙◌}
use mathlib.Core.Logic.{◌⊎◌, inl, inr}
use mathlib.Core.Bool.{true, false, ◌||◌}
use mathlib.Core.Option.{Option, none, some}
use mathlib.Core.List.{List, [], ◌∷◌, ◌++◌}
use native.Mathlib.Omega.{arith}
use ai_researcher.Prelude.Tests.{if◌then◌else◌, Bool-cases}
use ai_researcher.Prelude.Equality.{Comparable, ◌==◌, eq_of_beq, beq_self}
use ai_researcher.Prelude.Lists.{All, All-map, if_ind}
use ai_researcher.Prelude.Membership.{contains, Distinct, Distinct-snoc}

module _ {ℓ κ} {K : Type ℓ} {V : Type κ} where
  abbrev pub keys : List (K × V) → List K
  keys [] = []
  keys ((k, v) ∷ d) = k ∷ keys d

  abbrev pub values : List (K × V) → List V
  values [] = []
  values ((k, v) ∷ d) = v ∷ values d

module _ {ℓ κ} {K : Type ℓ} {V : Type κ} ⦃e : Comparable K⦄ where
  -- `d.get(k)`
  abbrev pub lookup : K → List (K × V) → Option V
  lookup k [] = none
  lookup k ((j, v) ∷ d) = if j == k then some v else lookup k d

  -- `d[k] = v`
  abbrev pub insert : K → V → List (K × V) → List (K × V)
  insert k v [] = (k, v) ∷ []
  insert k v ((j, w) ∷ d) = if j == k then (j, v) ∷ d else (j, w) ∷ insert k v d

  -- `d.setdefault(k, v)`
  abbrev pub set_default : K → V → List (K × V) → List (K × V)
  set_default k v d = if contains (keys d) k then d else insert k v d

  -- `d.pop(k)`, of a key that is there
  abbrev pub remove : K → List (K × V) → List (K × V)
  remove k [] = []
  remove k ((j, v) ∷ d) = if j == k then remove k d else (j, v) ∷ remove k d

module _ {ℓ κ} {K : Type ℓ} {V : Type κ} ⦃e : Comparable K⦄ where
  pub lookup-insert :
      (k j : K) (v : V) (d : List (K × V))
      → lookup j (insert k v d) ≡ (if k == j then some v else lookup j d)
  lookup-insert k j v [] = refl
  lookup-insert k j v ((i, w) ∷ d) =
      ground (arith, e.equal_iff k j, e.equal_iff i k, e.equal_iff i j, lookup-insert k j v d)

  pub contains-keys-insert :
      (k a : K) (v : V) (d : List (K × V))
      → contains (keys (insert k v d)) a ≡ (contains (keys d) a || k == a)
  contains-keys-insert k a v [] = ground arith
  contains-keys-insert k a v ((i, w) ∷ d) =
      ground
        (arith, e.equal_iff k a, e.equal_iff i k, e.equal_iff i a, contains-keys-insert k a v d)

  pub contains_of_lookup :
      (k : K) (v : V) (d : List (K × V)) → lookup k d ≡ some v → contains (keys d) k ≡ true
  contains_of_lookup k v [] h = cc
  contains_of_lookup k v ((i, w) ∷ d) h = ground (arith, contains_of_lookup k v d)

  pub lookup_of_contains :
      (k : K) (d : List (K × V)) → contains (keys d) k ≡ true → (v : V) × (lookup k d ≡ some v)
  lookup_of_contains k [] h = cc
  lookup_of_contains k ((i, w) ∷ d) h = elim (Bool-cases (i == k)) [
    | inl p ↦ (w, rw p)
    | inr p ↦ let (v, q) = lookup_of_contains k d (ground arith) in (v, rw p q)
  ]

  -- A new key goes to the end.
  pub insert_new :
      (k : K) (v : V) (d : List (K × V))
      → contains (keys d) k ≡ false
      → insert k v d ≡ d ++ (k, v) ∷ []
  insert_new k v [] h = refl
  insert_new k v ((i, w) ∷ d) h = ground (arith, insert_new k v d)

  pub keys-insert_new :
      (k : K) (v : V) (d : List (K × V))
      → contains (keys d) k ≡ false
      → keys (insert k v d) ≡ keys d ++ k ∷ []
  keys-insert_new k v [] h = refl
  keys-insert_new k v ((i, w) ∷ d) h = ground (arith, keys-insert_new k v d)

  pub keys-insert_old :
      (k : K) (v : V) (d : List (K × V)) → contains (keys d) k ≡ true → keys (insert k v d) ≡ keys d
  keys-insert_old k v [] h = cc
  keys-insert_old k v ((i, w) ∷ d) h =
      if_ind (λ s. keys s ≡ i ∷ keys d) (i == k) (λ _. refl)
        (λ apart. ap (λ l. i ∷ l) (keys-insert_old k v d (ground arith)))

  -- A new key hides no other.
  pub lookup-insert_new :
      (k j : K) (v w : V) (d : List (K × V))
      → contains (keys d) k ≡ false
      → lookup j d ≡ some w
      → lookup j (insert k v d) ≡ some w
  lookup-insert_new k j v w d new h =
      ground (arith, lookup-insert k j v d, contains_of_lookup j w d, e.equal_iff k j)

  pub All-values-insert {μ} :
      (P : V → Type μ) (k : K) (v : V) (d : List (K × V))
      → P v
      → All P (values d)
      → All P (values (insert k v d))
  All-values-insert P k v [] h a = (h, tt)
  All-values-insert P k v ((i, w) ∷ d) h a =
      if_ind (λ s. All P (values s)) (i == k) (λ _. (h, a.1))
        (λ _. (a.0, All-values-insert P k v d h a.1))

  pub All-insert {μ} :
      (P : K × V → Type μ) (k : K) (v : V) (d : List (K × V))
      → P (k, v)
      → All P d
      → All P (insert k v d)
  All-insert P k v [] h a = (h, tt)
  All-insert P k v ((i, w) ∷ d) h a =
      if_ind (λ s. All P s) (i == k)
        (λ same. (subst (λ j. P (j, v)) (sym (eq_of_beq i k same)) h, a.1))
        (λ _. (a.0, All-insert P k v d h a.1))

  pub All-lookup {μ} :
      (P : K × V → Type μ) (k : K) (v : V) (d : List (K × V))
      → All P d
      → lookup k d ≡ some v
      → P (k, v)
  All-lookup P k v [] a h = cc
  All-lookup P k v ((i, w) ∷ d) a h = elim (Bool-cases (i == k)) [
    | inl same ↦
        subst P (ap (λ j. (j, v)) (eq_of_beq i k same)) (subst (λ u. P (i, u)) (ground arith) a.0)
    | inr apart ↦ All-lookup P k v d a.1 (ground arith)
  ]

module _ {ℓ κ} {K : Type ℓ} {V : Type κ} ⦃e : Comparable K⦄ where
  -- What is found after an assignment is what was assigned, or was there.
  pub lookup-insert_cases :
      (k j : K) (v w : V) (d : List (K × V))
      → lookup j (insert k v d) ≡ some w
      → ((k ≡ j) × (v ≡ w)) ⊎ (((k == j) ≡ false) × (lookup j d ≡ some w))
  lookup-insert_cases k j v w d h = elim (Bool-cases (k == j)) [
    | inl same ↦ inl (eq_of_beq k j same, ground (arith, lookup-insert k j v d))
    | inr apart ↦ inr (apart, ground (arith, lookup-insert k j v d))
  ]

  pub lookup-insert_self : (k : K) (v : V) (d : List (K × V)) → lookup k (insert k v d) ≡ some v
  lookup-insert_self k v d = ground (arith, lookup-insert k k v d, beq_self k)

  pub lookup-insert_other :
      (k j : K) (v w : V) (d : List (K × V))
      → (k == j) ≡ false
      → lookup j d ≡ some w
      → lookup j (insert k v d) ≡ some w
  lookup-insert_other k j v w d apart h = ground (arith, lookup-insert k j v d)

  pub lookup-remove :
      (k j : K) (d : List (K × V)) → lookup j (remove k d) ≡ (if k == j then none else lookup j d)
  lookup-remove k j [] = ground arith
  lookup-remove k j ((i, w) ∷ d) =
      ground (arith, e.equal_iff k j, e.equal_iff i k, e.equal_iff i j, lookup-remove k j d)

  absent-remove :
      (k a : K) (d : List (K × V))
      → contains (keys d) a ≡ false
      → contains (keys (remove k d)) a ≡ false
  absent-remove k a [] h = refl
  absent-remove k a ((i, w) ∷ d) h =
      let ih = absent-remove k a d (ground arith) in
      if_ind (λ s. contains (keys s) a ≡ false) (i == k) (λ _. ih) (λ _. ground arith)

  pub Distinct-remove :
      (k : K) (d : List (K × V)) → Distinct (keys d) → Distinct (keys (remove k d))
  Distinct-remove k [] h = tt
  Distinct-remove k ((i, w) ∷ d) h =
      let ih = Distinct-remove k d h.1 in
      if_ind (λ s. Distinct (keys s)) (i == k) (λ _. ih) (λ _. (absent-remove k i d h.0, ih))

  pub Distinct-insert :
      (k : K) (v : V) (d : List (K × V)) → Distinct (keys d) → Distinct (keys (insert k v d))
  Distinct-insert k v d h = elim (Bool-cases (contains (keys d) k)) [
    | inl old ↦ subst (λ (l : List K). Distinct l) (sym (keys-insert_old k v d old)) h
    | inr new ↦
        subst (λ (l : List K). Distinct l) (sym (keys-insert_new k v d new))
          (Distinct-snoc (keys d) k h new)
  ]

  -- With distinct keys every entry is found.
  pub lookup_entries : (d : List (K × V)) → Distinct (keys d) → All (λ p. lookup p.0 d ≡ some p.1) d
  lookup_entries [] h = tt
  lookup_entries ((i, w) ∷ d) h = (
    ground (arith, beq_self i),
    All-map _ _ d
        (λ p q. elim (Bool-cases (i == p.0)) [
          | inl same ↦ absurd (
              cc (
                sym h.0
                ∙ ap (contains (keys d)) (eq_of_beq i p.0 same)
                ∙ contains_of_lookup p.0 p.1 d q))
          | inr apart ↦ rw apart q
        ])
        (lookup_entries d h.1),
  )
