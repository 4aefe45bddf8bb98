-- ===== src/Monitor/Subscriptions/Targets.antt =====
-- The subscriptions of the table: each has one target, and no two active ones have the same.
use ai_researcher.Prelude.{
  ℕ, ◌<◌, ◌≡◌, refl, sym, ap, subst, ◌∙◌, ◌⊎◌, inl, inr, true, false, Option, none, some, List, [],
  ◌∷◌, ◌++◌, map, select, nat_eq, string_eq, option_eq, pair_eq, ◌==◌, beq_self, eq_of_beq,
  contains, Distinct, All, Exists, ok, err, ◌>>=◌, if◌then◌else◌, if_ind, Yields, returns, raises,
  Bool-cases, arith,
}
use ai_researcher.Tables.{Kind, topic, claim, SubscriptionRow}
use ai_researcher.Monitor.Subscriptions.{
  Error, duplicate, Subscription, SubscriptionTable, one_or_none, one, is_topic, same_kind,
  has_one_target, is_duplicate, reject_duplicate, new_row,
}

abbrev pub subscription_ids : List SubscriptionRow → List ℕ
subscription_ids = map (λ r. r.id)

-- The targets of the active subscriptions.
abbrev pub active_targets : List SubscriptionRow → List (Option ℕ × Option ℕ)
active_targets [] = []
active_targets (r ∷ rows) =
    if r.active then (r.scope_id, r.claim_id) ∷ active_targets rows else active_targets rows

pub record IsWellFormed (t : SubscriptionTable) : Type 0 where
  pub one_target : All (λ r. has_one_target r.kind r.scope_id r.claim_id ≡ true) t.rows
  pub once : Distinct (active_targets t.rows)
  pub keyed : Distinct (subscription_ids t.rows)
  pub below : All (λ r. r.id < t.next_id) t.rows

pub active_targets-append :
    (xs ys : List SubscriptionRow)
    → active_targets (xs ++ ys) ≡ active_targets xs ++ active_targets ys
active_targets-append [] ys = refl
active_targets-append (x ∷ xs) ys =
    if_ind
      (λ l.
        (if x.active
          then (x.scope_id, x.claim_id) ∷ active_targets (xs ++ ys)
          else active_targets (xs ++ ys))
        ≡ l ++ active_targets ys)
      x.active
      (λ q. rw q (
        ap (λ (l : List (Option ℕ × Option ℕ)). (x.scope_id, x.claim_id) ∷ l)
          (active_targets-append xs ys)))
      (λ q. rw q (active_targets-append xs ys))

-- A target tells its kind.
kind_of_target :
    (k l : Kind) (s c : Option ℕ)
    → has_one_target k s c ≡ true
    → has_one_target l s c ≡ true
    → same_kind k l ≡ true
unfolding has_one_target
kind_of_target topic topic s c h g = refl
kind_of_target claim claim s c h g = refl
kind_of_target topic claim none c h g = cc
kind_of_target topic claim (some x) none h g = cc
kind_of_target topic claim (some x) (some y) h g = cc
kind_of_target claim topic none none h g = cc
kind_of_target claim topic none (some y) h g = cc
kind_of_target claim topic (some x) c h g = cc

same_target-is_duplicate :
    (kind : Kind) (s c : Option ℕ) (r : SubscriptionRow)
    → has_one_target kind s c ≡ true
    → has_one_target r.kind r.scope_id r.claim_id ≡ true
    → r.active ≡ true
    → r.scope_id ≡ s
    → r.claim_id ≡ c
    → is_duplicate kind s c r ≡ true
unfolding is_duplicate
same_target-is_duplicate kind s c r one h active a b =
    let one' : has_one_target kind r.scope_id r.claim_id ≡ true =
      subst (λ i. has_one_target kind i r.claim_id ≡ true) (sym a)
        (subst (λ i. has_one_target kind s i ≡ true) (sym b) one) in
    rw (kind_of_target r.kind kind r.scope_id r.claim_id h one', active)
      (if_ind (λ m. m ≡ true) (is_topic kind)
        (λ _. subst (λ i. (r.scope_id == i) ≡ true) a (beq_self r.scope_id))
        (λ _. subst (λ i. (r.claim_id == i) ≡ true) b (beq_self r.claim_id)))

-- No duplicate row, no active subscription of the target.
pub absent_target :
    (kind : Kind) (s c : Option ℕ) (rows : List SubscriptionRow)
    → has_one_target kind s c ≡ true
    → All (λ r. has_one_target r.kind r.scope_id r.claim_id ≡ true) rows
    → select (is_duplicate kind s c) rows ≡ []
    → contains (active_targets rows) (s, c) ≡ false
absent_target kind s c [] one h q = refl
absent_target kind s c (r ∷ rows) one h q = elim (Bool-cases (is_duplicate kind s c r)) [
  | inl same ↦
      let found : select (is_duplicate kind s c) (r ∷ rows)
          ≡ r ∷ select (is_duplicate kind s c) rows =
        rw same refl in
      absurd (cc (sym found ∙ q))
  | inr other ↦
      let rest : select (is_duplicate kind s c) (r ∷ rows) ≡ select (is_duplicate kind s c) rows =
        rw other refl in
      let ih = absent_target kind s c rows one h.1 (sym rest ∙ q) in
      if_ind (λ l. contains l (s, c) ≡ false) r.active
        (λ active.
          let target : Option ℕ × Option ℕ = (s, c) in
          let own : Option ℕ × Option ℕ = (r.scope_id, r.claim_id) in
          elim (Bool-cases (own == target)) [
            | inr apart ↦ rw apart ih
            | inl same ↦
                let e = eq_of_beq own target same in
                absurd (
                  cc (
                    sym other
                    ∙ same_target-is_duplicate kind s c r one h.0 active (ap (λ p. p.0) e)
                        (ap (λ p. p.1) e)))
          ])
        (λ _. ih)
]

pub absent_id :
    (n : ℕ) (rows : List SubscriptionRow)
    → All (λ r. r.id < n) rows
    → (contains (subscription_ids rows) n ≡ false) × (select (λ r. r.id == n) rows ≡ [])
absent_id n [] h = (refl, refl)
absent_id n (r ∷ rows) h = elim (Bool-cases (r.id == n)) [
  | inl same ↦ let e = eq_of_beq r.id n same in let b = h.0 in absurd (omega arith)
  | inr apart ↦ let (a, b) = absent_id n rows h.1 in (rw apart a, rw apart b)
]

target_of_duplicate :
    (kind k : Kind) (s c a b : Option ℕ)
    → has_one_target kind s c ≡ true
    → has_one_target k a b ≡ true
    → same_kind k kind ≡ true
    → (if is_topic kind then a == s else b == c) ≡ true
    → (a ≡ s) × (b ≡ c)
unfolding has_one_target
target_of_duplicate topic topic (some x) none (some y) none h g e m =
    (eq_of_beq (some y) (some x) m, refl)
target_of_duplicate claim claim none (some x) none (some y) h g e m =
    (refl, eq_of_beq (some y) (some x) m)
target_of_duplicate topic claim s c a b h g e m = cc
target_of_duplicate claim topic s c a b h g e m = cc
target_of_duplicate topic topic none c a b h g e m = cc
target_of_duplicate topic topic (some x) (some y) a b h g e m = cc
target_of_duplicate topic topic (some x) none none b h g e m = cc
target_of_duplicate topic topic (some x) none (some y) (some z) h g e m = cc
target_of_duplicate claim claim none none a b h g e m = cc
target_of_duplicate claim claim (some x) c a b h g e m = cc
target_of_duplicate claim claim none (some x) (some y) b h g e m = cc
target_of_duplicate claim claim none (some x) none none h g e m = cc

is_duplicate-target :
    (kind : Kind) (s c : Option ℕ) (r : SubscriptionRow)
    → has_one_target kind s c ≡ true
    → has_one_target r.kind r.scope_id r.claim_id ≡ true
    → is_duplicate kind s c r ≡ true
    → (r.active ≡ true) × ((r.scope_id ≡ s) × (r.claim_id ≡ c))
unfolding is_duplicate
is_duplicate-target kind s c r one h d = (
  ground arith,
  target_of_duplicate kind r.kind s c r.scope_id r.claim_id one h (ground arith) (ground arith),
)

-- No active subscription of the target, no duplicate row.
no_duplicate :
    (kind : Kind) (s c : Option ℕ) (rows : List SubscriptionRow)
    → has_one_target kind s c ≡ true
    → All (λ r. has_one_target r.kind r.scope_id r.claim_id ≡ true) rows
    → contains (active_targets rows) (s, c) ≡ false
    → select (is_duplicate kind s c) rows ≡ []
no_duplicate kind s c [] one h q = refl
no_duplicate kind s c (r ∷ rows) one h q = elim (Bool-cases (is_duplicate kind s c r)) [
  | inl same ↦
      let (active, (a, b)) = is_duplicate-target kind s c r one h.0 same in
      let own : Option ℕ × Option ℕ = (r.scope_id, r.claim_id) in
      let there : contains (active_targets (r ∷ rows)) own ≡ true =
        rw active (ground (arith, beq_self own)) in
      let moved : contains (active_targets (r ∷ rows)) (s, c) ≡ true =
        subst (λ i. contains (active_targets (r ∷ rows)) (s, i) ≡ true) b
          (subst (λ i. contains (active_targets (r ∷ rows)) (i, r.claim_id) ≡ true) a there) in
      cc (sym moved ∙ q)
  | inr other ↦ rw other (
      no_duplicate kind s c rows one h.1 (
        if_ind (λ l. contains l (s, c) ≡ false → contains (active_targets rows) (s, c) ≡ false)
          r.active (λ _ k. ground arith) (λ _ k. k) q))
]

few_duplicates :
    (kind : Kind) (s c : Option ℕ) (rows : List SubscriptionRow)
    → has_one_target kind s c ≡ true
    → All (λ r. has_one_target r.kind r.scope_id r.claim_id ≡ true) rows
    → Distinct (active_targets rows)
    → (select (is_duplicate kind s c) rows ≡ [])
      ⊎ ((r : SubscriptionRow) × (select (is_duplicate kind s c) rows ≡ r ∷ [])
          × Exists (λ x. is_duplicate kind s c x ≡ true) rows)
few_duplicates kind s c [] one h once = inl refl
few_duplicates kind s c (r ∷ rows) one h once = elim (Bool-cases (is_duplicate kind s c r)) [
  | inr other ↦
      let once' : Distinct (active_targets rows) =
        if_ind (λ l. Distinct l → Distinct (active_targets rows)) r.active (λ _ d. d.1) (λ _ d. d)
          once in
      elim (few_duplicates kind s c rows one h.1 once') [
        | inl absent ↦ inl (rw other absent)
        | inr (x, q, e) ↦ inr (x, rw other q, inr e)
      ]
  | inl same ↦
      let (active, (a, b)) = is_duplicate-target kind s c r one h.0 same in
      let fresh : contains (active_targets rows) (r.scope_id, r.claim_id) ≡ false =
        if_ind
          (λ l.
            Distinct l
            → r.active ≡ true
            → contains (active_targets rows) (r.scope_id, r.claim_id) ≡ false)
          r.active (λ _ d _. d.0) (λ n d y. cc (sym n ∙ y)) once active in
      let fresh' : contains (active_targets rows) (s, c) ≡ false =
        subst (λ i. contains (active_targets rows) (s, i) ≡ false) b
          (subst (λ i. contains (active_targets rows) (i, r.claim_id) ≡ false) a fresh) in
      inr (r, rw same (ap (λ l. r ∷ l) (no_duplicate kind s c rows one h.1 fresh')), inl same)
]

-- Why a subscription is refused.
pub data IsRefused (kind : Kind) (s c : Option ℕ) (t : SubscriptionTable) : Error → Type 0 where
  taken : Exists (λ r. is_duplicate kind s c r ≡ true) t.rows → IsRefused kind s c t duplicate

-- The table with one more row, which is active and has the target.
pub record IsSubscribed (kind : Kind) (s c : Option ℕ) (t : SubscriptionTable)
    (r : Subscription × SubscriptionTable) : Type 0 where
  pub well_formed : IsWellFormed r.1
  pub added : r.1.rows ≡ t.rows ++ new_row kind s c t ∷ []
  pub id : r.0.id ≡ t.next_id
  pub active : r.0.active ≡ true
  pub scope_id : r.0.scope_id ≡ s
  pub claim_id : r.0.claim_id ≡ c

-- At most one row can be a duplicate.
pub duplicates-few :
    (kind : Kind) (s c : Option ℕ) (t : SubscriptionTable)
    → has_one_target kind s c ≡ true
    → IsWellFormed t
    → Yields
        (IsRefused kind s c t)
        (λ _. select (is_duplicate kind s c) t.rows ≡ [])
        (reject_duplicate kind s c t.rows)
unfolding reject_duplicate
duplicates-few kind s c t one h = elim (few_duplicates kind s c t.rows one h.one_target h.once) [
  | inl absent ↦
      subst
        (λ l.
          Yields (IsRefused kind s c t) (λ _. select (is_duplicate kind s c) t.rows ≡ [])
            (one_or_none l >>= λ existing. elim existing [ none ↦ ok tt | some r ↦ err duplicate ]))
        (sym absent) (returns absent)
  | inr (r, q, e) ↦
      subst
        (λ l.
          Yields (IsRefused kind s c t) (λ _. select (is_duplicate kind s c) t.rows ≡ [])
            (one_or_none l >>= λ existing. elim existing [ none ↦ ok tt | some r ↦ err duplicate ]))
        (sym q) (raises (taken e))
]
