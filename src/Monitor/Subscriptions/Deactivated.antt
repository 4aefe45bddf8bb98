-- ===== src/Monitor/Subscriptions/Deactivated.antt =====
-- The rows after the update of `unsubscribe`.
use ai_researcher.Prelude.{
  ℕ, ◌<◌, ◌≡◌, refl, sym, ap, subst, ◌⊎◌, inl, inr, Bool, true, false, Option, List, [], ◌∷◌, map,
  select, nat_eq, string_eq, option_eq, pair_eq, ◌==◌, eq_of_beq, contains, Distinct, All_map_intro,
  if◌then◌else◌, if_ind, Bool-cases, arith,
}
use ai_researcher.Tables.{SubscriptionRow}
use ai_researcher.Monitor.Subscriptions.{SubscriptionTable, has_one_target, deactivate}
use ai_researcher.Monitor.Subscriptions.Targets.{IsWellFormed, subscription_ids, active_targets}

-- No row has the identifier.
no_id :
    (i : ℕ) (rows : List SubscriptionRow)
    → contains (subscription_ids rows) i ≡ false
    → select (λ r. r.id == i) rows ≡ []
no_id i [] h = refl
no_id i (r ∷ rows) h = elim (Bool-cases (r.id == i)) [
  | inl same ↦ absurd (ground arith)
  | inr apart ↦ rw apart (no_id i rows (ground arith))
]

-- At most one has it.
pub one_id :
    (i : ℕ) (rows : List SubscriptionRow)
    → Distinct (subscription_ids rows)
    → (select (λ r. r.id == i) rows ≡ [])
      ⊎ ((r : SubscriptionRow) × (select (λ r. r.id == i) rows ≡ r ∷ []))
one_id i [] h = inl refl
one_id i (r ∷ rows) h = elim (Bool-cases (r.id == i)) [
  | inr apart ↦ elim (one_id i rows h.1) [
    | inl absent ↦ inl (rw apart absent)
    | inr (x, q) ↦ inr (x, rw apart q)
  ]
  | inl same ↦
      let absent : contains (subscription_ids rows) i ≡ false =
        subst (λ j. contains (subscription_ids rows) j ≡ false) (eq_of_beq r.id i same) h.0 in
      inr (r, rw same (ap (λ l. r ∷ l) (no_id i rows absent)))
]

abbrev pub inactive : SubscriptionRow → SubscriptionRow
inactive r = record r { active = false }

pub select-deactivate :
    (i : ℕ) (rows : List SubscriptionRow)
    → select (λ r. r.id == i) (map (deactivate i) rows)
      ≡ map inactive (select (λ r. r.id == i) rows)
unfolding deactivate
select-deactivate i [] = refl
select-deactivate i (r ∷ rows) = elim (Bool-cases (r.id == i)) [
  | inl same ↦
      rw (same, same) (ap (λ (l : List SubscriptionRow). inactive r ∷ l) (select-deactivate i rows))
  | inr apart ↦ rw (apart, apart) (select-deactivate i rows)
]

pub ids-deactivate :
    (i : ℕ) (rows : List SubscriptionRow)
    → subscription_ids (map (deactivate i) rows) ≡ subscription_ids rows
unfolding deactivate
ids-deactivate i [] = refl
ids-deactivate i (r ∷ rows) =
    if_ind
      (λ (x : SubscriptionRow).
        x.id ∷ subscription_ids (map (deactivate i) rows) ≡ r.id ∷ subscription_ids rows)
      (r.id == i) (λ _. ap (λ (l : List ℕ). r.id ∷ l) (ids-deactivate i rows))
      (λ _. ap (λ (l : List ℕ). r.id ∷ l) (ids-deactivate i rows))

absent-deactivate :
    (i : ℕ) (rows : List SubscriptionRow) (k : Option ℕ × Option ℕ)
    → contains (active_targets rows) k ≡ false
    → contains (active_targets (map (deactivate i) rows)) k ≡ false
unfolding deactivate
absent-deactivate i [] k h = refl
absent-deactivate i (r ∷ rows) k h =
    let rest : contains (active_targets rows) k ≡ false =
      if_ind (λ l. contains l k ≡ false → contains (active_targets rows) k ≡ false) r.active
        (λ _ q. ground arith) (λ _ q. q) h in
    let ih = absent-deactivate i rows k rest in
    if_ind
      (λ (x : SubscriptionRow). contains (active_targets (x ∷ map (deactivate i) rows)) k ≡ false)
      (r.id == i) (λ _. ih) (λ _. keep r.active h ih)
  where
    keep :
        (b : Bool)
        → contains
            (if b then (r.scope_id, r.claim_id) ∷ active_targets rows else active_targets rows)
            k
          ≡ false
        → contains (active_targets (map (deactivate i) rows)) k ≡ false
        → contains
            (if b
              then (r.scope_id, r.claim_id) ∷ active_targets (map (deactivate i) rows)
              else active_targets (map (deactivate i) rows))
            k
          ≡ false
    keep false h ih = ih
    keep true h ih = ground arith

once-deactivate :
    (i : ℕ) (rows : List SubscriptionRow)
    → Distinct (active_targets rows)
    → Distinct (active_targets (map (deactivate i) rows))
unfolding deactivate
once-deactivate i [] h = tt
once-deactivate i (r ∷ rows) h =
    if_ind (λ (x : SubscriptionRow). Distinct (active_targets (x ∷ map (deactivate i) rows)))
      (r.id == i) (λ _. once-deactivate i rows (rest r.active h))
      (λ _. keep r.active h (once-deactivate i rows (rest r.active h)))
  where
    rest :
        (b : Bool)
        → Distinct
            (if b then (r.scope_id, r.claim_id) ∷ active_targets rows else active_targets rows)
        → Distinct (active_targets rows)
    rest true h = h.1
    rest false h = h

    keep :
        (b : Bool)
        → Distinct
            (if b then (r.scope_id, r.claim_id) ∷ active_targets rows else active_targets rows)
        → Distinct (active_targets (map (deactivate i) rows))
        → Distinct (
            if b
            then (r.scope_id, r.claim_id) ∷ active_targets (map (deactivate i) rows)
            else active_targets (map (deactivate i) rows))
    keep true h ih = (absent-deactivate i rows (r.scope_id, r.claim_id) h.0, ih)
    keep false h ih = ih

pub deactivated-IsWellFormed :
    (i : ℕ) (t : SubscriptionTable)
    → IsWellFormed t
    → IsWellFormed (record t { rows = map (deactivate i) t.rows })
unfolding deactivate
deactivated-IsWellFormed i t h = record {
  one_target =
      All_map_intro _ _ (deactivate i) t.rows
        (λ r k.
          if_ind (λ (x : SubscriptionRow). has_one_target x.kind x.scope_id x.claim_id ≡ true)
            (r.id == i) (λ _. k) (λ _. k))
        h.one_target;
  once = once-deactivate i t.rows h.once;
  keyed = subst (λ (l : List ℕ). Distinct l) (sym (ids-deactivate i t.rows)) h.keyed;
  below =
      All_map_intro _ _ (deactivate i) t.rows
        (λ r k. if_ind (λ (x : SubscriptionRow). x.id < t.next_id) (r.id == i) (λ _. k) (λ _. k))
        h.below;
}
