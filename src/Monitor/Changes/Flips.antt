-- ===== src/Monitor/Changes/Flips.antt =====
-- Which claims `_stance_flips` reports.
use mathlib.Core.List.{Mem}
use ai_researcher.Prelude.{
  ℕ, ◌≤◌, ◌<◌, ◌≡◌, refl, sym, ap, ◌∙◌, inl, inr, ◌↔◌, Bool, true, false, not, ◌&&◌, Option, none,
  some, List, [], ◌∷◌, map, filter_map, select, contains, Distinct, nat_eq, ◌==◌, eq_of_beq,
  beq_self, beq_comm, All, All-map, All_mem, All-both, All-select, All_of_select, All_of_sort,
  All-sort, Exists, sort, IsSorted, sort-IsSorted, Bool-cases, if_ind, if◌then◌else◌, arith,
}
use ai_researcher.Tables.{
  Stance, supports, refutes, mentions, is_refuting, Kind, topic, claim, EvidenceRow,
  SubscriptionRow,
}
use ai_researcher.Monitor.Changes.{
  Tables, StanceFlipChange, active_claim_ids, subscribed_claim, is_topic, had_prior_refute,
  is_first_refute, evidence_order, first_of_each, flip, stance_flips,
}

-- An active subscription to the claim.
abbrev pub IsSubscribed : List SubscriptionRow → ℕ → Type 0
IsSubscribed subscriptions c =
    Exists (λ s. (s.kind ≡ claim) × (s.active ≡ true) × (s.claim_id ≡ some c)) subscriptions

-- The row refutes a subscribed claim after `since`, and no row refuted the claim up to then.
pub record Refutes (t : Tables) (since : ℕ) (e : EvidenceRow) : Type 0 where
  pub subscribed : IsSubscribed t.subscriptions e.claim_id
  pub refuting : e.stance ≡ refutes
  pub new : since < e.created_at
  pub first :
      All
        (λ p. p.claim_id ≡ e.claim_id → p.stance ≡ refutes → since < p.created_at)
        t.claim_evidence

refutes_of : (s : Stance) → is_refuting s ≡ true → s ≡ refutes
refutes_of supports h = cc
refutes_of refutes h = refl
refutes_of mentions h = cc

of_refutes : (s : Stance) → s ≡ refutes → is_refuting s ≡ true
of_refutes s h = rw h refl

subscribed_claim_iff :
    (s : SubscriptionRow) (c : ℕ)
    → (subscribed_claim s ≡ some c) ↔ ((s.kind ≡ claim) × (s.active ≡ true) × (s.claim_id ≡ some c))
subscribed_claim_iff s c = go s.kind s.active
  where
    go :
        (k : Kind) (a : Bool)
        → ((if not (is_topic k) && a then s.claim_id else none) ≡ some c)
          ↔ ((k ≡ claim) × (a ≡ true) × (s.claim_id ≡ some c))
    go topic a = (λ h. cc, λ h. cc)
    go claim true = (λ h. (refl, refl, h), λ h. h.2)
    go claim false = (λ h. cc, λ h. cc)

pub active_claim_ids_iff :
    (subscriptions : List SubscriptionRow) (c : ℕ)
    → (contains (active_claim_ids subscriptions) c ≡ true) ↔ IsSubscribed subscriptions c
unfolding active_claim_ids
active_claim_ids_iff [] c = (λ h. cc, λ h. absurd h)
active_claim_ids_iff (s ∷ rest) c = go (subscribed_claim s) refl (active_claim_ids_iff rest c)
  where
    go :
        (o : Option ℕ)
        → subscribed_claim s ≡ o
        → (contains (filter_map subscribed_claim rest) c ≡ true) ↔ IsSubscribed rest c
        → (contains
              (elim o as (λ _. List ℕ) [
                | none ↦ filter_map subscribed_claim rest
                | some y ↦ y ∷ filter_map subscribed_claim rest
              ])
              c
            ≡ true)
          ↔ IsSubscribed (s ∷ rest) c
    go none q ih = (
      λ h. inr (ih.0 h),
      λ h. elim h [ inl k ↦ cc ((subscribed_claim_iff s c).1 k) | inr m ↦ ih.1 m ],
    )
    go (some y) q ih = (
      λ h. elim (Bool-cases (y == c)) [
        | inl p ↦ inl ((subscribed_claim_iff s c).0 (q ∙ ap some (eq_of_beq y c p)))
        | inr p ↦ inr (ih.0 (ground arith))
      ],
      λ h. elim h [
        | inl k ↦
            let same : y ≡ c = cc (q, (subscribed_claim_iff s c).1 k) in ground (arith, beq_self c)
        | inr m ↦ ground (arith, ih.1 m)
      ],
    )

had_prior_refute_lem :
    (rows : List EvidenceRow) (since c : ℕ)
    → (had_prior_refute rows since c ≡ false)
      ↔ All (λ p. p.claim_id ≡ c → p.stance ≡ refutes → since < p.created_at) rows
unfolding had_prior_refute
had_prior_refute_lem [] since c = (λ h. tt, λ h. refl)
had_prior_refute_lem (p ∷ rows) since c =
    let ih = had_prior_refute_lem rows since c in
    (
      λ h. (λ q r. ground (arith, of_refutes p.stance r, beq_self c), ih.0 (ground arith)),
      λ h. elim (Bool-cases (p.claim_id == c)) [
        | inr apart ↦ ground (arith, ih.1 h.1)
        | inl same ↦ elim (Bool-cases (is_refuting p.stance)) [
          | inr other ↦ ground (arith, ih.1 h.1)
          | inl against ↦
              let later = h.0 (eq_of_beq p.claim_id c same) (refutes_of p.stance against) in
              ground (arith, ih.1 h.1)
        ]
      ],
    )

is_first_refute_iff :
    (t : Tables) (since : ℕ) (e : EvidenceRow)
    → (is_first_refute t since e ≡ true) ↔ Refutes t since e
unfolding is_first_refute
is_first_refute_iff t since e =
    let ids = active_claim_ids_iff t.subscriptions e.claim_id in
    let prior = had_prior_refute_lem t.claim_evidence since e.claim_id in
    (
      λ h. record {
        subscribed = ids.0 (ground arith);
        refuting = refutes_of e.stance (ground arith);
        new = ground arith;
        first = prior.0 (ground arith);
      },
      λ r.
          let a = ids.1 r.subscribed in
          let b = of_refutes e.stance r.refuting in
          let c = prior.1 r.first in let d = r.new in ground arith,
    )

abbrev pub claims_of : List EvidenceRow → List ℕ
claims_of [] = []
claims_of (e ∷ rows) = e.claim_id ∷ claims_of rows

All-first_of_each :
    (P : EvidenceRow → Type 0) (seen : List ℕ) (rows : List EvidenceRow)
    → All P rows
    → All P (first_of_each seen rows)
unfolding first_of_each
All-first_of_each P seen [] h = tt
All-first_of_each P seen (e ∷ rows) h =
    let ih = All-first_of_each P (e.claim_id ∷ seen) rows h.1 in
    if_ind (λ l. All P l) (contains seen e.claim_id) (λ _. ih) (λ _. (h.0, ih))

-- Its claims are new and distinct, its rows are the first of their claims, and no claim is lost.
record IsFirst (seen : List ℕ) (rows result : List EvidenceRow) : Type 0 where
  unseen : All (λ x. contains seen x.claim_id ≡ false) result
  distinct : Distinct (claims_of result)
  earliest : All (λ x. All (λ r. r.claim_id ≡ x.claim_id → x.id ≤ r.id) rows) result
  kept :
      All
        (λ r. contains seen r.claim_id ≡ false → contains (claims_of result) r.claim_id ≡ true)
        rows

apart_claims :
    (c : ℕ) (seen : List ℕ) (result : List EvidenceRow)
    → All (λ x. contains (c ∷ seen) x.claim_id ≡ false) result
    → contains (claims_of result) c ≡ false
apart_claims c seen [] h = refl
apart_claims c seen (x ∷ result) h =
    ground (arith, apart_claims c seen result h.1, beq_comm c x.claim_id, h.0)

apart_of :
    (e x : EvidenceRow) (seen : List ℕ)
    → contains (e.claim_id ∷ seen) x.claim_id ≡ false
    → ¬ (e.claim_id ≡ x.claim_id)
apart_of e x seen h q = ground (arith, beq_self x.claim_id)

still :
    (e r : EvidenceRow) (seen : List ℕ) (rest : List EvidenceRow)
    → contains seen e.claim_id ≡ true
    → contains seen r.claim_id ≡ false
    → (contains (e.claim_id ∷ seen) r.claim_id ≡ false
        → contains (claims_of rest) r.claim_id ≡ true)
    → contains (claims_of rest) r.claim_id ≡ true
still e r seen rest old h f = elim (Bool-cases (e.claim_id == r.claim_id)) [
  | inl same ↦
      let q = ap (contains seen) (eq_of_beq e.claim_id r.claim_id same) in cc (sym old ∙ q ∙ h)
  | inr apart ↦ f (ground arith)
]

first_of_each-IsFirst :
    (seen : List ℕ) (rows : List EvidenceRow)
    → IsSorted evidence_order rows
    → IsFirst seen rows (first_of_each seen rows)
unfolding first_of_each
first_of_each-IsFirst seen [] s = record { unseen = tt; distinct = tt; earliest = tt; kept = tt }
first_of_each-IsFirst seen (e ∷ rows) s =
    let ih = first_of_each-IsFirst (e.claim_id ∷ seen) rows s.1 in
    let rest = first_of_each (e.claim_id ∷ seen) rows in
    let free =
      All-map _ (λ x. contains seen x.claim_id ≡ false) rest (λ x h. ground arith) ih.unseen in
    let others =
      All-map _ (λ x. All (λ r. r.claim_id ≡ x.claim_id → x.id ≤ r.id) (e ∷ rows)) rest
        (λ x k. (λ q. absurd (apart_of e x seen k.0 q), k.1))
        (All-both _ _ rest ih.unseen ih.earliest) in
    if_ind (IsFirst seen (e ∷ rows)) (contains seen e.claim_id)
      (λ old. record {
        unseen = free;
        distinct = ih.distinct;
        earliest = others;
        kept = (λ h. ground arith, All-map _ _ rows (λ r f h. still e r seen rest old h f) ih.kept);
      })
      (λ new. record {
        unseen = (new, free);
        distinct = (apart_claims e.claim_id seen rest ih.unseen, ih.distinct);
        earliest = ((λ _. omega arith, All-map _ _ rows (λ r h _. ground arith) s.0), others);
        kept = (
          λ h. ground (arith, beq_self e.claim_id),
          All-map _ _ rows
              (λ r f h. elim (Bool-cases (e.claim_id == r.claim_id)) [
                | inl same ↦ ground arith
                | inr apart ↦ ground (arith, f (ground arith))
              ])
              ih.kept,
        );
      })

-- The claims that gained their first refutation after `since`, each once, with the earliest row.
pub record AreFlips (t : Tables) (since : ℕ) (changes : List StanceFlipChange) : Type 0 where
  pub rows : List EvidenceRow
  pub listed : changes ≡ map flip rows
  pub once : Distinct (claims_of rows)
  pub sound : All (λ e. Refutes t since e × Mem e t.claim_evidence) rows
  pub earliest :
      All
        (λ e. All (λ r. Refutes t since r → r.claim_id ≡ e.claim_id → e.id ≤ r.id) t.claim_evidence)
        rows
  pub complete :
      All (λ r. Refutes t since r → contains (claims_of rows) r.claim_id ≡ true) t.claim_evidence

-- `_stance_flips` reports exactly the subscribed claims that a row refutes after `since` and none
-- refuted up to `since`, each claim once, with the refuting row of the smallest identifier.
pub stance_flips-AreFlips : (t : Tables) (since : ℕ) → AreFlips t since (stance_flips t since)
unfolding stance_flips
stance_flips-AreFlips t since =
    let test = is_first_refute t since in
    let rows = sort evidence_order (select test t.claim_evidence) in
    let good = λ (e : EvidenceRow). is_first_refute_iff t since e in
    let first = first_of_each-IsFirst [] rows (
      sort-IsSorted evidence_order (λ a b h. ground arith) (λ a b c h k. ground arith)
        (select test t.claim_evidence)) in
    let back = λ (Q : EvidenceRow → Type 0) (h : All Q rows).
      All-map (λ r. test r ≡ true → Q r) (λ r. Refutes t since r → Q r) t.claim_evidence
        (λ r f k. f ((good r).1 k))
        (All_of_select Q test t.claim_evidence (All_of_sort evidence_order Q _ h)) in
    record {
      rows = first_of_each [] rows;
      listed = refl;
      once = first.distinct;
      sound = All-first_of_each _ [] rows (
          All-map _ _ rows (λ e k. ((good e).0 k.0, k.1))
            (All-sort evidence_order _ _
              (All-select _ test t.claim_evidence (All_mem t.claim_evidence))));
      earliest =
          All-map _ _ (first_of_each [] rows)
            (λ e h. back (λ r. r.claim_id ≡ e.claim_id → e.id ≤ r.id) h) first.earliest;
      complete =
          back (λ r. contains (claims_of (first_of_each [] rows)) r.claim_id ≡ true)
            (All-map _ _ rows (λ r f. f refl) first.kept);
    }
