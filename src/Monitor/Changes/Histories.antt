-- ===== src/Monitor/Changes/Histories.antt =====
-- The buckets of `_score_movements` and the sorted scores of each claim.
use ai_researcher.Prelude.{
  ℕ, ◌≤◌, ◌<◌, ◌≡◌, refl, sym, ap, subst, ◌∙◌, ◌⊎◌, inl, inr, true, false, not, ◌&&◌, some, List,
  [], ◌∷◌, map, select, take, contains, nat_eq, ◌==◌, eq_of_beq, leb, All, All-filter_map,
  Exists-filter_map, Exists-sort, All-sort, Exists, sort, select-sort, Bool-cases, if_ind, arith,
}
use ai_researcher.Tables.{ScoreRow}
use ai_researcher.Monitor.Changes.{
  Tables, ScoreMovementChange, Scored, scored, Buckets, bucket, add_scores, active_claim_ids,
  score_order, entry_order, distance, has_moved, movement, movement_between, score_movements,
}
use ai_researcher.Monitor.Changes.Flips.{IsSubscribed, active_claim_ids_iff}
use ai_researcher.Monitor.Changes.Buckets.{
  of_claim, scores_of, bucket-add_scores, Distinct-keys-add_scores, All_bucket,
}

-- All scores of a claim, the latest first.
abbrev pub history : Tables → ℕ → List Scored
history t c = map scored (sort score_order (select (of_claim c) t.claim_scores))

-- The confidence or the quality has moved by the threshold at least.
abbrev pub HasMoved : ℕ → Scored → Scored → Type 0
HasMoved threshold newest previous =
    (threshold ≤ distance newest.confidence previous.confidence)
    ⊎ (threshold ≤ distance newest.evidence_quality previous.evidence_quality)

-- The claim is subscribed, its latest score is newer than `since`, and the change reports the
-- difference from the score before it, which is large enough.
pub record Found (t : Tables) (since threshold : ℕ) (m : ScoreMovementChange) : Type 0 where
  pub subscribed : IsSubscribed t.subscriptions m.claim_id
  pub newest : Scored
  pub previous : Scored
  pub older : List Scored
  pub latest : history t m.claim_id ≡ newest ∷ previous ∷ older
  pub new : since < newest.scored_at
  pub large : HasMoved threshold newest previous
  pub reported : m ≡ movement_between m.claim_id newest previous

has_moved_of : (n : ℕ) (a b : Scored) → has_moved n a b ≡ true → HasMoved n a b
unfolding has_moved
has_moved_of n a b h = elim (Bool-cases (leb n (distance a.confidence b.confidence))) [
  | inl q ↦ inl (ground arith)
  | inr q ↦ inr (ground arith)
]

of_has_moved : (n : ℕ) (a b : Scored) → HasMoved n a b → has_moved n a b ≡ true
unfolding has_moved
of_has_moved n a b (inl h) = ground arith
of_has_moved n a b (inr h) = ground arith

-- The rows of a subscribed claim are all kept by the query.
select_again :
    (ids : List ℕ) (c : ℕ) (rows : List ScoreRow)
    → contains ids c ≡ true
    → select (of_claim c) (select (λ r. contains ids r.claim_id) rows) ≡ select (of_claim c) rows
select_again ids c [] h = refl
select_again ids c (r ∷ rows) h =
    let ih = select_again ids c rows h in
    elim (Bool-cases (r.claim_id == c)) [
      | inl same ↦
          let q = ap (contains ids) (eq_of_beq r.claim_id c same) ∙ h in
          rw (q, same) (ap (λ l. r ∷ l) ih)
      | inr apart ↦ rw apart (
          if_ind (λ l. select (of_claim c) l ≡ select (of_claim c) rows) (contains ids r.claim_id)
            (λ _. rw apart ih) (λ _. ih))
    ]

select_none :
    (ids : List ℕ) (c : ℕ) (rows : List ScoreRow)
    → contains ids c ≡ false
    → select (of_claim c) (select (λ r. contains ids r.claim_id) rows) ≡ []
select_none ids c [] h = refl
select_none ids c (r ∷ rows) h =
    if_ind (λ l. select (of_claim c) l ≡ []) (contains ids r.claim_id)
      (λ old. elim (Bool-cases (r.claim_id == c)) [
        | inl same ↦ cc (sym old ∙ ap (contains ids) (eq_of_beq r.claim_id c same) ∙ h)
        | inr apart ↦ rw apart (select_none ids c rows h)
      ])
      (λ _. select_none ids c rows h)

module _ (t : Tables) where
  abbrev ids : List ℕ
  ids = active_claim_ids t.subscriptions

  abbrev kept : List ScoreRow
  kept = select (λ r. contains ids r.claim_id) t.claim_scores

  abbrev by_claim : Buckets
  by_claim = add_scores [] (sort score_order kept)

  sorted_of :
      (c : ℕ)
      → select (of_claim c) (sort score_order kept) ≡ sort score_order (select (of_claim c) kept)
  sorted_of c =
      select-sort score_order (λ a b h. ground arith) (λ a b c' h k. ground arith) (of_claim c) kept

  bucket_of : (c : ℕ) → bucket c by_claim ≡ take 2 (scores_of c (sort score_order kept))
  bucket_of c = bucket-add_scores [] (sort score_order kept) c [] refl

  -- The bucket of a subscribed claim holds the two latest scores; no other claim has one.
  bucket-history : (c : ℕ) → contains ids c ≡ true → bucket c by_claim ≡ take 2 (history t c)
  bucket-history c h =
      bucket_of c
      ∙ ap (λ l. take 2 (map scored l))
          (sorted_of c ∙ ap (sort score_order) (select_again ids c t.claim_scores h))

  bucket_none : (c : ℕ) → contains ids c ≡ false → bucket c by_claim ≡ []
  bucket_none c h =
      bucket_of c
      ∙ ap (λ l. take 2 (map scored l))
          (sorted_of c ∙ ap (sort score_order) (select_none ids c t.claim_scores h))

two_latest :
    (l : List Scored) (a b : Scored) (rest : List Scored)
    → take 2 l ≡ a ∷ b ∷ rest
    → (older : List Scored) × (l ≡ a ∷ b ∷ older)
two_latest [] a b rest h = cc
two_latest (x ∷ []) a b rest h = cc
two_latest (x ∷ y ∷ l) a b rest h = (l, cc)

Exists-bucket :
    (d : Buckets) (c : ℕ) (x : Scored) (xs : List Scored)
    → bucket c d ≡ x ∷ xs
    → Exists (λ e. (e.0 ≡ c) × (e.1 ≡ x ∷ xs)) d
Exists-bucket [] c x xs h = cc
Exists-bucket ((i, b) ∷ d) c x xs h = elim (Bool-cases (i == c)) [
  | inl same ↦ inl (eq_of_beq i c same, rw same at h)
  | inr apart ↦ inr (Exists-bucket d c x xs (rw apart at h))
]

module _ (t : Tables) (since threshold : ℕ) where
  movement-Found :
      (c : ℕ) (b : List Scored) (m : ScoreMovementChange)
      → bucket c (by_claim t) ≡ b
      → movement since threshold c b ≡ some m
      → Found t since threshold m
  unfolding movement
  movement-Found c [] m h e = cc
  movement-Found c (a ∷ []) m h e = cc
  movement-Found c (a ∷ p ∷ rest) m h e = elim (Bool-cases (contains (ids t) c)) [
    | inr out ↦ cc (sym h ∙ bucket_none t c out)
    | inl active ↦
        let (older, q) = two_latest (history t c) a p rest (sym (bucket-history t c active) ∙ h) in
        if_ind (λ o. o ≡ some m → Found t since threshold m)
          (not (leb a.scored_at since) && has_moved threshold a p)
          (λ moved k.
            let same : m ≡ movement_between c a p = cc in
            let claim : c ≡ m.claim_id = ap (λ (x : ScoreMovementChange). x.claim_id) (sym same) in
            record {
              subscribed =
                  subst (IsSubscribed t.subscriptions) claim
                    ((active_claim_ids_iff t.subscriptions c).0 active);
              newest = a;
              previous = p;
              older = older;
              latest = subst (λ i. history t i ≡ a ∷ p ∷ older) claim q;
              new = ground arith;
              large = has_moved_of threshold a p (ground arith);
              reported = subst (λ i. m ≡ movement_between i a p) claim same;
            })
          (λ _ k. cc) e
  ]

  moved_movement :
      (c : ℕ) (a p : Scored) (rest : List Scored)
      → since < a.scored_at
      → HasMoved threshold a p
      → movement since threshold c (a ∷ p ∷ rest) ≡ some (movement_between c a p)
  unfolding movement
  moved_movement c a p rest new large =
      let far = of_has_moved threshold a p large in
      if_ind (λ o. o ≡ some (movement_between c a p))
        (not (leb a.scored_at since) && has_moved threshold a p) (λ _. refl) (λ h. ground arith)

-- Exactly the movements between the two first scores of the subscribed claims.
pub record AreFound (t : Tables) (since threshold : ℕ) (changes : List ScoreMovementChange)
    : Type 0 where
  pub sound : All (Found t since threshold) changes
  pub complete :
      (c : ℕ) (newest previous : Scored) (older : List Scored)
      → IsSubscribed t.subscriptions c
      → history t c ≡ newest ∷ previous ∷ older
      → since < newest.scored_at
      → HasMoved threshold newest previous
      → Exists (λ m. m ≡ movement_between c newest previous) changes

pub score_movements-AreFound :
    (t : Tables) (since threshold : ℕ)
    → AreFound t since threshold (score_movements t since threshold)
unfolding score_movements
score_movements-AreFound t since threshold = record {
  sound =
      All-filter_map (λ e. movement since threshold e.0 e.1) (λ e. bucket e.0 (by_claim t) ≡ e.1) _
        (sort entry_order (by_claim t)) (λ e m. movement-Found t since threshold e.0 e.1 m)
        (All-sort entry_order _ (by_claim t)
          (All_bucket (by_claim t) (Distinct-keys-add_scores [] _ tt)));
  complete = λ c newest previous older subscribed latest new large.
      let b =
        bucket-history t c ((active_claim_ids_iff t.subscriptions c).1 subscribed)
        ∙ ap (take 2) latest in
      Exists-filter_map (λ e. movement since threshold e.0 e.1)
        (λ e. (e.0 ≡ c) × (e.1 ≡ newest ∷ previous ∷ [])) _ (sort entry_order (by_claim t))
        (λ e h. (
          movement_between c newest previous,
          rw (h.0, h.1) (moved_movement t since threshold c newest previous [] new large),
          refl,
        ))
        (Exists-sort entry_order _ (by_claim t)
          (Exists-bucket (by_claim t) c newest (previous ∷ []) b));
}
