-- ===== src/Monitor/Changes/Buckets.antt =====
-- The buckets of `_score_movements`: the two latest scores of each claim.
use ai_researcher.Prelude.{
  ℕ, ◌≡◌, refl, sym, ap, subst, ◌∙◌, inl, inr, Bool, false, List, [], ◌∷◌, ◌++◌, append_assoc,
  append-nil, map, select, take, contains, Distinct, Distinct-snoc, nat_eq, ◌==◌, eq_of_beq,
  beq_self, beq_comm, leb, length, insert, keys, lookup-insert, keys-insert_new, keys-insert_old,
  All, All-map, All-both, Bool-cases, if_ind, if◌then◌else◌, arith,
}
use ai_researcher.Tables.{ScoreRow}
use ai_researcher.Monitor.Changes.{Scored, scored, Buckets, bucket, add_score, add_scores}

abbrev pub of_claim : ℕ → ScoreRow → Bool
of_claim c r = r.claim_id == c

-- A third score changes nothing.
take_two_snoc :
    (b : List Scored) (x : Scored)
    → take 2 (b ++ x ∷ []) ≡ (if leb 2 (length (take 2 b)) then take 2 b else take 2 b ++ x ∷ [])
take_two_snoc [] x = refl
take_two_snoc (a ∷ []) x = refl
take_two_snoc (a ∷ a' ∷ b) x = refl

bucket-add_score :
    (d : Buckets) (row : ScoreRow) (c : ℕ) (seen : List Scored)
    → bucket c d ≡ take 2 seen
    → bucket c (add_score d row) ≡ take 2 (seen ++ (if of_claim c row then scored row ∷ [] else []))
unfolding add_score
bucket-add_score d row c seen h = elim (Bool-cases (row.claim_id == c)) [
  | inl same ↦
      let k = eq_of_beq row.claim_id c same in
      let e = ap (λ i. bucket i d) k ∙ h in
      rw (same, e, take_two_snoc seen (scored row))
        (if_ind
          (λ l. bucket c l ≡ (
            if leb 2 (length (take 2 seen)) then take 2 seen else take 2 seen ++ scored row ∷ []))
          (leb 2 (length (take 2 seen))) (λ q. rw q h) (λ q. rw (q, lookup-insert, same) refl))
  | inr apart ↦
      rw (apart, append-nil seen)
        (if_ind (λ l. bucket c l ≡ take 2 seen) (leb 2 (length (bucket row.claim_id d))) (λ _. h)
          (λ _. rw (lookup-insert, apart) h))
]

-- The scores of a claim, in the order of the rows.
abbrev pub scores_of : ℕ → List ScoreRow → List Scored
scores_of c rows = map scored (select (of_claim c) rows)

pub bucket-add_scores :
    (d : Buckets) (rows : List ScoreRow) (c : ℕ) (seen : List Scored)
    → bucket c d ≡ take 2 seen
    → bucket c (add_scores d rows) ≡ take 2 (seen ++ scores_of c rows)
unfolding add_scores
bucket-add_scores d [] c seen h = rw (append-nil seen) h
bucket-add_scores d (row ∷ rows) c seen h =
    let next = seen ++ (if of_claim c row then scored row ∷ [] else []) in
    bucket-add_scores (add_score d row) rows c next (bucket-add_score d row c seen h)
    ∙ ap (take 2) (
        append_assoc seen (if of_claim c row then scored row ∷ [] else []) (scores_of c rows)
        ∙ ap (λ l. seen ++ l)
            (if_ind
              (λ l.
                (if of_claim c row then scored row ∷ [] else []) ++ scores_of c rows ≡ map scored l)
              (of_claim c row) (λ q. rw q refl) (λ q. rw q refl)))

-- Each key has one entry.
Distinct-keys-insert :
    (c : ℕ) (b : List Scored) (d : Buckets) → Distinct (keys d) → Distinct (keys (insert c b d))
Distinct-keys-insert c b d h = elim (Bool-cases (contains (keys d) c)) [
  | inl old ↦ subst (λ (l : List ℕ). Distinct l) (sym (keys-insert_old c b d old)) h
  | inr new ↦
      subst (λ (l : List ℕ). Distinct l) (sym (keys-insert_new c b d new))
        (Distinct-snoc (keys d) c h new)
]

pub Distinct-keys-add_scores :
    (d : Buckets) (rows : List ScoreRow) → Distinct (keys d) → Distinct (keys (add_scores d rows))
unfolding add_scores add_score
Distinct-keys-add_scores d [] h = h
Distinct-keys-add_scores d (row ∷ rows) h = Distinct-keys-add_scores (add_score d row) rows (
    if_ind (λ (l : Buckets). Distinct (keys l)) (leb 2 (length (bucket row.claim_id d))) (λ _. h)
      (λ _. Distinct-keys-insert row.claim_id _ d h))

All_apart : (c : ℕ) (d : Buckets) → contains (keys d) c ≡ false → All (λ e. (c == e.0) ≡ false) d
All_apart c [] h = tt
All_apart c ((i, b) ∷ d) h = (ground (arith, beq_comm c i), All_apart c d (ground arith))

-- An entry is what the lookup of its key gives.
pub All_bucket : (d : Buckets) → Distinct (keys d) → All (λ e. bucket e.0 d ≡ e.1) d
All_bucket [] h = tt
All_bucket ((c, b) ∷ d) h = (
  rw (beq_self c) refl,
  All-map _ _ d (λ e k. ground (arith, k.0, k.1, beq_comm c e.0))
      (All-both _ _ d (All_bucket d h.1) (All_apart c d h.0)),
)
