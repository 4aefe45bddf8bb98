-- ===== src/Monitor/Changes/Quiet.antt =====
-- A window in which nothing was stored.
use ai_researcher.Prelude.{
  ℕ, ◌≤◌, ◌≡◌, refl, subst, Bool, false, List, [], ◌∷◌, concat_map, select, nat_eq, ltb, All,
  All-map, All_map_intro, All-select, All-sort, sort, arith,
}
use ai_researcher.Monitor.Changes.{
  paper_changes, mention_changes, backing, is_new_evidence, Tables, scored, is_first_refute,
  first_of_each, score_order, new_papers, new_evidence, stance_flips, score_movements,
  discourse_mentions, detect_changes,
}
use ai_researcher.Monitor.Changes.Buckets.{of_claim}
use ai_researcher.Monitor.Changes.Histories.{history, score_movements-AreFound}

-- Every row was there at `since`.
pub record IsQuiet (t : Tables) (since : ℕ) : Type 0 where
  pub papers : All (λ p. p.created_at ≤ since) t.papers
  pub evidence : All (λ e. e.created_at ≤ since) t.claim_evidence
  pub scores : All (λ s. s.scored_at ≤ since) t.claim_scores
  pub mentions : All (λ m. m.created_at ≤ since) t.discourse_mentions

concat_map_nil :
    {A B : Type 0} (f : A → List B) (P : A → Type 0) (xs : List A)
    → ((x : A) → P x → f x ≡ [])
    → All P xs
    → concat_map f xs ≡ []
concat_map_nil f P [] g h = refl
concat_map_nil f P (x ∷ xs) g h = rw (g x h.0) (concat_map_nil f P xs g h.1)

select_nil :
    {A : Type 0} (test : A → Bool) (P : A → Type 0) (xs : List A)
    → ((x : A) → P x → test x ≡ false)
    → All P xs
    → select test xs ≡ []
select_nil test P [] g h = refl
select_nil test P (x ∷ xs) g h = rw (g x h.0) (select_nil test P xs g h.1)

nil_of : {A : Type 0} (xs : List A) → All (λ _. ⊥) xs → xs ≡ []
nil_of [] h = refl
nil_of (x ∷ xs) h = absurd h.0

old : (since at : ℕ) → at ≤ since → ltb since at ≡ false
old since at h = ground arith

module _ (t : Tables) (since threshold : ℕ) (q : IsQuiet t since) where
  new_papers-quiet : new_papers t since ≡ []
  unfolding new_papers
  new_papers-quiet =
      rw
        (concat_map_nil (paper_changes since t.subscriptions t.paper_scopes)
          (λ p. p.created_at ≤ since) t.papers (λ p h. rw (old since p.created_at h) refl) q.papers)
        refl

  new_evidence-quiet : new_evidence t since ≡ []
  unfolding new_evidence
  new_evidence-quiet =
      rw
        (select_nil (is_new_evidence t since) (λ e. e.created_at ≤ since) t.claim_evidence
          (λ e h. ground arith) q.evidence)
        refl

  stance_flips-quiet : stance_flips t since ≡ []
  unfolding stance_flips is_first_refute first_of_each
  stance_flips-quiet =
      rw
        (select_nil (is_first_refute t since) (λ e. e.created_at ≤ since) t.claim_evidence
          (λ e h. ground arith) q.evidence)
        refl

  history-quiet : (c : ℕ) → All (λ s. s.scored_at ≤ since) (history t c)
  history-quiet c =
      All_map_intro _ _ scored (sort score_order (select (of_claim c) t.claim_scores)) (λ r h. h)
        (All-sort score_order (λ r. r.scored_at ≤ since) _
          (All-map _ _ (select (of_claim c) t.claim_scores) (λ r h. h.1)
            (All-select _ (of_claim c) t.claim_scores q.scores)))

  score_movements-quiet : score_movements t since threshold ≡ []
  score_movements-quiet = nil_of (score_movements t since threshold) (
      All-map _ _ (score_movements t since threshold)
        (λ m h.
          let known : All (λ s. s.scored_at ≤ since) (h.newest ∷ h.previous ∷ h.older) =
            subst (All (λ s. s.scored_at ≤ since)) h.latest (history-quiet m.claim_id) in
          let stale = known.0 in let new = h.new in absurd (omega arith))
        (score_movements-AreFound t since threshold).sound)

  discourse_mentions-quiet : discourse_mentions t since ≡ []
  unfolding discourse_mentions
  discourse_mentions-quiet =
      rw
        (concat_map_nil (mention_changes since (backing t)) (λ m. m.created_at ≤ since)
          t.discourse_mentions (λ m h. rw (old since m.created_at h) refl) q.mentions)
        refl

-- If every paper, evidence row, score and mention was stored by `since`, no change is reported in
-- any category, whatever the subscriptions and the threshold; a paper that is linked to a
-- subscribed scope only after `since` is not reported either.
pub detect_changes-quiet :
    (t : Tables) (since threshold : ℕ)
    → IsQuiet t since
    → detect_changes t since threshold ≡ record {
      new_papers = [];
      new_evidence = [];
      stance_flips = [];
      score_movements = [];
      discourse_mentions = [];
    }
unfolding detect_changes
detect_changes-quiet t since threshold q =
    rw
      (
        new_papers-quiet t since threshold q,
        new_evidence-quiet t since threshold q,
        stance_flips-quiet t since threshold q,
        score_movements-quiet t since threshold q,
        discourse_mentions-quiet t since threshold q,
      )
      refl
