-- ===== src/Monitor/Changes.antt =====
-- src/ai_researcher/monitor/changes.py: each query as a list comprehension over the tables, with
-- the rows in the order of its ORDER BY.
pub mod Flips
pub mod Buckets
pub mod Histories
pub mod Movements
pub mod Quiet
use ai_researcher.Prelude.{
  ℕ, ◌-◌, suc, Bool, true, false, not, ◌&&◌, ◌||◌, Option, none, some, List, [], ◌∷◌, ◌++◌, map,
  concat_map, filter_map, select, any, contains, nat_eq, pair_eq, option_eq, ◌==◌, ltb, leb, length,
  lookup, insert, sort, if◌then◌else◌, ◌≡◌,
}
use ai_researcher.Json.{ℤ, pos, negsuc}
use ai_researcher.Tables.{
  Stance, is_refuting, Kind, topic, claim, PaperRow, PaperScopeRow, EvidenceRow, ScoreRow,
  MentionRow, SubscriptionRow,
}

pub record NewPaperChange : Type 0 where
  pub paper_id : ℕ
  pub scope_id : ℕ

pub record NewEvidenceChange : Type 0 where
  pub claim_id : ℕ
  pub claim_evidence_id : ℕ
  pub stance : Stance

pub record StanceFlipChange : Type 0 where
  pub claim_id : ℕ
  pub claim_evidence_id : ℕ

pub record ScoreMovementChange : Type 0 where
  pub claim_id : ℕ
  pub confidence_before : ℕ
  pub confidence_after : ℕ
  pub confidence_delta : ℤ
  pub evidence_quality_before : ℕ
  pub evidence_quality_after : ℕ
  pub evidence_quality_delta : ℤ

pub record DiscourseMentionChange : Type 0 where
  pub discourse_mention_id : ℕ
  pub paper_id : ℕ
  pub claim_id : ℕ

pub record ChangeSet : Type 0 where
  pub new_papers : List NewPaperChange
  pub new_evidence : List NewEvidenceChange
  pub stance_flips : List StanceFlipChange
  pub score_movements : List ScoreMovementChange
  pub discourse_mentions : List DiscourseMentionChange

-- What the transaction reads.
pub record Tables : Type 0 where
  pub papers : List PaperRow
  pub paper_scopes : List PaperScopeRow
  pub subscriptions : List SubscriptionRow
  pub claim_evidence : List EvidenceRow
  pub claim_scores : List ScoreRow
  pub discourse_mentions : List MentionRow

abbrev pub is_topic : Kind → Bool
is_topic topic = true
is_topic claim = false

abbrev pub subscribed_claim : SubscriptionRow → Option ℕ
subscribed_claim s = if not (is_topic s.kind) && s.active then s.claim_id else none

unfoldable pub active_claim_ids : List SubscriptionRow → List ℕ
active_claim_ids = filter_map subscribed_claim

-- The join of `paper_scope` with the active topic subscriptions has a row for each subscription.
abbrev pub subscribes : ℕ → SubscriptionRow → Bool
subscribes scope_id s = s.scope_id == some scope_id && is_topic s.kind && s.active

abbrev pub paper_changes :
    ℕ → List SubscriptionRow → List PaperScopeRow → PaperRow → List NewPaperChange
paper_changes since subscriptions paper_scopes p =
    if ltb since p.created_at
    then concat_map
        (λ j.
          map (λ s. record { paper_id = p.id; scope_id = j.scope_id })
            (select (subscribes j.scope_id) subscriptions))
        (select (λ j. j.paper_id == p.id) paper_scopes)
    else []

abbrev paper_order : NewPaperChange → NewPaperChange → Bool
paper_order a b = ltb a.paper_id b.paper_id || a.paper_id == b.paper_id && leb a.scope_id b.scope_id

unfoldable pub new_papers : Tables → ℕ → List NewPaperChange
new_papers t since =
    sort paper_order (concat_map (paper_changes since t.subscriptions t.paper_scopes) t.papers)

abbrev pub evidence_order : EvidenceRow → EvidenceRow → Bool
evidence_order a b = leb a.id b.id

abbrev pub is_new_evidence : Tables → ℕ → EvidenceRow → Bool
is_new_evidence t since e =
    contains (active_claim_ids t.subscriptions) e.claim_id && ltb since e.created_at

unfoldable pub new_evidence : Tables → ℕ → List NewEvidenceChange
new_evidence t since =
    map (λ e. record { claim_id = e.claim_id; claim_evidence_id = e.id; stance = e.stance })
      (sort evidence_order (select (is_new_evidence t since) t.claim_evidence))

-- `had_prior_refute`
unfoldable pub had_prior_refute : List EvidenceRow → ℕ → ℕ → Bool
had_prior_refute rows since claim_id =
    any (λ p. p.claim_id == claim_id && is_refuting p.stance && leb p.created_at since) rows

unfoldable pub is_first_refute : Tables → ℕ → EvidenceRow → Bool
is_first_refute t since e =
    contains (active_claim_ids t.subscriptions) e.claim_id
    && is_refuting e.stance
    && ltb since e.created_at
    && not (had_prior_refute t.claim_evidence since e.claim_id)

-- The rows with the number 1 in their partition by claim; the rows come in the order of `id`.
unfoldable pub first_of_each : List ℕ → List EvidenceRow → List EvidenceRow
first_of_each seen [] = []
first_of_each seen (e ∷ rows) =
    let rest = first_of_each (e.claim_id ∷ seen) rows in
    if contains seen e.claim_id then rest else e ∷ rest

abbrev pub flip : EvidenceRow → StanceFlipChange
flip e = record { claim_id = e.claim_id; claim_evidence_id = e.id }

unfoldable pub stance_flips : Tables → ℕ → List StanceFlipChange
stance_flips t since =
    map flip
      (first_of_each [] (sort evidence_order (select (is_first_refute t since) t.claim_evidence)))

-- An entry of a bucket of `by_claim`.
pub record Scored : Type 0 where
  pub confidence : ℕ
  pub evidence_quality : ℕ
  pub scored_at : ℕ

abbrev pub scored : ScoreRow → Scored
scored r = record {
  confidence = r.confidence;
  evidence_quality = r.evidence_quality;
  scored_at = r.scored_at;
}

-- claim_id ASC, scored_at DESC, id DESC
abbrev pub score_order : ScoreRow → ScoreRow → Bool
score_order a b =
    ltb a.claim_id b.claim_id
    || a.claim_id == b.claim_id
      && (ltb b.scored_at a.scored_at || a.scored_at == b.scored_at && leb b.id a.id)

abbrev pub Buckets : Type 0
Buckets = List (ℕ × List Scored)

abbrev pub or_empty : Option (List Scored) → List Scored
or_empty none = []
or_empty (some b) = b

-- `by_claim.setdefault(claim_id, [])`
abbrev pub bucket : ℕ → Buckets → List Scored
bucket claim_id by_claim = or_empty (lookup claim_id by_claim)

unfoldable pub add_score : Buckets → ScoreRow → Buckets
add_score by_claim row =
    if leb 2 (length (bucket row.claim_id by_claim))
    then by_claim
    else insert row.claim_id (bucket row.claim_id by_claim ++ scored row ∷ []) by_claim

unfoldable pub add_scores : Buckets → List ScoreRow → Buckets
add_scores by_claim [] = by_claim
add_scores by_claim (row ∷ rows) = add_scores (add_score by_claim row) rows

-- `a - b`
abbrev pub difference : ℕ → ℕ → ℤ
difference a b = if leb b a then pos (a - b) else negsuc (b - a - 1)

abbrev pub distance : ℕ → ℕ → ℕ
distance a b = if leb b a then a - b else b - a

unfoldable pub has_moved : ℕ → Scored → Scored → Bool
has_moved threshold newest previous =
    leb threshold (distance newest.confidence previous.confidence)
    || leb threshold (distance newest.evidence_quality previous.evidence_quality)

abbrev pub movement_between : ℕ → Scored → Scored → ScoreMovementChange
movement_between claim_id newest previous = record {
  claim_id = claim_id;
  confidence_before = previous.confidence;
  confidence_after = newest.confidence;
  confidence_delta = difference newest.confidence previous.confidence;
  evidence_quality_before = previous.evidence_quality;
  evidence_quality_after = newest.evidence_quality;
  evidence_quality_delta = difference newest.evidence_quality previous.evidence_quality;
}

-- The body of the loop over `by_claim`.
unfoldable pub movement : ℕ → ℕ → ℕ → List Scored → Option ScoreMovementChange
movement since threshold claim_id [] = none
movement since threshold claim_id (newest ∷ []) = none
movement since threshold claim_id (newest ∷ previous ∷ rest) =
    if not (leb newest.scored_at since) && has_moved threshold newest previous
    then some (movement_between claim_id newest previous)
    else none

abbrev pub entry_order : ℕ × List Scored → ℕ × List Scored → Bool
entry_order a b = leb a.0 b.0

unfoldable pub score_movements : Tables → ℕ → ℕ → List ScoreMovementChange
score_movements t since threshold =
    filter_map (λ e. movement since threshold e.0 e.1)
      (sort entry_order (
        add_scores [] (
          sort score_order
            (select (λ r. contains (active_claim_ids t.subscriptions) r.claim_id) t.claim_scores))))

-- SELECT DISTINCT of pairs.
unfoldable pub distinct_pairs : List (ℕ × ℕ) → List (ℕ × ℕ)
distinct_pairs [] = []
distinct_pairs (p ∷ pairs) =
    let rest = distinct_pairs pairs in if contains rest p then rest else p ∷ rest

abbrev pub backing : Tables → List (ℕ × ℕ)
backing t = distinct_pairs (
    map (λ e. (e.claim_id, e.paper_id))
      (select (λ e. contains (active_claim_ids t.subscriptions) e.claim_id) t.claim_evidence))

abbrev pub mention_changes : ℕ → List (ℕ × ℕ) → MentionRow → List DiscourseMentionChange
mention_changes since pairs m =
    if ltb since m.created_at
    then map (λ b. record { discourse_mention_id = m.id; paper_id = m.paper_id; claim_id = b.0 })
        (select (λ b. b.1 == m.paper_id) pairs)
    else []

abbrev mention_order : DiscourseMentionChange → DiscourseMentionChange → Bool
mention_order a b =
    ltb a.discourse_mention_id b.discourse_mention_id
    || a.discourse_mention_id == b.discourse_mention_id && leb a.claim_id b.claim_id

unfoldable pub discourse_mentions : Tables → ℕ → List DiscourseMentionChange
discourse_mentions t since =
    sort mention_order (concat_map (mention_changes since (backing t)) t.discourse_mentions)

unfoldable pub detect_changes : Tables → ℕ → ℕ → ChangeSet
detect_changes t since threshold = record {
  new_papers = new_papers t since;
  new_evidence = new_evidence t since;
  stance_flips = stance_flips t since;
  score_movements = score_movements t since threshold;
  discourse_mentions = discourse_mentions t since;
}
