-- ===== src/Monitor/Changes/Movements.antt =====
-- Which movements of scores `_score_movements` reports.
use mathlib.Core.List.{Perm}
use ai_researcher.Prelude.{
  ℕ, suc, ◌+◌, ◌≤◌, ◌<◌, ◌≡◌, refl, sym, ap, subst, ◌∙◌, ◌⊎◌, true, List, [], ◌∷◌, map, select,
  length, nat_eq, eq_of_beq, if_ind, All, All-map, All-select, All-sort, All_intro, Exists,
  Exists-weaken, sort, place, sort-perm, IsSorted, sort-IsSorted, arith,
}
use ai_researcher.Json.{ℤ, pos, negsuc}
use ai_researcher.Tables.{ScoreRow}
use ai_researcher.Monitor.Changes.{
  Tables, ScoreMovementChange, Scored, scored, score_order, difference, movement_between,
  score_movements,
}
use ai_researcher.Monitor.Changes.Flips.{IsSubscribed}
use ai_researcher.Monitor.Changes.Buckets.{of_claim}
use ai_researcher.Monitor.Changes.Histories.{HasMoved, Found, AreFound, score_movements-AreFound}

-- A score is from before another, or from the same time with an identifier that is not above.
abbrev pub IsOlder : ScoreRow → ScoreRow → Type 0
IsOlder a b = (a.scored_at < b.scored_at) ⊎ ((a.scored_at ≡ b.scored_at) × (a.id ≤ b.id))

-- The rows of a claim are these two and others; the second is older than the first, and the others
-- are older than the second.
pub record AreLatest (rows : List ScoreRow) (c : ℕ) (newest previous : ScoreRow) : Type 0 where
  pub others : List ScoreRow
  pub all : Perm (newest ∷ previous ∷ others) (select (of_claim c) rows)
  pub second : IsOlder previous newest
  pub older : All (λ r. IsOlder r previous) others

-- The amounts are the threshold or more apart.
abbrev pub AreApart : ℕ → ℕ → ℕ → Type 0
AreApart threshold a b = (a + threshold ≤ b) ⊎ (b + threshold ≤ a)

abbrev pub IsDifference : ℕ → ℕ → ℤ → Type 0
IsDifference before after (pos n) = after ≡ before + n
IsDifference before after (negsuc n) = before ≡ after + suc n

-- The change shows the two scores and how far each went up or down.
pub record Reports (c : ℕ) (newest previous : ScoreRow) (m : ScoreMovementChange) : Type 0 where
  pub claim : m.claim_id ≡ c
  pub confidence_before : m.confidence_before ≡ previous.confidence
  pub confidence_after : m.confidence_after ≡ newest.confidence
  pub confidence : IsDifference previous.confidence newest.confidence m.confidence_delta
  pub quality_before : m.evidence_quality_before ≡ previous.evidence_quality
  pub quality_after : m.evidence_quality_after ≡ newest.evidence_quality
  pub quality :
      IsDifference previous.evidence_quality newest.evidence_quality m.evidence_quality_delta

-- The claim is subscribed, its latest score is newer than `since`, and it is far enough from the
-- one before.
pub record Moved (t : Tables) (since threshold : ℕ) (m : ScoreMovementChange) : Type 0 where
  pub subscribed : IsSubscribed t.subscriptions m.claim_id
  pub newest : ScoreRow
  pub previous : ScoreRow
  pub latest : AreLatest t.claim_scores m.claim_id newest previous
  pub new : since < newest.scored_at
  pub large :
      AreApart threshold previous.confidence newest.confidence
      ⊎ AreApart threshold previous.evidence_quality newest.evidence_quality
  pub reported : Reports m.claim_id newest previous m

-- A claim has a latest score and one before it, and its movement, when it is new and large enough,
-- is among the changes.
pub record HasMovement (t : Tables) (since threshold : ℕ) (changes : List ScoreMovementChange)
    (c : ℕ) : Type 0 where
  pub newest : ScoreRow
  pub previous : ScoreRow
  pub latest : AreLatest t.claim_scores c newest previous
  pub included :
      since < newest.scored_at
      → AreApart threshold previous.confidence newest.confidence
        ⊎ AreApart threshold previous.evidence_quality newest.evidence_quality
      → Exists (Reports c newest previous) changes

pub record AreMovements (t : Tables) (since threshold : ℕ) (changes : List ScoreMovementChange)
    : Type 0 where
  pub sound : All (Moved t since threshold) changes
  pub complete :
      (c : ℕ)
      → IsSubscribed t.subscriptions c
      → 2 ≤ length (select (of_claim c) t.claim_scores)
      → HasMovement t since threshold changes c

difference-IsDifference : (before after : ℕ) → IsDifference before after (difference after before)
difference-IsDifference before after = ground arith

movement_between-Reports :
    (c : ℕ) (newest previous : ScoreRow)
    → Reports c newest previous (movement_between c (scored newest) (scored previous))
movement_between-Reports c newest previous = record {
  claim = refl;
  confidence_before = refl;
  confidence_after = refl;
  confidence = difference-IsDifference previous.confidence newest.confidence;
  quality_before = refl;
  quality_after = refl;
  quality = difference-IsDifference previous.evidence_quality newest.evidence_quality;
}

large_of :
    (threshold : ℕ) (newest previous : Scored)
    → HasMoved threshold newest previous
    → AreApart threshold previous.confidence newest.confidence
      ⊎ AreApart threshold previous.evidence_quality newest.evidence_quality
large_of threshold newest previous h = ground arith

of_large :
    (threshold : ℕ) (newest previous : Scored)
    → AreApart threshold previous.confidence newest.confidence
      ⊎ AreApart threshold previous.evidence_quality newest.evidence_quality
    → HasMoved threshold newest previous
of_large threshold newest previous h = ground arith

score_order-IsOlder :
    (c : ℕ) (a b : ScoreRow)
    → a.claim_id ≡ c
    → b.claim_id ≡ c
    → score_order a b ≡ true
    → IsOlder b a
score_order-IsOlder c a b p q h = ground arith

-- The two first of the sorted scores of a claim are the latest.
sorted-AreLatest :
    (rows : List ScoreRow) (c : ℕ) (newest previous : ScoreRow) (others : List ScoreRow)
    → sort score_order (select (of_claim c) rows) ≡ newest ∷ previous ∷ others
    → AreLatest rows c newest previous
sorted-AreLatest rows c newest previous others q =
    let own = subst (All (λ (r : ScoreRow). r.claim_id ≡ c)) q (
      All-sort score_order _ (select (of_claim c) rows) (
        All-map _ _ (select (of_claim c) rows) (λ r h. eq_of_beq r.claim_id c h.0)
          (All-select (λ _. Unit {0}) (of_claim c) rows (All_intro _ rows λ _. tt)))) in
    let sorted = subst (IsSorted score_order) q (
      sort-IsSorted score_order (λ a b h. ground arith) (λ a b d h k. ground arith)
        (select (of_claim c) rows)) in
    record {
      others = others;
      all = subst (λ l. Perm l (select (of_claim c) rows)) q (sort-perm score_order _);
      second = score_order-IsOlder c newest previous own.0 own.1.0 sorted.0.0;
      older = older previous others own.1.0 own.1.1 sorted.1.0;
    }
  where
    older :
        (p : ScoreRow) (l : List ScoreRow)
        → p.claim_id ≡ c
        → All (λ r. r.claim_id ≡ c) l
        → All (λ r. score_order p r ≡ true) l
        → All (λ r. IsOlder r p) l
    older p [] h own s = tt
    older p (r ∷ l) h own s = (score_order-IsOlder c p r h own.0 s.0, older p l h own.1 s.1)

two_rows :
    (l : List ScoreRow) (a p : Scored) (older : List Scored)
    → map scored l ≡ a ∷ p ∷ older
    → (newest : ScoreRow) × (previous : ScoreRow) × (others : List ScoreRow) × (l
        ≡ newest ∷ previous ∷ others)
      × (scored newest ≡ a)
      × (scored previous ≡ p)
two_rows [] a p older h = cc
two_rows (x ∷ []) a p older h = cc
two_rows (x ∷ y ∷ l) a p older h = (x, y, l, refl, cc, cc)

length-place : (x : ScoreRow) (l : List ScoreRow) → length (place score_order x l) ≡ suc (length l)
length-place x [] = refl
length-place x (y ∷ l) =
    if_ind (λ r. length r ≡ suc (suc (length l))) (score_order x y) (λ _. refl)
      (λ _. ap suc (length-place x l))

length-sort : (l : List ScoreRow) → length (sort score_order l) ≡ length l
length-sort [] = refl
length-sort (x ∷ l) = length-place x (sort score_order l) ∙ ap suc (length-sort l)

module _ (t : Tables) (since threshold : ℕ) where
  Found-Moved : (m : ScoreMovementChange) → Found t since threshold m → Moved t since threshold m
  Found-Moved m h =
      let rows = sort score_order (select (of_claim m.claim_id) t.claim_scores) in
      let (newest, previous, others, q, a, p) =
        two_rows rows h.newest h.previous h.older h.latest in
      record {
        subscribed = h.subscribed;
        newest = newest;
        previous = previous;
        latest = sorted-AreLatest t.claim_scores m.claim_id newest previous others q;
        new = subst (λ (x : Scored). since < x.scored_at) (sym a) h.new;
        large = large_of threshold (scored newest) (scored previous) (
            subst (λ x. HasMoved threshold x (scored previous)) (sym a)
              (subst (HasMoved threshold h.newest) (sym p) h.large));
        reported =
            subst (Reports m.claim_id newest previous)
              (ap (λ x. movement_between m.claim_id x (scored previous)) a
                ∙ ap (movement_between m.claim_id h.newest) p
                ∙ sym h.reported)
              (movement_between-Reports m.claim_id newest previous);
      }

  found-HasMovement :
      (changes : List ScoreMovementChange) (c : ℕ) (l : List ScoreRow)
      → AreFound t since threshold changes
      → IsSubscribed t.subscriptions c
      → sort score_order (select (of_claim c) t.claim_scores) ≡ l
      → 2 ≤ length l
      → HasMovement t since threshold changes c
  found-HasMovement changes c [] h subscribed q enough = absurd (omega arith)
  found-HasMovement changes c (x ∷ []) h subscribed q enough = absurd (omega arith)
  found-HasMovement changes c (x ∷ y ∷ l) h subscribed q enough = record {
    newest = x;
    previous = y;
    latest = sorted-AreLatest t.claim_scores c x y l q;
    included = λ new large.
        Exists-weaken _ _ changes
          (λ m e. subst (Reports c x y) (sym e) (movement_between-Reports c x y))
          (h.complete c (scored x) (scored y) (map scored l) subscribed (ap (map scored) q) new
            (of_large threshold (scored x) (scored y) large));
  }

  -- `_score_movements` reports, for a subscribed claim, its latest score and the one before, by time
  -- and then by identifier, with the difference of each of the two amounts, and that exactly if the
  -- latest is newer than `since` and one of its amounts is the threshold or more from the one
  -- before.
  pub score_movements-AreMovements :
      AreMovements t since threshold (score_movements t since threshold)
  score_movements-AreMovements =
      let h = score_movements-AreFound t since threshold in
      record {
        sound = All-map _ _ (score_movements t since threshold) Found-Moved h.sound;
        complete = λ c subscribed enough.
            found-HasMovement (score_movements t since threshold) c
              (sort score_order (select (of_claim c) t.claim_scores)) h subscribed refl
              (let same = length-sort (select (of_claim c) t.claim_scores) in omega arith);
      }
