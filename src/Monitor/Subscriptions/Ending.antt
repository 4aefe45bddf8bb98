-- ===== src/Monitor/Subscriptions/Ending.antt =====
-- `unsubscribe` keeps the row, and frees its target.
use ai_researcher.Prelude.{
  ℕ, ◌≡◌, refl, ap, subst, ◌∙◌, inl, inr, true, false, List, [], ◌∷◌, map, select, nat_eq,
  string_eq, option_eq, pair_eq, ◌==◌, beq_self, eq_of_beq, All, All-select, All_intro,
  if◌then◌else◌, if_ind, Yields, returns, raises, arith,
}
use ai_researcher.Tables.{SubscriptionRow}
use ai_researcher.Monitor.Subscriptions.{
  Error, unknown_subscription, ScopeRow, Subscription, SubscriptionTable, load_by_id, from_row,
  deactivate, unsubscribe,
}
use ai_researcher.Monitor.Subscriptions.Targets.{IsWellFormed, subscription_ids}
use ai_researcher.Monitor.Subscriptions.Deactivated.{
  one_id, inactive, select-deactivate, ids-deactivate, deactivated-IsWellFormed,
}

-- A row selected by an identifier has it.
selected_id :
    (i : ℕ) (rows : List SubscriptionRow) (r : SubscriptionRow)
    → select (λ x. x.id == i) rows ≡ r ∷ []
    → r.id ≡ i
selected_id i rows r q =
    eq_of_beq r.id i
      (subst (All (λ (x : SubscriptionRow). ((x.id == i) ≡ true) × Unit {0})) q (
        All-select (λ _. Unit {0}) (λ (x : SubscriptionRow). x.id == i) rows
          (All_intro _ rows λ _. tt))).0.0

pub data IsUnknown (i : ℕ) (t : SubscriptionTable) : Error → Type 0 where
  unknown : select (λ r. r.id == i) t.rows ≡ [] → IsUnknown i t unknown_subscription

-- A row after the update: inactive when it has the identifier, else as it was.
pub data IsUpdated (i : ℕ) (old new : SubscriptionRow) : Type 0 where
  ended : old.id ≡ i → new ≡ record old { active = false } → IsUpdated i old new
  kept : ¬ (old.id ≡ i) → new ≡ old → IsUpdated i old new

-- Row by row.
abbrev pub AreUpdated : ℕ → List SubscriptionRow → List SubscriptionRow → Type 0
AreUpdated i [] [] = Unit
AreUpdated i (old ∷ olds) (new ∷ news) = IsUpdated i old new × AreUpdated i olds news
AreUpdated i _ _ = ⊥

updated-deactivate :
    (i : ℕ) (rows : List SubscriptionRow) → AreUpdated i rows (map (deactivate i) rows)
unfolding deactivate
updated-deactivate i [] = tt
updated-deactivate i (r ∷ rows) = (
  if_ind (IsUpdated i r) (r.id == i) (λ same. ended (eq_of_beq r.id i same) refl)
      (λ apart. kept (λ q. ground (arith, beq_self i)) refl),
  updated-deactivate i rows,
)

-- The update is fixed by this.
pub AreUpdated-unique :
    (i : ℕ) (olds news : List SubscriptionRow)
    → AreUpdated i olds news
    → news ≡ map (deactivate i) olds
unfolding deactivate
AreUpdated-unique i [] [] h = refl
AreUpdated-unique i [] (new ∷ news) h = absurd h
AreUpdated-unique i (old ∷ olds) [] h = absurd h
AreUpdated-unique i (old ∷ olds) (new ∷ news) h =
    ap (λ x. x ∷ news) (same h.0)
    ∙ ap (λ (l : List SubscriptionRow). deactivate i old ∷ l) (AreUpdated-unique i olds news h.1)
  where
    same : IsUpdated i old new → new ≡ (if old.id == i then record old { active = false } else old)
    same (ended q e) =
        if_ind (λ x. new ≡ x) (old.id == i) (λ _. e) (λ apart. ground (arith, q, beq_self i))
    same (kept q e) =
        if_ind (λ x. new ≡ x) (old.id == i) (λ equal. absurd (q (eq_of_beq old.id i equal)))
          (λ _. e)

-- Every row is there, and the one with the identifier, and only that, is made inactive.
pub record IsUnsubscribed (i : ℕ) (t : SubscriptionTable) (r : Subscription × SubscriptionTable)
    : Type 0 where
  pub well_formed : IsWellFormed r.1
  pub updated : AreUpdated i t.rows r.1.rows
  pub same_rows : subscription_ids r.1.rows ≡ subscription_ids t.rows
  pub off : All (λ x. x.id ≡ i → x.active ≡ false) r.1.rows
  pub own : r.0.id ≡ i
  pub shown : r.0.active ≡ false

inactive-deactivate :
    (i : ℕ) (rows : List SubscriptionRow)
    → All (λ x. x.id ≡ i → x.active ≡ false) (map (deactivate i) rows)
unfolding deactivate
inactive-deactivate i [] = tt
inactive-deactivate i (r ∷ rows) = (
  if_ind (λ (x : SubscriptionRow). x.id ≡ i → x.active ≡ false) (r.id == i) (λ _ _. refl)
      (λ apart q. ground (arith, beq_self i)),
  inactive-deactivate i rows,
)

-- `unsubscribe` refuses an identifier that no subscription has; or it keeps every row and makes the
-- one with the identifier inactive and no other, returning it, in a table where each subscription has one target and no two
-- active ones the same, and which stays one.
pub unsubscribe-IsUnsubscribed :
    (scopes : List ScopeRow) (i : ℕ) (t : SubscriptionTable)
    → IsWellFormed t
    → Yields (IsUnknown i t) (IsUnsubscribed i t) (unsubscribe scopes i t)
unfolding unsubscribe load_by_id from_row
unsubscribe-IsUnsubscribed scopes i t h = elim (one_id i t.rows h.keyed) [
  | inl absent ↦ rw absent (raises (unknown absent))
  | inr (r, q) ↦
      let after : select (λ x. x.id == i) (map (deactivate i) t.rows)
          ≡ record r { active = false } ∷ [] =
        select-deactivate i t.rows ∙ ap (map inactive) q in
      rw (q, after)
        (returns (record {
          well_formed = deactivated-IsWellFormed i t h;
          updated = updated-deactivate i t.rows;
          same_rows = ids-deactivate i t.rows;
          off = inactive-deactivate i t.rows;
          own = selected_id i t.rows r q;
          shown = refl;
        }))
]
