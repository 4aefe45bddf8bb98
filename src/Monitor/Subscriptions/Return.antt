-- ===== src/Monitor/Subscriptions/Return.antt =====
-- A topic subscription and its end, one after the other.
use ai_researcher.Prelude.{
  ℕ, ◌<◌, String, ◌≡◌, refl, sym, ap, ◌∙◌, none, some, List, [], ◌∷◌, ◌++◌, append-nil, map,
  map-append, select, nat_eq, string_eq, option_eq, pair_eq, ◌==◌, beq_self, eq_of_beq, All, Result,
  ok, if_ind, Yields, returns, raises, Yields-ok, arith,
}
use ai_researcher.Tables.{topic, SubscriptionRow}
use ai_researcher.Monitor.Subscriptions.{
  Error, ScopeRow, Subscription, SubscriptionTable, new_row, deactivate, subscribe_topic,
  unsubscribe,
}
use ai_researcher.Monitor.Subscriptions.Targets.{
  IsWellFormed, active_targets, active_targets-append, IsSubscribed,
}
use ai_researcher.Monitor.Subscriptions.Lifecycle.{select-new, subscribe_topic-IsSubscribed}
use ai_researcher.Monitor.Subscriptions.Ending.{
  IsUnknown, unknown, IsUnsubscribed, AreUpdated-unique, unsubscribe-IsUnsubscribed,
}

abbrev pub IsNever : Error → Type 0
IsNever e = ⊥

deactivate-below :
    (n : ℕ) (rows : List SubscriptionRow)
    → All (λ r. r.id < n) rows
    → map (deactivate n) rows ≡ rows
unfolding deactivate
deactivate-below n [] h = refl
deactivate-below n (r ∷ rows) h =
    let rest = deactivate-below n rows h.1 in
    if_ind (λ (x : SubscriptionRow). x ∷ map (deactivate n) rows ≡ r ∷ rows) (r.id == n)
      (λ same. (let e = eq_of_beq r.id n same in let b = h.0 in absurd (omega arith)))
      (λ _. ap (λ (l : List SubscriptionRow). r ∷ l) rest)

-- The end of a subscription that was just added leaves the targets as they were before it.
ended-targets :
    (s : ℕ) (t : SubscriptionTable)
    → IsWellFormed t
    → active_targets (map (deactivate t.next_id) (t.rows ++ new_row topic (some s) none t ∷ []))
      ≡ active_targets t.rows
unfolding deactivate
ended-targets s t h =
    let new = new_row topic (some s) none t in
    ap active_targets (map-append (deactivate t.next_id) t.rows (new ∷ []))
    ∙ active_targets-append (map (deactivate t.next_id) t.rows)
        (map (deactivate t.next_id) (new ∷ []))
    ∙ ap (λ l. active_targets l ++ active_targets (map (deactivate t.next_id) (new ∷ [])))
        (deactivate-below t.next_id t.rows h.below)
    ∙ rw (beq_self t.next_id) (append-nil (active_targets t.rows))

-- `unsubscribe` of what `subscribe_topic` has returned succeeds, and the targets of the active
-- subscriptions are those from before; in a table where each subscription has one target and no two
-- active ones the same, and whose identifiers are distinct and below the next one.
pub unsubscribe-subscribe_topic :
    (scopes : List ScopeRow) (name : String) (t : SubscriptionTable)
    (r : Subscription × SubscriptionTable)
    → IsWellFormed t
    → subscribe_topic scopes name t ≡ ok r
    → Yields IsNever
        (λ u. active_targets u.1.rows ≡ active_targets t.rows)
        (unsubscribe scopes r.0.id r.1)
unsubscribe-subscribe_topic scopes name t r h q =
    let (s, found, done) = Yields-ok (subscribe_topic-IsSubscribed scopes name t h) q in
    go s done (unsubscribe scopes r.0.id r.1)
      (unsubscribe-IsUnsubscribed scopes r.0.id r.1 done.well_formed)
  where
    there :
        (s : ScopeRow)
        → IsSubscribed topic (some s.id) none t r
        → select (λ x. x.id == r.0.id) r.1.rows ≡ new_row topic (some s.id) none t ∷ []
    there s done =
        ap (λ i. select (λ (x : SubscriptionRow). x.id == i) r.1.rows) done.id
        ∙ ap (select (λ (x : SubscriptionRow). x.id == t.next_id)) done.added
        ∙ select-new topic (some s.id) none t h

    go :
        (s : ScopeRow)
        → IsSubscribed topic (some s.id) none t r
        → (u : Result Error (Subscription × SubscriptionTable))
        → Yields (IsUnknown r.0.id r.1) (IsUnsubscribed r.0.id r.1) u
        → Yields IsNever (λ u. active_targets u.1.rows ≡ active_targets t.rows) u
    go s done u (raises (unknown absent)) = raises (cc (sym absent ∙ there s done))
    go s done u (returns e) = returns (
        ap active_targets (AreUpdated-unique r.0.id r.1.rows _ e.updated)
        ∙ ap (λ i. active_targets (map (deactivate i) r.1.rows)) done.id
        ∙ ap (λ l. active_targets (map (deactivate t.next_id) l)) done.added
        ∙ ended-targets s.id t h)
