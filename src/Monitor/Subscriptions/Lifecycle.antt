-- ===== src/Monitor/Subscriptions/Lifecycle.antt =====
-- `subscribe_topic`, `subscribe_claim` and `unsubscribe` keep the table well-formed.
use ai_researcher.Prelude.{
  ℕ, ◌+◌, String, ◌≡◌, refl, sym, subst, ◌∙◌, true, Option, none, some, List, [], ◌∷◌, ◌++◌,
  map-append, select, select-append, nat_eq, string_eq, option_eq, pair_eq, ◌==◌, beq_self,
  Distinct, Distinct-snoc, All-append, All-map, Result, need, ◌>>=◌, Yields, returns, raises,
  Yields-bind, arith,
}
use ai_researcher.Tables.{Kind, topic, SubscriptionRow}
use ai_researcher.Monitor.Subscriptions.{
  Error, multiple_rows, unknown_scope, ScopeRow, Subscription, SubscriptionTable, one_or_none, one,
  has_one_target, is_duplicate, load_by_id, from_row, new_row, subscribe, subscribe_topic,
}
use ai_researcher.Monitor.Subscriptions.Targets.{
  IsWellFormed, subscription_ids, active_targets, active_targets-append, absent_target, absent_id,
  IsRefused, IsSubscribed, duplicates-few,
}

added-IsWellFormed :
    (kind : Kind) (s c : Option ℕ) (t : SubscriptionTable)
    → has_one_target kind s c ≡ true
    → select (is_duplicate kind s c) t.rows ≡ []
    → IsWellFormed t
    → IsWellFormed (record t { rows = t.rows ++ new_row kind s c t ∷ []; next_id = t.next_id + 1 })
added-IsWellFormed kind s c t one none_yet h = record {
  one_target = All-append _ t.rows _ h.one_target (one, tt);
  once =
      subst (λ (l : List (Option ℕ × Option ℕ)). Distinct l)
        (sym (active_targets-append t.rows (new_row kind s c t ∷ [])))
        (Distinct-snoc (active_targets t.rows) (s, c) h.once
          (absent_target kind s c t.rows one h.one_target none_yet));
  keyed =
      subst (λ (l : List ℕ). Distinct l)
        (sym (map-append (λ (r : SubscriptionRow). r.id) t.rows (new_row kind s c t ∷ [])))
        (Distinct-snoc (subscription_ids t.rows) t.next_id h.keyed
          (absent_id t.next_id t.rows h.below).0);
  below = All-append _ t.rows _ (All-map _ _ t.rows (λ r b. omega arith) h.below) (omega arith, tt);
}

pub select-new :
    (kind : Kind) (s c : Option ℕ) (t : SubscriptionTable)
    → IsWellFormed t
    → select (λ r. r.id == t.next_id) (t.rows ++ new_row kind s c t ∷ []) ≡ new_row kind s c t ∷ []
select-new kind s c t h =
    select-append (λ r. r.id == t.next_id) t.rows (new_row kind s c t ∷ [])
    ∙ rw ((absent_id t.next_id t.rows h.below).1, beq_self t.next_id) refl

subscribe-IsSubscribed :
    (scopes : List ScopeRow) (kind : Kind) (s c : Option ℕ) (t : SubscriptionTable)
    → has_one_target kind s c ≡ true
    → IsWellFormed t
    → Yields (IsRefused kind s c t) (IsSubscribed kind s c t) (subscribe scopes kind s c t)
unfolding subscribe load_by_id from_row
subscribe-IsSubscribed scopes kind s c t one h = rw one (
    Yields-bind _ _ (duplicates-few kind s c t one h) λ _ fresh. rw (select-new kind s c t h) (
      returns (record {
        well_formed = added-IsWellFormed kind s c t one fresh h;
        added = refl;
        id = refl;
        active = refl;
        scope_id = refl;
        claim_id = refl;
      })))

-- Why a topic subscription is refused: no scope or more than one has the name, or the scope has a
-- subscription.
pub data IsTopicFailure (scopes : List ScopeRow) (name : String) (t : SubscriptionTable)
    : Error → Type 0 where
  unknown : select (λ s. s.name == name) scopes ≡ [] → IsTopicFailure scopes name t unknown_scope
  ambiguous :
      (a b : ScopeRow) (rest : List ScopeRow)
      → select (λ s. s.name == name) scopes ≡ a ∷ b ∷ rest
      → IsTopicFailure scopes name t multiple_rows
  refused :
      (s : ScopeRow) {e : Error}
      → IsRefused topic (some s.id) none t e
      → IsTopicFailure scopes name t e

-- `subscribe_topic` refuses a name that no scope or several have, or whose scope has an active
-- subscription; or it adds an active subscription of the only scope with the name, to a table where
-- each subscription has one target and no two active ones the same, and which stays one.
pub subscribe_topic-IsSubscribed :
    (scopes : List ScopeRow) (name : String) (t : SubscriptionTable)
    → IsWellFormed t
    → Yields
        (IsTopicFailure scopes name t)
        (λ r.
          (s : ScopeRow) × (select (λ x. x.name == name) scopes ≡ s ∷ [])
          × IsSubscribed topic (some s.id) none t r)
        (subscribe_topic scopes name t)
unfolding subscribe_topic has_one_target
subscribe_topic-IsSubscribed scopes name t h = go (select (λ x. x.name == name) scopes) refl
  where
    refuse :
        (s : ScopeRow) (r : Result Error (Subscription × SubscriptionTable))
        → select (λ x. x.name == name) scopes ≡ s ∷ []
        → Yields (IsRefused topic (some s.id) none t) (IsSubscribed topic (some s.id) none t) r
        → Yields
            (IsTopicFailure scopes name t)
            (λ r.
              (s : ScopeRow) × (select (λ x. x.name == name) scopes ≡ s ∷ [])
              × IsSubscribed topic (some s.id) none t r)
            r
    refuse s r q (returns p) = returns (s, q, p)
    refuse s r q (raises x) = raises (refused s x)

    go :
        (l : List ScopeRow)
        → select (λ x. x.name == name) scopes ≡ l
        → Yields
            (IsTopicFailure scopes name t)
            (λ r.
              (s : ScopeRow) × (select (λ x. x.name == name) scopes ≡ s ∷ [])
              × IsSubscribed topic (some s.id) none t r)
            (one_or_none l >>= λ found. need found unknown_scope >>= λ scope_row.
              subscribe scopes topic (some scope_row.id) none t)
    go [] q = raises (unknown q)
    go (a ∷ b ∷ rest) q = raises (ambiguous a b rest q)
    go (s ∷ []) q = refuse s _ q (subscribe-IsSubscribed scopes topic (some s.id) none t refl h)
