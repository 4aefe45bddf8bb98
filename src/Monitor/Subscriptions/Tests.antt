-- ===== src/Monitor/Subscriptions/Tests.antt =====
-- Two scopes, one of which has a subscription.
use ai_researcher.Prelude.{
  ℕ, String, ◌≡◌, refl, true, false, Option, none, some, List, [], ◌∷◌, select, nat_eq, option_eq,
  pair_eq, string_eq, ◌==◌, Result, ok, err, Yields, ◌>>=◌, arith,
}
use ai_researcher.Text.{str}
use ai_researcher.Tables.{topic, ClaimRow}
use ai_researcher.Monitor.Subscriptions.{
  Error, duplicate, ScopeRow, Subscription, SubscriptionTable, has_one_target, is_duplicate,
  reject_duplicate, load_by_id, from_row, subscribe, subscribe_topic, canonical_of, subscribe_claim,
  unsubscribe,
}
use ai_researcher.Monitor.Subscriptions.Targets.{active_targets, IsWellFormed, IsSubscribed}
use ai_researcher.Monitor.Subscriptions.Lifecycle.{IsTopicFailure, subscribe_topic-IsSubscribed}
use ai_researcher.Monitor.Subscriptions.Return.{IsNever, unsubscribe-subscribe_topic}
use ai_researcher.Monitor.Subscriptions.Ending.{
  IsUnknown, IsUnsubscribed, unsubscribe-IsUnsubscribed,
}

abbrev scopes : List ScopeRow
scopes = record { id = 3; name = "a" } ∷ record { id = 4; name = "b" } ∷ []

abbrev table : SubscriptionTable
table = record {
  rows =
      record {
        id = 1;
        kind = topic;
        scope_id = some 3;
        claim_id = none;
        created_at = 0;
        active = true;
      }
      ∷ record {
        id = 2;
        kind = topic;
        scope_id = some 4;
        claim_id = none;
        created_at = 0;
        active = false;
      }
      ∷ [];
  next_id = 3;
  now = 9;
}

abbrev the_claim : ℕ → Option ℕ → ClaimRow ℕ
the_claim id canonical = record {
  id = id;
  paper_id = 7;
  tree_node_id = 1;
  claim_text = "It gains.";
  normalized_text = "it gains";
  claim_type = "result";
  subject = none;
  predicate = none;
  object_value = none;
  unit = none;
  canonical_claim_id = canonical;
  identity_checked_at = none;
  extraction_model = "m";
  prompt_version = "1";
  created_at = 0;
}

target_of : Result Error (Subscription × SubscriptionTable) → Result Error (ℕ × String)
target_of r = r >>= λ s. ok (s.0.id, s.0.target)

subscribe_topic_taken : target_of (subscribe_topic scopes "a" table) ≡ err duplicate
unfolding target_of subscribe_topic subscribe_claim canonical_of subscribe reject_duplicate
    is_duplicate has_one_target load_by_id from_row str
subscribe_topic_taken = refl

subscribe_topic_run : target_of (subscribe_topic scopes "b" table) ≡ ok (3, "b")
unfolding target_of subscribe_topic subscribe_claim canonical_of subscribe reject_duplicate
    is_duplicate has_one_target load_by_id from_row str
subscribe_topic_run = refl

subscribe_claim_run :
    target_of (subscribe_claim scopes (the_claim 6 (some 5) ∷ []) 6 table) ≡ ok (3, "5")
unfolding target_of subscribe_topic subscribe_claim canonical_of subscribe reject_duplicate
    is_duplicate has_one_target load_by_id from_row str
subscribe_claim_run = refl

table-IsWellFormed : IsWellFormed table
unfolding has_one_target
table-IsWellFormed = record {
  one_target = (refl, (refl, tt));
  once = (refl, tt);
  keyed = (refl, (refl, tt));
  below = (omega arith, (omega arith, tt));
}

subscribe_topic-IsSubscribed_example :
    Yields
      (IsTopicFailure scopes "b" table)
      (λ r.
        (s : ScopeRow) × (select (λ x. x.name == "b") scopes ≡ s ∷ [])
        × IsSubscribed topic (some s.id) none table r)
      (subscribe_topic scopes "b" table)
subscribe_topic-IsSubscribed_example =
    subscribe_topic-IsSubscribed scopes "b" table table-IsWellFormed

unsubscribe-IsUnsubscribed_example :
    Yields (IsUnknown 1 table) (IsUnsubscribed 1 table) (unsubscribe scopes 1 table)
unsubscribe-IsUnsubscribed_example = unsubscribe-IsUnsubscribed scopes 1 table table-IsWellFormed

abbrev added : Subscription × SubscriptionTable
added = (
  record {
    id = 3;
    kind = topic;
    scope_id = some 4;
    claim_id = none;
    active = true;
    created_at = 9;
    target = "b";
  },
  record {
    rows =
        record {
          id = 1;
          kind = topic;
          scope_id = some 3;
          claim_id = none;
          created_at = 0;
          active = true;
        }
        ∷ record {
          id = 2;
          kind = topic;
          scope_id = some 4;
          claim_id = none;
          created_at = 0;
          active = false;
        }
        ∷ record {
          id = 3;
          kind = topic;
          scope_id = some 4;
          claim_id = none;
          created_at = 9;
          active = true;
        }
        ∷ [];
    next_id = 4;
    now = 9;
  },
)

subscribe_topic_adds : subscribe_topic scopes "b" table ≡ ok added
unfolding subscribe_topic subscribe reject_duplicate is_duplicate has_one_target load_by_id from_row
subscribe_topic_adds = refl

unsubscribe-subscribe_topic_example :
    Yields IsNever
      (λ u. active_targets u.1.rows ≡ active_targets table.rows)
      (unsubscribe scopes added.0.id added.1)
unsubscribe-subscribe_topic_example =
    unsubscribe-subscribe_topic scopes "b" table added table-IsWellFormed subscribe_topic_adds
