-- ===== src/Monitor/Subscriptions.antt =====
-- src/ai_researcher/monitor/subscription.py: topic and claim subscriptions. Each call is one
-- transaction; an exception leaves the table as it was.
pub mod Targets
pub mod Lifecycle
pub mod Deactivated
pub mod Ending
pub mod Return
mod Tests
use ai_researcher.Prelude.{
  ℕ, ◌+◌, String, Bool, true, false, not, ◌&&◌, ◌||◌, Option, none, some, List, [], ◌∷◌, ◌++◌, map,
  select, nat_eq, string_eq, option_eq, ◌==◌, Result, ok, err, guard, need, ◌>>=◌, ◌>>◌,
  if◌then◌else◌,
}
use ai_researcher.Text.{is_blank, str}
use ai_researcher.Tables.{Kind, topic, claim, SubscriptionRow, ClaimRow}

pub data Error : Type 0 where
  unknown_scope unknown_claim unknown_subscription duplicate target_error : Error
  -- MultipleResultsFound and NoResultFound of SQLAlchemy
  multiple_rows no_row : Error

pub record ScopeRow : Type 0 where
  pub id : ℕ
  pub name : String

pub record Subscription : Type 0 where
  pub id : ℕ
  pub kind : Kind
  pub scope_id : Option ℕ
  pub claim_id : Option ℕ
  pub active : Bool
  pub created_at : ℕ
  pub target : String

-- The table `subscription`, the next value of its sequence, and the time.
pub record SubscriptionTable : Type 0 where
  pub rows : List SubscriptionRow
  pub next_id : ℕ
  pub now : ℕ

-- `.one_or_none()`
abbrev pub one_or_none {ℓ} : {A : Type ℓ} → List A → Result Error (Option A)
one_or_none [] = ok none
one_or_none (x ∷ []) = ok (some x)
one_or_none (x ∷ y ∷ xs) = err multiple_rows

-- `.one()`
abbrev pub one {ℓ} : {A : Type ℓ} → List A → Result Error A
one [] = err no_row
one (x ∷ []) = ok x
one (x ∷ y ∷ xs) = err multiple_rows

abbrev pub is_topic : Kind → Bool
is_topic topic = true
is_topic claim = false

abbrev pub same_kind : Kind → Kind → Bool
same_kind topic k = is_topic k
same_kind claim k = not (is_topic k)

-- The two parts of `_assert_exactly_one_target`.
unfoldable pub has_one_target : Kind → Option ℕ → Option ℕ → Bool
has_one_target topic (some s) none = true
has_one_target claim none (some c) = true
has_one_target _ _ _ = false

-- The rows of the query of `_reject_duplicate`.
unfoldable pub is_duplicate : Kind → Option ℕ → Option ℕ → SubscriptionRow → Bool
is_duplicate kind scope_id claim_id r =
    same_kind r.kind kind
    && r.active
    && (if is_topic kind then r.scope_id == scope_id else r.claim_id == claim_id)

unfoldable pub reject_duplicate :
    Kind → Option ℕ → Option ℕ → List SubscriptionRow → Result Error (Unit {0})
reject_duplicate kind scope_id claim_id rows = do
  existing ← one_or_none (select (is_duplicate kind scope_id claim_id) rows)
  elim existing [ none ↦ ok tt | some r ↦ err duplicate ]

-- `scope.name` of the outer join
abbrev pub scope_name : List ScopeRow → Option ℕ → String
scope_name [] i = ""
scope_name (s ∷ scopes) i = if some s.id == i then s.name else scope_name scopes i

abbrev pub written : Option ℕ → String
written none = "None"
written (some i) = str i

unfoldable pub from_row : List ScopeRow → SubscriptionRow → Subscription
from_row scopes r =
    let name = scope_name scopes r.scope_id in
    record {
      id = r.id;
      kind = r.kind;
      scope_id = r.scope_id;
      claim_id = r.claim_id;
      active = r.active;
      created_at = r.created_at;
      target =
          if is_topic r.kind
          then (if is_blank name then written r.scope_id else name)
          else written r.claim_id;
    }

unfoldable pub load_by_id : List ScopeRow → ℕ → List SubscriptionRow → Result Error Subscription
load_by_id scopes subscription_id rows = do
  r ← one (select (λ r. r.id == subscription_id) rows)
  ok (from_row scopes r)

abbrev pub new_row : Kind → Option ℕ → Option ℕ → SubscriptionTable → SubscriptionRow
new_row kind scope_id claim_id t = record {
  id = t.next_id;
  kind = kind;
  scope_id = scope_id;
  claim_id = claim_id;
  created_at = t.now;
  active = true;
}

-- What `subscribe_topic` and `subscribe_claim` do with their target.
unfoldable pub subscribe :
    List ScopeRow
    → Kind
    → Option ℕ
    → Option ℕ
    → SubscriptionTable
    → Result Error (Subscription × SubscriptionTable)
subscribe scopes kind scope_id claim_id t = do
  guard (has_one_target kind scope_id claim_id) target_error
  reject_duplicate kind scope_id claim_id t.rows
  let rows = t.rows ++ new_row kind scope_id claim_id t ∷ []
  s ← load_by_id scopes t.next_id rows
  ok (s, record t { rows = rows; next_id = t.next_id + 1 })

unfoldable pub subscribe_topic :
    List ScopeRow → String → SubscriptionTable → Result Error (Subscription × SubscriptionTable)
subscribe_topic scopes name t = do
  found ← one_or_none (select (λ s. s.name == name) scopes)
  scope_row ← need found unknown_scope
  subscribe scopes topic (some scope_row.id) none t

-- `canonical_claim_id or id`
unfoldable pub canonical_of : {Real : Type 0} → ClaimRow Real → ℕ
canonical_of c = or_id c.canonical_claim_id
  where
    or_id : Option ℕ → ℕ
    or_id none = c.id
    or_id (some i) = if i == 0 then c.id else i

unfoldable pub subscribe_claim :
    {Real : Type 0}
    → List ScopeRow
    → List (ClaimRow Real)
    → ℕ
    → SubscriptionTable
    → Result Error (Subscription × SubscriptionTable)
subscribe_claim scopes claims claim_id t = do
  found ← one_or_none (select (λ c. c.id == claim_id) claims)
  claim_row ← need found unknown_claim
  subscribe scopes claim none (some (canonical_of claim_row)) t

unfoldable pub deactivate : ℕ → SubscriptionRow → SubscriptionRow
deactivate i r = if r.id == i then record r { active = false } else r

unfoldable pub unsubscribe :
    List ScopeRow → ℕ → SubscriptionTable → Result Error (Subscription × SubscriptionTable)
unsubscribe scopes subscription_id t = do
  existing ← one_or_none (select (λ r. r.id == subscription_id) t.rows)
  r ← need existing unknown_subscription
  let rows = map (deactivate subscription_id) t.rows
  s ← load_by_id scopes subscription_id rows
  ok (s, record t { rows = rows })
