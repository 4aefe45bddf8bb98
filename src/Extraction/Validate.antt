-- ===== src/Extraction/Validate.antt =====
-- src/ai_researcher/extraction/validate.py: a batch of records is validated against the schema and
-- the nodes of the paper. The schema, `json.loads`, `int` of a text and `str.lower` are parameters.
pub mod Payload
pub mod Anchored
pub mod Attempts
use Prim.Native.String.{len}
use ai_researcher.Prelude.{
  ℕ, ◌+◌, zero, suc, String, ◌≡◌, Bool, true, false, not, ◌&&◌, ◌||◌, Option, none, some, List, [],
  ◌∷◌, ◌++◌, nat_eq, string_eq, ◌==◌, contains, Result, ok, err, need, ◌>>=◌, if◌then◌else◌,
}
use ai_researcher.Text.{strip_prefix}
use ai_researcher.Json.{
  ℤ, pos, negsuc, finite, infinite, nan, Value, Fields, null, bool, int, float, str, obj, arr,
  field, end, get, has_key, to_list, as_list,
}
use ai_researcher.Extraction.Errors.{
  Error, malformed, overflow, oversized, out_of_fuel, LoadError, not_json, too_long, Reason,
  malformed_payload, fetch_failed, unparseable, after_retry,
}

-- The keys of `RECORD_MODELS`.
pub data RecordKind : Type 0 where
  claim method result dataset metric : RecordKind

-- What `model_validate` raises: the first part of each location of a ValidationError, and the text.
pub record SchemaError : Type 0 where
  pub locations : List String
  pub text : String

pub record Schema (Model : Type 0) : Type 0 where
  pub loads : String → Result LoadError Value
  pub parse_int : String → Option ℤ
  pub lower : String → String
  pub model_validate : RecordKind → Fields → Result SchemaError Model

-- The error of a rejected record.
pub data Rejection : Type 0 where
  missing_anchor not_a_mapping no_record_type : Rejection
  invalid : SchemaError → Rejection

pub record RejectedRecord : Type 0 where
  pub entry : Value
  pub error : Rejection

pub record ValidationOutcome (Model : Type 0) : Type 0 where
  pub accepted : List Model
  pub rejected : List RejectedRecord
  pub paper_failed : Bool
  pub failure_reason : Option Reason

-- `validate_batch` catches both exceptions of `json.loads`.
unfoldable pub caught : Result LoadError Value → Result Error Value
caught (ok v) = ok v
caught (err e) = err malformed

-- A text may hold the text of a payload.
unfoldable pub coerce_records :
    (String → Result LoadError Value) → ℕ → Value → Result Error (List Value)
coerce_records loads zero raw = err out_of_fuel
coerce_records loads (suc fuel) null = ok []
coerce_records loads (suc fuel) (str s) = do
  parsed ← caught (loads s)
  coerce_records loads fuel parsed
coerce_records loads (suc fuel) (obj fs) =
    if has_key "records" fs then need (as_list (get "records" fs)) malformed else ok (obj fs ∷ [])
coerce_records loads (suc fuel) (arr vs) = ok (to_list vs)
coerce_records loads (suc fuel) _ = err malformed

-- A text within a text is shorter.
abbrev pub depth : Value → ℕ
depth (str s) = len s + 2
depth _ = 1

-- `node_id is None or node_id == "" or node_id == 0`
unfoldable pub is_missing : Value → Bool
is_missing null = true
is_missing (str s) = s == ""
is_missing (int (pos n)) = n == 0
is_missing (bool b) = not b
is_missing (float (finite (pos n) whole)) = n == 0 && whole
is_missing _ = false

-- `int(node_id)`: `none` is a TypeError or a ValueError.
unfoldable pub as_int : (String → Option ℤ) → Value → Result Error (Option ℤ)
as_int parse_int (bool true) = ok (some (pos 1))
as_int parse_int (bool false) = ok (some (pos 0))
as_int parse_int (int n) = ok (some n)
as_int parse_int (float (finite n whole)) = ok (some n)
as_int parse_int (float infinite) = err overflow
as_int parse_int (float nan) = ok none
as_int parse_int (str s) = ok (parse_int s)
as_int parse_int _ = ok none

-- `bool(value)`
unfoldable pub is_true : Value → Bool
is_true null = false
is_true (bool b) = b
is_true (int (pos n)) = not (n == 0)
is_true (int (negsuc n)) = true
is_true (float (finite (pos n) whole)) = not (n == 0 && whole)
is_true (float _) = true
is_true (str s) = not (s == "")
is_true (obj end) = false
is_true (obj (field k v fs)) = true
is_true (arr vs) = is_some (to_list vs)
  where
    is_some : List Value → Bool
    is_some [] = false
    is_some (v ∷ vs) = true

unfoldable pub kind_of_name : String → Option RecordKind
kind_of_name s =
    if s == "claim"
    then some claim
    else if s == "method"
    then some method
    else if s == "result"
    then some result
    else if s == "dataset"
    then some dataset
    else if s == "metric"
    then some metric
    else none

-- The keys that give a record away.
unfoldable pub kind_of_keys : Fields → Option RecordKind
kind_of_keys fs =
    if has_key "claim_text" fs
    then some claim
    else if has_key "method_text" fs
    then some method
    else if has_key "result_text" fs
    then some result
    else if has_key "dataset_name" fs
    then some dataset
    else if has_key "metric_name" fs
    then some metric
    else none

abbrev or_else : {A : Type 0} → Option A → Option A → Option A
or_else (some a) o = some a
or_else none o = o

abbrev named_kind : Value → Option RecordKind
named_kind (str s) = kind_of_name s
named_kind _ = none

unfoldable pub record_type : Fields → Option RecordKind
record_type fs =
    let explicit = if is_true (get "record_type" fs) then get "record_type" fs else get "type" fs in
    or_else (named_kind explicit) (kind_of_keys fs)

-- `part in text`
unfoldable pub occurs : String → String → Bool
occurs part String.[] = part == ""
occurs part (String.◌∷◌ c s) = starts (strip_prefix part (String.◌∷◌ c s)) || occurs part s
  where
    starts : Option String → Bool
    starts none = false
    starts (some t) = true

unfoldable pub is_anchor_failure : (String → String) → SchemaError → Fields → Bool
is_anchor_failure lower e fs =
    is_missing (get "tree_node_id" fs)
    || contains e.locations "tree_node_id"
    || occurs "tree_node_id" (lower e.text)

-- The payload without `record_type` and `type`.
unfoldable pub model_payload : Fields → Fields
model_payload end = end
model_payload (field k v fs) =
    let rest = model_payload fs in
    if k == "record_type" || k == "type" then rest else field k v rest

-- The node is one of the paper's.
unfoldable pub is_allowed : List ℕ → ℤ → Bool
is_allowed allowed (pos n) = contains allowed n
is_allowed allowed (negsuc n) = false

pub data Verdict (Model : Type 0) : Type 0 where
  accept : Model → Verdict Model
  reject : Rejection → Verdict Model

module _ {Model : Type 0} (schema : Schema Model) where
  unfoldable pub validate_model : Fields → Verdict Model
  validate_model fs = elim (record_type fs) [
    | none ↦ reject (if is_missing (get "tree_node_id" fs) then missing_anchor else no_record_type)
    | some kind ↦ elim (schema.model_validate kind (model_payload fs)) [
      | ok validated ↦ accept validated
      | err e ↦ reject (if is_anchor_failure schema.lower e fs then missing_anchor else invalid e)
    ]
  ]

  unfoldable pub validate_node : List ℕ → Fields → Option ℤ → Verdict Model
  validate_node allowed fs none = reject missing_anchor
  validate_node allowed fs (some node_int) =
      if is_allowed allowed node_int then validate_model fs else reject missing_anchor

  -- The body of the loop of `validate_batch`.
  unfoldable pub validate_record : List ℕ → Value → Result Error (Verdict Model)
  validate_record allowed (obj fs) =
      if is_missing (get "tree_node_id" fs)
      then ok (reject missing_anchor)
      else as_int schema.parse_int (get "tree_node_id" fs) >>= λ node_int.
          ok (validate_node allowed fs node_int)
  validate_record allowed _ = ok (reject not_a_mapping)

  unfoldable pub add_verdict :
      ValidationOutcome Model → Value → Verdict Model → ValidationOutcome Model
  add_verdict outcome v (accept m) = record outcome { accepted = outcome.accepted ++ m ∷ [] }
  add_verdict outcome v (reject e) = record outcome {
    rejected = outcome.rejected ++ record { entry = v; error = e } ∷ [];
  }

  unfoldable pub validate_all :
      List ℕ → ValidationOutcome Model → List Value → Result Error (ValidationOutcome Model)
  validate_all allowed outcome [] = ok outcome
  validate_all allowed outcome (v ∷ records) = do
    verdict ← validate_record allowed v
    validate_all allowed (add_verdict outcome v verdict) records

  abbrev pub no_outcome : ValidationOutcome Model
  no_outcome = record { accepted = []; rejected = []; paper_failed = false; failure_reason = none }

  abbrev pub failed_outcome : Reason → ValidationOutcome Model
  failed_outcome reason = record {
    accepted = [];
    rejected = [];
    paper_failed = true;
    failure_reason = some reason;
  }

  -- `except (json.JSONDecodeError, TypeError, ValueError)`
  unfoldable pub validate_coerced :
      List ℕ → Result Error (List Value) → Result Error (ValidationOutcome Model)
  validate_coerced allowed (ok records) = validate_all allowed no_outcome records
  validate_coerced allowed (err malformed) = ok (failed_outcome malformed_payload)
  validate_coerced allowed (err overflow) = err overflow
  validate_coerced allowed (err oversized) = err oversized
  validate_coerced allowed (err out_of_fuel) = err out_of_fuel

  unfoldable pub validate_batch : Value → List ℕ → Result Error (ValidationOutcome Model)
  validate_batch raw allowed =
      validate_coerced allowed (coerce_records schema.loads (depth raw) raw)

  pub data Attempt : Type 0 where
    settled : ValidationOutcome Model → Attempt
    failed : Option Reason → Attempt

  -- The parse of a text before it is validated, where only JSONDecodeError is caught.
  unfoldable pub is_parseable : Value → Result Error Bool
  is_parseable (str s) = probed (schema.loads s)
    where
      probed : Result LoadError Value → Result Error Bool
      probed (ok v) = ok true
      probed (err not_json) = ok false
      probed (err too_long) = err oversized
  is_parseable _ = ok true

  -- The body of the loop of `validate_llm_output`; `none` is an exception of `fetch`.
  unfoldable pub attempt : List ℕ → Option Value → Result Error Attempt
  attempt allowed none = ok (failed (some fetch_failed))
  attempt allowed (some raw) = do
    parseable ← is_parseable raw
    (if parseable
        then (validate_batch raw allowed >>= λ outcome.
            ok (if outcome.paper_failed then failed outcome.failure_reason else settled outcome))
        else ok (failed (some unparseable)))

  -- After the second attempt.
  unfoldable pub outcome_of : Attempt → ValidationOutcome Model
  outcome_of (settled outcome) = outcome
  outcome_of (failed (some reason)) = failed_outcome reason
  outcome_of (failed none) = failed_outcome after_retry

  unfoldable pub attempt_again :
      List ℕ → Option Value → Attempt → Result Error (ValidationOutcome Model)
  attempt_again allowed fetched (settled outcome) = ok outcome
  attempt_again allowed fetched (failed reason) =
      attempt allowed fetched >>= λ second. ok (outcome_of second)

  unfoldable pub validate_llm_output :
      (ℕ → Option Value) → List ℕ → Result Error (ValidationOutcome Model)
  validate_llm_output fetch allowed =
      attempt allowed (fetch 0) >>= λ first. attempt_again allowed (fetch 1) first
