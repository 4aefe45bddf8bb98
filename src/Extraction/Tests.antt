-- ===== src/Extraction/Tests.antt =====
-- A batch of three records, of which one cites a node of the paper.
use ai_researcher.Prelude.{
  ℕ, ◌≡◌, refl, Option, none, some, List, [], ◌∷◌, nat_eq, string_eq, length, Result, ok, err,
  Yields, if◌then◌else◌, ◌==◌,
}
use ai_researcher.Json.{
  pos, Value, int, str, obj, arr, field, end, cons, nil, get, has_key, to_list, as_list,
}
use ai_researcher.Extraction.Errors.{Error, oversized, not_json, too_long}
use ai_researcher.Extraction.Validate.{
  RecordKind, claim, Schema, ValidationOutcome, caught, coerce_records, is_missing, as_int, is_true,
  kind_of_name, kind_of_keys, record_type, occurs, is_anchor_failure, model_payload, is_allowed,
  validate_model, validate_node, validate_record, add_verdict, validate_all, validate_coerced,
  validate_batch, is_parseable, attempt, outcome_of, attempt_again, validate_llm_output,
}
use ai_researcher.Extraction.Validate.Payload.{AreShorter}
use ai_researcher.Extraction.Validate.Anchored.{IsOverflow, IsBatch, validate_batch-IsBatch}
use ai_researcher.Extraction.Validate.Attempts.{IsRaised, IsOutput, validate_llm_output-IsOutput}

-- No text is one of JSON, and the model of a record is its kind.
abbrev schema : Schema RecordKind
schema = record {
  loads = λ s. err not_json;
  parse_int = λ s. none;
  lower = λ s. s;
  model_validate = λ kind fields. ok kind;
}

abbrev entry : ℕ → Value
entry node = obj (field "claim_text" (str "It gains.") (field "tree_node_id" (int (pos node)) end))

abbrev payload : Value
payload = obj (field "records" (arr (cons (entry 4) (cons (entry 0) (cons (entry 9) nil)))) end)

-- The first attempt is no JSON.
abbrev fetch : ℕ → Option Value
fetch n = if n == 0 then some (str "{") else some payload

accepted_of : Result Error (ValidationOutcome RecordKind) → List RecordKind
accepted_of (ok o) = o.accepted
accepted_of (err e) = []

rejected_of : Result Error (ValidationOutcome RecordKind) → ℕ
rejected_of (ok o) = length o.rejected
rejected_of (err e) = 0

validate_llm_output_run : accepted_of (validate_llm_output schema fetch (4 ∷ 5 ∷ [])) ≡ claim ∷ []
unfolding accepted_of rejected_of validate_llm_output attempt_again outcome_of attempt is_parseable
    validate_batch validate_coerced validate_all add_verdict validate_record validate_node
    validate_model is_allowed model_payload is_anchor_failure occurs record_type kind_of_keys
    kind_of_name is_true as_int is_missing coerce_records caught get has_key to_list as_list
validate_llm_output_run = refl

validate_llm_output_rejects : rejected_of (validate_llm_output schema fetch (4 ∷ 5 ∷ [])) ≡ 2
unfolding accepted_of rejected_of validate_llm_output attempt_again outcome_of attempt is_parseable
    validate_batch validate_coerced validate_all add_verdict validate_record validate_node
    validate_model is_allowed model_payload is_anchor_failure occurs record_type kind_of_keys
    kind_of_name is_true as_int is_missing coerce_records caught get has_key to_list as_list
validate_llm_output_rejects = refl

-- An integer of too many digits in the first answer.
validate_llm_output_raises :
    validate_llm_output (record schema { loads = λ s. err too_long }) fetch (4 ∷ []) ≡ err oversized
unfolding validate_llm_output attempt is_parseable
validate_llm_output_raises = refl

schema-AreShorter : AreShorter schema.loads
schema-AreShorter = λ s t h. cc

validate_batch-IsBatch_example :
    Yields IsOverflow (IsBatch schema (4 ∷ []) payload) (validate_batch schema payload (4 ∷ []))
validate_batch-IsBatch_example = validate_batch-IsBatch schema (4 ∷ []) schema-AreShorter payload

validate_llm_output-IsOutput_example :
    Yields
      (IsRaised schema (4 ∷ []) fetch)
      (IsOutput schema (4 ∷ []) fetch)
      (validate_llm_output schema fetch (4 ∷ []))
validate_llm_output-IsOutput_example =
    validate_llm_output-IsOutput schema (4 ∷ []) schema-AreShorter fetch
