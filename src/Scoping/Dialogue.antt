-- ===== src/Scoping/Dialogue.antt =====
-- `run_dialogue` and `_validated_proposal` of src/ai_researcher/scoping/dialogue.py.
pub mod Narrowing
use Prim.Native.String.{◌++◌ as concat}
use ai_researcher.Prelude.{
  ℕ, String, ◌≡◌, Bool, true, false, Option, none, some, List, [], ◌∷◌, ◌++◌, string_eq, Result, ok,
  err, need, guard, ◌>>◌, ◌>>=◌, if◌then◌else◌,
}
use ai_researcher.Text.{str}
use ai_researcher.Json.{Value, get, as_dict, as_list, as_string}
use ai_researcher.Scoping.Terms.{ScopeDefinition, is_valid, unique_nonempty, extended}

pub data Error : Type 0 where
  -- InvalidScopingProposalError
  invalid_proposal : Error
  -- what the gateway, the estimate and the prompt raise
  model_failed estimate_failed aborted : Error
  -- ValueError of a scope that is created invalid, by `replace`
  invalid_scope : Error

pub record Proposal : Type 0 where
  pub subtopics : List String
  pub adjacent_terms : List String
  pub exclusions : List String

unfoldable pub as_strings : List Value → Result Error (List String)
as_strings [] = ok []
as_strings (v ∷ vs) = do
  s ← need (as_string v) invalid_proposal
  rest ← as_strings vs
  ok (s ∷ rest)

pub data TargetField : Type 0 where
  include_terms exclude_terms : TargetField

-- The scope, and the messages emitted so far.
pub record Dialogue : Type 0 where
  pub scope : ScopeDefinition
  pub emitted : List String

-- The user answers knowing what was emitted; `none` stands for a prompt that is aborted.
abbrev pub Confirm : Type 0
Confirm = List String → String → Option Bool

unfoldable pub append_term :
    (String → String) → ScopeDefinition → TargetField → String → ScopeDefinition
append_term casefold scope include_terms term = record scope {
  include_terms = extended casefold scope.include_terms term;
}
append_term casefold scope exclude_terms term = record scope {
  exclude_terms = extended casefold scope.exclude_terms term;
}

abbrev pub question : String → String → String
question label term = concat "Accept " (concat label (concat " '" (concat term "'?")))

module _ (casefold : String → String) where
  unfoldable pub proposal_field : String → Value → Result Error (List String)
  proposal_field key response = do
    fields ← need (as_dict response) invalid_proposal
    found ← need (as_list (get key fields)) invalid_proposal
    terms ← as_strings found
    ok (unique_nonempty casefold terms)

  unfoldable pub validated_proposal : Value → Result Error Proposal
  validated_proposal response = do
    subtopics ← proposal_field "subtopics" response
    adjacent_terms ← proposal_field "adjacent_terms" response
    exclusions ← proposal_field "exclusions" response
    ok (record { subtopics = subtopics; adjacent_terms = adjacent_terms; exclusions = exclusions })

  module _ (confirm : Confirm) (estimate : ScopeDefinition → Option ℕ) where
    -- The rest of a turn, after the user has answered.
    unfoldable pub decided : String → TargetField → String → Dialogue → Bool → Result Error Dialogue
    decided label target_field term w false = ok w
    decided label target_field term w true = do
      let scope = append_term casefold w.scope target_field term
      checked ← guard (is_valid scope) invalid_scope
      count ← need (estimate scope) estimate_failed
      ok (record {
        scope = scope;
        emitted =
            w.emitted
            ++ concat "Estimated candidates after accepting "
                (concat label (concat " '" (concat term (concat "': " (str count)))))
              ∷ [];
      })

    -- `for term in terms`
    unfoldable pub decide_all :
        String → TargetField → List String → Dialogue → Result Error Dialogue
    decide_all label target_field [] w = ok w
    decide_all label target_field (term ∷ terms) w = do
      let said = w.emitted ++ concat "Proposed " (concat label (concat ": " term)) ∷ []
      answer ← need (confirm said (question label term)) aborted
      next ← decided label target_field term (record w { emitted = said }) answer
      decide_all label target_field terms next

    -- The model sees the scope and the first estimate.
    unfoldable pub run_dialogue :
        (ScopeDefinition → ℕ → Option Value) → ScopeDefinition → Result Error Dialogue
    run_dialogue complete initial_scope = do
      initial_count ← need (estimate initial_scope) estimate_failed
      response ← need (complete initial_scope initial_count) model_failed
      proposal ← validated_proposal response
      first ← decide_all "sub-topic" include_terms proposal.subtopics (record {
        scope = initial_scope;
        emitted = concat "Estimated candidates before narrowing: " (str initial_count) ∷ [];
      })
      second ← decide_all "adjacent term" include_terms proposal.adjacent_terms first
      decide_all "exclusion" exclude_terms proposal.exclusions second
