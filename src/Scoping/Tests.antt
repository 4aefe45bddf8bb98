-- ===== src/Scoping/Tests.antt =====
-- A model that proposes terms, one of them twice and one blank, and a user who says no once.
use ai_researcher.Prelude.{
  length, pair_eq, not, if◌then◌else◌, String, ◌≡◌, refl, true, Option, none, some, List, [], ◌∷◌,
  string_eq, ◌==◌, Result, ok, err, Yields,
}
use ai_researcher.Text.{remove_first_prefix, strip, str as written}
use ai_researcher.Json.{
  Value, str, arr, obj, nil, cons, end, field, get, to_list, as_dict, as_list, as_string,
}
use ai_researcher.Scoping.Terms.{
  ScopeDefinition, is_valid, keep, keep_all, unique_nonempty, extended,
}
use ai_researcher.Scoping.Terms.Cover.{IsCover, unique_nonempty-IsCover}
use ai_researcher.Scoping.Estimate.{
  PaperRef, reference_identity, normalize_doi, add_identity, add_refs, add_sources, estimate_scope,
  found_identities, IsSetOf, estimate_scope-IsSetOf,
}
use ai_researcher.Scoping.Dialogue.{
  Error, Dialogue, Confirm, as_strings, append_term, proposal_field, validated_proposal, decided,
  decide_all, run_dialogue,
}
use ai_researcher.Scoping.Dialogue.Narrowing.{IsInterruption, IsNarrowed, run_dialogue-IsNarrowed}

abbrev topic : ScopeDefinition
topic = record {
  name = "qc";
  description = "d";
  include_terms = "qubit" ∷ [];
  exclude_terms = [];
  categories = [];
  date_from = some 3;
  date_to = some 5;
  per_source_limit = 10;
}

abbrev fold : String → String
fold s = if s == "QUBIT" then "qubit" else s

abbrev user : Confirm
user said prompt = some (not (prompt == "Accept adjacent term 'b'?"))

abbrev proposed : Value
proposed = obj (
    field "subtopics"
      (arr (cons (str " a ") (cons (str "a") (cons (str " ") (cons (str "QUBIT") nil)))))
      (field "adjacent_terms" (arr (cons (str "b") nil))
        (field "exclusions" (arr (cons (str "c") nil)) end)))

terms_of : Result Error Dialogue → Option (List String × List String)
terms_of (ok w) = some (w.scope.include_terms, w.scope.exclude_terms)
terms_of (err e) = none

run_dialogue_run :
    terms_of (run_dialogue fold user (λ s. some 4) (λ s n. some proposed) topic)
    ≡ some ("qubit" ∷ "a" ∷ [], "c" ∷ [])
unfolding terms_of run_dialogue decide_all decided validated_proposal proposal_field append_term
    as_strings extended unique_nonempty keep_all keep is_valid strip written get to_list as_dict
    as_list as_string
run_dialogue_run = refl

topic-is_valid : is_valid topic ≡ true
unfolding is_valid strip
topic-is_valid = refl

run_dialogue-IsNarrowed_example :
    Yields IsInterruption
      (λ w. IsNarrowed fold user topic w.scope)
      (run_dialogue fold user (λ s. some 4) (λ s n. some proposed) topic)
run_dialogue-IsNarrowed_example =
    run_dialogue-IsNarrowed fold user (λ s. some 4) (λ s n. some proposed) topic topic-is_valid

unique_nonempty-IsCover_example :
    IsCover fold (" a " ∷ "a" ∷ " " ∷ []) (unique_nonempty fold (" a " ∷ "a" ∷ " " ∷ []))
unique_nonempty-IsCover_example = unique_nonempty-IsCover fold (" a " ∷ "a" ∷ " " ∷ [])

abbrev paper_ref : String → Option String → PaperRef
paper_ref id doi = record {
  source = "arxiv";
  external_id = id;
  doi = doi;
  title = none;
  pdf_url = none;
}

-- Two sources that found the same paper, one that found another, and one that failed.
abbrev searches : List (Option (List PaperRef))
searches =
    some (paper_ref "1" (some "doi:10.1/x") ∷ [])
    ∷ none
    ∷ some (paper_ref "2" (some " https://doi.org/10.1/x") ∷ paper_ref "3" none ∷ [])
    ∷ []

estimate_scope_run : estimate_scope fold (λ s. s) searches ≡ 2
unfolding estimate_scope add_sources add_refs add_identity reference_identity normalize_doi strip
    remove_first_prefix
estimate_scope_run = refl

estimate_scope-IsSetOf_example :
    (identities : List (String × String)) × (estimate_scope fold (λ s. s) searches
      ≡ length identities)
    × IsSetOf fold (λ s. s) identities (found_identities fold (λ s. s) searches)
estimate_scope-IsSetOf_example = estimate_scope-IsSetOf fold (λ s. s) searches
