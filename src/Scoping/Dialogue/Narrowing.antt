-- ===== src/Scoping/Dialogue/Narrowing.antt =====
-- The scope that a dialogue ends with.
use ai_researcher.Prelude.{
  ℕ, String, ◌≡◌, refl, sym, ap, subst, ◌∙◌, Bool, true, false, Option, some, List, [], ◌∷◌, ◌++◌,
  append_assoc, append-nil, map-append, is_empty, string_eq, if_ind, All, All-append, contains,
  contains-append, Distinct, Distinct-snoc, Yields, returns, Yields-need, Yields-need_any,
  Yields-bind, arith,
}
use ai_researcher.Json.{Value, get, as_dict, as_list, as_string}
use ai_researcher.Scoping.Terms.{ScopeDefinition, fold_keys, extended, is_valid}
use ai_researcher.Scoping.Dialogue.{
  Error, invalid_proposal, model_failed, estimate_failed, aborted, TargetField, include_terms,
  exclude_terms, Dialogue, Confirm, question, append_term, as_strings, proposal_field,
  validated_proposal, decided, decide_all, run_dialogue,
}

-- The exceptions of a dialogue about a valid scope: those from outside, and the one for a bad
-- proposal.
pub data IsInterruption : Error → Type 0 where
  bad_proposal : IsInterruption invalid_proposal
  no_model : IsInterruption model_failed
  no_estimate : IsInterruption estimate_failed
  no_answer : IsInterruption aborted

-- The user has said yes to the term.
abbrev pub WasConfirmed : Confirm → String → Type 0
WasConfirmed confirm term =
    (said : List String) × (label : String) × (confirm said (question label term) ≡ some true)

-- More terms after those of the start: each confirmed, no two of them alike but for case, and none
-- like one of the start.
pub record Extends (casefold : String → String) (confirm : Confirm) (base terms : List String)
    : Type 0 where
  pub added : List String
  pub after : terms ≡ base ++ added
  pub distinct : Distinct (fold_keys casefold added)
  pub fresh : All (λ t. contains (fold_keys casefold base) (casefold t) ≡ false) added
  pub confirmed : All (WasConfirmed confirm) added

pub record IsNarrowed (casefold : String → String) (confirm : Confirm)
    (initial final : ScopeDefinition) : Type 0 where
  pub name : final.name ≡ initial.name
  pub description : final.description ≡ initial.description
  pub categories : final.categories ≡ initial.categories
  pub date_from : final.date_from ≡ initial.date_from
  pub date_to : final.date_to ≡ initial.date_to
  pub per_source_limit : final.per_source_limit ≡ initial.per_source_limit
  pub included : Extends casefold confirm initial.include_terms final.include_terms
  pub excluded : Extends casefold confirm initial.exclude_terms final.exclude_terms
  pub valid : is_valid final ≡ true

module _ (casefold : String → String) (confirm : Confirm) where
  Extends-refl : (base : List String) → Extends casefold confirm base base
  Extends-refl base = record {
    added = [];
    after = sym (append-nil base);
    distinct = tt;
    fresh = tt;
    confirmed = tt;
  }

  extended-Extends :
      (base terms : List String) (t : String)
      → WasConfirmed confirm t
      → Extends casefold confirm base terms
      → Extends casefold confirm base (extended casefold terms t)
  unfolding extended
  extended-Extends base terms t c h =
      if_ind (Extends casefold confirm base) (contains (fold_keys casefold terms) (casefold t))
        (λ _. h)
        (λ new.
          let both : contains (fold_keys casefold (base ++ h.added)) (casefold t) ≡ false =
            subst (λ (l : List String). contains (fold_keys casefold l) (casefold t) ≡ false)
              h.after new in
          let split =
            ap (λ (l : List String). contains l (casefold t)) (map-append casefold base h.added) in
          let parts =
            contains-append (fold_keys casefold base) (fold_keys casefold h.added) (casefold t) in
          record {
            added = h.added ++ t ∷ [];
            after =
                ap (λ (l : List String). l ++ t ∷ []) h.after ∙ append_assoc base h.added (t ∷ []);
            distinct =
                subst (λ (l : List String). Distinct l) (sym (map-append casefold h.added (t ∷ [])))
                  (Distinct-snoc (fold_keys casefold h.added) (casefold t) h.distinct
                    (ground arith));
            fresh = All-append _ h.added (t ∷ []) h.fresh (ground arith, tt);
            confirmed = All-append _ h.added (t ∷ []) h.confirmed (c, tt);
          })

  some-extended :
      (terms : List String) (t : String)
      → is_empty terms ≡ false
      → is_empty (extended casefold terms t) ≡ false
  unfolding extended
  some-extended terms t h =
      if_ind (λ (l : List String). is_empty l ≡ false)
        (contains (fold_keys casefold terms) (casefold t)) (λ _. h) (λ _. go terms)
    where
      go : (l : List String) → is_empty (l ++ t ∷ []) ≡ false
      go [] = refl
      go (x ∷ xs) = refl

  append_term-is_valid :
      (s : ScopeDefinition) (f : TargetField) (t : String)
      → is_valid s ≡ true
      → is_valid (append_term casefold s f t) ≡ true
  unfolding append_term is_valid
  append_term-is_valid s include_terms t h = ground (arith, some-extended s.include_terms t)
  append_term-is_valid s exclude_terms t h = h

  append_term-IsNarrowed :
      (initial s : ScopeDefinition) (f : TargetField) (t : String)
      → WasConfirmed confirm t
      → IsNarrowed casefold confirm initial s
      → IsNarrowed casefold confirm initial (append_term casefold s f t)
  unfolding append_term
  append_term-IsNarrowed initial s include_terms t c h = record {
    name = h.name;
    description = h.description;
    categories = h.categories;
    date_from = h.date_from;
    date_to = h.date_to;
    per_source_limit = h.per_source_limit;
    included = extended-Extends initial.include_terms s.include_terms t c h.included;
    excluded = h.excluded;
    valid = append_term-is_valid s include_terms t h.valid;
  }
  append_term-IsNarrowed initial s exclude_terms t c h = record {
    name = h.name;
    description = h.description;
    categories = h.categories;
    date_from = h.date_from;
    date_to = h.date_to;
    per_source_limit = h.per_source_limit;
    included = h.included;
    excluded = extended-Extends initial.exclude_terms s.exclude_terms t c h.excluded;
    valid = append_term-is_valid s exclude_terms t h.valid;
  }

  module _ (estimate : ScopeDefinition → Option ℕ) (initial : ScopeDefinition) where
    abbrev IsOnCourse : Dialogue → Type 0
    IsOnCourse w = IsNarrowed casefold confirm initial w.scope

    decided-IsOnCourse :
        (label : String) (f : TargetField) (t : String) (w : Dialogue) (said : List String)
        (answer : Bool)
        → confirm said (question label t) ≡ some answer
        → IsOnCourse w
        → Yields IsInterruption IsOnCourse (decided casefold confirm estimate label f t w answer)
    unfolding decided
    decided-IsOnCourse label f t w said false c h = returns h
    decided-IsOnCourse label f t w said true c h =
        let next = append_term-IsNarrowed initial w.scope f t (said, label, c) h in
        rw next.valid (
          Yields-bind _ _
            (Yields-need_any (estimate (append_term casefold w.scope f t)) _ no_estimate)
            λ count _. returns next)

    decide_all-IsOnCourse :
        (label : String) (f : TargetField) (terms : List String) (w : Dialogue)
        → IsOnCourse w
        → Yields IsInterruption IsOnCourse (decide_all casefold confirm estimate label f terms w)
    unfolding decide_all
    decide_all-IsOnCourse label f [] w h = returns h
    decide_all-IsOnCourse label f (t ∷ terms) w h =
        Yields-bind _ _ (Yields-need (confirm _ (question label t)) _ no_answer (λ a q. q))
          λ answer q.
            Yields-bind _ _ (decided-IsOnCourse label f t _ _ answer q h)
              λ next k. decide_all-IsOnCourse label f terms next k

as_strings-Yields : (vs : List Value) → Yields IsInterruption (λ _. Unit {0}) (as_strings vs)
unfolding as_strings
as_strings-Yields [] = returns tt
as_strings-Yields (v ∷ vs) =
    Yields-bind _ _ (Yields-need_any (as_string v) _ bad_proposal)
      λ s _. Yields-bind _ _ (as_strings-Yields vs) λ rest _. returns tt

module _ (casefold : String → String) where
  proposal_field-Yields :
      (key : String) (response : Value)
      → Yields IsInterruption (λ _. Unit {0}) (proposal_field casefold key response)
  unfolding proposal_field
  proposal_field-Yields key response =
      Yields-bind _ _ (Yields-need_any (as_dict response) _ bad_proposal) λ fields _.
        Yields-bind _ _ (Yields-need_any (as_list (get key fields)) _ bad_proposal)
          λ found _. Yields-bind _ _ (as_strings-Yields found) λ terms _. returns tt

  validated_proposal-Yields :
      (response : Value)
      → Yields IsInterruption (λ _. Unit {0}) (validated_proposal casefold response)
  unfolding validated_proposal
  validated_proposal-Yields response =
      Yields-bind _ _ (proposal_field-Yields "subtopics" response) λ a _.
        Yields-bind _ _ (proposal_field-Yields "adjacent_terms" response)
          λ b _. Yields-bind _ _ (proposal_field-Yields "exclusions" response) λ c _. returns tt

-- A dialogue about a valid scope ends with a valid scope that keeps the name, the description, the
-- categories, the dates and the limit, and that has, after the terms of the start, only terms that
-- the user has confirmed, each new but for case; or it raises what the gateway, the estimate or the
-- prompt raises, or the exception for a bad proposal.
pub run_dialogue-IsNarrowed :
    (casefold : String → String) (confirm : Confirm) (estimate : ScopeDefinition → Option ℕ)
    (complete : ScopeDefinition → ℕ → Option Value) (initial : ScopeDefinition)
    → is_valid initial ≡ true
    → Yields IsInterruption
        (λ w. IsNarrowed casefold confirm initial w.scope)
        (run_dialogue casefold confirm estimate complete initial)
unfolding run_dialogue
run_dialogue-IsNarrowed casefold confirm estimate complete initial valid =
    let on = decide_all-IsOnCourse casefold confirm estimate initial in
    Yields-bind _ _ (Yields-need_any (estimate initial) _ no_estimate) λ count _.
      Yields-bind _ _ (Yields-need_any (complete initial count) _ no_model) λ response _.
        Yields-bind _ _ (validated_proposal-Yields casefold response) λ p _.
          Yields-bind _ _
            (on _ _ p.subtopics _ (record {
              name = refl;
              description = refl;
              categories = refl;
              date_from = refl;
              date_to = refl;
              per_source_limit = refl;
              included = Extends-refl casefold confirm initial.include_terms;
              excluded = Extends-refl casefold confirm initial.exclude_terms;
              valid = valid;
            }))
            λ first h.
              Yields-bind _ _ (on _ _ p.adjacent_terms first h)
                λ second k. on _ _ p.exclusions second k
