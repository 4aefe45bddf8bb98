-- ===== src/Scoping/Estimate.antt =====
-- src/ai_researcher/scoping/estimate.py: how many papers the sources would give for a scope.
use ai_researcher.Prelude.{
  ℕ, String, ◌≡◌, refl, sym, ap, subst, not, Option, none, some, List, [], ◌∷◌, ◌++◌, string_eq,
  pair_eq, ◌==◌, length, append-nil, append_assoc, ◌&&◌, if◌then◌else◌, if_ind, contains,
  contains-append, Distinct, Distinct-snoc, arith, eq_of_beq, Bool-cases, inl, inr,
}
use ai_researcher.Text.{is_blank, strip, remove_first_prefix}

pub record PaperRef : Type 0 where
  pub source : String
  pub external_id : String
  pub doi : Option String
  pub title : Option String
  pub pdf_url : Option String

abbrev pub given_text : Option String → String
given_text none = ""
given_text (some s) = s

-- `remove_nonword` stands for the removal of what the regular expression `\W+` matches.
module _ (casefold remove_nonword : String → String) where
  unfoldable pub normalize_doi : String → String
  normalize_doi doi =
      remove_first_prefix ("https://doi.org/" ∷ "http://doi.org/" ∷ "doi:" ∷ [])
        (casefold (strip doi))

  abbrev title_key : String → String
  title_key title = remove_nonword (casefold title)

  unfoldable pub reference_identity : PaperRef → String × String
  reference_identity ref =
      if not (is_blank (given_text ref.doi))
      then ("doi", normalize_doi (given_text ref.doi))
      else if not (is_blank (given_text ref.title))
          && not (is_blank (title_key (given_text ref.title)))
      then ("title", title_key (given_text ref.title))
      else (ref.source, ref.external_id)

  -- `identities.add(…)`
  unfoldable pub add_identity : List (String × String) → PaperRef → List (String × String)
  add_identity identities ref =
      if contains identities (reference_identity ref)
      then identities
      else identities ++ reference_identity ref ∷ []

  unfoldable pub add_refs : List (String × String) → List PaperRef → List (String × String)
  add_refs identities [] = identities
  add_refs identities (ref ∷ refs) = add_refs (add_identity identities ref) refs

  -- The result of each adapter's search; `none` is one that raised.
  unfoldable pub add_sources :
      List (String × String) → List (Option (List PaperRef)) → List (String × String)
  add_sources identities [] = identities
  add_sources identities (none ∷ sources) = add_sources identities sources
  add_sources identities (some refs ∷ sources) = add_sources (add_refs identities refs) sources

  unfoldable pub estimate_scope : List (Option (List PaperRef)) → ℕ
  estimate_scope sources = length (add_sources [] sources)

  -- The identities of the references of the searches that did not raise, with repetitions.
  abbrev pub ref_identities : List PaperRef → List (String × String)
  ref_identities [] = []
  ref_identities (ref ∷ refs) = reference_identity ref ∷ ref_identities refs

  abbrev pub found_identities : List (Option (List PaperRef)) → List (String × String)
  found_identities [] = []
  found_identities (none ∷ sources) = found_identities sources
  found_identities (some refs ∷ sources) = ref_identities refs ++ found_identities sources

  -- A set of identities: no repetition, and the elements of a list.
  pub record IsSetOf (identities found : List (String × String)) : Type 0 where
    pub distinct : Distinct identities
    pub elements : (a : String × String) → contains identities a ≡ contains found a

  add_identity-IsSetOf :
      (identities found : List (String × String)) (ref : PaperRef)
      → IsSetOf identities found
      → IsSetOf (add_identity identities ref) (found ++ reference_identity ref ∷ [])
  unfolding add_identity
  add_identity-IsSetOf identities found ref h =
      let i = reference_identity ref in
      if_ind (λ l. IsSetOf l (found ++ i ∷ [])) (contains identities i)
        (λ old. record {
          distinct = h.distinct;
          elements = λ a. elim (Bool-cases (i == a)) [
            | inl same ↦
                let q : contains identities i ≡ contains identities a =
                  ap (contains identities) (eq_of_beq i a same) in
                ground (arith, h.elements a, contains-append found (i ∷ []) a)
            | inr apart ↦ ground (arith, h.elements a, contains-append found (i ∷ []) a)
          ];
        })
        (λ new. record {
          distinct = Distinct-snoc identities i h.distinct new;
          elements = λ a. ground (
            arith,
            h.elements a,
            contains-append identities (i ∷ []) a,
            contains-append found (i ∷ []) a,
          );
        })

  add_refs-IsSetOf :
      (identities found : List (String × String)) (refs : List PaperRef)
      → IsSetOf identities found
      → IsSetOf (add_refs identities refs) (found ++ ref_identities refs)
  unfolding add_refs
  add_refs-IsSetOf identities found [] h =
      subst (λ l. IsSetOf identities l) (sym (append-nil found)) h
  add_refs-IsSetOf identities found (ref ∷ refs) h =
      subst (λ l. IsSetOf (add_refs (add_identity identities ref) refs) l)
        (append_assoc found (reference_identity ref ∷ []) (ref_identities refs))
        (add_refs-IsSetOf (add_identity identities ref) (found ++ reference_identity ref ∷ []) refs
          (add_identity-IsSetOf identities found ref h))

  add_sources-IsSetOf :
      (identities found : List (String × String)) (sources : List (Option (List PaperRef)))
      → IsSetOf identities found
      → IsSetOf (add_sources identities sources) (found ++ found_identities sources)
  unfolding add_sources
  add_sources-IsSetOf identities found [] h =
      subst (λ l. IsSetOf identities l) (sym (append-nil found)) h
  add_sources-IsSetOf identities found (none ∷ sources) h =
      add_sources-IsSetOf identities found sources h
  add_sources-IsSetOf identities found (some refs ∷ sources) h =
      subst (λ l. IsSetOf (add_sources (add_refs identities refs) sources) l)
        (append_assoc found (ref_identities refs) (found_identities sources))
        (add_sources-IsSetOf (add_refs identities refs) (found ++ ref_identities refs) sources
          (add_refs-IsSetOf identities found refs h))

-- The estimate is the size of a list without repetition that has the identities of all references
-- which the working sources found and no other: a source that raises counts for nothing.
pub estimate_scope-IsSetOf :
    (casefold remove_nonword : String → String) (sources : List (Option (List PaperRef)))
    → (identities : List (String × String)) × (estimate_scope casefold remove_nonword sources
        ≡ length identities)
      × IsSetOf casefold remove_nonword identities
          (found_identities casefold remove_nonword sources)
unfolding estimate_scope
estimate_scope-IsSetOf casefold remove_nonword sources = (
  add_sources casefold remove_nonword [] sources,
  refl,
  add_sources-IsSetOf casefold remove_nonword [] [] sources
      (record { distinct = tt; elements = λ a. refl }),
)
