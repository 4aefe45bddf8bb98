-- ===== src/Scoping/Terms.antt =====
-- `_unique_nonempty` and `_append_term` of src/ai_researcher/scoping/dialogue.py.
pub mod Cover
use ai_researcher.Prelude.{
  ◌==◌, ℕ, leb, is_empty, some, nat_eq, String, ◌≡◌, refl, sym, ap, subst, ◌∙◌, Bool, true, false,
  not, ◌&&◌, Option, List, [], ◌∷◌, ◌++◌, map, map-append, string_eq, beq_self, if◌then◌else◌,
  if_ind, select, select_all, All_intro, Bool-cases, beq_comm, eq_of_beq, append-nil, append_assoc,
  inl, inr, ◌⊎◌, All, All-append, Exists, Exists-self, All-map, Exists-weaken, contains,
  contains-append, Distinct, Distinct-snoc, arith,
}
use ai_researcher.Text.{strip, is_blank}

-- Dates are days counted from a fixed one.
pub record ScopeDefinition : Type 0 where
  pub name : String
  pub description : String
  pub include_terms : List String
  pub exclude_terms : List String
  pub categories : List String
  pub date_from : Option ℕ
  pub date_to : Option ℕ
  pub per_source_limit : ℕ

abbrev in_order : Option ℕ → Option ℕ → Bool
in_order (some start) (some end) = leb start end
in_order _ _ = true

-- `__post_init__` of ScopeDefinition, which raises otherwise.
unfoldable pub is_valid : ScopeDefinition → Bool
is_valid s =
    not (is_blank (strip s.name))
    && not (is_empty s.include_terms)
    && leb 1 s.per_source_limit
    && in_order s.date_from s.date_to

-- The local variables `unique` and `seen`.
pub record Unique : Type 0 where
  pub unique : List String
  pub seen : List String

module _ (casefold : String → String) where
  abbrev pub fold_keys : List String → List String
  fold_keys = map casefold

  unfoldable pub keep : Unique → String → Unique
  keep u value =
      let cleaned = strip value in
      if not (is_blank cleaned) && not (contains u.seen (casefold cleaned))
      then record { unique = u.unique ++ cleaned ∷ []; seen = u.seen ++ casefold cleaned ∷ [] }
      else u

  unfoldable pub keep_all : Unique → List String → Unique
  keep_all u [] = u
  keep_all u (value ∷ rest) = keep_all (keep u value) rest

  unfoldable pub unique_nonempty : List String → List String
  unique_nonempty terms = (keep_all (record { unique = []; seen = [] }) terms).unique

  unfoldable pub extended : List String → String → List String
  extended current_terms term =
      if contains (fold_keys current_terms) (casefold term)
      then current_terms
      else current_terms ++ term ∷ []
