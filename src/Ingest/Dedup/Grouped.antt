-- ===== src/Ingest/Dedup/Grouped.antt =====
-- `resolve_identity` of candidates that all have a DOI.
use ai_researcher.Prelude.{
  String, ◌≡◌, refl, sym, ap, subst, ◌∙◌, ◌⊎◌, inl, inr, Bool, true, false, not, Option, none, some,
  List, [], ◌∷◌, ◌++◌, map, every, string_eq, option_eq, ◌==◌, eq_of_beq, contains, Distinct,
  Distinct-snoc, All, All-append, All-map, Exists, Exists-left, Exists-right, Exists-self,
  Exists-weaken, Result, ok, ◌>>=◌, if_ind, Yields, returns, Yields-bind, Yields-map, Bool-cases,
  arith,
}
use ai_researcher.Ingest.Dedup.{
  Error, PaperMetadata, PaperSource, MergedPaper, Unicode, present, from_metadata, add_source,
  merge_metadata, normalize_doi, same_doi, same_identity, place_candidate, place_all,
  resolve_identity,
}

abbrev pub IsNever : Error → Type 0
IsNever e = ⊥

-- The source is among those of the paper.
abbrev pub HasSource : List PaperSource → String → Type 0
HasSource sources name = Exists (λ s. s.source ≡ name) sources

add_source-HasSource :
    (sources : List PaperSource) (c : PaperMetadata) → HasSource (add_source sources c) c.source
unfolding add_source
add_source-HasSource sources c =
    if_ind (λ l. HasSource l c.source) (every (λ s. not (s.source == c.source)) sources)
      (λ _. Exists-right _ sources _ (inl refl)) (λ q. present_source sources q)
  where
    present_source :
        (sources : List PaperSource)
        → every (λ s. not (s.source == c.source)) sources ≡ false
        → HasSource sources c.source
    present_source [] q = cc
    present_source (s ∷ sources) q = elim (Bool-cases (s.source == c.source)) [
      | inl same ↦ inl (eq_of_beq s.source c.source same)
      | inr apart ↦ inr (present_source sources (ground arith))
    ]

add_source-keeps :
    (sources : List PaperSource) (c : PaperMetadata) (name : String)
    → HasSource sources name
    → HasSource (add_source sources c) name
unfolding add_source
add_source-keeps sources c name h =
    if_ind (λ l. HasSource l name) (every (λ s. not (s.source == c.source)) sources)
      (λ _. Exists-left _ sources _ h) (λ _. h)

module _ (u : Unicode) where
  abbrev pub paper_keys : List MergedPaper → List (Option String)
  paper_keys = map (λ p. normalize_doi u p.doi)

  present-key :
      (a b : Option String)
      → normalize_doi u a ≡ normalize_doi u b
      → normalize_doi u (present a b) ≡ normalize_doi u a
  unfolding present
  present-key none b h = sym h
  present-key (some s) b h =
      if_ind (λ o. normalize_doi u o ≡ normalize_doi u (some s)) (s == "") (λ _. sym h) (λ _. refl)

  abbrev pub HasKey : Option String → Type 0
  HasKey doi = (k : String) × (normalize_doi u doi ≡ some k)

  -- The source is of a candidate with this DOI.
  abbrev pub IsSource : List PaperMetadata → Option String → PaperSource → Type 0
  IsSource all key s =
      Exists
        (λ c.
          (c.source ≡ s.source) × (c.external_id ≡ s.external_id) × (normalize_doi u c.doi ≡ key))
        all

  -- The sources of a paper are of candidates with the paper's DOI.
  abbrev pub IsSourced : List PaperMetadata → MergedPaper → Type 0
  IsSourced all p = All (IsSource all (normalize_doi u p.doi)) p.paper_sources

  -- A paper has the candidate's DOI and its source.
  abbrev pub Covers : Option String → String → MergedPaper → Type 0
  Covers key name p = (normalize_doi u p.doi ≡ key) × HasSource p.paper_sources name

  record IsPlaced (all : List PaperMetadata) (papers : List MergedPaper) (c : PaperMetadata)
      (next : List MergedPaper) : Type 0 where
    keyed : All (λ p. HasKey p.doi) next
    keys :
        (paper_keys next ≡ paper_keys papers)
        ⊎ ((paper_keys next ≡ paper_keys papers ++ normalize_doi u c.doi ∷ [])
            × (contains (paper_keys papers) (normalize_doi u c.doi) ≡ false))
    sourced : All (IsSourced all) next
    grows :
        (k : Option String) (name : String)
        → Exists (Covers k name) papers
        → Exists (Covers k name) next
    here : Exists (Covers (normalize_doi u c.doi) c.source) next

  source_of :
      (all : List PaperMetadata) (c : PaperMetadata) (k : Option String)
      → Exists (λ x. x ≡ c) all
      → k ≡ normalize_doi u c.doi
      → Exists
          (λ x.
            (x.source ≡ c.source) × (x.external_id ≡ c.external_id) × (normalize_doi u x.doi ≡ k))
          all
  source_of all c k there h =
      Exists-weaken _ _ all
        (λ x e. (
          ap (λ (y : PaperMetadata). y.source) e,
          ap (λ (y : PaperMetadata). y.external_id) e,
          ap (λ (y : PaperMetadata). normalize_doi u y.doi) e ∙ sym h,
        ))
        there

  merge-IsSourced :
      (all : List PaperMetadata) (p : MergedPaper) (c : PaperMetadata)
      → Exists (λ x. x ≡ c) all
      → normalize_doi u p.doi ≡ normalize_doi u c.doi
      → IsSourced all p
      → IsSourced all (merge_metadata p c)
  unfolding merge_metadata add_source
  merge-IsSourced all p c there same h =
      let key = present-key p.doi c.doi same in
      let after = IsSource all (normalize_doi u (present p.doi c.doi)) in
      let old : All after p.paper_sources =
        All-map _ after p.paper_sources
          (λ s e. Exists-weaken _ _ all (λ x q. (q.0, q.1, q.2 ∙ sym key)) e) h in
      if_ind (All after) (every (λ s. not (s.source == c.source)) p.paper_sources)
        (λ _. All-append _ p.paper_sources _ old (source_of all c _ there (key ∙ same), tt))
        (λ _. old)

  same_identity-key :
      (p : MergedPaper) (c : PaperMetadata)
      → HasKey p.doi
      → HasKey c.doi
      → Yields IsNever
          (λ b. b ≡ (normalize_doi u p.doi == normalize_doi u c.doi))
          (same_identity u p c)
  unfolding same_identity same_doi
  same_identity-key p c (a, qa) (b, qb) = rw (qa, qb) (returns refl)

  -- The first paper takes the candidate in.
  merged-IsPlaced :
      (all : List PaperMetadata) (p : MergedPaper) (papers : List MergedPaper) (c : PaperMetadata)
      → Exists (λ x. x ≡ c) all
      → normalize_doi u p.doi ≡ normalize_doi u c.doi
      → All (λ x. HasKey x.doi) (p ∷ papers)
      → All (IsSourced all) (p ∷ papers)
      → IsPlaced all (p ∷ papers) c (merge_metadata p c ∷ papers)
  unfolding merge_metadata
  merged-IsPlaced all p papers c there same keyed sourced =
      let key = present-key p.doi c.doi same in
      record {
        keyed = ((keyed.0.0, key ∙ keyed.0.1), keyed.1);
        keys = inl (ap (λ (k : Option String). k ∷ paper_keys papers) key);
        sourced = (merge-IsSourced all p c there same sourced.0, sourced.1);
        grows = λ k name e. elim e [
          | inl h ↦ inl (key ∙ h.0, add_source-keeps p.paper_sources c name h.1)
          | inr h ↦ inr h
        ];
        here = inl (key ∙ same, add_source-HasSource p.paper_sources c);
      }

  -- A later paper takes it in, or none.
  later-IsPlaced :
      (all : List PaperMetadata) (p : MergedPaper) (papers rest : List MergedPaper)
      (c : PaperMetadata)
      → (normalize_doi u p.doi == normalize_doi u c.doi) ≡ false
      → HasKey p.doi
      → IsSourced all p
      → IsPlaced all papers c rest
      → IsPlaced all (p ∷ papers) c (p ∷ rest)
  later-IsPlaced all p papers rest c apart key sourced h = record {
    keyed = (key, h.keyed);
    keys = elim h.keys [
      | inl same ↦ inl (ap (λ (l : List (Option String)). normalize_doi u p.doi ∷ l) same)
      | inr new ↦
          inr (ap (λ (l : List (Option String)). normalize_doi u p.doi ∷ l) new.0, rw apart new.1)
    ];
    sourced = (sourced, h.sourced);
    grows = λ k name e. elim e [ inl x ↦ inl x | inr x ↦ inr (h.grows k name x) ];
    here = inr h.here;
  }

  place_candidate-IsPlaced :
      (all : List PaperMetadata) (papers : List MergedPaper) (c : PaperMetadata)
      → Exists (λ x. x ≡ c) all
      → HasKey c.doi
      → All (λ p. HasKey p.doi) papers
      → All (IsSourced all) papers
      → Yields IsNever (IsPlaced all papers c) (place_candidate u papers c)
  unfolding place_candidate from_metadata
  place_candidate-IsPlaced all [] c there key keyed sourced = returns (record {
    keyed = (key, tt);
    keys = inr (refl, refl);
    sourced = ((source_of all c _ there refl, tt), tt);
    grows = λ k name e. absurd e;
    here = inl (refl, inl refl);
  })
  place_candidate-IsPlaced all (p ∷ papers) c there key keyed sourced =
      let ih = place_candidate-IsPlaced all papers c there key keyed.1 sourced.1 in
      Yields-bind _ _ (same_identity-key p c keyed.0 key) λ same q. by_same ih same q
    where
      by_same :
          Yields IsNever (IsPlaced all papers c) (place_candidate u papers c)
          → (same : Bool) → same ≡ (normalize_doi u p.doi == normalize_doi u c.doi)
          → Yields IsNever
              (IsPlaced all (p ∷ papers) c)
              (elim same as (λ _. Result Error (List MergedPaper)) [
                | true ↦ ok (merge_metadata p c ∷ papers)
                | false ↦ place_candidate u papers c >>= λ rest. ok (p ∷ rest)
              ])
      by_same ih true q = returns (
          merged-IsPlaced all p papers c there
            (eq_of_beq (normalize_doi u p.doi) (normalize_doi u c.doi) (sym q)) keyed sourced)
      by_same ih false q =
          Yields-bind _ _ ih
            λ rest h. returns (later-IsPlaced all p papers rest c (sym q) keyed.0 sourced.0 h)

  -- The papers, one for each DOI, from the candidates.
  pub record AreGrouped (candidates : List PaperMetadata) (papers : List MergedPaper) : Type 0 where
    pub distinct : Distinct (paper_keys papers)
    pub sourced : All (IsSourced candidates) papers
    pub covered : All (λ c. Exists (Covers (normalize_doi u c.doi) c.source) papers) candidates

  -- After some of the candidates.
  record AreGrouping (all : List PaperMetadata) (papers : List MergedPaper) : Type 0 where
    keyed : All (λ p. HasKey p.doi) papers
    distinct : Distinct (paper_keys papers)
    sourced : All (IsSourced all) papers

  record AreCovered (before todo : List PaperMetadata) (papers next : List MergedPaper)
      : Type 0 where
    state : AreGrouping before next
    covered : All (λ c. Exists (Covers (normalize_doi u c.doi) c.source) next) todo
    grows :
        (k : Option String) (name : String)
        → Exists (Covers k name) papers
        → Exists (Covers k name) next

  placed-AreGrouping :
      (all : List PaperMetadata) (papers next : List MergedPaper) (c : PaperMetadata)
      → AreGrouping all papers
      → IsPlaced all papers c next
      → AreGrouping all next
  placed-AreGrouping all papers next c h k = record {
    keyed = k.keyed;
    distinct = elim k.keys [
      | inl same ↦ subst (λ (l : List (Option String)). Distinct l) (sym same) h.distinct
      | inr new ↦
          subst (λ (l : List (Option String)). Distinct l) (sym new.0)
            (Distinct-snoc (paper_keys papers) (normalize_doi u c.doi) h.distinct new.1)
    ];
    sourced = k.sourced;
  }

  place_all-AreCovered :
      (all todo : List PaperMetadata) (papers : List MergedPaper)
      → All (λ c. Exists (λ x. x ≡ c) all) todo
      → All (λ c. HasKey c.doi) todo
      → AreGrouping all papers
      → Yields IsNever (AreCovered all todo papers) (place_all u papers todo)
  unfolding place_all
  place_all-AreCovered all [] papers there keys h =
      returns (record { state = h; covered = tt; grows = λ k name e. e })
  place_all-AreCovered all (c ∷ todo) papers there keys h =
      Yields-bind _ _ (place_candidate-IsPlaced all papers c there.0 keys.0 h.keyed h.sourced)
        λ next k.
          Yields-map
            (λ done r. record {
              state = r.state;
              covered = (r.grows (normalize_doi u c.doi) c.source k.here, r.covered);
              grows = λ j name e. r.grows j name (k.grows j name e);
            })
            (place_all-AreCovered all todo next there.1 keys.1
              (placed-AreGrouping all papers next c h k))

  -- For candidates that all have a DOI, `resolve_identity` returns papers with different DOIs, up to
  -- what `_normalize_doi` forgets; every source of a paper is of a candidate with that DOI, and each
  -- candidate's DOI is that of a paper that has the candidate's source.
  pub resolve_identity-AreGrouped :
      (candidates : List PaperMetadata)
      → All (λ c. HasKey c.doi) candidates
      → Yields IsNever (AreGrouped candidates) (resolve_identity u candidates)
  unfolding resolve_identity
  resolve_identity-AreGrouped candidates keys =
      Yields-map
        (λ papers h. record {
          distinct = h.state.distinct;
          sourced = h.state.sourced;
          covered = h.covered;
        })
        (place_all-AreCovered candidates candidates [] (Exists-self candidates) keys
          (record { keyed = tt; distinct = tt; sourced = tt }))
