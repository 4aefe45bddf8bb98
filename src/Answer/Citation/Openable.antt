-- ===== src/Answer/Citation/Openable.antt =====
-- What a rendered citation shows.
use ai_researcher.Prelude.{
  ℕ, String, ◌≡◌, refl, ◌⊎◌, inl, inr, Bool, true, false, Option, none, some, nat_eq, string_eq,
  ◌==◌, eq_of_beq, Result, ok, err, guard, need, ◌>>=◌, if_ind, Yields, returns, raises,
  Yields-bind, arith,
}
use ai_researcher.Text.{is_blank}
use ai_researcher.Retrieval.Traverse.{RankedNode}
use ai_researcher.Answer.Errors.{Error, unresolved}
use ai_researcher.Answer.Citation.{
  CitationPaper, Citation, is_given, identifier_of, render_citation,
}

-- The lookup's own exception, or the one for a paper that is another, or has no identifier.
pub data IsUncitable (paper_lookup : ℕ → Result Error CitationPaper) (paper_id : ℕ)
    : Error → Type 0 where
  lookup_raises : {e : Error} → paper_lookup paper_id ≡ err e → IsUncitable paper_lookup paper_id e
  other_paper :
      (p : CitationPaper)
      → paper_lookup paper_id ≡ ok p
      → (p.id == paper_id) ≡ false
      → IsUncitable paper_lookup paper_id unresolved
  anonymous :
      (p : CitationPaper)
      → paper_lookup paper_id ≡ ok p
      → is_given p.doi ≡ false
      → is_given p.arxiv_id ≡ false
      → IsUncitable paper_lookup paper_id unresolved

-- The identifier is the DOI if there is one, else the arXiv identifier.
abbrev pub Identifies : CitationPaper → String → String → Type 0
Identifies p kind identifier =
    (is_blank identifier ≡ false)
    × (((kind ≡ "doi") × (p.doi ≡ some identifier))
        ⊎ ((kind ≡ "arxiv") × (is_given p.doi ≡ false) × (p.arxiv_id ≡ some identifier)))

pub record IsOpenable (paper_lookup : ℕ → Result Error CitationPaper) (node : RankedNode)
    (c : Citation) : Type 0 where
  pub paper : CitationPaper
  pub found : paper_lookup node.paper_id ≡ ok paper
  pub same_paper : paper.id ≡ node.paper_id
  pub title : c.paper_title ≡ paper.title
  pub passage :
      (c.node_id ≡ node.node_id)
      × (c.paper_id ≡ node.paper_id)
      × (c.section_path ≡ node.section_path)
  pub pages : (c.page_start ≡ node.page_start) × (c.page_end ≡ node.page_end)
  pub identified : Identifies paper c.identifier_type c.identifier

chosen :
    (kind : String) (o : Option String) (X : Error → Type 0) (Q : String × String → Type 0)
    → is_given o ≡ true
    → ((s : String) → o ≡ some s → is_blank s ≡ false → Q (kind, s))
    → Yields X Q (need o unresolved >>= λ s. ok (kind, s))
chosen kind none X Q h f = cc
chosen kind (some s) X Q h f = returns (f s refl (ground arith))

identifier_of-Identifies :
    (p : CitationPaper) (X : Error → Type 0)
    → (is_given p.doi ≡ false → is_given p.arxiv_id ≡ false → X unresolved)
    → Yields X (λ r. Identifies p r.0 r.1) (identifier_of p)
unfolding identifier_of
identifier_of-Identifies p X x =
    if_ind (Yields _ _) (is_given p.doi)
      (λ h. chosen "doi" p.doi X _ h (λ s q r. (r, inl (refl, q))))
      (λ h.
        if_ind (Yields _ _) (is_given p.arxiv_id)
          (λ k. chosen "arxiv" p.arxiv_id X _ k (λ s q r. (r, inr (refl, h, q))))
          (λ k. raises (x h k)))

module _ (paper_lookup : ℕ → Result Error CitationPaper) where
  looked_up :
      (i : ℕ) → Yields (IsUncitable paper_lookup i) (λ p. paper_lookup i ≡ ok p) (paper_lookup i)
  looked_up i = go (paper_lookup i) refl
    where
      go :
          (r : Result Error CitationPaper)
          → paper_lookup i ≡ r
          → Yields (IsUncitable paper_lookup i) (λ p. paper_lookup i ≡ ok p) r
      go (ok p) q = returns q
      go (err e) q = raises (lookup_raises q)

  matched :
      (i : ℕ) (p : CitationPaper)
      → paper_lookup i ≡ ok p
      → Yields (IsUncitable paper_lookup i) (λ _. p.id ≡ i) (guard (p.id == i) unresolved)
  matched i p found = go (p.id == i) refl
    where
      go :
          (b : Bool)
          → (p.id == i) ≡ b
          → Yields (IsUncitable paper_lookup i) (λ _. p.id ≡ i) (guard b unresolved)
      go true q = returns (eq_of_beq p.id i q)
      go false q = raises (other_paper p found q)

  -- `render_citation` gives the passage of the node with the title and an identifier of the node's
  -- own paper that is not blank, the DOI before the arXiv identifier; it raises the lookup's
  -- exception, or `CitationResolutionError` for another paper or one without an identifier.
  pub render_citation-IsOpenable :
      (node : RankedNode)
      → Yields
          (IsUncitable paper_lookup node.paper_id)
          (IsOpenable paper_lookup node)
          (render_citation paper_lookup node)
  unfolding render_citation
  render_citation-IsOpenable node = Yields-bind _ _ (looked_up node.paper_id) λ p found.
      Yields-bind _ _ (matched node.paper_id p found) λ _ same.
        Yields-bind _ _ (identifier_of-Identifies p _ (anonymous p found)) λ r identified.
          returns (record {
            paper = p;
            found = found;
            same_paper = same;
            title = refl;
            passage = (refl, refl, refl);
            pages = (refl, refl);
            identified = identified;
          })
