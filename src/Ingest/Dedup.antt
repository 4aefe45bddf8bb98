-- ===== src/Ingest/Dedup.antt =====
-- src/ai_researcher/ingest/dedup.py: candidates that describe the same paper become one. The tables
-- of the Unicode database are parameters.
pub mod Grouped
use Prim.Native.Char.{Char, code}
use ai_researcher.Prelude.{
  ℕ, String, Bool, true, false, not, ◌&&◌, Option, none, some, List, [], ◌∷◌, ◌++◌, every, nat_eq,
  string_eq, pair_eq, option_eq, nat_beq, ◌==◌, Result, ok, err, need, ◌>>=◌, if◌then◌else◌,
}
use ai_researcher.Text.{strip, split, is_blank, remove_first_prefix}

pub data Error : Type 0 where
  -- IndexError of an author's name without a word
  index_error : Error

pub record Date : Type 0 where
  pub year : ℕ
  pub month : ℕ
  pub day : ℕ

pub record PaperMetadata : Type 0 where
  pub source : String
  pub external_id : String
  pub title : String
  pub abstract : Option String
  pub authors : List String
  pub published_at : Option Date
  pub venue : Option String
  pub doi : Option String
  pub arxiv_id : Option String
  pub openalex_id : Option String
  pub s2_id : Option String
  pub is_preprint : Bool
  pub pdf_url : Option String

pub record PaperSource : Type 0 where
  pub source : String
  pub external_id : String

pub record MergedPaper : Type 0 where
  pub title : String
  pub abstract : Option String
  pub authors : List String
  pub published_at : Option Date
  pub venue : Option String
  pub doi : Option String
  pub arxiv_id : Option String
  pub openalex_id : Option String
  pub s2_id : Option String
  pub is_preprint : Bool
  pub pdf_url : Option String
  pub paper_sources : List PaperSource

-- `casefold`, `unicodedata.normalize("NFKC", …)`, `isalnum`, and the class `\d` of `re`.
pub record Unicode : Type 0 where
  pub casefold : String → String
  pub nfkc : String → String
  pub is_alnum : Char → Bool
  pub is_digit : Char → Bool

-- `normalized or None`
abbrev pub or_none : String → Option String
or_none s = if is_blank s then none else some s

-- `_first_present`, for a text, an optional text, the authors and the date.
unfoldable pub present_text : String → String → String
present_text current later = if is_blank current then later else current

unfoldable pub present : Option String → Option String → Option String
present none later = later
present (some s) later = if is_blank s then later else some s

unfoldable pub present_authors : List String → List String → List String
present_authors [] later = later
present_authors (a ∷ authors) later = a ∷ authors

unfoldable pub present_date : Option Date → Option Date → Option Date
present_date none later = later
present_date (some d) later = some d

unfoldable pub from_metadata : PaperMetadata → MergedPaper
from_metadata c = record {
  title = c.title;
  abstract = c.abstract;
  authors = c.authors;
  published_at = c.published_at;
  venue = c.venue;
  doi = c.doi;
  arxiv_id = c.arxiv_id;
  openalex_id = c.openalex_id;
  s2_id = c.s2_id;
  is_preprint = c.is_preprint;
  pdf_url = c.pdf_url;
  paper_sources = record { source = c.source; external_id = c.external_id } ∷ [];
}

-- A source is recorded once.
unfoldable pub add_source : List PaperSource → PaperMetadata → List PaperSource
add_source sources c =
    if every (λ s. not (s.source == c.source)) sources
    then sources ++ record { source = c.source; external_id = c.external_id } ∷ []
    else sources

unfoldable pub merge_metadata : MergedPaper → PaperMetadata → MergedPaper
merge_metadata p c = record {
  title = present_text p.title c.title;
  abstract = present p.abstract c.abstract;
  authors = present_authors p.authors c.authors;
  published_at = present_date p.published_at c.published_at;
  venue = present p.venue c.venue;
  doi = present p.doi c.doi;
  arxiv_id = present p.arxiv_id c.arxiv_id;
  openalex_id = present p.openalex_id c.openalex_id;
  s2_id = present p.s2_id c.s2_id;
  is_preprint = p.is_preprint;
  pdf_url = present p.pdf_url c.pdf_url;
  paper_sources = add_source p.paper_sources c;
}

-- The part before the first comma.
unfoldable pub before_comma : String → Option String
before_comma String.[] = none
before_comma (String.◌∷◌ c s) =
    let rest = before_comma s in if nat_beq (code c) 44 then some "" else after c rest
  where
    after : Char → Option String → Option String
    after c none = none
    after c (some t) = some (String.◌∷◌ c t)

abbrev pub last_word : List String → Option String
last_word [] = none
last_word (w ∷ []) = some w
last_word (w ∷ v ∷ ws) = last_word (v ∷ ws)

unfoldable pub surname_of : String → Result Error String
surname_of author = elim (before_comma author) [
  | some surname ↦ ok surname
  | none ↦ need (last_word (split author)) index_error
]

module _ (u : Unicode) where
  unfoldable pub select_alnum : String → String
  select_alnum String.[] = String.[]
  select_alnum (String.◌∷◌ c s) =
      let rest = select_alnum s in if u.is_alnum c then String.◌∷◌ c rest else rest

  unfoldable pub normalize_title : String → String
  normalize_title title = select_alnum (u.casefold (u.nfkc title))

  unfoldable pub normalize_doi : Option String → Option String
  normalize_doi none = none
  normalize_doi (some doi) = or_none (
      remove_first_prefix ("https://doi.org/" ∷ "http://doi.org/" ∷ "doi:" ∷ [])
        (u.casefold (strip doi)))

  abbrev are_digits : String → Bool
  are_digits String.[] = true
  are_digits (String.◌∷◌ c s) = u.is_digit c && are_digits s

  -- `re.sub(r"v\d+$", "", …)` of a text that ends in no line feed: code 118 is `v`.
  unfoldable pub drop_version : String → String
  drop_version String.[] = String.[]
  drop_version (String.◌∷◌ c s) =
      let rest = drop_version s in
      if nat_beq (code c) 118 && not (is_blank s) && are_digits s then "" else String.◌∷◌ c rest

  unfoldable pub normalize_arxiv_id : Option String → Option String
  normalize_arxiv_id none = none
  normalize_arxiv_id (some arxiv_id) =
      or_none (drop_version (remove_first_prefix ("arxiv:" ∷ []) (u.casefold (strip arxiv_id))))

  unfoldable pub title_author_year_key :
      String → List String → Option Date → Result Error (Option (String × String × ℕ))
  title_author_year_key title [] published_at = ok none
  title_author_year_key title (author ∷ authors) none = ok none
  title_author_year_key title (author ∷ authors) (some date) = surname_of author >>= λ surname. ok (
      if is_blank (normalize_title title)
      then none
      else if is_blank (normalize_title surname)
      then none
      else some (normalize_title title, normalize_title surname, date.year))

  abbrev pub same_key : Option (String × String × ℕ) → Option (String × String × ℕ) → Bool
  same_key none k = false
  same_key (some a) none = false
  same_key (some (a, b, c)) (some (d, e, f)) = a == d && b == e && c == f

  unfoldable pub same_fallback : MergedPaper → PaperMetadata → Result Error Bool
  same_fallback p c = title_author_year_key p.title p.authors p.published_at >>= λ left.
      title_author_year_key c.title c.authors c.published_at >>= λ right. ok (same_key left right)

  unfoldable pub same_arxiv :
      MergedPaper → PaperMetadata → Option String → Option String → Result Error Bool
  same_arxiv p c (some a) (some b) = ok (a == b)
  same_arxiv p c _ _ = same_fallback p c

  unfoldable pub same_doi :
      MergedPaper → PaperMetadata → Option String → Option String → Result Error Bool
  same_doi p c (some a) (some b) = ok (a == b)
  same_doi p c _ _ = same_arxiv p c (normalize_arxiv_id p.arxiv_id) (normalize_arxiv_id c.arxiv_id)

  unfoldable pub same_identity : MergedPaper → PaperMetadata → Result Error Bool
  same_identity p c = same_doi p c (normalize_doi p.doi) (normalize_doi c.doi)

  -- The first paper that is the same takes the candidate in; papers that are equal are the same as
  -- the same candidates, so that it is the one that `index` finds.
  unfoldable pub place_candidate :
      List MergedPaper → PaperMetadata → Result Error (List MergedPaper)
  place_candidate [] c = ok (from_metadata c ∷ [])
  place_candidate (p ∷ papers) c = do
    same ← same_identity p c
    elim same [
      | true ↦ ok (merge_metadata p c ∷ papers)
      | false ↦ place_candidate papers c >>= λ rest. ok (p ∷ rest)
    ]

  unfoldable pub place_all : List MergedPaper → List PaperMetadata → Result Error (List MergedPaper)
  place_all papers [] = ok papers
  place_all papers (c ∷ candidates) = do next ← place_candidate papers c; place_all next candidates

  unfoldable pub resolve_identity : List PaperMetadata → Result Error (List MergedPaper)
  resolve_identity candidates = place_all [] candidates
