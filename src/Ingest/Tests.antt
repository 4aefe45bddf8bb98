-- ===== src/Ingest/Tests.antt =====
-- Candidates of three sources.
use Prim.Native.Char.{code}
use ai_researcher.Prelude.{
  String, ◌≡◌, refl, false, ◌&&◌, Option, none, some, List, [], ◌∷◌, map, string_eq, leb, Result,
  ok, err, Yields, All,
}
use ai_researcher.Text.{strip, split, remove_first_prefix}
use ai_researcher.Ingest.Dedup.{
  Error, index_error, PaperMetadata, MergedPaper, Unicode, present_text, present, present_authors,
  present_date, from_metadata, add_source, merge_metadata, before_comma, surname_of, select_alnum,
  normalize_title, normalize_doi, drop_version, normalize_arxiv_id, title_author_year_key,
  same_fallback, same_arxiv, same_doi, same_identity, place_candidate, place_all, resolve_identity,
}
use ai_researcher.Ingest.Dedup.Grouped.{HasKey, IsNever, AreGrouped, resolve_identity-AreGrouped}

abbrev ascii : Unicode
ascii = record {
  casefold = λ s. s;
  nfkc = λ s. s;
  is_alnum = λ c. leb 97 (code c) && leb (code c) 122;
  is_digit = λ c. leb 48 (code c) && leb (code c) 57;
}

abbrev candidate : String → Option String → Option String → List String → PaperMetadata
candidate source doi arxiv_id authors = record {
  source = source;
  external_id = "x";
  title = "a title";
  abstract = none;
  authors = authors;
  published_at = some (record { year = 2024; month = 1; day = 2 });
  venue = none;
  doi = doi;
  arxiv_id = arxiv_id;
  openalex_id = none;
  s2_id = none;
  is_preprint = false;
  pdf_url = none;
}

dois : Result Error (List MergedPaper) → Result Error (List (Option String))
dois (ok papers) = ok (map (λ p. p.doi) papers)
dois (err e) = err e

abbrev with_dois : List PaperMetadata
with_dois =
    candidate "crossref" (some "doi:10.1/a") none []
    ∷ candidate "openalex" (some "https://doi.org/10.1/a") (some "2401.1v2") []
    ∷ candidate "crossref" (some "10.1/b") none []
    ∷ []

resolve_identity_run :
    dois (resolve_identity ascii with_dois) ≡ ok (some "doi:10.1/a" ∷ some "10.1/b" ∷ [])
unfolding dois resolve_identity place_all place_candidate same_identity same_doi same_arxiv
    same_fallback title_author_year_key normalize_arxiv_id drop_version normalize_doi
    normalize_title select_alnum surname_of before_comma merge_metadata add_source from_metadata
    present_date present_authors present present_text strip split remove_first_prefix
resolve_identity_run = refl

-- The first two turn out to have one DOI only when the third is merged into the first.
resolve_identity_order :
    dois (
      resolve_identity ascii (
        candidate "arxiv" none (some "arxiv:2401.1v1") []
        ∷ candidate "crossref" (some "10.1/a") none []
        ∷ candidate "openalex" (some "10.1/a") (some "2401.1v2") []
        ∷ []))
    ≡ ok (some "10.1/a" ∷ some "10.1/a" ∷ [])
unfolding dois resolve_identity place_all place_candidate same_identity same_doi same_arxiv
    same_fallback title_author_year_key normalize_arxiv_id drop_version normalize_doi
    normalize_title select_alnum surname_of before_comma merge_metadata add_source from_metadata
    present_date present_authors present present_text strip split remove_first_prefix
resolve_identity_order = refl

-- An author without a word.
resolve_identity_blank_author :
    dois (
      resolve_identity ascii
        (candidate "arxiv" none none (" " ∷ []) ∷ candidate "crossref" none none ("B" ∷ []) ∷ []))
    ≡ err index_error
unfolding dois resolve_identity place_all place_candidate same_identity same_doi same_arxiv
    same_fallback title_author_year_key normalize_arxiv_id drop_version normalize_doi
    normalize_title select_alnum surname_of before_comma merge_metadata add_source from_metadata
    present_date present_authors present present_text strip split remove_first_prefix
resolve_identity_blank_author = refl

with_dois-HaveKeys : All (λ c. HasKey ascii c.doi) with_dois
unfolding normalize_doi strip remove_first_prefix
with_dois-HaveKeys = (("10.1/a", refl), (("10.1/a", refl), (("10.1/b", refl), tt)))

resolve_identity-AreGrouped_example :
    Yields IsNever (AreGrouped ascii with_dois) (resolve_identity ascii with_dois)
resolve_identity-AreGrouped_example = resolve_identity-AreGrouped ascii with_dois with_dois-HaveKeys
