-- ===== src/Answer/Citation.antt =====
-- src/ai_researcher/answer/citation.py: a retrieved node becomes a citation with an identifier.
pub mod Openable
use Prim.Native.String.{◌++◌ as concat}
use ai_researcher.Prelude.{
  ℕ, String, ◌≡◌, refl, Bool, true, false, not, Option, none, some, nat_eq, string_eq, ◌==◌, Result,
  ok, err, guard, need, ◌>>=◌, ◌>>◌, if◌then◌else◌, Bool-cases, Yields, returns, raises,
  Yields-bind, Yields-guard, eq_of_beq, if_ind, sym,
}
use ai_researcher.Text.{is_blank, str}
use ai_researcher.Retrieval.Traverse.{RankedNode}
use ai_researcher.Answer.Errors.{Error, unresolved}

pub record CitationPaper : Type 0 where
  pub id : ℕ
  pub title : String
  pub doi : Option String
  pub arxiv_id : Option String

pub record Citation : Type 0 where
  pub node_id : ℕ
  pub paper_id : ℕ
  pub paper_title : String
  pub section_path : String
  pub page_start : Option ℕ
  pub page_end : Option ℕ
  pub identifier_type : String
  pub identifier : String

unfoldable pub pages : Option ℕ → Option ℕ → String
pages none end = "pages unavailable"
pages (some start) none = concat "p. " (str start)
pages (some start) (some end) =
    if end == start
    then concat "p. " (str start)
    else concat "pp. " (concat (str start) (concat "–" (str end)))

unfoldable pub rendered : Citation → String
rendered c =
    let label = if c.identifier_type == "doi" then "DOI" else "arXiv" in
    concat c.paper_title (
      concat " — " (
        concat c.section_path (
          concat " — " (
            concat (pages c.page_start c.page_end)
              (concat " — " (concat label (concat ": " c.identifier)))))))

-- The truth value of a text that may be missing.
abbrev pub is_given : Option String → Bool
is_given none = false
is_given (some s) = not (is_blank s)

unfoldable pub identifier_of : CitationPaper → Result Error (String × String)
identifier_of p =
    if is_given p.doi
    then (do s ← need p.doi unresolved; ok ("doi", s))
    else if is_given p.arxiv_id
    then (do s ← need p.arxiv_id unresolved; ok ("arxiv", s))
    else err unresolved

-- `paper_lookup` may raise.
unfoldable pub render_citation :
    (ℕ → Result Error CitationPaper) → RankedNode → Result Error Citation
render_citation paper_lookup node = do
  paper ← paper_lookup node.paper_id
  guard (paper.id == node.paper_id) unresolved
  (identifier_type, identifier) ← identifier_of paper
  ok (record {
    node_id = node.node_id;
    paper_id = node.paper_id;
    paper_title = paper.title;
    section_path = node.section_path;
    page_start = node.page_start;
    page_end = node.page_end;
    identifier_type = identifier_type;
    identifier = identifier;
  })
