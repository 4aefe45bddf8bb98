-- ===== src/Trees/Index.antt =====
-- `index_scope` of src/ai_researcher/trees/build.py, with `is_stale` of trees/version.py.
pub mod Versions
pub mod Loading
pub mod Turns
pub mod Keeping
pub mod Settled
use Prim.Native.String.{count as text_length}
use ai_researcher.Prelude.{
  ℕ, zero, suc, ◌+◌, String, Bool, true, false, not, ◌&&◌, ◌||◌, Option, none, some, List, [], ◌∷◌,
  ◌++◌, map, if◌then◌else◌, ltb, leb, nat_eq, string_eq, pair_eq, ◌==◌, length, select, any,
  contains, lookup, insert, sort, Result, ok, err, need, ◌>>=◌,
}
use ai_researcher.Json.{Value}
use ai_researcher.Tables.{PaperRow, PaperScopeRow, SectionRow}
use ai_researcher.Trees.Errors.{Error, unknown_scope}
use ai_researcher.Trees.Order.{SectionTreeInput, precedes}
use ai_researcher.Trees.Build.{
  PaperTreeInput, TreeRow, TreeTable, tree_schema_version, build_tree, persist_tree,
}

-- The tables; a scope is its name and its identifier.
pub record IndexStore : Type 0 where
  pub scopes : List (String × ℕ)
  pub paper_scopes : List PaperScopeRow
  pub papers : List PaperRow
  pub sections : List SectionRow
  pub next_section : ℕ
  pub tree : TreeTable

pub record TreeVersionState : Type 0 where
  pub tree_schema_version : String
  pub summary_model : String

unfoldable pub is_stale : Option TreeVersionState → String → Bool
is_stale none summary_model = true
is_stale (some paper) summary_model =
    not (paper.tree_schema_version == tree_schema_version)
    || not (paper.summary_model == summary_model)

-- `GROUP BY tree_schema_version, summary_model`, with `count(*)`.
abbrev pub Versions : Type 0
Versions = List ((String × String) × ℕ)

abbrev pub version_of : TreeRow → String × String
version_of r = (r.node.tree_schema_version, r.node.summary_model)

abbrev pub node_count : Option ℕ → ℕ
node_count none = 0
node_count (some n) = n

unfoldable pub version_rows : List TreeRow → Versions
version_rows [] = []
version_rows (r ∷ rows) =
    let rest = version_rows rows in
    insert (version_of r) (suc (node_count (lookup (version_of r) rest))) rest

abbrev pub tree_rows : ℕ → IndexStore → List TreeRow
tree_rows paper_id store = select (λ r. r.node.paper_id == paper_id) store.tree.rows

abbrev pub section_rows : ℕ → IndexStore → List SectionRow
section_rows paper_id store = select (λ s. s.paper_id == paper_id) store.sections

unfoldable pub is_current_version : Versions → ℕ → String → Bool
is_current_version (((version, model), n) ∷ []) expected_count summary_model =
    not (
      is_stale (some (record { tree_schema_version = version; summary_model = model }))
        summary_model)
    && (ltb 0 expected_count && n == expected_count)
is_current_version _ expected_count summary_model = false

unfoldable pub paper_tree_is_current : String → PaperRow → IndexStore → Bool
paper_tree_is_current summary_model paper store =
    is_current_version (version_rows (tree_rows paper.id store))
      (if paper.parse_status == "parsed" then length (section_rows paper.id store) else 1)
      summary_model

unfoldable pub section_input : SectionRow → SectionTreeInput
section_input row = record {
  id = row.id;
  parent_id = row.parent_id;
  section_path = row.section_path;
  title = row.title;
  ordinal = row.ordinal;
  page_start = row.page_start;
  page_end = row.page_end;
  body_text = row.body_text;
}

-- `abstract or ""`
abbrev pub abstract_text : Option String → String
abstract_text none = ""
abstract_text (some text) = text

-- The first section "Abstract" of the paper, which is inserted when there is none.
unfoldable pub abstract_section : PaperRow → List SectionRow → IndexStore → SectionRow × IndexStore
abstract_section paper (found ∷ _) store = (found, store)
abstract_section paper [] store =
    let row : SectionRow = record {
      id = store.next_section;
      paper_id = paper.id;
      parent_id = none;
      section_path = "Abstract";
      title = some "Abstract";
      ordinal = 0;
      page_start = none;
      page_end = none;
      char_start = some 0;
      char_end = some (text_length (abstract_text paper.abstract));
      body_text = abstract_text paper.abstract;
    } in
    (
      row,
      record store { sections = store.sections ++ row ∷ []; next_section = store.next_section + 1 },
    )

abbrev pub paper_input : PaperRow → List SectionTreeInput → PaperTreeInput
paper_input paper sections = record {
  id = paper.id;
  title = paper.title;
  abstract = paper.abstract;
  parse_status = paper.parse_status;
  sections = sections;
}

unfoldable pub load_paper_input : PaperRow → IndexStore → PaperTreeInput × IndexStore
load_paper_input paper store =
    let abstracts =
      sort (λ a b. leb a.id b.id)
        (select (λ s. s.section_path == "Abstract") (section_rows paper.id store)) in
    let abstracted = abstract_section paper abstracts store in
    if paper.parse_status == "abstract_only"
    then (paper_input paper (section_input abstracted.0 ∷ []), abstracted.1)
    else (
      paper_input paper (sort precedes (map section_input (section_rows paper.id store))),
      store,
    )

pub data Outcome : Type 0 where
  built skipped failed : Outcome

-- Any exception of the build or of the transaction that stores the tree; the transaction that
-- loaded the paper stands.
abbrev pub stored : IndexStore → Result Error TreeTable → Outcome × IndexStore
stored store (ok tree) = (built, record store { tree = tree })
stored store (err e) = (failed, store)

-- The model's answer depends on the number of papers before, on the paper, and on its sections.
abbrev pub Gateway : Type 0
Gateway = ℕ → PaperTreeInput → List SectionTreeInput → Option Value

-- One turn of the loop.
unfoldable pub index_paper : Gateway → String → ℕ → PaperRow → IndexStore → Outcome × IndexStore
index_paper ask model_name turn paper store =
    let (input, loaded) = load_paper_input paper store in
    let run = stored loaded (do
      nodes ← build_tree (ask turn input) model_name input
      persist_tree paper.id nodes loaded.tree) in
    if paper_tree_is_current model_name paper store then (skipped, store) else run

pub record IndexResult : Type 0 where
  pub built : ℕ
  pub skipped : ℕ
  pub failed : ℕ

abbrev pub tally : Outcome → IndexResult → IndexResult
tally built r = record r { built = r.built + 1 }
tally skipped r = record r { skipped = r.skipped + 1 }
tally failed r = record r { failed = r.failed + 1 }

unfoldable pub index_papers :
    Gateway → String → ℕ → List PaperRow → IndexResult → IndexStore → IndexResult × IndexStore
index_papers ask model_name turn [] r store = (r, store)
index_papers ask model_name turn (paper ∷ papers) r store =
    let step = index_paper ask model_name turn paper store in
    index_papers ask model_name (suc turn) papers (tally step.0 r) step.1

abbrev pub is_eligible : PaperRow → Bool
is_eligible paper = contains ("parsed" ∷ "abstract_only" ∷ []) paper.parse_status

-- The pair of paper and scope is the key of `paper_scope`, so that the join has a paper once.
unfoldable pub eligible_papers : ℕ → List PaperScopeRow → List PaperRow → List PaperRow
eligible_papers scope_id paper_scopes papers =
    sort (λ a b. leb a.id b.id)
      (select
        (λ p. is_eligible p && any (λ m. m.scope_id == scope_id && m.paper_id == p.id) paper_scopes)
        papers)

unfoldable pub index_scope :
    Gateway → String → String → IndexStore → Result Error (IndexResult × IndexStore)
index_scope ask model_name scope_name store = do
  scope_id ← need (lookup scope_name store.scopes) unknown_scope
  ok (
      index_papers ask model_name 0 (eligible_papers scope_id store.paper_scopes store.papers)
        (record { built = 0; skipped = 0; failed = 0 }) store)
