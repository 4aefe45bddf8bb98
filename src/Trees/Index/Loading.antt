-- ===== src/Trees/Index/Loading.antt =====
-- `_load_paper_input`: the sections that a tree is made of, and how many there are.
use mathlib.Core.List.{Perm}
use mathlib.Core.List.Perm
use ai_researcher.Prelude.{
  take, leb, ◌++◌, append-nil, select-append, sort, sort-perm, beq_self, select_all, ℕ, ◌≡◌, refl,
  sym, ap, subst, ◌∙◌, String, true, false, List, [], ◌∷◌, append-nil, map, if◌then◌else◌, if_ind,
  nat_eq, string_eq, ◌==◌, eq_of_beq, beq_comm, length, length-map, select, select-append, arith,
}
use ai_researcher.Tables.{PaperRow, SectionRow}
use ai_researcher.Trees.Order.{SectionTreeInput, precedes}
use ai_researcher.Trees.Order.Placing.{length-sorted}
use ai_researcher.Trees.Build.{PaperTreeInput}
use ai_researcher.Trees.Index.{
  IndexStore, section_rows, section_input, paper_input, abstract_section, load_paper_input,
  is_eligible,
}

-- The tables that no turn writes.
pub record HasSameTables (old new : IndexStore) : Type 0 where
  pub scopes : new.scopes ≡ old.scopes
  pub paper_scopes : new.paper_scopes ≡ old.paper_scopes
  pub papers : new.papers ≡ old.papers

-- The sections that the tree of the paper is made of: its first abstract, or all.
abbrev pub sections_of : PaperRow → List SectionRow → List SectionTreeInput
sections_of paper rows =
    if paper.parse_status == "abstract_only"
    then map section_input
        (take 1 (sort (λ a b. leb a.id b.id) (select (λ s. s.section_path == "Abstract") rows)))
    else sort precedes (map section_input rows)

-- What the loading transaction has done.
pub record IsLoaded (paper : PaperRow) (store : IndexStore) (input : PaperTreeInput)
    (loaded : IndexStore) : Type 0 where
  pub named : input.id ≡ paper.id
  pub reads : input.sections ≡ sections_of paper (section_rows paper.id loaded)
  pub expected :
      length input.sections
      ≡ (if paper.parse_status == "parsed" then length (section_rows paper.id loaded) else 1)
  pub same_tree : loaded.tree ≡ store.tree
  pub same_tables : HasSameTables store loaded
  pub same_sections :
      (i : ℕ) → (paper.id == i) ≡ false → section_rows i loaded ≡ section_rows i store

not_parsed : (status : String) → (status == "abstract_only") ≡ true → (status == "parsed") ≡ false
not_parsed status h = ap (λ s. s == "parsed") (eq_of_beq status "abstract_only" h)

parsed_of_eligible :
    (paper : PaperRow)
    → is_eligible paper ≡ true
    → (paper.parse_status == "abstract_only") ≡ false
    → (paper.parse_status == "parsed") ≡ true
parsed_of_eligible paper h out =
    ground
      (arith, beq_comm paper.parse_status "abstract_only", beq_comm paper.parse_status "parsed")

nothing_sorted : (rows : List SectionRow) → [] ≡ sort (λ a b. leb a.id b.id) rows → rows ≡ []
nothing_sorted [] h = refl
nothing_sorted (r ∷ rows) h =
    Perm.eq-nil (subst (λ l. Perm (r ∷ rows) l) (sym h) (Perm.symm (sort-perm _ (r ∷ rows))))

-- The inserted section is the paper's only abstract.
abstract_added :
    (paper : PaperRow) (row : SectionRow) (store : IndexStore)
    → (row.paper_id ≡ paper.id)
    → (row.section_path ≡ "Abstract")
    → []
      ≡ sort
          (λ a b. leb a.id b.id)
          (select (λ s. s.section_path == "Abstract") (section_rows paper.id store))
    → select
        (λ s. s.section_path == "Abstract")
        (select (λ s. s.paper_id == paper.id) (store.sections ++ row ∷ []))
      ≡ row ∷ []
abstract_added paper row store own abstract e =
    ap (select (λ (s : SectionRow). s.section_path == "Abstract"))
      (select-append (λ (s : SectionRow). s.paper_id == paper.id) store.sections (row ∷ []))
    ∙ select-append (λ (s : SectionRow). s.section_path == "Abstract") (section_rows paper.id store)
        _
    ∙ ap
        (λ l.
          l
          ++ select (λ (s : SectionRow). s.section_path == "Abstract")
              (select (λ (s : SectionRow). s.paper_id == paper.id) (row ∷ [])))
        (nothing_sorted _ e)
    ∙ ap (select (λ (s : SectionRow). s.section_path == "Abstract")) (
        select_all (λ (s : SectionRow). s.paper_id == paper.id) (row ∷ [])
          (ap (λ i. i == paper.id) own ∙ beq_self paper.id, tt))
    ∙ select_all (λ (s : SectionRow). s.section_path == "Abstract") (row ∷ [])
        (ap (λ p. p == "Abstract") abstract, tt)

abstract_section_lem :
    (paper : PaperRow) (rows : List SectionRow) (store : IndexStore)
    → rows
      ≡ sort
          (λ a b. leb a.id b.id)
          (select (λ s. s.section_path == "Abstract") (section_rows paper.id store))
    → (paper.parse_status == "abstract_only") ≡ true
    → IsLoaded paper store
        (paper_input paper (section_input ((abstract_section paper rows store).0) ∷ []))
        ((abstract_section paper rows store).1)
unfolding abstract_section
abstract_section_lem paper (found ∷ _) store e h = record {
  named = refl;
  reads = rw h (ap (λ l. map section_input (take 1 l)) e);
  expected = rw (not_parsed paper.parse_status h) refl;
  same_tree = refl;
  same_tables = record { scopes = refl; paper_scopes = refl; papers = refl };
  same_sections = λ i apart. refl;
}
abstract_section_lem paper [] store e h = record {
  named = refl;
  reads = rw h (
      ap (λ l. map section_input (take 1 (sort (λ a b. leb a.id b.id) l)))
        (sym (abstract_added paper _ store refl refl e)));
  expected = rw (not_parsed paper.parse_status h) refl;
  same_tree = refl;
  same_tables = record { scopes = refl; paper_scopes = refl; papers = refl };
  same_sections = λ i apart.
      select-append (λ (s : SectionRow). s.paper_id == i) store.sections _
      ∙ rw apart (append-nil (section_rows i store));
}

pub load_paper_input_lem :
    (paper : PaperRow) (store : IndexStore)
    → is_eligible paper ≡ true
    → IsLoaded paper store ((load_paper_input paper store).0) ((load_paper_input paper store).1)
unfolding load_paper_input
load_paper_input_lem paper store eligible =
    if_ind (λ (r : PaperTreeInput × IndexStore). IsLoaded paper store r.0 r.1)
      (paper.parse_status == "abstract_only") (λ h. abstract_section_lem paper _ store refl h)
      (λ h. record {
        named = refl;
        reads = rw h refl;
        expected = rw (parsed_of_eligible paper eligible h) (
            length-sorted (map section_input (section_rows paper.id store))
            ∙ length-map section_input (section_rows paper.id store));
        same_tree = refl;
        same_tables = record { scopes = refl; paper_scopes = refl; papers = refl };
        same_sections = λ i apart. refl;
      })
