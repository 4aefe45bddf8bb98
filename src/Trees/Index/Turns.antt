-- ===== src/Trees/Index/Turns.antt =====
-- One turn of the loop of `index_scope`.
use ai_researcher.Prelude.{
  ℕ, ◌<◌, ◌≡◌, refl, sym, ap, subst, ◌∙◌, String, true, false, List, [], map, if◌then◌else◌, if_ind,
  nat_eq, string_eq, ◌==◌, length, select, All, Result, ok, err, ◌>>=◌, Yields, returns,
  Yields-bind,
}
use ai_researcher.Tables.{PaperRow}
use ai_researcher.Trees.Errors.{Error}
use ai_researcher.Trees.Order.Placing.{positive}
use ai_researcher.Trees.Build.{PaperTreeInput, TreeNode, TreeTable, build_tree, persist_tree}
use ai_researcher.Trees.Build.Built.{IsTree, IsTreeFault, build_tree-IsTree}
use ai_researcher.Trees.Build.Stored.{HasGrown, without_paper, persist_tree-HasGrown}
use ai_researcher.Trees.Index.{
  IndexStore, Gateway, Outcome, built, skipped, failed, stored, tree_rows, section_rows,
  load_paper_input, paper_tree_is_current, is_eligible, index_paper, is_current_version,
  version_rows,
}
use ai_researcher.Trees.Index.Versions.{
  IsUniform, AreNodesOf-IsUniform, added-IsUniform, current_version, select-own, select-others,
}
use ai_researcher.Trees.Index.Loading.{HasSameTables, sections_of, IsLoaded, load_paper_input_lem}

-- The rows of the paper are the nodes of a tree of its stored sections, with an answer of the gateway.
abbrev pub HasTree : Gateway → String → PaperRow → IndexStore → Type 0
HasTree ask model_name paper store =
    (turn : ℕ) × (input : PaperTreeInput) × (nodes : List TreeNode) × (input.id ≡ paper.id)
    × (input.sections ≡ sections_of paper (section_rows paper.id store))
    × IsTree (ask turn input) model_name input nodes
    × (map (λ r. r.node) (tree_rows paper.id store) ≡ nodes)

-- A tree is built when it was not current, and is current then; a paper that fails keeps its rows.
abbrev pub HasEnded : Gateway → String → PaperRow → IndexStore → IndexStore → Outcome → Type 0
HasEnded ask model_name paper old new built =
    (paper_tree_is_current model_name paper old ≡ false)
    × (paper_tree_is_current model_name paper new ≡ true)
    × HasTree ask model_name paper new
HasEnded ask model_name paper old new skipped =
    (paper_tree_is_current model_name paper old ≡ true) × (new ≡ old)
HasEnded ask model_name paper old new failed =
    (paper_tree_is_current model_name paper old ≡ false) × (new.tree ≡ old.tree)

pub record IsTurn (ask : Gateway) (model_name : String) (paper : PaperRow) (old : IndexStore)
    (r : Outcome × IndexStore) : Type 0 where
  pub ended : HasEnded ask model_name paper old r.1 r.0
  pub same_tables : HasSameTables old r.1
  pub same_tree : (i : ℕ) → (paper.id == i) ≡ false → tree_rows i r.1 ≡ tree_rows i old
  pub same_sections : (i : ℕ) → (paper.id == i) ≡ false → section_rows i r.1 ≡ section_rows i old

module _ (ask : Gateway) (turn : ℕ) (model_name : String) (paper : PaperRow) (store : IndexStore)
    (input : PaperTreeInput) (loaded : IndexStore) (ready : IsLoaded paper store input loaded)
    (stale : paper_tree_is_current model_name paper store ≡ false) where
  -- A table with the tree of the paper.
  abbrev IsReplaced : TreeTable → Type 0
  IsReplaced new =
      (nodes : List TreeNode) × IsTree (ask turn input) model_name input nodes
      × HasGrown [] nodes (without_paper paper.id loaded.tree) new

  build_lem : Yields (IsTreeFault (ask turn input) model_name input) IsReplaced (do
    nodes ← build_tree (ask turn input) model_name input
    persist_tree paper.id nodes loaded.tree)
  build_lem = Yields-bind _ _ (build_tree-IsTree (ask turn input) model_name input) λ nodes tree.
      let (new, run, grown) = persist_tree-HasGrown paper.id nodes loaded.tree tree.nested in
      subst (λ r. Yields (IsTreeFault (ask turn input) model_name input) IsReplaced r) (sym run)
        (returns (nodes, tree, grown))

  built_lem :
      (new : TreeTable)
      → IsReplaced new
      → IsTurn ask model_name paper store (built, record loaded { tree = new })
  unfolding paper_tree_is_current
  built_lem new (nodes, tree, grown) =
      let (same, size) = AreNodesOf-IsUniform _ _ _ _ tree.ordered nodes tree.nodes_of in
      let own = subst (λ i. All (IsUniform i model_name) nodes) ready.named same in
      let (uniform, count) =
        added-IsUniform paper.id model_name grown.added nodes grown.same_nodes own in
      let rows = select-own paper.id model_name nodes loaded.tree new grown uniform in
      let total = count ∙ size ∙ tree.placed.size in
      record {
        ended = (
          stale,
          ap
                (λ l.
                  is_current_version (version_rows l)
                    (if paper.parse_status == "parsed"
                      then length (section_rows paper.id loaded)
                      else 1)
                    model_name)
                rows
              ∙ current_version model_name grown.added paper.id _ uniform
                  (subst (λ n. 0 < n) ready.expected (positive input.sections tree.some_section))
                  (total ∙ ready.expected),
          (
            turn,
            input,
            nodes,
            ready.named,
            ready.reads,
            tree,
            ap (map (λ r. r.node)) rows ∙ grown.same_nodes,
          ),
        );
        same_tables = record {
          scopes = ready.same_tables.scopes;
          paper_scopes = ready.same_tables.paper_scopes;
          papers = ready.same_tables.papers;
        };
        same_tree = λ i apart.
            select-others paper.id model_name nodes loaded.tree new grown uniform i apart
            ∙ ap (λ (t : TreeTable). select (λ r. r.node.paper_id == i) t.rows) ready.same_tree;
        same_sections = λ i apart. ready.same_sections i apart;
      }

  stored_lem :
      (r : Result Error TreeTable)
      → Yields (IsTreeFault (ask turn input) model_name input) IsReplaced r
      → IsTurn ask model_name paper store (stored loaded r)
  stored_lem (ok new) (returns replaced) = built_lem new replaced
  stored_lem (err e) y = record {
    ended = (stale, ready.same_tree);
    same_tables = ready.same_tables;
    same_tree = λ i apart.
        ap (λ (t : TreeTable). select (λ r. r.node.paper_id == i) t.rows) ready.same_tree;
    same_sections = ready.same_sections;
  }

pub index_paper-IsTurn :
    (ask : Gateway) (model_name : String) (turn : ℕ) (paper : PaperRow) (store : IndexStore)
    → is_eligible paper ≡ true
    → IsTurn ask model_name paper store (index_paper ask model_name turn paper store)
unfolding index_paper
index_paper-IsTurn ask model_name turn paper store eligible =
    if_ind (λ r. IsTurn ask model_name paper store r) (paper_tree_is_current model_name paper store)
      (λ current. record {
        ended = (current, refl);
        same_tables = record { scopes = refl; paper_scopes = refl; papers = refl };
        same_tree = λ i apart. refl;
        same_sections = λ i apart. refl;
      })
      (λ stale.
        let input = (load_paper_input paper store).0 in
        let loaded = (load_paper_input paper store).1 in
        let ready = load_paper_input_lem paper store eligible in
        stored_lem ask turn model_name paper store input loaded ready stale _
          (build_lem ask turn model_name paper store input loaded ready stale))
