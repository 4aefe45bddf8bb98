-- ===== src/Retrieval/Store/Loaded.antt =====
-- What `load_scope_tree` loads.
use mathlib.Core.List.{Perm}
use mathlib.Core.List.Perm
use ai_researcher.Prelude.{
  ℕ, suc, ◌≡◌, refl, sym, ap, subst, ◌∙◌, String, true, false, ◌||◌, none, some, List, [], ◌∷◌, map,
  if_ind, nat_eq, string_eq, is_empty, All, All-map, All-sort, All_intro, All-select, contains,
  Distinct, Distinct-map-sort, Distinct-map-select, select, select_none, lookup, insert, keys,
  lookup_of_contains, contains-keys-insert, sort, sort-perm, sort-IsSorted, ok, Yields, returns,
  Yields-needed, Yields-bind, arith,
}
use ai_researcher.Trees.Build.{TreeRow}
use ai_researcher.Retrieval.Errors.{Error, unknown_scope}
use ai_researcher.Retrieval.Walk.{TraversalNode, ids}
use ai_researcher.Retrieval.Traverse.{is_distinct}
use ai_researcher.Retrieval.Store.{
  paper_order, keyed_rows, key_order, traversal_node, of_papers, load_scope_tree,
}
use ai_researcher.Retrieval.Store.Places.{HasPlace, AreInOrder, sorted-AreInOrder}

-- Every proposed paper has a place.
contains-paper_order :
    (index : ℕ) (paper_ids : List ℕ) (d : List (ℕ × ℕ)) (i : ℕ)
    → contains (keys (paper_order index paper_ids d)) i
      ≡ (contains (keys d) i || contains paper_ids i)
unfolding paper_order
contains-paper_order index [] d i = ground arith
contains-paper_order index (j ∷ paper_ids) d i =
    contains-paper_order (suc index) paper_ids (insert j index d) i
    ∙ ground (arith, contains-keys-insert j i index d)

keyed_rows_lem :
    (order : List (ℕ × ℕ)) (rows : List TreeRow)
    → All (λ r. contains (keys order) r.node.paper_id ≡ true) rows
    → (keyed : List (ℕ × TreeRow)) × (keyed_rows order rows ≡ ok keyed)
      × (map (λ p. p.1) keyed ≡ rows)
      × All (HasPlace order) keyed
unfolding keyed_rows
keyed_rows_lem order [] h = ([], refl, refl, tt)
keyed_rows_lem order (r ∷ rows) h =
    let (index, at) = lookup_of_contains r.node.paper_id order h.0 in
    let (keyed, run, same, placed) = keyed_rows_lem order rows h.1 in
    ((index, r) ∷ keyed, rw (at, run) refl, ap (λ l. r ∷ l) same, (at, placed))

same_ids :
    (keyed : List (ℕ × TreeRow))
    → ids (map (λ p. traversal_node p.1) keyed) ≡ map (λ p. p.1.id) keyed
same_ids [] = refl
same_ids (p ∷ keyed) = ap (λ l. p.1.id ∷ l) (same_ids keyed)

is_distinct_lem :
    (keyed : List (ℕ × TreeRow))
    → Distinct (map (λ p. p.1.id) keyed)
    → is_distinct (ids (map (λ p. traversal_node p.1) keyed)) ≡ true
unfolding is_distinct
is_distinct_lem [] d = refl
is_distinct_lem (p ∷ keyed) d =
    ground
      (arith, ap (λ (l : List ℕ). contains l p.1.id) (same_ids keyed), is_distinct_lem keyed d.1)

key_total : (p q : ℕ × TreeRow) → key_order p q ≡ false → key_order q p ≡ true
key_total p q h = ground arith

key_chain :
    (p q r : ℕ × TreeRow) → key_order p q ≡ true → key_order q r ≡ true → key_order p r ≡ true
key_chain p q r h k = ground arith

-- A node shows a row.
pub record Shows (row : TreeRow) (node : TraversalNode) : Type 0 where
  pub id : node.id ≡ row.id
  pub paper : node.paper_id ≡ row.node.paper_id
  pub parent : node.parent_id ≡ row.parent_id
  pub path : node.section_path ≡ row.node.node_path
  pub title : node.title ≡ row.node.title
  pub summary : node.summary ≡ row.node.summary
  pub start : node.page_start ≡ row.node.page_start
  pub stop : node.page_end ≡ row.node.page_end

-- One for one.
abbrev pub AreShown : List TreeRow → List TraversalNode → Type 0
AreShown [] [] = Unit
AreShown (row ∷ rows) (node ∷ nodes) = Shows row node × AreShown rows nodes
AreShown _ _ = ⊥

shown :
    (keyed : List (ℕ × TreeRow))
    → AreShown (map (λ p. p.1) keyed) (map (λ p. traversal_node p.1) keyed)
shown [] = tt
shown (p ∷ keyed) = (
  record {
    id = refl;
    paper = refl;
    parent = refl;
    path = refl;
    title = refl;
    summary = refl;
    start = refl;
    stop = refl;
  },
  shown keyed,
)

-- The nodes are those of the rows of the proposed papers, each once; in the order of the papers,
-- within a paper by depth, and on a level by identifier. Their identifiers are distinct.
pub record IsScopeTree (scopes : List (String × ℕ)) (rows : List TreeRow) (scope : String)
    (paper_ids : List ℕ) (r : ℕ × List TraversalNode) : Type 0 where
  pub named : lookup scope scopes ≡ some r.0
  pub loaded : List TreeRow
  pub nodes : AreShown loaded r.1
  pub complete : Perm loaded (select (λ x. contains paper_ids x.node.paper_id) rows)
  pub in_order : AreInOrder paper_ids loaded
  pub distinct : is_distinct (ids r.1) ≡ true

pub data IsUnknownScope (scopes : List (String × ℕ)) (scope : String) : Error → Type 0 where
  unknown : lookup scope scopes ≡ none → IsUnknownScope scopes scope unknown_scope

of_no_papers : (rows : List TreeRow) → of_papers [] rows ≡ []
of_no_papers rows = select_none _ rows (All_intro _ rows λ r. refl)

nothing-IsScopeTree :
    (scopes : List (String × ℕ)) (rows : List TreeRow) (scope : String) (paper_ids : List ℕ)
    (scope_id : ℕ)
    → is_empty paper_ids ≡ true
    → lookup scope scopes ≡ some scope_id
    → IsScopeTree scopes rows scope paper_ids (scope_id, [])
unfolding is_distinct
nothing-IsScopeTree scopes rows scope (i ∷ paper_ids) scope_id empty named = cc
nothing-IsScopeTree scopes rows scope [] scope_id empty named = record {
  named = named;
  loaded = [];
  nodes = tt;
  complete = subst (λ l. Perm [] l) (sym (of_no_papers rows)) (Perm.refl []);
  in_order = tt;
  distinct = refl;
}

row_ids :
    (keyed : List (ℕ × TreeRow)) → map (λ r. r.id) (map (λ p. p.1) keyed) ≡ map (λ p. p.1.id) keyed
row_ids [] = refl
row_ids (p ∷ keyed) = ap (λ l. p.1.id ∷ l) (row_ids keyed)

module _ (scopes : List (String × ℕ)) (rows : List TreeRow) (scope : String) (paper_ids : List ℕ)
    (key : Distinct (map (λ r. r.id) rows)) where
  placed_all :
      All
        (λ r. contains (keys (paper_order 0 paper_ids [])) r.node.paper_id ≡ true)
        (of_papers paper_ids rows)
  placed_all =
      All-map _ _ _ (λ r h. contains-paper_order 0 paper_ids [] r.node.paper_id ∙ h.0)
        (All-select (λ r. Unit {0}) (λ r. contains paper_ids r.node.paper_id) rows
          (All_intro _ rows λ r. tt))

  loaded-IsScopeTree :
      (scope_id : ℕ) (keyed : List (ℕ × TreeRow))
      → lookup scope scopes ≡ some scope_id
      → map (λ p. p.1) keyed ≡ of_papers paper_ids rows
      → All (HasPlace (paper_order 0 paper_ids [])) keyed
      → IsScopeTree scopes rows scope paper_ids
          (scope_id, map (λ p. traversal_node p.1) (sort key_order keyed))
  loaded-IsScopeTree scope_id keyed named same placed = record {
    named = named;
    loaded = map (λ p. p.1) (sort key_order keyed);
    nodes = shown (sort key_order keyed);
    complete =
        subst (λ l. Perm (map (λ (p : ℕ × TreeRow). p.1) (sort key_order keyed)) l) same
          (Perm.map (λ (p : ℕ × TreeRow). p.1) (sort-perm key_order keyed));
    in_order =
        sorted-AreInOrder paper_ids (sort key_order keyed) (All-sort key_order _ keyed placed)
          (sort-IsSorted key_order key_total key_chain keyed);
    distinct = is_distinct_lem (sort key_order keyed) (
        Distinct-map-sort key_order (λ p. p.1.id) keyed
          (subst (λ (l : List ℕ). Distinct l) (ap (map (λ r. r.id)) (sym same) ∙ row_ids keyed)
            (Distinct-map-select _ (λ (r : TreeRow). r.id) rows key)));
  }

  -- Where the identifiers of the rows are a key, `load_scope_tree` raises only for an unknown scope.
  -- Otherwise it returns a node that shows it for each row of a proposed paper and for no other, in
  -- the order of the papers' last places in the proposal, within a paper by depth, and on a level by
  -- identifier; the identifiers of the nodes pass the test that `traverse` makes on them.
  pub load_scope_tree-IsScopeTree :
      Yields
        (IsUnknownScope scopes scope)
        (IsScopeTree scopes rows scope paper_ids)
        (load_scope_tree scopes rows scope paper_ids)
  unfolding load_scope_tree
  load_scope_tree-IsScopeTree =
      Yields-bind _ _ (Yields-needed _ _ (λ e. unknown e) λ scope_id e. e) λ scope_id named.
        let (keyed, run, same, placed) =
          keyed_rows_lem (paper_order 0 paper_ids []) (of_papers paper_ids rows) placed_all in
        if_ind (Yields _ _) (is_empty paper_ids)
          (λ none_proposed.
            returns (nothing-IsScopeTree scopes rows scope paper_ids scope_id none_proposed named))
          (λ _. rw run (returns (loaded-IsScopeTree scope_id keyed named same placed)))
