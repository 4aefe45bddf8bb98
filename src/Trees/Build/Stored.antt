-- ===== src/Trees/Build/Stored.antt =====
-- `_persist_tree` replaces the rows of the paper by its nodes, each under the row of its parent.
use ai_researcher.Prelude.{
  ℕ, suc, ◌+◌, ◌≡◌, refl, sym, ap, subst, ◌∙◌, inl, inr, not, Option, none, some, List, [], ◌∷◌,
  ◌++◌, append_assoc, append-nil, map, nat_eq, ◌==◌, select, lookup, insert, lookup-insert_cases,
  lookup-insert_self, lookup-insert_other, Exists, Exists-left, Exists-right, Exists-weaken, ok,
  arith,
}
use ai_researcher.Trees.Order.{Depths, depth_under}
use ai_researcher.Trees.Order.Ancestors.{below-eq-some}
use ai_researcher.Trees.Build.{
  TreeNode, TreeRow, TreeTable, stored_parent, insert_nodes, persist_tree,
}
use ai_researcher.Trees.Build.Nested.{IsNested}

-- A node without a parent is at depth 0; any other refers to a row before, of the section of its
-- parent and one level up.
abbrev pub HangsUnder : List TreeRow → ℕ → Option ℕ → Option ℕ → Type 0
HangsUnder before d parent_id none = (parent_id ≡ none) × (d ≡ 0)
HangsUnder before d parent_id (some p) =
    Exists (λ q. (parent_id ≡ some q.id) × (q.node.section_id ≡ p) × (d ≡ suc q.node.depth)) before

abbrev pub IsLinked : List TreeRow → List TreeRow → Type 0
IsLinked before [] = Unit
IsLinked before (r ∷ rs) =
    HangsUnder before r.node.depth r.parent_id r.node.parent_section_id
    × IsLinked (before ++ r ∷ []) rs

-- The identifiers are the next ones of the sequence.
abbrev pub IsNumbered : ℕ → List TreeRow → Type 0
IsNumbered n [] = Unit
IsNumbered n (r ∷ rs) = (r.id ≡ n) × IsNumbered (n + 1) rs

-- The table has grown by rows for the nodes.
pub record HasGrown (before : List TreeRow) (nodes : List TreeNode) (old new : TreeTable)
    : Type 0 where
  pub added : List TreeRow
  pub same_rows : new.rows ≡ old.rows ++ added
  pub same_nodes : map (λ r. r.node) added ≡ nodes
  pub numbered : IsNumbered old.next_id added
  pub linked : IsLinked before added

-- Every section with a depth has its row.
IsIndex : Depths → List (ℕ × ℕ) → List TreeRow → Type 0
IsIndex above section_to_node before =
    (i e : ℕ)
    → lookup i above ≡ some e
    → (id : ℕ) × (lookup i section_to_node ≡ some id)
      × Exists (λ q. (q.id ≡ id) × (q.node.section_id ≡ i) × (q.node.depth ≡ e)) before

IsIndex-insert :
    (above : Depths) (section_to_node : List (ℕ × ℕ)) (before : List TreeRow) (r : TreeRow)
    → IsIndex above section_to_node before
    → IsIndex
        (insert r.node.section_id r.node.depth above)
        (insert r.node.section_id r.id section_to_node)
        (before ++ r ∷ [])
unfolding IsIndex
IsIndex-insert above section_to_node before r index i e h =
    let s = r.node.section_id in
    elim (lookup-insert_cases s i r.node.depth e above h) [
      | inl (same, level) ↦ (
        r.id,
        subst (λ j. lookup j (insert s r.id section_to_node) ≡ some r.id) same
            (lookup-insert_self s r.id section_to_node),
        Exists-right _ before (r ∷ []) (inl (refl, same, level)),
      )
      | inr (apart, old) ↦
          let (id, at, found) = index i e old in
          (
            id,
            lookup-insert_other s i r.id id section_to_node apart at,
            Exists-left _ before (r ∷ []) found,
          )
    ]

stored_parent_lem :
    (above : Depths) (section_to_node : List (ℕ × ℕ)) (before : List TreeRow) (d : ℕ)
    (parent : Option ℕ)
    → IsIndex above section_to_node before
    → depth_under parent above ≡ some d
    → (o : Option ℕ) × (stored_parent section_to_node parent ≡ ok o) × HangsUnder before d o parent
unfolding stored_parent IsIndex
stored_parent_lem above section_to_node before d none index h = (none, refl, (refl, ground arith))
stored_parent_lem above section_to_node before d (some p) index h =
    let (e, deep, step) = below-eq-some (lookup p above) d h in
    let (id, at, found) = index p e deep in
    (
      some id,
      rw at refl,
      Exists-weaken _ _ before
          (λ q (named, of, level). (ap some (sym named), of, step ∙ ap suc (sym level))) found,
    )

insert_nodes_lem :
    (above : Depths) (section_to_node : List (ℕ × ℕ)) (before : List TreeRow)
    (nodes : List TreeNode) (table : TreeTable)
    → IsIndex above section_to_node before
    → IsNested above nodes
    → (new : TreeTable) × (insert_nodes section_to_node nodes table ≡ ok new)
      × HasGrown before nodes table new
unfolding insert_nodes
insert_nodes_lem above section_to_node before [] table index nested = (
  table,
  refl,
  record {
    added = [];
    same_rows = sym (append-nil table.rows);
    same_nodes = refl;
    numbered = tt;
    linked = tt;
  },
)
insert_nodes_lem above section_to_node before (node ∷ nodes) table index (level, small, nested) =
    let (parent, ask, hangs) =
      stored_parent_lem above section_to_node before node.depth node.parent_section_id index
        level in
    let r : TreeRow = record { id = table.next_id; parent_id = parent; node = node } in
    let (new, run, grown) =
      insert_nodes_lem (insert node.section_id node.depth above)
        (insert node.section_id table.next_id section_to_node) (before ++ r ∷ []) nodes
        (record { rows = table.rows ++ r ∷ []; next_id = table.next_id + 1 })
        (IsIndex-insert above section_to_node before r index) nested in
    (
      new,
      rw (ask, run) refl,
      record {
        added = r ∷ grown.added;
        same_rows = grown.same_rows ∙ append_assoc table.rows (r ∷ []) grown.added;
        same_nodes = ap (λ l. node ∷ l) grown.same_nodes;
        numbered = (refl, grown.numbered);
        linked = (hangs, grown.linked);
      },
    )

-- The rows of other papers.
abbrev pub without_paper : ℕ → TreeTable → TreeTable
without_paper paper_id table = record table {
  rows = select (λ r. not (r.node.paper_id == paper_id)) table.rows;
}

-- `_persist_tree` of a nested list of nodes finds the row of every parent: it leaves the rows of
-- other papers, deletes those of the paper, and adds a row for each node in order, with new
-- identifiers. A node without a parent is at depth 0, and any other refers to a row added before,
-- of the section of its parent and one level up.
pub persist_tree-HasGrown :
    (paper_id : ℕ) (nodes : List TreeNode) (table : TreeTable)
    → IsNested [] nodes
    → (new : TreeTable) × (persist_tree paper_id nodes table ≡ ok new)
      × HasGrown [] nodes (without_paper paper_id table) new
unfolding persist_tree IsIndex
persist_tree-HasGrown paper_id nodes table nested =
    insert_nodes_lem [] [] [] nodes (without_paper paper_id table) (λ i e h. cc) nested
