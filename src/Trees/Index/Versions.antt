-- ===== src/Trees/Index/Versions.antt =====
-- The rows of a paper whose tree has just been stored, as `_paper_tree_is_current` counts them.
use ai_researcher.Prelude.{
  ℕ, suc, ◌<◌, ◌≡◌, refl, sym, ap, subst, ◌∙◌, String, true, false, not, List, [], ◌∷◌, ◌++◌, map,
  nat_eq, string_eq, pair_eq, ◌==◌, beq_self, length, select, select-append, select_all,
  select_none, select-select, All_intro, append-nil, All, All-map, All-select, lookup, insert,
  length-map, arith,
}
use ai_researcher.Trees.Order.{SectionTreeInput, Depths}
use ai_researcher.Trees.Summaries.{Summaries}
use ai_researcher.Trees.Build.{TreeNode, TreeRow, TreeTable, tree_schema_version}
use ai_researcher.Trees.Build.Built.{AreNodesOf}
use ai_researcher.Trees.Build.Stored.{HasGrown, without_paper}
use ai_researcher.Trees.Index.{
  Versions, version_of, node_count, version_rows, is_stale, is_current_version,
}

-- Nodes of one paper, schema and model.
abbrev pub IsUniform : ℕ → String → TreeNode → Type 0
IsUniform paper_id model_name n =
    (n.paper_id ≡ paper_id)
    × (n.tree_schema_version ≡ tree_schema_version)
    × (n.summary_model ≡ model_name)

pub AreNodesOf-IsUniform :
    (paper_id : ℕ) (model_name : String) (depths : Depths) (summaries : Summaries)
    (xs : List SectionTreeInput) (ns : List TreeNode)
    → AreNodesOf paper_id model_name depths summaries xs ns
    → All (IsUniform paper_id model_name) ns × (length ns ≡ length xs)
AreNodesOf-IsUniform paper_id model_name depths summaries [] [] h = (tt, refl)
AreNodesOf-IsUniform paper_id model_name depths summaries [] (n ∷ ns) h = absurd h
AreNodesOf-IsUniform paper_id model_name depths summaries (x ∷ xs) [] h = absurd h
AreNodesOf-IsUniform paper_id model_name depths summaries (x ∷ xs) (n ∷ ns) (of, h) =
    let (rest, size) = AreNodesOf-IsUniform paper_id model_name depths summaries xs ns h in
    (((of.anchored.0, of.versioned.0, of.versioned.1), rest), ap suc size)

All_of_map :
    (P : TreeNode → Type 0) (rows : List TreeRow)
    → All P (map (λ r. r.node) rows)
    → All (λ r. P r.node) rows
All_of_map P [] h = tt
All_of_map P (r ∷ rows) h = (h.0, All_of_map P rows h.1)

pub added-IsUniform :
    (paper_id : ℕ) (model_name : String) (rows : List TreeRow) (nodes : List TreeNode)
    → map (λ r. r.node) rows ≡ nodes
    → All (IsUniform paper_id model_name) nodes
    → All (λ r. IsUniform paper_id model_name r.node) rows × (length rows ≡ length nodes)
added-IsUniform paper_id model_name rows nodes e h = (
  All_of_map _ rows (subst (All (IsUniform paper_id model_name)) (sym e) h),
  sym (length-map (λ (r : TreeRow). r.node) rows) ∙ ap (λ (l : List TreeNode). length l) e,
)

version_of_uniform :
    (paper_id : ℕ) (model_name : String) (r : TreeRow)
    → IsUniform paper_id model_name r.node
    → version_of r ≡ (tree_schema_version, model_name)
version_of_uniform paper_id model_name r h = λ i. (h.1 i, h.2 i)

counted :
    (v : String × String) (n : ℕ) (rest : Versions)
    → rest ≡ (v, n) ∷ []
    → insert v (suc (node_count (lookup v rest))) rest ≡ (v, suc n) ∷ []
counted v n rest e =
    ap (λ (l : Versions). insert v (suc (node_count (lookup v l))) l) e ∙ rw (beq_self v) refl

-- One group, with all the rows.
pub version_rows_uniform :
    (paper_id : ℕ) (model_name : String) (r : TreeRow) (rows : List TreeRow)
    → All (λ q. IsUniform paper_id model_name q.node) (r ∷ rows)
    → version_rows (r ∷ rows) ≡ ((tree_schema_version, model_name), suc (length rows)) ∷ []
unfolding version_rows
version_rows_uniform paper_id model_name r [] h =
    ap (λ v. (v, 1) ∷ []) (version_of_uniform paper_id model_name r h.0)
version_rows_uniform paper_id model_name r (q ∷ rows) h =
    subst
      (λ v.
        insert v (suc (node_count (lookup v (version_rows (q ∷ rows))))) (version_rows (q ∷ rows))
        ≡ ((tree_schema_version, model_name), suc (suc (length rows))) ∷ [])
      (sym (version_of_uniform paper_id model_name r h.0))
      (counted (tree_schema_version, model_name) (suc (length rows)) (version_rows (q ∷ rows))
        (version_rows_uniform paper_id model_name q rows h.1))

pub current_version :
    (model_name : String) (rows : List TreeRow) (paper_id expected : ℕ)
    → All (λ r. IsUniform paper_id model_name r.node) rows
    → 0 < expected
    → length rows ≡ expected
    → is_current_version (version_rows rows) expected model_name ≡ true
unfolding is_current_version is_stale version_rows
current_version model_name [] paper_id expected h pos e = absurd (omega arith)
current_version model_name (r ∷ rows) paper_id expected h pos e =
    ap (λ (l : Versions). is_current_version l expected model_name)
      (version_rows_uniform paper_id model_name r rows h)
    ∙ ground (arith, beq_self model_name)

module _ (paper_id : ℕ) (model_name : String) (nodes : List TreeNode) (old new : TreeTable)
    (grown : HasGrown [] nodes (without_paper paper_id old) new)
    (uniform : All (λ r. IsUniform paper_id model_name r.node) grown.added) where
  -- The rows of the paper are the added ones.
  pub select-own : select (λ r. r.node.paper_id == paper_id) new.rows ≡ grown.added
  select-own =
      ap (select (λ r. r.node.paper_id == paper_id)) grown.same_rows
      ∙ select-append (λ r. r.node.paper_id == paper_id) (without_paper paper_id old).rows
          grown.added
      ∙ ap (λ l. l ++ select (λ r. r.node.paper_id == paper_id) grown.added)
          (select_none _ (without_paper paper_id old).rows (
            All-map _ _ (without_paper paper_id old).rows (λ r h. ground arith)
              (All-select (λ r. Unit {0}) (λ r. not (r.node.paper_id == paper_id)) old.rows
                (All_intro _ old.rows λ r. tt))))
      ∙ select_all _ grown.added
          (All-map _ _ grown.added (λ r h. let e = h.0 in ground arith) uniform)

  pub select-others :
      (i : ℕ)
      → (paper_id == i) ≡ false
      → select (λ r. r.node.paper_id == i) new.rows ≡ select (λ r. r.node.paper_id == i) old.rows
  select-others i apart =
      ap (select (λ r. r.node.paper_id == i)) grown.same_rows
      ∙ select-append (λ r. r.node.paper_id == i) (without_paper paper_id old).rows grown.added
      ∙ ap (λ l. select (λ r. r.node.paper_id == i) (without_paper paper_id old).rows ++ l)
          (select_none _ grown.added
            (All-map _ _ grown.added (λ r h. let e = h.0 in ground arith) uniform))
      ∙ append-nil (select (λ r. r.node.paper_id == i) (without_paper paper_id old).rows)
      ∙ select-select (λ r. r.node.paper_id == i) (λ r. not (r.node.paper_id == paper_id)) old.rows
          (λ r h. ground arith)
