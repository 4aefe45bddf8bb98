-- ===== src/Trees/Build/Nested.antt =====
-- The nodes of a paper stand parents first, each one level under its parent, in at most five levels.
use ai_researcher.Prelude.{
  ℕ, suc, ◌≤◌, ◌<◌, min, ◌≡◌, refl, ap, subst, ◌∙◌, inl, inr, String, true, Option, none, some,
  List, [], ◌∷◌, ◌++◌, nat_eq, leb, leb→le, leb-false→lt, length, All, All-map, All-append,
  All-contains, contains, lookup, insert, lookup-insert_self, lookup-insert_other, Bool-cases,
  eq_of_beq, ◌==◌, ok, arith,
}
use ai_researcher.Trees.Order.{
  SectionTreeInput, Depths, section_ids, depth_under, flattened_parent_id, max_tree_depth,
}
use ai_researcher.Trees.Order.Ancestors.{
  IsClosed, Descends, IsKnownParent, below-eq-some, same_depth, ancestors_lem, first_at_depth_lem,
}
use ai_researcher.Trees.Summaries.{Summaries, truncate_summary}
use ai_researcher.Trees.Build.{TreeNode, tree_schema_version, build_node}

-- `above` holds the depths of the nodes before.
abbrev pub IsNested : Depths → List TreeNode → Type 0
IsNested above [] = Unit
IsNested above (n ∷ ns) =
    (depth_under n.parent_section_id above ≡ some n.depth)
    × (n.depth ≤ max_tree_depth)
    × IsNested (insert n.section_id n.depth above) ns

-- What the node has of its section: everything but the depth, when that is more than 4, and then
-- the parent.
pub record IsNodeOf (paper_id : ℕ) (model_name : String) (depths : Depths) (summaries : Summaries)
    (item : SectionTreeInput) (node : TreeNode) : Type 0 where
  pub anchored : (node.paper_id ≡ paper_id) × (node.section_id ≡ item.id)
  pub copied :
      (node.node_path ≡ item.section_path)
      × (node.title ≡ item.title)
      × (node.page_start ≡ item.page_start)
      × (node.page_end ≡ item.page_end)
  pub versioned :
      (node.tree_schema_version ≡ tree_schema_version) × (node.summary_model ≡ model_name)
  pub original_depth : ℕ
  pub placed : lookup item.id depths ≡ some original_depth
  pub flat : node.depth ≡ min original_depth max_tree_depth
  pub kept : original_depth ≤ max_tree_depth → node.parent_section_id ≡ item.parent_id
  pub text : String
  pub answered : lookup item.id summaries ≡ some text
  pub short : node.summary ≡ truncate_summary text

-- The nodes of these sections are `above`, with the depths of the sections cut off at 4.
abbrev pub IsFlatOf : Depths → Depths → List ℕ → Type 0
IsFlatOf depths above ids =
    All (λ i. (e : ℕ) × (lookup i depths ≡ some e) × (lookup i above ≡ some (min e max_tree_depth)))
      ids

pub IsFlatOf-insert :
    (depths above : Depths) (ids : List ℕ) (i d : ℕ)
    → lookup i depths ≡ some d
    → IsFlatOf depths above ids
    → IsFlatOf depths (insert i (min d max_tree_depth) above) (ids ++ i ∷ [])
IsFlatOf-insert depths above ids i d deep flat =
    All-append _ ids (i ∷ [])
      (All-map _ _ ids
        (λ j (e, at, low). elim (Bool-cases (i == j)) [
          | inl same ↦
              let q = eq_of_beq i j same in
              (
                d,
                subst (λ k. lookup k depths ≡ some d) q deep,
                subst
                    (λ k.
                      lookup k (insert i (min d max_tree_depth) above)
                      ≡ some (min d max_tree_depth))
                    q (lookup-insert_self i (min d max_tree_depth) above),
              )
          | inr apart ↦ (e, at, lookup-insert_other i j _ _ above apart low)
        ])
        flat)
      ((d, deep, lookup-insert_self i (min d max_tree_depth) above), tt)

module _ (depths above : Depths) (ids : List ℕ) (flat : IsFlatOf depths above ids) where
  kept_depth :
      (parent : Option ℕ) (d : ℕ)
      → depth_under parent depths ≡ some d
      → IsKnownParent ids parent
      → d ≤ max_tree_depth
      → depth_under parent above ≡ some (min d max_tree_depth)
  kept_depth none d h k small = ground arith
  kept_depth (some p) d h k small =
      let (e, deep, step) = below-eq-some (lookup p depths) d h in
      let (f, at, low) = All-contains _ ids p flat k in
      let same : e ≡ f = same_depth depths p e f deep at in rw low (ap some (omega arith))

  hoisted_depth :
      (a : ℕ)
      → lookup a depths ≡ some 3
      → contains ids a ≡ true
      → depth_under (some a) above ≡ some 4
  hoisted_depth a deep k =
      let (f, at, low) = All-contains _ ids a flat k in
      let same : 3 ≡ f = same_depth depths a 3 f deep at in rw low (ap some (omega arith))

  flattened_parent_id_lem :
      (item : SectionTreeInput) (d : ℕ) (ups : List ℕ)
      → depth_under item.parent_id depths ≡ some d
      → IsKnownParent ids item.parent_id
      → Descends depths ids d ups
      → (parent : Option ℕ) × (flattened_parent_id item d ups depths ≡ ok parent)
        × (depth_under parent above ≡ some (min d max_tree_depth))
        × (d ≤ max_tree_depth → parent ≡ item.parent_id)
  unfolding flattened_parent_id
  flattened_parent_id_lem item d ups h k down = elim (Bool-cases (leb d max_tree_depth)) [
    | inl small ↦ (
      item.parent_id,
      rw small refl,
      kept_depth item.parent_id d h k (leb→le d max_tree_depth small),
      λ _. refl,
    )
    | inr large ↦
        let over = leb-false→lt d max_tree_depth large in
        let (a, run, deep, known) = first_at_depth_lem 3 d depths ids ups down (omega arith) in
        (
          some a,
          rw (large, run) refl,
          hoisted_depth a deep known ∙ ap some (omega arith),
          λ small. absurd (omega arith),
        )
  ]

-- One turn of the loop, for a section that stands after its ancestors.
pub build_node_lem :
    (paper_id : ℕ) (model_name : String) (depths above : Depths) (summaries : Summaries)
    (pre rest : List SectionTreeInput) (item : SectionTreeInput) (d : ℕ) (text : String)
    → IsClosed depths (section_ids pre) pre
    → IsFlatOf depths above (section_ids pre)
    → depth_under item.parent_id depths ≡ some d
    → IsKnownParent (section_ids pre) item.parent_id
    → lookup item.id depths ≡ some d
    → d < suc (length (pre ++ item ∷ rest))
    → lookup item.id summaries ≡ some text
    → (node : TreeNode) × (build_node paper_id model_name (pre ++ item ∷ rest) depths summaries item
        ≡ ok node)
      × IsNodeOf paper_id model_name depths summaries item node
      × (depth_under node.parent_section_id above ≡ some node.depth)
unfolding build_node
build_node_lem paper_id model_name depths above summaries pre rest item d text closed flat h k deep
      fuel answered =
    let (ups, climb, down) =
      ancestors_lem depths pre (item ∷ rest) closed (suc (length (pre ++ item ∷ rest))) d
        item.parent_id h k fuel in
    let (parent, hang, level, kept) =
      flattened_parent_id_lem depths above (section_ids pre) flat item d ups h k down in
    (
      record {
        paper_id = paper_id;
        section_id = item.id;
        parent_section_id = parent;
        node_path = item.section_path;
        title = item.title;
        summary = truncate_summary text;
        page_start = item.page_start;
        page_end = item.page_end;
        depth = min d max_tree_depth;
        tree_schema_version = tree_schema_version;
        summary_model = model_name;
      },
      rw (deep, climb, hang, answered) refl,
      record {
        anchored = (refl, refl);
        copied = (refl, refl, refl, refl);
        versioned = (refl, refl);
        original_depth = d;
        placed = deep;
        flat = refl;
        kept = kept;
        text = text;
        answered = answered;
        short = refl;
      },
      level,
    )
