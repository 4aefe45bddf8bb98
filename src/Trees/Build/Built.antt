-- ===== src/Trees/Build/Built.antt =====
-- The tree that `build_tree` returns, and why it may raise.
use ai_researcher.Prelude.{
  Yields-weaken, Yields-needed, Bool-cases, inl, inr, ℕ, suc, ◌<◌, ◌≡◌, refl, sym, ap, subst, ◌∙◌,
  String, Bool, true, false, Option, none, some, List, [], ◌∷◌, ◌++◌, append_assoc, nat_eq, length,
  every, is_empty, All, All-map, All-append, contains, contains-append, lookup, keys, values,
  lookup_of_contains, ok, Yields, returns, raises, Yields-bind, true_of_&&, arith, min, insert,
}
use ai_researcher.Json.{Value}
use ai_researcher.Trees.Errors.{Error, no_sections, model_failed}
use ai_researcher.Trees.Order.{
  SectionTreeInput, Depths, section_ids, depth_for, has_parent, max_tree_depth,
}
use ai_researcher.Trees.Order.Layers.{HasDepth, IsParentFirst, section_ids-append, value_bound}
use ai_researcher.Trees.Order.Passes.{IsFault}
use ai_researcher.Trees.Order.Placing.{IsPlaced, order_sections-IsPlaced}
use ai_researcher.Trees.Order.Ancestors.{IsClosed, known_of_has_parent, same_depth}
use ai_researcher.Trees.Summaries.{Summaries}
use ai_researcher.Trees.Summaries.Answered.{
  IsAnswered, IsAnswerFault, validated_summaries-IsAnswered,
}
use ai_researcher.Trees.Build.{PaperTreeInput, TreeNode, build_node, build_nodes, build_tree}
use ai_researcher.Trees.Build.Nested.{IsNested, IsNodeOf, IsFlatOf, IsFlatOf-insert, build_node_lem}

has_parent-append :
    (seen more : List ℕ) (x : SectionTreeInput)
    → has_parent seen x ≡ true
    → has_parent (seen ++ more) x ≡ true
unfolding has_parent
has_parent-append seen more x h = go x.parent_id h
  where
    go :
        (o : Option ℕ)
        → elim o as (λ _. Bool) [ none ↦ true | some p ↦ contains seen p ] ≡ true
        → elim o as (λ _. Bool) [ none ↦ true | some p ↦ contains (seen ++ more) p ] ≡ true
    go none q = refl
    go (some p) q = ground (arith, contains-append seen more p)

IsClosed-snoc :
    (depths : Depths) (pre : List SectionTreeInput) (item : SectionTreeInput)
    → IsClosed depths (section_ids pre) pre
    → HasDepth depths item
    → has_parent (section_ids pre) item ≡ true
    → IsClosed depths (section_ids (pre ++ item ∷ [])) (pre ++ item ∷ [])
IsClosed-snoc depths pre item closed deep known =
    subst (λ ids. IsClosed depths ids (pre ++ item ∷ [])) (sym (section_ids-append pre (item ∷ [])))
      (All-append _ pre (item ∷ [])
        (All-map _ _ pre
          (λ x (layer, k). (layer, has_parent-append (section_ids pre) (item.id ∷ []) x k)) closed)
        ((deep, has_parent-append (section_ids pre) (item.id ∷ []) item known), tt))

-- The nodes are those of the sections, one for each, in the same order.
abbrev pub AreNodesOf :
    ℕ → String → Depths → Summaries → List SectionTreeInput → List TreeNode → Type 0
AreNodesOf paper_id model_name depths summaries [] [] = Unit
AreNodesOf paper_id model_name depths summaries (x ∷ xs) (n ∷ ns) =
    IsNodeOf paper_id model_name depths summaries x n
    × AreNodesOf paper_id model_name depths summaries xs ns
AreNodesOf paper_id model_name depths summaries _ _ = ⊥

flat_insert :
    (paper_id : ℕ) (model_name : String) (depths above : Depths) (summaries : Summaries)
    (item : SectionTreeInput) (node : TreeNode) (d : ℕ)
    → IsNodeOf paper_id model_name depths summaries item node
    → lookup item.id depths ≡ some d
    → insert item.id (min d max_tree_depth) above ≡ insert node.section_id node.depth above
flat_insert paper_id model_name depths above summaries item node d of at =
    let same : of.original_depth ≡ d = same_depth depths item.id of.original_depth d of.placed at in
    let low : min d max_tree_depth ≡ node.depth = omega (arith, of.flat) in
    ap (λ i. insert i (min d max_tree_depth) above) (sym of.anchored.1)
    ∙ ap (λ n. insert node.section_id n above) low

abbrev HasSummary : Summaries → SectionTreeInput → Type 0
HasSummary summaries x = (text : String) × (lookup x.id summaries ≡ some text)

module _ (paper_id : ℕ) (model_name : String) (depths : Depths) (summaries : Summaries)
    (ordered : List SectionTreeInput)
    (shallow : All (λ d. d < length ordered) (values depths)) where
  build_nodes_lem :
      (pre rest : List SectionTreeInput) (above : Depths)
      → pre ++ rest ≡ ordered
      → IsClosed depths (section_ids pre) pre
      → IsFlatOf depths above (section_ids pre)
      → All (HasDepth depths) rest
      → IsParentFirst (section_ids pre) rest
      → All (HasSummary summaries) rest
      → (nodes : List TreeNode) × (build_nodes paper_id model_name ordered depths summaries rest
          ≡ ok nodes)
        × AreNodesOf paper_id model_name depths summaries rest nodes
        × IsNested above nodes
  unfolding build_nodes depth_for
  build_nodes_lem pre [] above e closed flat deep parents answered = ([], refl, tt, tt)
  build_nodes_lem pre (item ∷ rest) above e closed flat ((d, h, at), deep) (known, parents)
        ((text, says), answered) =
      let small : d < length ordered = value_bound item.id d depths (length ordered) shallow at in
      let fuel : d < suc (length (pre ++ item ∷ rest)) =
        subst (λ l. d < suc (length l)) (sym e) (omega arith) in
      let (node, run, of, level) =
        build_node_lem paper_id model_name depths above summaries pre rest item d text closed flat h
          (known_of_has_parent (section_ids pre) item known) at fuel says in
      let ids = sym (section_ids-append pre (item ∷ [])) in
      let (nodes, runs, are, nested) =
        build_nodes_lem (pre ++ item ∷ []) rest (insert item.id (min d max_tree_depth) above)
          (append_assoc pre (item ∷ []) rest ∙ e)
          (IsClosed-snoc depths pre item closed (d, h, at) known)
          (subst (λ l. IsFlatOf depths (insert item.id (min d max_tree_depth) above) l) ids
            (IsFlatOf-insert depths above (section_ids pre) item.id d at flat))
          deep (subst (λ l. IsParentFirst l rest) ids parents) answered in
      let run' =
        subst (λ l. build_node paper_id model_name l depths summaries item ≡ ok node) e run in
      (
        node ∷ nodes,
        rw (run', runs) refl,
        (of, are),
        (
          level,
          omega (arith, of.flat),
          subst (λ l. IsNested l nodes)
              (flat_insert paper_id model_name depths above summaries item node d of at) nested,
        ),
      )

answered_all :
    (summaries : Summaries) (xs : List SectionTreeInput)
    → every (contains (keys summaries)) (section_ids xs) ≡ true
    → All (HasSummary summaries) xs
answered_all summaries [] h = tt
answered_all summaries (x ∷ xs) h =
    (lookup_of_contains x.id summaries (ground arith), answered_all summaries xs (ground arith))

module _ (complete : List SectionTreeInput → Option Value) (model_name : String)
    (paper : PaperTreeInput) where
  -- The exceptions that `build_tree` may raise: none is that of a missing key.
  pub data IsTreeFault : Error → Type 0 where
    bare : is_empty paper.sections ≡ true → IsTreeFault no_sections
    unordered : {e : Error} → IsFault paper.sections e → IsTreeFault e
    silent : (ordered : List SectionTreeInput) → complete ordered ≡ none → IsTreeFault model_failed
    refused : {e : Error} → IsAnswerFault e → IsTreeFault e

  -- A node for each section, nested in at most five levels, with the summary of the response.
  pub record IsTree (nodes : List TreeNode) : Type 0 where
    pub ordered : List SectionTreeInput
    pub depths : Depths
    pub placed : IsPlaced paper.sections ordered depths
    pub response : Value
    pub asked : complete ordered ≡ some response
    pub summaries : Summaries
    pub answered : IsAnswered response (section_ids ordered) summaries
    pub nodes_of : AreNodesOf paper.id model_name depths summaries ordered nodes
    pub nested : IsNested [] nodes
    pub some_section : is_empty paper.sections ≡ false

  built-IsTree :
      (ordered : List SectionTreeInput) (depths : Depths) (response : Value) (summaries : Summaries)
      → IsPlaced paper.sections ordered depths
      → complete ordered ≡ some response
      → IsAnswered response (section_ids ordered) summaries
      → is_empty paper.sections ≡ false
      → Yields IsTreeFault IsTree (build_nodes paper.id model_name ordered depths summaries ordered)
  built-IsTree ordered depths response summaries placed asked answered full =
      let (nodes, run, are, nested) =
        build_nodes_lem paper.id model_name depths summaries ordered placed.shallow [] ordered []
          refl tt tt placed.layers placed.parents
          (answered_all summaries ordered (true_of_&& _ _ answered.complete).1) in
      subst (λ r. Yields IsTreeFault IsTree r) (sym run)
        (returns (record {
          ordered = ordered;
          depths = depths;
          placed = placed;
          response = response;
          asked = asked;
          summaries = summaries;
          answered = answered;
          nodes_of = are;
          nested = nested;
          some_section = full;
        }))

  -- `build_tree` returns a tree: a node for each section in an order where parents come first, one
  -- level under its parent, in at most five levels; a section at depth 4 or less keeps its parent;
  -- its summary is cut from the model's. Or it raises because the paper has no sections, for a
  -- fault of the sections, because the model failed, or for a fault of its response. A dictionary
  -- is never asked for a key that is missing, and an ancestor to hang a node under is found.
  pub build_tree-IsTree : Yields IsTreeFault IsTree (build_tree complete model_name paper)
  unfolding build_tree
  build_tree-IsTree = elim (Bool-cases (is_empty paper.sections)) [
    | inl empty ↦ rw empty (raises (bare empty))
    | inr full ↦ rw full (
        Yields-bind _ _
          (Yields-weaken (λ e f. unordered f) (λ r p. p) (order_sections-IsPlaced paper.sections))
          λ r placed.
            Yields-bind _ _ (Yields-needed _ _ (λ q. silent r.0 q) λ response e. e)
              λ response asked.
                Yields-bind _ _
                  (Yields-weaken (λ e f. refused f) (λ s a. a)
                    (validated_summaries-IsAnswered response (section_ids r.0)))
                  λ summaries answered.
                    built-IsTree r.0 r.1 response summaries placed asked answered full)
  ]
