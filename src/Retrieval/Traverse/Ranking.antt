-- ===== src/Retrieval/Traverse/Ranking.antt =====
-- The selected nodes are ranked by relevance, the earlier opened first among equals.
use mathlib.Core.List.{Mem}
use ai_researcher.Prelude.{
  ℕ, suc, ◌≡◌, refl, inl, inr, Bool, true, false, Option, none, some, List, [], ◌∷◌, map, leb,
  nat_eq, ◌==◌, All, All_map_intro, contains, sort, IsSorted, sort-IsSorted, map-IsSorted, All-sort,
  ok, Bool-cases, arith,
}
use ai_researcher.Retrieval.Judgement.{Judgement}
use ai_researcher.Retrieval.Walk.{TraversalNode, ExpandedNode, expanded_ids}
use ai_researcher.Retrieval.Walk.Steps.{IsOpened}
use ai_researcher.Retrieval.Traverse.{
  Ranking, RankedNode, before, ranked_node, expansion_index, rankings,
}

expansion_index_of_contains :
    (k : ℕ) (es : List ExpandedNode)
    → contains (expanded_ids es) k ≡ true
    → (i : ℕ) × (expansion_index k es ≡ some i)
unfolding expansion_index
expansion_index_of_contains k [] h = cc
expansion_index_of_contains k (e ∷ es) h = elim (Bool-cases (contains (expanded_ids es) k)) [
  | inl later ↦ let (i, p) = expansion_index_of_contains k es later in (suc i, rw p)
  | inr last ↦ here (expansion_index k es) refl (ground arith)
]
  where
    here :
        (o : Option ℕ)
        → expansion_index k es ≡ o
        → (e.node_id == k) ≡ true
        → (i : ℕ) × (expansion_index k (e ∷ es) ≡ some i)
    here none q m = (0, rw q (rw m))
    here (some i) q m = (suc i, rw q)

abbrev IsPlaced : List TraversalNode → List ExpandedNode → Ranking → Type 0
IsPlaced nodes es r = (contains (expanded_ids es) r.1.0.id ≡ true) × Mem r.1.0 nodes

-- Every selected pair has been opened, so that the ranking meets no missing key.
pub rankings_total :
    (nodes : List TraversalNode) (es : List ExpandedNode)
    (selected : List (ℕ × (TraversalNode × Judgement)))
    → All (IsOpened es) selected
    → All (λ entry. Mem entry.1.0 nodes) selected
    → (rs : List Ranking) × (rankings es selected ≡ ok rs) × All (IsPlaced nodes es) rs
unfolding rankings
rankings_total nodes es [] h m = ([], refl, tt)
rankings_total nodes es ((k, (node, judgement)) ∷ selected) h m =
    let (i, p) = expansion_index_of_contains node.id es h.0 in
    let (rs, q, placed) = rankings_total nodes es selected h.1 m.1 in
    ((i, (node, judgement)) ∷ rs, rw (p, q), ((h.0, m.0), placed))

before_total : (p q : Ranking) → before p q ≡ false → before q p ≡ true
before_total p q h = ground arith

before_trans : (p q r : Ranking) → before p q ≡ true → before q r ≡ true → before p r ≡ true
before_trans p q r h k = ground arith

abbrev pub more_relevant : RankedNode → RankedNode → Bool
more_relevant a b = leb b.relevance a.relevance

pub ranked-IsSorted :
    (rs : List Ranking) → IsSorted more_relevant (map ranked_node (sort before rs))
ranked-IsSorted rs =
    map-IsSorted before more_relevant ranked_node (sort before rs) (λ p q h. ground arith)
      (sort-IsSorted before before_total before_trans rs)

pub ranked-opened :
    (nodes : List TraversalNode) (es : List ExpandedNode) (rs : List Ranking)
    → All (IsPlaced nodes es) rs
    → All (λ r. contains (expanded_ids es) r.node_id ≡ true) (map ranked_node (sort before rs))
ranked-opened nodes es rs h =
    All_map_intro (IsPlaced nodes es) _ ranked_node (sort before rs) (λ r m. m.0)
      (All-sort before _ rs h)

-- The evidence is the passage of a node.
pub record IsPassageOf (n : TraversalNode) (r : RankedNode) : Type 0 where
  pub same_id : r.node_id ≡ n.id
  pub same_paper : r.paper_id ≡ n.paper_id
  pub same_path : r.section_path ≡ n.section_path
  pub same_text : (r.title ≡ n.title) × (r.summary ≡ n.summary)
  pub same_pages : (r.page_start ≡ n.page_start) × (r.page_end ≡ n.page_end)

abbrev pub IsPassage : List TraversalNode → RankedNode → Type 0
IsPassage nodes r = (n : TraversalNode) × Mem n nodes × IsPassageOf n r

pub ranked-IsPassage :
    (nodes : List TraversalNode) (es : List ExpandedNode) (rs : List Ranking)
    → All (IsPlaced nodes es) rs
    → All (IsPassage nodes) (map ranked_node (sort before rs))
ranked-IsPassage nodes es rs h =
    All_map_intro (IsPlaced nodes es) _ ranked_node (sort before rs)
      (λ r m. (
        r.1.0,
        m.1,
        record {
          same_id = refl;
          same_paper = refl;
          same_path = refl;
          same_text = (refl, refl);
          same_pages = (refl, refl);
        },
      ))
      (All-sort before _ rs h)
