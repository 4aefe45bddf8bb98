-- ===== src/Retrieval/Walk/Steps.antt =====
-- What the parts of one round do to the variables of the loop.
use ai_researcher.Prelude.{
  lookup_of_contains, ℕ, suc, ◌≡◌, refl, sym, ap, ◌∙◌, inl, inr, true, some, List, [], ◌∷◌, ◌++◌,
  append_assoc, append-nil, if◌then◌else◌, nat_eq, ◌==◌, length, All, All-append, All-map, if_ind,
  contains, contains-append, Distinct, Distinct-snoc, lookup, keys, insert, ok, arith, Bool-cases,
}
use ai_researcher.Retrieval.Judgement.{Judgement, Judgements}
use ai_researcher.Retrieval.Walk.{
  TraversalNode, ExpandedNode, Walk, ids, expanded_ids, opened, record_batch, enqueue, expand_batch,
  children,
}

pub ids-append : (xs ys : List TraversalNode) → ids (xs ++ ys) ≡ ids xs ++ ids ys
ids-append [] ys = refl
ids-append (x ∷ xs) ys = ap (λ l. x.id ∷ l) (ids-append xs ys)

pub expanded_ids-append :
    (xs ys : List ExpandedNode) → expanded_ids (xs ++ ys) ≡ expanded_ids xs ++ expanded_ids ys
expanded_ids-append [] ys = refl
expanded_ids-append (x ∷ xs) ys = ap (λ l. x.node_id ∷ l) (expanded_ids-append xs ys)

pub length-expanded_ids : (xs : List ExpandedNode) → length (expanded_ids xs) ≡ length xs
length-expanded_ids [] = refl
length-expanded_ids (x ∷ xs) = ap suc (length-expanded_ids xs)

-- The opened nodes whose children the model wants to see.
abbrev pub willing : List ExpandedNode → List ℕ
willing [] = []
willing (e ∷ es) = if e.expand_children then e.node_id ∷ willing es else willing es

pub willing-append : (es fs : List ExpandedNode) → willing (es ++ fs) ≡ willing es ++ willing fs
willing-append [] fs = refl
willing-append (e ∷ es) fs = ground (arith, willing-append es fs)

-- Where the model asked for the children of a node of the batch, the node is among `willing`.
abbrev pub IsAsked : Judgements → List ℕ → TraversalNode → Type 0
IsAsked js asked n =
    (j : Judgement) → lookup n.id js ≡ some j → j.expand ≡ true → contains asked n.id ≡ true

abbrev pub IsOpened : List ExpandedNode → ℕ × (TraversalNode × Judgement) → Type 0
IsOpened es entry = contains (expanded_ids es) entry.1.0.id ≡ true

-- The nodes of a batch are opened in order, and nothing but the two lists of results changes.
pub record Recorded (P : TraversalNode → Type 0) (js : Judgements) (batch : List TraversalNode)
    (w w' : Walk) : Type 0 where
  pub fresh : List ExpandedNode
  pub expanded : w'.expanded_nodes ≡ w.expanded_nodes ++ fresh
  pub fresh_ids : expanded_ids fresh ≡ ids batch
  pub asked : All (IsAsked js (willing fresh)) batch
  pub selection :
      All (IsOpened w.expanded_nodes) w.selected → All (IsOpened w'.expanded_nodes) w'.selected
  pub members :
      All P batch → All (λ entry. P entry.1.0) w.selected → All (λ entry. P entry.1.0) w'.selected
  pub budget : w'.budget ≡ w.budget
  pub frontier : w'.frontier ≡ w.frontier
  pub queued : w'.queued_ids ≡ w.queued_ids

All-insert :
    (P : ℕ × (TraversalNode × Judgement) → Type 0) (k : ℕ) (v : TraversalNode × Judgement)
    (d : List (ℕ × (TraversalNode × Judgement)))
    → ((i : ℕ) → P (i, v))
    → All P d
    → All P (insert k v d)
All-insert P k v [] f h = (f k, tt)
All-insert P k v ((i, u) ∷ d) f h = elim (Bool-cases (i == k)) [
  | inl p ↦ rw p (f i, h.1)
  | inr p ↦ rw p (h.0, All-insert P k v d f h.1)
]

contains-expanded_left :
    (es fs : List ExpandedNode) (a : ℕ)
    → contains (expanded_ids es) a ≡ true
    → contains (expanded_ids (es ++ fs)) a ≡ true
contains-expanded_left es fs a h =
    ground (arith, expanded_ids-append es fs, contains-append (expanded_ids es) (expanded_ids fs) a)

contains-expanded_last :
    (es : List ExpandedNode) (e : ExpandedNode)
    → contains (expanded_ids (es ++ e ∷ [])) e.node_id ≡ true
contains-expanded_last [] e = ground arith
contains-expanded_last (x ∷ es) e = ground (arith, contains-expanded_last es e)

-- One turn of the first loop.
abbrev recorded_one : TraversalNode → Judgement → Walk → Walk
recorded_one node j w = record w {
  expanded_nodes = w.expanded_nodes ++ opened node j ∷ [];
  selected = if j.selected then insert node.id (node, j) w.selected else w.selected;
}

recorded_one_selection :
    (node : TraversalNode) (j : Judgement) (w : Walk)
    → All (IsOpened w.expanded_nodes) w.selected
    → All (IsOpened (recorded_one node j w).expanded_nodes) (recorded_one node j w).selected
recorded_one_selection node j w h =
    let es = w.expanded_nodes ++ opened node j ∷ [] in
    let old : All (IsOpened es) w.selected =
      All-map (IsOpened w.expanded_nodes) (IsOpened es) w.selected
        (λ entry m. contains-expanded_left w.expanded_nodes _ entry.1.0.id m) h in
    if_ind (All (IsOpened es)) j.selected
      (λ _.
        All-insert (IsOpened es) node.id (node, j) w.selected
          (λ i. contains-expanded_last w.expanded_nodes (opened node j)) old)
      (λ _. old)

recorded_one_members :
    (P : TraversalNode → Type 0) (node : TraversalNode) (j : Judgement) (w : Walk)
    → P node
    → All (λ entry. P entry.1.0) w.selected
    → All (λ entry. P entry.1.0) (recorded_one node j w).selected
recorded_one_members P node j w p h =
    if_ind (All (λ (entry : ℕ × (TraversalNode × Judgement)). P entry.1.0)) j.selected
      (λ _. All-insert (λ entry. P entry.1.0) node.id (node, j) w.selected (λ i. p) h) (λ _. h)

IsAsked-here :
    (js : Judgements) (node : TraversalNode) (j : Judgement) (fs : List ExpandedNode)
    → lookup node.id js ≡ some j
    → IsAsked js (willing (opened node j ∷ fs)) node
IsAsked-here js node j fs e i h k = ground arith

IsAsked-later :
    (js : Judgements) (e : ExpandedNode) (fs : List ExpandedNode) (n : TraversalNode)
    → IsAsked js (willing fs) n
    → IsAsked js (willing (e ∷ fs)) n
IsAsked-later js e fs n f i h k = ground (arith, f i h k)

pub record_batch_lem :
    (P : TraversalNode → Type 0) (js : Judgements) (batch : List TraversalNode) (w : Walk)
    → All (λ n. contains (keys js) n.id ≡ true) batch
    → (w' : Walk) × (record_batch js batch w ≡ ok w') × Recorded P js batch w w'
unfolding record_batch
record_batch_lem P js [] w h = (
  w,
  refl,
  record {
    fresh = [];
    expanded = sym (append-nil _);
    fresh_ids = refl;
    asked = tt;
    selection = λ s. s;
    members = λ m s. s;
    budget = refl;
    frontier = refl;
    queued = refl;
  },
)
record_batch_lem P js (node ∷ batch) w h =
    let (j, e) = lookup_of_contains node.id js h.0 in
    let (w', run, r) = record_batch_lem P js batch (recorded_one node j w) h.1 in
    (
      w',
      rw e run,
      record {
        fresh = opened node j ∷ r.fresh;
        expanded = r.expanded ∙ append_assoc w.expanded_nodes (opened node j ∷ []) r.fresh;
        fresh_ids = ap (λ l. node.id ∷ l) r.fresh_ids;
        asked = (
          IsAsked-here js node j r.fresh e,
          All-map _ _ batch (IsAsked-later js (opened node j) r.fresh) r.asked,
        );
        selection = λ s. r.selection (recorded_one_selection node j w s);
        members = λ m s. r.members m.1 (recorded_one_members P node j w m.0 s);
        budget = r.budget;
        frontier = r.frontier;
        queued = r.queued;
      },
    )

-- Nodes are appended to the frontier, each queued for the first time and each with `P`.
pub record Grown {ℓ} (P : TraversalNode → Type ℓ) (w w' : Walk) : Type ℓ where
  pub more : List TraversalNode
  pub frontier : w'.frontier ≡ w.frontier ++ more
  pub queued : w'.queued_ids ≡ w.queued_ids ++ ids more
  pub distinct : Distinct w.queued_ids → Distinct w'.queued_ids
  pub holds : All P more
  pub budget : w'.budget ≡ w.budget
  pub expanded : w'.expanded_nodes ≡ w.expanded_nodes
  pub selected : w'.selected ≡ w.selected

module _ {ℓ} (P : TraversalNode → Type ℓ) where
  pub Grown-refl : (w : Walk) → Grown P w w
  Grown-refl w = record {
    more = [];
    frontier = sym (append-nil _);
    queued = sym (append-nil _);
    distinct = λ d. d;
    holds = tt;
    budget = refl;
    expanded = refl;
    selected = refl;
  }

  pub Grown-trans : (u v w : Walk) → Grown P u v → Grown P v w → Grown P u w
  Grown-trans u v w g h = record {
    more = g.more ++ h.more;
    frontier =
        h.frontier ∙ ap (λ l. l ++ h.more) g.frontier ∙ append_assoc u.frontier g.more h.more;
    queued =
        h.queued
        ∙ ap (λ l. l ++ ids h.more) g.queued
        ∙ append_assoc u.queued_ids (ids g.more) (ids h.more)
        ∙ ap (λ l. u.queued_ids ++ l) (sym (ids-append g.more h.more));
    distinct = λ d. h.distinct (g.distinct d);
    holds = All-append P g.more h.more g.holds h.holds;
    budget = h.budget ∙ g.budget;
    expanded = h.expanded ∙ g.expanded;
    selected = h.selected ∙ g.selected;
  }

  push : TraversalNode → Walk → Walk
  push child w = if contains w.queued_ids child.id then w else record w {
    frontier = w.frontier ++ child ∷ [];
    queued_ids = w.queued_ids ++ child.id ∷ [];
  }

  push-Grown : (child : TraversalNode) (w : Walk) → P child → Grown P w (push child w)
  unfolding push
  push-Grown child w p = elim (Bool-cases (contains w.queued_ids child.id)) [
    | inl old ↦ rw old (Grown-refl w)
    | inr new ↦ rw new (record {
      more = child ∷ [];
      frontier = refl;
      queued = refl;
      distinct = λ d. Distinct-snoc w.queued_ids child.id d new;
      holds = (p, tt);
      budget = refl;
      expanded = refl;
      selected = refl;
    })
  ]

  pub enqueue-Grown :
      (batch : List TraversalNode) (w : Walk) → All P batch → Grown P w (enqueue batch w)
  unfolding enqueue push
  enqueue-Grown [] w h = Grown-refl w
  enqueue-Grown (child ∷ rest) w h =
      Grown-trans w (push child w) _ (push-Grown child w h.0)
        (enqueue-Grown rest (push child w) h.1)

module _ {ℓ} (P : TraversalNode → Type ℓ) (nodes : List TraversalNode) (js : Judgements) where
  -- `P` holds of the children of the nodes that the model wants expanded.
  pub expand_batch_lem :
      (batch : List TraversalNode) (w : Walk)
      → All (λ n. contains (keys js) n.id ≡ true) batch
      → All
          (λ n.
            (j : Judgement)
            → lookup n.id js ≡ some j
            → j.expand ≡ true
            → All P (children nodes n.id))
          batch
      → (w' : Walk) × (expand_batch nodes js batch w ≡ ok w') × Grown P w w'
  unfolding expand_batch
  expand_batch_lem [] w h k = (w, refl, Grown-refl P w)
  expand_batch_lem (node ∷ batch) w h k =
      let (j, e) = lookup_of_contains node.id js h.0 in
      let w₁ : Walk = if j.expand then enqueue (children nodes node.id) w else w in
      let first : Grown P w w₁ = elim (Bool-cases j.expand) [
        | inl p ↦ rw p (enqueue-Grown P (children nodes node.id) w (k.0 j e p))
        | inr p ↦ rw p (Grown-refl P w)
      ] in
      let (w', run, g) = expand_batch_lem batch w₁ h.1 k.1 in
      (w', rw e run, Grown-trans P w w₁ w' first g)
