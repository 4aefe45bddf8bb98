-- ===== src/Trees/Index/Keeping.antt =====
-- What a turn of the loop of `index_scope` leaves of the other papers' trees, and of current ones.
use ai_researcher.Prelude.{
  map, ℕ, suc, ◌+◌, ◌≤◌, ◌≡◌, refl, sym, ap, subst, ◌∙◌, ◌⊎◌, inl, inr, String, true, List,
  if◌then◌else◌, nat_eq, string_eq, ◌==◌, eq_of_beq, length, select, All, Bool-cases, arith,
}
use ai_researcher.Tables.{PaperRow, SectionRow}
use ai_researcher.Trees.Build.{TreeRow}
use ai_researcher.Trees.Index.{
  IndexStore, Gateway, Outcome, built, skipped, failed, IndexResult, tally, tree_rows, section_rows,
  is_current_version, version_rows, paper_tree_is_current, index_paper,
}
use ai_researcher.Trees.Index.Loading.{sections_of}
use ai_researcher.Trees.Index.Turns.{HasTree, HasEnded, IsTurn}

-- The identifier is the key of the table.
abbrev pub IsKey : PaperRow → List PaperRow → Type 0
IsKey q papers = All (λ (p : PaperRow). p.id ≡ q.id → p ≡ q) papers

abbrev pub AreKeyed : List PaperRow → Type 0
AreKeyed papers = All (λ q. IsKey q papers) papers

module _ (model_name : String) where
  abbrev pub IsCurrent : PaperRow → IndexStore → Type 0
  IsCurrent q store = paper_tree_is_current model_name q store ≡ true

  same-IsCurrent :
      (q : PaperRow) (old new : IndexStore)
      → tree_rows q.id new ≡ tree_rows q.id old
      → section_rows q.id new ≡ section_rows q.id old
      → IsCurrent q old
      → IsCurrent q new
  unfolding paper_tree_is_current
  same-IsCurrent q old new t s h =
      ap
        (λ l.
          is_current_version (version_rows l)
            (if q.parse_status == "parsed" then length (section_rows q.id new) else 1) model_name)
        t
      ∙ ap
          (λ (l : List SectionRow).
            is_current_version (version_rows (tree_rows q.id old))
              (if q.parse_status == "parsed" then length l else 1) model_name)
          s
      ∙ h

-- The tree and the sections of the paper have stayed.
abbrev pub HasSameRows : PaperRow → IndexStore → IndexStore → Type 0
HasSameRows q old new =
    (tree_rows q.id new ≡ tree_rows q.id old) × (section_rows q.id new ≡ section_rows q.id old)

module _ (ask : Gateway) (model_name : String) where
  -- No turn makes a current tree stale, or replaces it.
  pub turn_keeps :
      (p q : PaperRow) (old : IndexStore) (r : Outcome × IndexStore)
      → IsTurn ask model_name p old r
      → (p.id ≡ q.id → p ≡ q)
      → IsCurrent model_name q old
      → IsCurrent model_name q r.1 × HasSameRows q old r.1
  turn_keeps p q old r turn key current = elim (Bool-cases (p.id == q.id)) [
    | inr apart ↦ (
      same-IsCurrent model_name q old r.1 (turn.same_tree q.id apart)
          (turn.same_sections q.id apart) current,
      (turn.same_tree q.id apart, turn.same_sections q.id apart),
    )
    | inl same ↦
        let e = key (eq_of_beq p.id q.id same) in
        let was : IsCurrent model_name p old =
          subst (λ x. IsCurrent model_name x old) (sym e) current in
        go r.0 turn.ended was
  ]
    where
      go :
          (o : Outcome)
          → HasEnded ask model_name p old r.1 o
          → IsCurrent model_name p old
          → IsCurrent model_name q r.1 × HasSameRows q old r.1
      go built (stale, now, tree) was = cc
      go skipped (_, still) was = (
        subst (λ s. IsCurrent model_name q s) (sym still) current,
        (ap (λ s. tree_rows q.id s) still, ap (λ s. section_rows q.id s) still),
      )
      go failed (stale, tree) was = cc

  -- The rows are a current tree that a turn has built.
  abbrev pub HasBuilt : PaperRow → IndexStore → Type 0
  HasBuilt q store = IsCurrent model_name q store × HasTree ask model_name q store

  -- The rows have stayed.
  pub same-HasTree :
      (q : PaperRow) (old new : IndexStore)
      → HasSameRows q old new
      → HasTree ask model_name q old
      → HasTree ask model_name q new
  same-HasTree q old new (same, sections) (turn, input, nodes, named, reads, tree, rows) = (
    turn,
    input,
    nodes,
    named,
    reads ∙ ap (λ l. sections_of q l) (sym sections),
    tree,
    ap (map (λ r. r.node)) same ∙ rows,
  )

  -- A turn for the paper makes its tree current, or leaves it.
  own_turn :
      (p : PaperRow) (old : IndexStore) (r : Outcome × IndexStore)
      → IsTurn ask model_name p old r
      → (HasBuilt p r.1) ⊎ (tree_rows p.id r.1 ≡ tree_rows p.id old)
  own_turn p old r turn = go r.0 turn.ended
    where
      go :
          (o : Outcome)
          → HasEnded ask model_name p old r.1 o
          → (HasBuilt p r.1) ⊎ (tree_rows p.id r.1 ≡ tree_rows p.id old)
      go built (stale, now, tree) = inl (now, tree)
      go skipped (was, still) = inr (ap (λ s. tree_rows p.id s) still)
      go failed (stale, tree) =
          inr (ap (λ t. select (λ (x : TreeRow). x.node.paper_id == p.id) t.rows) tree)

  pub turn_atomic :
      (p q : PaperRow) (old : IndexStore) (r : Outcome × IndexStore)
      → IsTurn ask model_name p old r
      → (p.id ≡ q.id → p ≡ q)
      → (HasBuilt q r.1) ⊎ (tree_rows q.id r.1 ≡ tree_rows q.id old)
  turn_atomic p q old r turn key = elim (Bool-cases (p.id == q.id)) [
    | inr apart ↦ inr (turn.same_tree q.id apart)
    | inl same ↦
        subst (λ (x : PaperRow). (HasBuilt x r.1) ⊎ (tree_rows x.id r.1 ≡ tree_rows x.id old))
          (key (eq_of_beq p.id q.id same)) (own_turn p old r turn)
  ]

  pub not_failed :
      (p : PaperRow) (old new : IndexStore) (o : Outcome) (r : IndexResult)
      → HasEnded ask model_name p old new o
      → (tally o r).failed ≤ r.failed
      → IsCurrent model_name p new
  not_failed p old new built r (stale, now, tree) h = now
  not_failed p old new skipped r (was, still) h =
      subst (λ s. IsCurrent model_name p s) (sym still) was
  not_failed p old new failed r ended h = absurd (omega arith)

  -- A paper whose tree is current is skipped.
  pub skip_lem :
      (turn : ℕ) (p : PaperRow) (store : IndexStore)
      → IsCurrent model_name p store
      → index_paper ask model_name turn p store ≡ (skipped, store)
  unfolding index_paper
  skip_lem turn p store h = rw h refl

abbrev pub total : IndexResult → ℕ
total r = r.built + r.skipped + r.failed

pub tally_lem : (o : Outcome) (r : IndexResult) → total (tally o r) ≡ suc (total r)
tally_lem built r = omega arith
tally_lem skipped r = omega arith
tally_lem failed r = omega arith

pub tally_grows : (o : Outcome) (r : IndexResult) → r.failed ≤ (tally o r).failed
tally_grows built r = omega arith
tally_grows skipped r = omega arith
tally_grows failed r = omega arith
