-- ===== src/Trees/Index/Settled.antt =====
-- A run of `index_scope`, and the run after it.
use ai_researcher.Prelude.{
  ℕ, suc, ◌+◌, ◌≤◌, ◌≡◌, refl, ap, ◌∙◌, ◌⊎◌, inl, inr, String, true, some, List, [], ◌∷◌, nat_eq,
  string_eq, length, lookup, All, All-map, All_intro, All-select, All-sort, none, ok, Yields,
  returns, Yields-needed, Yields-bind, Yields-ok, true_of_&&, arith,
}
use ai_researcher.Tables.{PaperRow, PaperScopeRow}
use ai_researcher.Trees.Errors.{Error, unknown_scope}
use ai_researcher.Trees.Index.{
  IndexStore, Gateway, Outcome, IndexResult, tally, tree_rows, is_eligible, index_paper,
  index_papers, eligible_papers, index_scope, skipped,
}
use ai_researcher.Trees.Index.Loading.{HasSameTables}
use ai_researcher.Trees.Index.Turns.{IsTurn, index_paper-IsTurn}
use ai_researcher.Trees.Index.Keeping.{
  IsKey, AreKeyed, IsCurrent, HasBuilt, HasSameRows, same-HasTree, turn_keeps, turn_atomic,
  not_failed, skip_lem, total, tally_lem, tally_grows,
}

module _ (ask : Gateway) (model_name : String) where
  -- The loop, for papers that are eligible.
  record IsRun (papers : List PaperRow) (r : IndexResult) (old : IndexStore)
      (end : IndexResult × IndexStore) : Type 0 where
    counted : total end.0 ≡ total r + length papers
    grown : r.failed ≤ end.0.failed
    same_tables : HasSameTables old end.1
    keeps :
        (q : PaperRow)
        → IsKey q papers
        → IsCurrent model_name q old
        → IsCurrent model_name q end.1 × HasSameRows q old end.1
    atomic :
        (q : PaperRow)
        → IsKey q papers
        → (HasBuilt ask model_name q end.1) ⊎ (tree_rows q.id end.1 ≡ tree_rows q.id old)
    settled :
        end.0.failed ≤ r.failed → AreKeyed papers → All (λ p. IsCurrent model_name p end.1) papers

  both_tables : (a b c : IndexStore) → HasSameTables a b → HasSameTables b c → HasSameTables a c
  both_tables a b c h k = record {
    scopes = k.scopes ∙ h.scopes;
    paper_scopes = k.paper_scopes ∙ h.paper_scopes;
    papers = k.papers ∙ h.papers;
  }

  then-IsRun :
      (p : PaperRow) (papers : List PaperRow) (r : IndexResult) (old : IndexStore)
      (step : Outcome × IndexStore) (end : IndexResult × IndexStore)
      → IsTurn ask model_name p old step
      → IsRun papers (tally step.0 r) step.1 end
      → IsRun (p ∷ papers) r old end
  then-IsRun p papers r old step end turn run = record {
    counted = omega (arith, run.counted, tally_lem step.0 r);
    grown = omega (arith, run.grown, tally_grows step.0 r);
    same_tables = both_tables old step.1 end.1 turn.same_tables run.same_tables;
    keeps = λ q key current.
        let (still, kept) = turn_keeps ask model_name p q old step turn key.0 current in
        let (now, same) = run.keeps q key.1 still in (now, (same.0 ∙ kept.0, same.1 ∙ kept.1));
    atomic = λ q key. elim (run.atomic q key.1) [
      | inl now ↦ inl now
      | inr same ↦ elim (turn_atomic ask model_name p q old step turn key.0) [
        | inl (now, tree) ↦
            let (later, rows) = run.keeps q key.1 now in
            inl (later, same-HasTree ask model_name q step.1 end.1 rows tree)
        | inr kept ↦ inr (same ∙ kept)
      ]
    ];
    settled = λ none_failed keyed. (
      (run.keeps p keyed.0.1 (
          not_failed ask model_name p old step.1 step.0 r turn.ended
            (omega (arith, none_failed, run.grown)))).0,
      run.settled (omega (arith, none_failed, tally_grows step.0 r))
          (All-map _ _ papers (λ q key. key.1) keyed.1),
    );
  }

  index_papers-IsRun :
      (turn : ℕ) (papers : List PaperRow) (r : IndexResult) (old : IndexStore)
      → All (λ p. is_eligible p ≡ true) papers
      → IsRun papers r old (index_papers ask model_name turn papers r old)
  unfolding index_papers
  index_papers-IsRun turn [] r old h = record {
    counted = omega arith;
    grown = omega arith;
    same_tables = record { scopes = refl; paper_scopes = refl; papers = refl };
    keeps = λ q key current. (current, (refl, refl));
    atomic = λ q key. inr refl;
    settled = λ none_failed keyed. tt;
  }
  index_papers-IsRun turn (p ∷ papers) r old h =
      let step = index_paper ask model_name turn p old in
      then-IsRun p papers r old step _ (index_paper-IsTurn ask model_name turn p old h.0)
        (index_papers-IsRun (suc turn) papers (tally step.0 r) step.1 h.1)

  -- Papers whose trees are current are skipped.
  skip_all :
      (turn : ℕ) (papers : List PaperRow) (r : IndexResult) (store : IndexStore)
      → All (λ p. IsCurrent model_name p store) papers
      → index_papers ask model_name turn papers r store
        ≡ (record r { skipped = r.skipped + length papers }, store)
  unfolding index_papers
  skip_all turn [] r store h = ap (λ n. (record r { skipped = n }, store)) (omega arith)
  skip_all turn (p ∷ papers) r store h =
      ap
        (λ (s : Outcome × IndexStore).
          index_papers ask model_name (suc turn) papers (tally s.0 r) s.1)
        (skip_lem ask model_name turn p store h.0)
      ∙ skip_all (suc turn) papers (tally skipped r) store h.1
      ∙ ap (λ n. (record r { skipped = n }, store)) (omega arith)

module _ (scope_id : ℕ) (paper_scopes : List PaperScopeRow) (papers : List PaperRow) where
  -- What holds of every paper holds of the eligible ones.
  eligible_all :
      (P : PaperRow → Type 0)
      → All P papers
      → All (λ p. (is_eligible p ≡ true) × P p) (eligible_papers scope_id paper_scopes papers)
  unfolding eligible_papers
  eligible_all P h =
      All-sort _ _ _ (
        All-map _ _ _ (λ p k. ((true_of_&& (is_eligible p) _ k.0).0, k.1))
          (All-select P _ papers h))

  eligible-AreKeyed : AreKeyed papers → AreKeyed (eligible_papers scope_id paper_scopes papers)
  eligible-AreKeyed keyed =
      All-map _ _ _ (λ q k. k.1)
        (eligible_all _ (
          All-map _ _ papers
            (λ q key. All-map _ _ _ (λ p k. k.1) (eligible_all (λ p. p.id ≡ q.id → p ≡ q) key))
            keyed))

  eligible_only : All (λ p. is_eligible p ≡ true) (eligible_papers scope_id paper_scopes papers)
  eligible_only =
      All-map _ _ _ (λ p k. k.0) (eligible_all (λ p. Unit {0}) (All_intro _ papers λ p. tt))

abbrev pub papers_of : ℕ → IndexStore → List PaperRow
papers_of scope_id store = eligible_papers scope_id store.paper_scopes store.papers

-- What a run has done.
pub record IsIndexed (ask : Gateway) (model_name scope_name : String) (old : IndexStore)
    (end : IndexResult × IndexStore) : Type 0 where
  pub scope_id : ℕ
  pub named : lookup scope_name old.scopes ≡ some scope_id
  pub counted : end.0.built + end.0.skipped + end.0.failed ≡ length (papers_of scope_id old)
  pub same_tables : HasSameTables old end.1
  pub atomic :
      All
        (λ q. (HasBuilt ask model_name q end.1) ⊎ (tree_rows q.id end.1 ≡ tree_rows q.id old))
        old.papers
  pub keeps :
      All
        (λ q. IsCurrent model_name q old → IsCurrent model_name q end.1 × HasSameRows q old end.1)
        old.papers
  pub settled : end.0.failed ≡ 0 → All (λ p. IsCurrent model_name p end.1) (papers_of scope_id old)

abbrev no_results : IndexResult
no_results = record { built = 0; skipped = 0; failed = 0 }

run-IsIndexed :
    (ask : Gateway) (model_name scope_name : String) (store : IndexStore) (scope_id : ℕ)
    → AreKeyed store.papers
    → lookup scope_name store.scopes ≡ some scope_id
    → IsIndexed ask model_name scope_name store
        (index_papers ask model_name 0 (papers_of scope_id store) no_results store)
run-IsIndexed ask model_name scope_name store scope_id keyed named =
    let run =
      index_papers-IsRun ask model_name 0 (papers_of scope_id store) no_results store
        (eligible_only scope_id store.paper_scopes store.papers) in
    let among : (q : PaperRow) → IsKey q store.papers → IsKey q (papers_of scope_id store) =
      λ q key.
        All-map _ _ _ (λ p k. k.1)
          (eligible_all scope_id store.paper_scopes store.papers (λ p. p.id ≡ q.id → p ≡ q) key) in
    record {
      scope_id = scope_id;
      named = named;
      counted = omega (arith, run.counted);
      same_tables = run.same_tables;
      atomic = All-map _ _ store.papers (λ q key. run.atomic q (among q key)) keyed;
      keeps = All-map _ _ store.papers (λ q key. run.keeps q (among q key)) keyed;
      settled = λ e.
          run.settled (omega arith)
            (eligible-AreKeyed scope_id store.paper_scopes store.papers keyed);
    }

pub data IsUnknown (scope_name : String) (store : IndexStore) : Error → Type 0 where
  unknown : lookup scope_name store.scopes ≡ none → IsUnknown scope_name store unknown_scope

-- `index_scope` raises only for an unknown scope. Where the identifier of a paper is a key, the
-- numbers of papers that are built, skipped and failed add up to the papers of the scope that are
-- parsed or have an abstract only. Afterwards the rows of a paper are a current tree of its stored
-- sections, as `build_tree` returns it, or those of before; a tree that was current is still the
-- same and current; and when no paper failed, the tree of each counted paper is current.
pub index_scope-IsIndexed :
    (ask : Gateway) (model_name scope_name : String) (store : IndexStore)
    → AreKeyed store.papers
    → Yields
        (IsUnknown scope_name store)
        (IsIndexed ask model_name scope_name store)
        (index_scope ask model_name scope_name store)
unfolding index_scope
index_scope-IsIndexed ask model_name scope_name store keyed =
    Yields-bind _ _ (Yields-needed _ _ (λ e. unknown e) λ scope_id e. e)
      λ scope_id named. returns (run-IsIndexed ask model_name scope_name store scope_id keyed named)

-- One run of `index_scope` in which no paper fails is enough: the next run with the same model name
-- skips every paper and changes no table, whatever the model would answer then. The
-- identifier of a paper is a key.
pub index_scope-settles :
    (ask later : Gateway) (model_name scope_name : String) (store : IndexStore)
    (end : IndexResult × IndexStore)
    → AreKeyed store.papers
    → index_scope ask model_name scope_name store ≡ ok end
    → end.0.failed ≡ 0
    → index_scope later model_name scope_name end.1
      ≡ ok (record { built = 0; skipped = end.0.built + end.0.skipped; failed = 0 }, end.1)
unfolding index_scope
index_scope-settles ask later model_name scope_name store end keyed run done =
    let indexed = Yields-ok (index_scope-IsIndexed ask model_name scope_name store keyed) run in
    let same = indexed.same_tables in
    let papers : papers_of indexed.scope_id end.1 ≡ papers_of indexed.scope_id store =
      ap (λ l. eligible_papers indexed.scope_id l end.1.papers) same.paper_scopes
      ∙ ap (λ l. eligible_papers indexed.scope_id store.paper_scopes l) same.papers in
    let named : lookup scope_name end.1.scopes ≡ some indexed.scope_id =
      ap (λ (l : List (String × ℕ)). lookup scope_name l) same.scopes ∙ indexed.named in
    rw named (
      ap ok (
        ap (λ l. index_papers later model_name 0 l no_results end.1) papers
        ∙ skip_all later model_name 0 (papers_of indexed.scope_id store) no_results end.1
            (indexed.settled done)
        ∙ ap (λ n. (record { built = 0; skipped = n; failed = 0 }, end.1))
            (omega (arith, indexed.counted, done))))
