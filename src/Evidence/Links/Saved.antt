-- ===== src/Evidence/Links/Saved.antt =====
-- What `save_links` leaves in the table.
use ai_researcher.Prelude.{
  ℕ, ◌≡◌, refl, sym, ap, subst, inl, inr, true, false, not, List, [], ◌∷◌, select, nat_eq,
  string_eq, ◌==◌, beq_self, eq_of_beq, contains, Distinct, insert, All, All-map, All-insert,
  All-select, All-both, All_intro, Exists-self, Exists, Exists-weaken, Exists-select, Bool-cases,
  if_ind, arith,
}
use ai_researcher.Tables.{EvidenceRow}
use ai_researcher.Evidence.Links.{
  ClaimEvidence, EvidenceTable, linked_nodes, existing_by_node, is_stale, save_links,
}
use ai_researcher.Evidence.Links.Stores.{Stores, row_ids, IsKeyed, of_other, All_of_reverse}
use ai_researcher.Evidence.Links.Saving.{IsEntry, IsSaving, save_all-IsSaving}

-- The table holds the links of the claim, no other row of the claim, and the other rows as before.
pub record IsReconciled (claim_id : ℕ) (links : List ClaimEvidence) (before after : EvidenceTable)
    : Type 0 where
  pub others : select (of_other claim_id) after.rows ≡ select (of_other claim_id) before.rows
  pub linked :
      All
        (λ r. r.claim_id ≡ claim_id → contains (linked_nodes links) r.tree_node_id ≡ true)
        after.rows
  pub stored : All (λ l. Exists (Stores l) after.rows) links

no_row :
    (i : ℕ) (rows : List EvidenceRow)
    → contains (row_ids rows) i ≡ false
    → All (λ x. ¬ (i ≡ x.id)) rows
no_row i [] h = tt
no_row i (x ∷ rows) h = (λ q. ground (arith, beq_self i), no_row i rows (ground arith))

-- A row is the only one with its identifier.
pub only_row :
    (rows : List EvidenceRow)
    → Distinct (row_ids rows)
    → All (λ r. All (λ x. x.id ≡ r.id → x ≡ r) rows) rows
only_row [] d = tt
only_row (r ∷ rows) d = (
  (λ _. refl, All-map _ _ rows (λ x h q. absurd (h (sym q))) (no_row r.id rows d.0)),
  All-map _ _ rows (λ x both. (λ q. absurd (both.0 q), both.1))
      (All-both _ _ rows (no_row r.id rows d.0) (only_row rows d.1)),
)

existing_by_node-All :
    (P : ℕ → EvidenceRow → Type 0) (d : List (ℕ × EvidenceRow)) (rows : List EvidenceRow)
    → All (λ r. P r.tree_node_id r) rows
    → All (λ e. P e.0 e.1) d
    → All (λ e. P e.0 e.1) (existing_by_node d rows)
unfolding existing_by_node
existing_by_node-All P d [] h k = k
existing_by_node-All P d (r ∷ rows) h k =
    existing_by_node-All P (insert r.tree_node_id r d) rows h.1
      (All-insert _ r.tree_node_id r d h.0 k)

select_others :
    (cid : ℕ) (links : List ClaimEvidence) (rows : List EvidenceRow)
    → select (of_other cid) (select (λ r. not (is_stale cid links r)) rows)
      ≡ select (of_other cid) rows
unfolding is_stale
select_others cid links [] = refl
select_others cid links (r ∷ rows) =
    let ih = select_others cid links rows in
    elim (Bool-cases (r.claim_id == cid)) [
      | inr other ↦ rw (other, other) (ap (λ l. r ∷ l) ih)
      | inl own ↦ rw own (
          if_ind (λ l. select (of_other cid) l ≡ select (of_other cid) rows)
            (not (not (contains (linked_nodes links) r.tree_node_id))) (λ _. rw own ih) (λ _. ih))
    ]

All_nodes :
    (links : List ClaimEvidence)
    → All (λ l. contains (linked_nodes links) l.tree_node_id ≡ true) links
All_nodes [] = tt
All_nodes (l ∷ links) = (
  ground (arith, beq_self l.tree_node_id),
  All-map _ _ links (λ x h. ground arith) (All_nodes links),
)

-- `save_links` leaves the rows of other claims as they were, has a row for every link with the
-- link's node, paper, stance, quote and directness, and no row of the claim for another node; for
-- links of the claim to distinct nodes, in a table whose identifiers are distinct and below the
-- next one.
pub save_links-IsReconciled :
    (claim_id : ℕ) (links : List ClaimEvidence) (t : EvidenceTable)
    → IsKeyed t
    → All (λ l. l.claim_id ≡ claim_id) links
    → Distinct (linked_nodes links)
    → IsReconciled claim_id links t (save_links claim_id links t)
unfolding save_links is_stale
save_links-IsReconciled claim_id links t keyed ours once =
    let fresh = λ (r : EvidenceRow). not (is_stale claim_id links r) in
    let kept = record t { rows = select fresh t.rows } in
    let own = λ (r : EvidenceRow). r.claim_id == claim_id in
    let existing = existing_by_node [] (select own t.rows) in
    let facts = All-select _ own t.rows (
      All-both _ _ t.rows (Exists-self t.rows)
        (All-both _ _ t.rows (only_row t.rows keyed.distinct) keyed.below)) in
    let start : IsSaving claim_id links existing (select (of_other claim_id) t.rows) [] links kept =
      record {
        others = select_others claim_id links t.rows;
        entries =
            existing_by_node-All
              (IsEntry claim_id links existing (select (of_other claim_id) t.rows) links kept) []
              (select own t.rows)
              (All-map _ _ (select own t.rows)
                (λ r h. record {
                  node = refl;
                  claim = eq_of_beq r.claim_id claim_id h.0;
                  below = h.1.1.1;
                  sole =
                      All-map _ _ (select fresh t.rows)
                        (λ x k q.
                          subst (λ y. (y.claim_id ≡ claim_id) × (y.tree_node_id ≡ r.tree_node_id))
                            (sym (k.1 q)) (eq_of_beq r.claim_id claim_id h.0, refl))
                        (All-select _ fresh t.rows h.1.1.0);
                  present = λ q. Exists-select _ fresh t.rows (
                      Exists-weaken _ _ t.rows
                        (λ x same. (subst (λ y. fresh y ≡ true) (sym same) (ground arith), same))
                        h.1.0);
                })
                facts)
              tt;
        linked =
            All-map _ _ (select fresh t.rows) (λ r h q. ground (arith, h.0, q, beq_self claim_id))
              (All-select (λ _. Unit {0}) fresh t.rows (All_intro _ t.rows (λ r. tt)));
        stored = tt;
        apart = tt;
        distinct = once;
        ours = All-both _ _ links ours (All_nodes links);
      } in
    let ended =
      save_all-IsSaving claim_id links existing (select (of_other claim_id) t.rows) [] links kept
        start in
    record {
      others = ended.others;
      linked = ended.linked;
      stored = (All_of_reverse _ links [] ended.stored).0;
    }
