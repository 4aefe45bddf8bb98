-- ===== src/Evidence/Links/Saving.antt =====
-- The loop of `save_links` over the links.
use ai_researcher.Prelude.{
  ℕ, ◌+◌, ◌<◌, ◌≡◌, refl, sym, ap, subst, ◌∙◌, inl, inr, true, false, Option, none, some, List, [],
  ◌∷◌, ◌++◌, append-nil, map, select, nat_eq, string_eq, ◌==◌, beq_self, eq_of_beq, contains,
  Distinct, lookup, All, All-append, All-map, All_map_intro, All-lookup, All-both, Exists,
  Exists-weaken, Exists-left, Exists-right, Exists-map, Exists-both, select-append, Bool-cases,
  if_ind, if◌then◌else◌, arith,
}
use ai_researcher.Tables.{EvidenceRow}
use ai_researcher.Evidence.Links.{
  ClaimEvidence, EvidenceTable, linked_nodes, is_unchanged, with_values, update_row, new_row,
  save_link, save_all,
}
use ai_researcher.Evidence.Links.Stores.{
  Stores, unchanged-Stores, with_values-Stores, of_other, reverse_onto, apart_node,
}

module _ (cid : ℕ) (all : List ClaimEvidence) (existing : List (ℕ × EvidenceRow))
    (base : List EvidenceRow) where
  -- An entry of `existing_by_node`, against the rows: its row is the only one with its identifier,
  -- and it is there as it was as long as its link is to come.
  pub record IsEntry (todo : List ClaimEvidence) (t : EvidenceTable) (k : ℕ) (r : EvidenceRow)
      : Type 0 where
    pub node : r.tree_node_id ≡ k
    pub claim : r.claim_id ≡ cid
    pub below : r.id < t.next_id
    pub sole : All (λ x. x.id ≡ r.id → (x.claim_id ≡ cid) × (x.tree_node_id ≡ k)) t.rows
    pub present : contains (linked_nodes todo) k ≡ true → Exists (λ x. x ≡ r) t.rows

  pub record IsSaving (done todo : List ClaimEvidence) (t : EvidenceTable) : Type 0 where
    pub others : select (of_other cid) t.rows ≡ base
    pub entries : All (λ e. IsEntry todo t e.0 e.1) existing
    pub linked :
        All (λ x. x.claim_id ≡ cid → contains (linked_nodes all) x.tree_node_id ≡ true) t.rows
    pub stored : All (λ l. Exists (Stores l) t.rows) done
    pub apart : All (λ l. contains (linked_nodes todo) l.tree_node_id ≡ false) done
    pub distinct : Distinct (linked_nodes todo)
    pub ours :
        All (λ l. (l.claim_id ≡ cid) × (contains (linked_nodes all) l.tree_node_id ≡ true)) todo

  pub other_none : (l : ClaimEvidence) (r : EvidenceRow) → r.claim_id ≡ cid → of_other cid r ≡ false
  other_none l r h = ground (arith, beq_self cid)

  pub insert-IsSaving :
      (done todo : List ClaimEvidence) (l : ClaimEvidence) (t : EvidenceTable)
      → IsSaving done (l ∷ todo) t
      → IsSaving
          (l ∷ done)
          todo
          (record t { rows = t.rows ++ new_row l t.next_id t.now ∷ []; next_id = t.next_id + 1 })
  insert-IsSaving done todo l t h =
      let fresh = new_row l t.next_id t.now in
      record {
        others =
            select-append (of_other cid) t.rows (fresh ∷ [])
            ∙ rw (other_none l fresh h.ours.0.0) (append-nil (select (of_other cid) t.rows))
            ∙ h.others;
        entries =
            All-map _ _ existing
              (λ e k. record {
                node = k.node;
                claim = k.claim;
                below = (let b = k.below in omega arith);
                sole =
                    All-append _ t.rows (fresh ∷ []) k.sole
                      (λ q. (let b = k.below in absurd (omega arith)), tt);
                present = λ q. Exists-left _ t.rows (fresh ∷ []) (k.present (ground arith));
              })
              h.entries;
        linked = All-append _ t.rows (fresh ∷ []) h.linked (λ _. h.ours.0.1, tt);
        stored = (
          Exists-right (Stores l) t.rows (fresh ∷ []) (inl (with_values-Stores l fresh)),
          All-map _ _ done (λ d e. Exists-left (Stores d) t.rows (fresh ∷ []) e) h.stored,
        );
        apart = (h.distinct.0, All-map _ _ done (λ d q. ground arith) h.apart);
        distinct = h.distinct.1;
        ours = h.ours.1;
      }

  pub keep-IsSaving :
      (done todo : List ClaimEvidence) (l : ClaimEvidence) (t : EvidenceTable)
      → Exists (Stores l) t.rows
      → IsSaving done (l ∷ todo) t
      → IsSaving (l ∷ done) todo t
  keep-IsSaving done todo l t found h = record {
    others = h.others;
    entries =
        All-map _ _ existing
          (λ e k. record {
            node = k.node;
            claim = k.claim;
            below = k.below;
            sole = k.sole;
            present = λ q. k.present (ground arith);
          })
          h.entries;
    linked = h.linked;
    stored = (found, h.stored);
    apart = (h.distinct.0, All-map _ _ done (λ d q. ground arith) h.apart);
    distinct = h.distinct.1;
    ours = h.ours.1;
  }

  pub select_update :
      (l : ClaimEvidence) (i : ℕ) (rows : List EvidenceRow)
      → l.claim_id ≡ cid
      → All (λ x. x.id ≡ i → x.claim_id ≡ cid) rows
      → select (of_other cid) (map (update_row i l) rows) ≡ select (of_other cid) rows
  unfolding update_row
  select_update l i [] c h = refl
  select_update l i (x ∷ rows) c h =
      let ih = select_update l i rows c h.1 in
      elim (Bool-cases (x.id == i)) [
        | inl same ↦
            rw
              (same, other_none l (with_values l x) c, other_none l x (h.0 (eq_of_beq x.id i same)))
              ih
        | inr apart ↦ rw apart (
            if_ind
              (λ m. m ≡ (
                if of_other cid x
                then x ∷ select (of_other cid) rows
                else select (of_other cid) rows))
              (of_other cid x) (λ q. rw q (ap (λ m. x ∷ m) ih)) (λ q. rw q ih))
      ]

  -- What holds of the row with new values if it is the one, and of the row else, holds after.
  pub update_ind :
      (P : EvidenceRow → Type 0) (l : ClaimEvidence) (i : ℕ) (x : EvidenceRow)
      → (x.id ≡ i → P (with_values l x))
      → ((x.id == i) ≡ false → P x)
      → P (update_row i l x)
  unfolding update_row
  update_ind P l i x f g = if_ind P (x.id == i) (λ q. f (eq_of_beq x.id i q)) g

  pub update-IsSaving :
      (done todo : List ClaimEvidence) (l : ClaimEvidence) (t : EvidenceTable) (r : EvidenceRow)
      → IsEntry (l ∷ todo) t l.tree_node_id r
      → IsSaving done (l ∷ todo) t
      → IsSaving (l ∷ done) todo (record t { rows = map (update_row r.id l) t.rows })
  update-IsSaving done todo l t r own h = record {
    others =
        select_update l r.id t.rows h.ours.0.0 (All-map _ _ t.rows (λ x k q. (k q).0) own.sole)
        ∙ h.others;
    entries =
        All-map _ _ existing
          (λ e k. record {
            node = k.node;
            claim = k.claim;
            below = k.below;
            sole =
                All_map_intro _ _ (update_row r.id l) t.rows
                  (λ x both.
                    update_ind (λ y. y.id ≡ e.1.id → (y.claim_id ≡ cid) × (y.tree_node_id ≡ e.0)) l
                      r.id x (λ same q. (h.ours.0.0, sym (both.1 same).1 ∙ (both.0 q).1))
                      (λ _. both.0))
                  (All-both _ _ t.rows k.sole own.sole);
            present = λ q.
                Exists-map _ _ (update_row r.id l) t.rows
                  (λ x both.
                    update_ind (λ y. y ≡ e.1) l r.id x
                      (λ same.
                        let at : e.0 ≡ l.tree_node_id =
                          sym k.node
                          ∙ ap (λ (y : EvidenceRow). y.tree_node_id) (sym both.1)
                          ∙ (both.0 same).1 in
                        cc (sym h.distinct.0 ∙ ap (contains (linked_nodes todo)) (sym at) ∙ q))
                      (λ _. both.1))
                  (Exists-both _ _ t.rows own.sole (k.present (ground arith)));
          })
          h.entries;
    linked =
        All_map_intro _ _ (update_row r.id l) t.rows
          (λ x k.
            update_ind (λ y. y.claim_id ≡ cid → contains (linked_nodes all) y.tree_node_id ≡ true) l
              r.id x (λ _ _. h.ours.0.1) (λ _. k))
          h.linked;
    stored = (
      Exists-map _ _ (update_row r.id l) t.rows
          (λ x same.
            update_ind (Stores l) l r.id x (λ _. with_values-Stores l x)
              (λ other.
                cc (
                  sym (beq_self r.id) ∙ ap (λ (y : EvidenceRow). y.id == r.id) (sym same) ∙ other)))
          (own.present (ground (arith, beq_self l.tree_node_id))),
      All-map _ _ done
          (λ d both.
            Exists-map _ _ (update_row r.id l) t.rows
              (λ x known.
                update_ind (Stores d) l r.id x
                  (λ same.
                    let at : d.tree_node_id ≡ l.tree_node_id =
                      sym (known.1.tree_node_id) ∙ (known.0 same).1 in
                    absurd (apart_node d l todo both.1 at))
                  (λ _. known.1))
              (Exists-both _ _ t.rows own.sole both.0))
          (All-both _ _ done h.stored h.apart),
    );
    apart = (h.distinct.0, All-map _ _ done (λ d q. ground arith) h.apart);
    distinct = h.distinct.1;
    ours = h.ours.1;
  }

  pub save_link-IsSaving :
      (done todo : List ClaimEvidence) (l : ClaimEvidence) (t : EvidenceTable)
      (o : Option EvidenceRow)
      → lookup l.tree_node_id existing ≡ o
      → IsSaving done (l ∷ todo) t
      → IsSaving (l ∷ done) todo (save_link l o t)
  unfolding save_link
  save_link-IsSaving done todo l t none q h = insert-IsSaving done todo l t h
  save_link-IsSaving done todo l t (some r) q h =
      let own = All-lookup _ l.tree_node_id r existing h.entries q in
      if_ind (IsSaving (l ∷ done) todo) (is_unchanged l r)
        (λ u.
          keep-IsSaving done todo l t
            (Exists-weaken _ _ t.rows
              (λ x same.
                subst (Stores l) (sym same)
                  (unchanged-Stores l r u (own.claim ∙ sym h.ours.0.0) own.node))
              (own.present (ground (arith, beq_self l.tree_node_id))))
            h)
        (λ _. update-IsSaving done todo l t r own h)

  -- The links that were done stay done.
  pub save_all-IsSaving :
      (done todo : List ClaimEvidence) (t : EvidenceTable)
      → IsSaving done todo t
      → IsSaving (reverse_onto todo done) [] (save_all existing todo t)
  unfolding save_all
  save_all-IsSaving done [] t h = h
  save_all-IsSaving done (l ∷ todo) t h =
      save_all-IsSaving (l ∷ done) todo (save_link l (lookup l.tree_node_id existing) t)
        (save_link-IsSaving done todo l t (lookup l.tree_node_id existing) refl h)
