-- ===== src/Evidence/Identity/Saving.antt =====
-- `save_canonical_groups`: one group after another, in one transaction.
use ai_researcher.Prelude.{
  ℕ, ◌≡◌, refl, sym, ap, subst, ◌∙◌, ◌⊎◌, inl, inr, true, false, not, ◌||◌, none, some, List, [],
  ◌∷◌, map, select, nat_eq, ◌==◌, beq_self, eq_of_beq, contains, contains-select, Distinct, lookup,
  values, sort, All-sort, All_of_sort, All-select, All_of_select, All-map, All_intro, All, Exists,
  Exists-self, if_ind, Yields, returns, Yields-bind, Yields-guard, Bool-cases, arith,
}
use ai_researcher.Tables.{EvidenceRow, ClaimRow}
use ai_researcher.Evidence.Errors.{Error, not_a_member}
use ai_researcher.Evidence.Links.Stores.{row_ids}
use ai_researcher.Evidence.Links.Saved.{only_row}
use ai_researcher.Evidence.Links.Tallying.{outside}
use ai_researcher.Evidence.Identity.{
  CanonicalGroup, ClaimTables, duplicate_ids, is_pointed, canonical_row, duplicate_row,
  evidence_order, kept_by_paper, move_evidence, save_group,
}
use ai_researcher.Evidence.Identity.Moving.{
  kept_by_paper-AreKept, kept_row, move_evidence-All, move_evidence-others, move_evidence-papers,
}
use ai_researcher.Evidence.Identity.Partition.{same_some}

pub data IsNotMember : Error → Type 0 where
  missing : IsNotMember not_a_member

-- The group's evidence is with its canonical claim, one row for each paper it had a row for, and
-- its claims point at the canonical claim.
pub record IsSaved {Real : Type 0} (g : CanonicalGroup) (before after : ClaimTables Real)
    : Type 0 where
  pub others :
      select (outside g.claim_ids) after.claim_evidence
      ≡ select (outside g.claim_ids) before.claim_evidence
  pub moved :
      All
        (λ r. contains g.claim_ids r.claim_id ≡ true → r.claim_id ≡ g.canonical_id)
        after.claim_evidence
  pub once :
      All
        (λ r.
          All
            (λ q.
              r.claim_id ≡ g.canonical_id
              → q.claim_id ≡ g.canonical_id
              → r.paper_id ≡ q.paper_id
              → r.id ≡ q.id)
            after.claim_evidence)
        after.claim_evidence
  pub papers :
      All
        (λ r.
          contains g.claim_ids r.claim_id ≡ true
          → Exists
              (λ q. (q.claim_id ≡ g.canonical_id) × (q.paper_id ≡ r.paper_id))
              after.claim_evidence)
        before.claim_evidence
  pub pointed :
      All
        (λ c. contains (duplicate_ids g) c.id ≡ true → c.canonical_claim_id ≡ some g.canonical_id)
        after.claims
  pub root : All (λ c. c.id ≡ g.canonical_id → c.canonical_claim_id ≡ none) after.claims
  pub flat : All (λ c. is_pointed (duplicate_ids g) c.canonical_claim_id ≡ false) after.claims

canonical_not_duplicate : (g : CanonicalGroup) → contains (duplicate_ids g) g.canonical_id ≡ false
unfolding duplicate_ids
canonical_not_duplicate g = elim (Bool-cases (contains (duplicate_ids g) g.canonical_id)) [
  | inr absent ↦ absent
  | inl there ↦
      let both =
        contains-select (λ i. not (i == g.canonical_id)) g.claim_ids g.canonical_id there in
      let q = both.1 in absurd (ground (arith, beq_self g.canonical_id))
]

module _ {Real : Type 0} (g : CanonicalGroup) (now : ℕ) where
  abbrev saved_row : ClaimRow Real → ClaimRow Real
  saved_row c = duplicate_row g now (canonical_row g now c)

  IsRight : ClaimRow Real → Type 0
  IsRight c =
      (contains (duplicate_ids g) c.id ≡ true → c.canonical_claim_id ≡ some g.canonical_id)
      × (c.id ≡ g.canonical_id → c.canonical_claim_id ≡ none)
      × (is_pointed (duplicate_ids g) c.canonical_claim_id ≡ false)

  saved_row-IsRight : (c : ClaimRow Real) → IsRight (saved_row c)
  unfolding canonical_row duplicate_row IsRight
  saved_row-IsRight c =
      if_ind (λ d. IsRight (duplicate_row g now d)) (c.id == g.canonical_id)
        (λ same.
          let e = eq_of_beq c.id g.canonical_id same in
          let no : contains (duplicate_ids g) c.id ≡ false =
            ap (contains (duplicate_ids g)) e ∙ canonical_not_duplicate g in
          rw no (λ h. absurd (cc (sym no ∙ h)), λ _. refl, refl))
        (λ apart.
          let other : ¬ (c.id ≡ g.canonical_id) = λ e. ground (arith, beq_self g.canonical_id) in
          if_ind IsRight
            (contains (duplicate_ids g) c.id || is_pointed (duplicate_ids g) c.canonical_claim_id)
            (λ _. (λ _. refl, λ e. absurd (other e), canonical_not_duplicate g))
            (λ out. (λ h. absurd (ground arith), λ e. absurd (other e), ground arith)))

  saved_rows-AreRight :
      (cs : List (ClaimRow Real))
      → All IsRight (map (duplicate_row g now) (map (canonical_row g now) cs))
  saved_rows-AreRight [] = tt
  saved_rows-AreRight (c ∷ cs) = (saved_row-IsRight c, saved_rows-AreRight cs)

-- Saving a group raises an exception if its canonical claim is no member; or the group's evidence is
-- with its canonical claim, one row for each paper it had a row for, the other evidence as it was,
-- its duplicates point at the canonical claim, which points at none, and no claim points at a
-- duplicate; in a table of evidence with distinct identifiers.
pub save_group-IsSaved :
    {Real : Type 0} (g : CanonicalGroup) (t : ClaimTables Real)
    → Distinct (row_ids t.claim_evidence)
    → Yields IsNotMember (IsSaved g t) (save_group g t)
unfolding save_group IsRight
save_group-IsSaved g t keyed =
    Yields-bind _ _ (Yields-guard (contains g.claim_ids g.canonical_id) _ missing) λ _ member.
      let rows = t.claim_evidence in
      let own = λ (r : EvidenceRow). contains g.claim_ids r.claim_id in
      let mine = select own rows in
      let ordered = sort (evidence_order g.canonical_id) mine in
      let kept = kept_by_paper [] ordered in
      let facts =
        kept_by_paper-AreKept mine ordered []
          (All-sort (evidence_order g.canonical_id) _ mine (Exists-self mine)) tt tt in
      let sole : All (λ r. All (λ x. x.id ≡ r.id → x ≡ r) mine) rows =
        All-map _ _ rows (λ r h. All-map _ _ mine (λ x k. k.1) (All-select _ own rows h))
          (only_row rows keyed) in
      let held : All (λ r. own r ≡ false ⊎ (lookup r.paper_id kept ≡ some r.id))
          (move_evidence g (values kept) rows) =
        move_evidence-All g (values kept) _ rows (
          All-map _ _ rows
            (λ r h. (λ other. inl other, λ _ m. inr (kept_row mine ordered [] kept r facts h m)))
            sole) in
      let right = saved_rows-AreRight g t.now t.claims in
      returns (record {
        others = move_evidence-others g (values kept) rows member;
        moved =
            move_evidence-All g (values kept) _ rows
              (All_intro _ rows (λ r. (λ other m. cc (sym other ∙ m), λ _ _ _. refl)));
        once =
            All-map _ _ (move_evidence g (values kept) rows)
              (λ r hr.
                All-map _ _ (move_evidence g (values kept) rows)
                  (λ q hq cr cq paper. one_of_paper g kept r q member hr hq cr cq paper) held)
              held;
        papers =
            All-map _ _ rows
              (λ r covered m. move_evidence-papers g rows ordered kept r facts (covered m))
              (All_of_select _ own rows
                (All_of_sort (evidence_order g.canonical_id) _ mine facts.covers));
        pointed = All-map _ _ _ (λ c h. h.0) right;
        root = All-map _ _ _ (λ c h. h.1) right;
        flat = All-map _ _ _ (λ c h. h.2) right;
      })
  where
    one_of_paper :
        (g : CanonicalGroup) (kept : List (ℕ × ℕ)) (r q : EvidenceRow)
        → contains g.claim_ids g.canonical_id ≡ true
        → (contains g.claim_ids r.claim_id ≡ false) ⊎ (lookup r.paper_id kept ≡ some r.id)
        → (contains g.claim_ids q.claim_id ≡ false) ⊎ (lookup q.paper_id kept ≡ some q.id)
        → r.claim_id ≡ g.canonical_id
        → q.claim_id ≡ g.canonical_id
        → r.paper_id ≡ q.paper_id
        → r.id ≡ q.id
    one_of_paper g kept r q member (inl a) b cr cq paper =
        cc (sym member ∙ ap (contains g.claim_ids) (sym cr) ∙ a)
    one_of_paper g kept r q member (inr a) (inl b) cr cq paper =
        cc (sym member ∙ ap (contains g.claim_ids) (sym cq) ∙ b)
    one_of_paper g kept r q member (inr a) (inr b) cr cq paper =
        same_some a (subst (λ j. lookup j kept ≡ some q.id) (sym paper) b)
