-- ===== src/Evidence/Links/Keyed.antt =====
-- The identifiers of the rows of evidence, under `save_links`.
use ai_researcher.Prelude.{
  ℕ, ◌<◌, ◌≡◌, refl, ap, subst, sym, Bool, false, not, Option, none, some, List, [], ◌∷◌, ◌++◌, map,
  select, nat_eq, ◌==◌, contains, Distinct, Distinct-snoc, lookup, All, All-append, All-map,
  All_map_intro, All-select, if_ind, Bool-cases, inl, inr, eq_of_beq, arith,
}
use ai_researcher.Tables.{EvidenceRow}
use ai_researcher.Evidence.Links.{
  ClaimEvidence, EvidenceTable, is_unchanged, update_row, save_link, save_all, is_stale, save_links,
}
use ai_researcher.Evidence.Links.Stores.{row_ids, IsKeyed}

row_ids-append : (xs ys : List EvidenceRow) → row_ids (xs ++ ys) ≡ row_ids xs ++ row_ids ys
row_ids-append [] ys = refl
row_ids-append (x ∷ xs) ys = ap (λ (l : List ℕ). x.id ∷ l) (row_ids-append xs ys)

row_ids-update :
    (i : ℕ) (l : ClaimEvidence) (rows : List EvidenceRow)
    → row_ids (map (update_row i l) rows) ≡ row_ids rows
unfolding update_row
row_ids-update i l [] = refl
row_ids-update i l (x ∷ rows) =
    if_ind (λ (y : EvidenceRow). y.id ∷ row_ids (map (update_row i l) rows) ≡ x.id ∷ row_ids rows)
      (x.id == i) (λ _. ap (λ (k : List ℕ). x.id ∷ k) (row_ids-update i l rows))
      (λ _. ap (λ (k : List ℕ). x.id ∷ k) (row_ids-update i l rows))

absent_above :
    (n : ℕ) (rows : List EvidenceRow) → All (λ r. r.id < n) rows → contains (row_ids rows) n ≡ false
absent_above n [] h = refl
absent_above n (x ∷ rows) h = elim (Bool-cases (x.id == n)) [
  | inl same ↦ let q = eq_of_beq x.id n same in let b = h.0 in absurd (omega arith)
  | inr apart ↦ ground (arith, absent_above n rows h.1)
]

absent-select :
    (test : EvidenceRow → Bool) (i : ℕ) (rows : List EvidenceRow)
    → contains (row_ids rows) i ≡ false
    → contains (row_ids (select test rows)) i ≡ false
absent-select test i [] h = refl
absent-select test i (x ∷ rows) h =
    let ih = absent-select test i rows (ground arith) in
    if_ind (λ l. contains (row_ids l) i ≡ false) (test x) (λ _. ground arith) (λ _. ih)

Distinct-select :
    (test : EvidenceRow → Bool) (rows : List EvidenceRow)
    → Distinct (row_ids rows)
    → Distinct (row_ids (select test rows))
Distinct-select test [] h = tt
Distinct-select test (x ∷ rows) h =
    let ih = Distinct-select test rows h.1 in
    if_ind (λ l. Distinct (row_ids l)) (test x) (λ _. (absent-select test x.id rows h.0, ih))
      (λ _. ih)

save_link-IsKeyed :
    (l : ClaimEvidence) (o : Option EvidenceRow) (t : EvidenceTable)
    → IsKeyed t
    → IsKeyed (save_link l o t)
unfolding save_link update_row
save_link-IsKeyed l none t h = record {
  distinct =
      subst (λ (k : List ℕ). Distinct k) (sym (row_ids-append t.rows _))
        (Distinct-snoc (row_ids t.rows) t.next_id h.distinct
          (absent_above t.next_id t.rows h.below));
  below = All-append _ t.rows _ (All-map _ _ t.rows (λ r b. omega arith) h.below) (omega arith, tt);
}
save_link-IsKeyed l (some r) t h =
    if_ind IsKeyed (is_unchanged l r) (λ _. h)
      (λ _. record {
        distinct =
            subst (λ (k : List ℕ). Distinct k) (sym (row_ids-update r.id l t.rows)) h.distinct;
        below =
            All_map_intro _ _ (update_row r.id l) t.rows
              (λ x b.
                if_ind (λ (y : EvidenceRow). y.id < t.next_id) (x.id == r.id) (λ _. b) (λ _. b))
              h.below;
      })

save_all-IsKeyed :
    (existing : List (ℕ × EvidenceRow)) (links : List ClaimEvidence) (t : EvidenceTable)
    → IsKeyed t
    → IsKeyed (save_all existing links t)
unfolding save_all
save_all-IsKeyed existing [] t h = h
save_all-IsKeyed existing (l ∷ links) t h =
    save_all-IsKeyed existing links _ (save_link-IsKeyed l (lookup l.tree_node_id existing) t h)

-- `save_links` keeps the identifiers distinct and below the next one.
pub save_links-IsKeyed :
    (claim_id : ℕ) (links : List ClaimEvidence) (t : EvidenceTable)
    → IsKeyed t
    → IsKeyed (save_links claim_id links t)
unfolding save_links
save_links-IsKeyed claim_id links t h = save_all-IsKeyed _ links _ (record {
  distinct = Distinct-select (λ r. not (is_stale claim_id links r)) t.rows h.distinct;
  below =
      All-map _ _ (select (λ r. not (is_stale claim_id links r)) t.rows) (λ r b. b.1)
        (All-select _ (λ r. not (is_stale claim_id links r)) t.rows h.below);
})
