-- ===== src/Evidence/Identity/Moving.antt =====
-- The evidence that `save_canonical_groups` keeps of a group, and moves.
use ai_researcher.Prelude.{
  ℕ, ◌≡◌, refl, sym, ap, subst, ◌∙◌, inl, inr, Bool, true, false, some, List, [], ◌∷◌, select,
  nat_eq, ◌==◌, beq_self, eq_of_beq, contains, Distinct, lookup, insert, keys, values,
  lookup_entries, lookup_of_contains, contains-keys-insert, Distinct-insert, All-insert, All-lookup,
  All-both, All, Exists, Exists-both, Exists-weaken, if_ind, Bool-cases, arith,
}
use ai_researcher.Tables.{EvidenceRow}
use ai_researcher.Evidence.Links.Tallying.{outside}
use ai_researcher.Evidence.Identity.{CanonicalGroup, kept_by_paper, move_evidence}
use ai_researcher.Evidence.Identity.Partition.{same_some}

abbrev pub IsSource : List EvidenceRow → ℕ × ℕ → Type 0
IsSource all e = Exists (λ r. (r.paper_id ≡ e.0) × (r.id ≡ e.1)) all

-- The rows that are kept: for each paper one.
pub record AreKept (all rows : List EvidenceRow) (start kept : List (ℕ × ℕ)) : Type 0 where
  pub sources : All (IsSource all) kept
  pub distinct : Distinct (keys kept)
  pub covers : All (λ r. contains (keys kept) r.paper_id ≡ true) rows
  pub grows : (k : ℕ) → contains (keys start) k ≡ true → contains (keys kept) k ≡ true

pub kept_by_paper-AreKept :
    (all rows : List EvidenceRow) (d : List (ℕ × ℕ))
    → All (λ r. Exists (λ x. x ≡ r) all) rows
    → All (IsSource all) d
    → Distinct (keys d)
    → AreKept all rows d (kept_by_paper d rows)
unfolding kept_by_paper
kept_by_paper-AreKept all [] d there h once = record {
  sources = h;
  distinct = once;
  covers = tt;
  grows = λ k m. m;
}
kept_by_paper-AreKept all (r ∷ rows) d there h once =
    if_ind (λ c. AreKept all (r ∷ rows) d (kept_by_paper c rows)) (contains (keys d) r.paper_id)
      (λ old.
        let k = kept_by_paper-AreKept all rows d there.1 h once in
        record {
          sources = k.sources;
          distinct = k.distinct;
          covers = (k.grows r.paper_id old, k.covers);
          grows = k.grows;
        })
      (λ new.
        let k =
          kept_by_paper-AreKept all rows (insert r.paper_id r.id d) there.1
            (All-insert _ r.paper_id r.id d
              (Exists-weaken _ _ all
                (λ x e. (ap (λ (y : EvidenceRow). y.paper_id) e, ap (λ (y : EvidenceRow). y.id) e))
                there.0)
              h)
            (Distinct-insert r.paper_id r.id d once) in
        record {
          sources = k.sources;
          distinct = k.distinct;
          covers = (
            k.grows r.paper_id (
                ground
                  (arith, contains-keys-insert r.paper_id r.paper_id r.id d, beq_self r.paper_id)),
            k.covers,
          );
          grows = λ j m. k.grows j (ground (arith, contains-keys-insert r.paper_id j r.id d));
        })

entry_of_value : (d : List (ℕ × ℕ)) (i : ℕ) → contains (values d) i ≡ true → Exists (λ e. e.1 ≡ i) d
entry_of_value [] i h = cc
entry_of_value ((k, v) ∷ d) i h = elim (Bool-cases (v == i)) [
  | inl same ↦ inl (eq_of_beq v i same)
  | inr apart ↦ inr (entry_of_value d i (ground arith))
]

pub Exists-elim :
    {A : Type 0} (P : A → Type 0) (Q : Type 0) (xs : List A) → ((a : A) → P a → Q) → Exists P xs → Q
Exists-elim P Q [] f h = absurd h
Exists-elim P Q (x ∷ xs) f (inl p) = f x p
Exists-elim P Q (x ∷ xs) f (inr e) = Exists-elim P Q xs f e

-- A row that is kept is the one of its paper.
pub kept_row :
    (all rows : List EvidenceRow) (d kept : List (ℕ × ℕ)) (r : EvidenceRow)
    → AreKept all rows d kept
    → All (λ x. x.id ≡ r.id → x ≡ r) all
    → contains (values kept) r.id ≡ true
    → lookup r.paper_id kept ≡ some r.id
kept_row all rows d kept r h sole m =
    Exists-elim _ (lookup r.paper_id kept ≡ some r.id) kept
      (λ e known.
        Exists-elim _ (lookup r.paper_id kept ≡ some r.id) all
          (λ x both.
            let same = both.0 (both.1.1 ∙ known.1) in
            let paper : e.0 ≡ r.paper_id =
              sym both.1.0 ∙ ap (λ (y : EvidenceRow). y.paper_id) same in
            subst (λ j. lookup j kept ≡ some r.id) paper (known.0.0 ∙ ap some known.1))
          (Exists-both _ _ all sole known.0.1))
      (Exists-both _ _ kept (All-both _ _ kept (lookup_entries kept h.distinct) h.sources)
        (entry_of_value kept r.id m))

module _ (g : CanonicalGroup) (kept : List ℕ) where
  abbrev pub move_row : EvidenceRow → EvidenceRow
  move_row r = record r { claim_id = g.canonical_id }

  pub move_evidence-All :
      (P : EvidenceRow → Type 0) (rows : List EvidenceRow)
      → All
          (λ r.
            (contains g.claim_ids r.claim_id ≡ false → P r)
            × (contains g.claim_ids r.claim_id ≡ true → contains kept r.id ≡ true → P (move_row r)))
          rows
      → All P (move_evidence g kept rows)
  unfolding move_evidence
  move_evidence-All P [] h = tt
  move_evidence-All P (r ∷ rows) h =
      let ih = move_evidence-All P rows h.1 in
      if_ind (All P) (contains g.claim_ids r.claim_id)
        (λ own. if_ind (All P) (contains kept r.id) (λ m. (h.0.1 own m, ih)) (λ _. ih))
        (λ other. (h.0.0 other, ih))

  pub move_evidence-Exists :
      (P Q : EvidenceRow → Type 0) (rows : List EvidenceRow)
      → ((r : EvidenceRow) → P r → contains g.claim_ids r.claim_id ≡ true)
      → ((r : EvidenceRow) → P r → contains kept r.id ≡ true)
      → ((r : EvidenceRow) → P r → Q (move_row r))
      → Exists P rows
      → Exists Q (move_evidence g kept rows)
  unfolding move_evidence
  move_evidence-Exists P Q [] own there f e = e
  move_evidence-Exists P Q (r ∷ rows) own there f (inl p) = rw (own r p, there r p) (inl (f r p))
  move_evidence-Exists P Q (r ∷ rows) own there f (inr e) =
      let ih = move_evidence-Exists P Q rows own there f e in
      if_ind (Exists Q) (contains g.claim_ids r.claim_id)
        (λ _. if_ind (Exists Q) (contains kept r.id) (λ _. inr ih) (λ _. ih)) (λ _. inr ih)

  pub move_evidence-others :
      (rows : List EvidenceRow)
      → contains g.claim_ids g.canonical_id ≡ true
      → select (outside g.claim_ids) (move_evidence g kept rows) ≡ select (outside g.claim_ids) rows
  unfolding move_evidence
  move_evidence-others [] h = refl
  move_evidence-others (r ∷ rows) h =
      let ih = move_evidence-others rows h in
      elim (Bool-cases (contains g.claim_ids r.claim_id)) [
        | inr other ↦ rw (other, other) (ap (λ l. r ∷ l) ih)
        | inl own ↦ rw own (
            if_ind (λ l. select (outside g.claim_ids) l ≡ select (outside g.claim_ids) rows)
              (contains kept r.id) (λ _. rw h ih) (λ _. ih))
      ]

value_of_lookup : (d : List (ℕ × ℕ)) (k v : ℕ) → lookup k d ≡ some v → contains (values d) v ≡ true
value_of_lookup [] k v h = cc
value_of_lookup ((j, w) ∷ d) k v h = elim (Bool-cases (j == k)) [
  | inl same ↦
      let q : w ≡ v = same_some {o = lookup k ((j, w) ∷ d)} (rw same refl) h in
      ground (arith, beq_self v)
  | inr apart ↦
      let found : lookup k d ≡ some v = ground arith in ground (arith, value_of_lookup d k v found)
]

Exists-unselect :
    {A : Type 0} (P : A → Type 0) (test : A → Bool) (xs : List A)
    → Exists P (select test xs)
    → Exists (λ a. (test a ≡ true) × P a) xs
Exists-unselect P test [] h = h
Exists-unselect P test (x ∷ xs) h =
    if_ind (λ l. Exists P l → Exists (λ a. (test a ≡ true) × P a) (x ∷ xs)) (test x)
      (λ q e. elim e [ inl p ↦ inl (q, p) | inr k ↦ inr (Exists-unselect P test xs k) ])
      (λ q e. inr (Exists-unselect P test xs e)) h

-- No paper of the group is lost.
pub move_evidence-papers :
    (g : CanonicalGroup) (rows ordered : List EvidenceRow) (kept : List (ℕ × ℕ)) (r : EvidenceRow)
    → AreKept (select (λ x. contains g.claim_ids x.claim_id) rows) ordered [] kept
    → contains (keys kept) r.paper_id ≡ true
    → Exists
        (λ q. (q.claim_id ≡ g.canonical_id) × (q.paper_id ≡ r.paper_id))
        (move_evidence g (values kept) rows)
move_evidence-papers g rows ordered kept r h m =
    let own = λ (x : EvidenceRow). contains g.claim_ids x.claim_id in
    let (i, found) = lookup_of_contains r.paper_id kept m in
    move_evidence-Exists g (values kept)
      (λ x. (own x ≡ true) × ((x.paper_id ≡ r.paper_id) × (x.id ≡ i))) _ rows (λ x p. p.0)
      (λ x p.
        subst (λ j. contains (values kept) j ≡ true) (sym p.1.1)
          (value_of_lookup kept r.paper_id i found))
      (λ x p. (refl, p.1.0))
      (Exists-unselect _ own rows (All-lookup _ r.paper_id i kept h.sources found))
