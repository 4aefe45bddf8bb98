-- ===== src/Evidence/Identity/Cliques.antt =====
-- What `_canonical_groups` returns.
use ai_researcher.Prelude.{
  ℕ, ◌+◌, ◌≤◌, ◌<◌, ◌≡◌, refl, sym, ap, subst, ◌∙◌, ◌⊎◌, inl, inr, true, false, ◌||◌, some, List,
  [], ◌∷◌, map, select, length, nat_eq, pair_eq, ◌==◌, beq_self, eq_of_beq, leb, ltb, contains,
  contains-sort, Distinct, lookup, lookup_entries, sort, place, All-sort, All_of_sort, All-select,
  All-map, All_map_intro, All, Exists, Exists-map, Exists-select, Exists-sort, Exists-weaken,
  if_ind, Yields, returns, Yields-bind, Bool-cases, arith,
}
use ai_researcher.Evidence.Identity.{
  CanonicalGroup, Groups, pair_of, accepted_pairs, pair_order, root_order, several, group_of,
  canonical_groups,
}
use ai_researcher.Evidence.Identity.Partition.{IsTogether, IsClass, IsPartition}
use ai_researcher.Evidence.Identity.Roots.{IsNever}
use ai_researcher.Evidence.Identity.Joining.{IsDecided}
use ai_researcher.Evidence.Identity.Merging.{merge_pairs-AreMerged}

-- A group of at least two claims, each two of them accepted as the same, with the least of them.
pub record IsClique (accepted : List (ℕ × ℕ)) (g : CanonicalGroup) : Type 0 where
  pub member : contains g.claim_ids g.canonical_id ≡ true
  pub least : (x : ℕ) → contains g.claim_ids x ≡ true → g.canonical_id ≤ x
  pub all_pairs :
      (x y : ℕ)
      → contains g.claim_ids x ≡ true
      → contains g.claim_ids y ≡ true
      → x < y
      → contains accepted (x, y) ≡ true
  pub distinct : Distinct g.claim_ids
  pub several : 1 < length g.claim_ids

-- The claims are one, or in one group.
abbrev pub AreSame : List CanonicalGroup → ℕ → ℕ → Type 0
AreSame groups x y =
    (x ≡ y) ⊎ Exists (λ g. (contains g.claim_ids x ≡ true) × (contains g.claim_ids y ≡ true)) groups

-- Claims that stay apart for a pair that was not accepted.
pub record AreApart (accepted : List (ℕ × ℕ)) (groups : List CanonicalGroup) (x y : ℕ)
    : Type 0 where
  pub one : ℕ
  pub other : ℕ
  pub left : AreSame groups x one
  pub right : AreSame groups y other
  pub different : contains accepted (pair_of one other) ≡ false

pub record AreCanonical (pairs : List (ℕ × ℕ)) (groups : List CanonicalGroup) : Type 0 where
  pub cliques : All (IsClique (accepted_pairs pairs)) groups
  pub disjoint :
      (x : ℕ)
      → All
          (λ g.
            All
              (λ h.
                contains g.claim_ids x ≡ true
                → contains h.claim_ids x ≡ true
                → g.canonical_id ≡ h.canonical_id)
              groups)
          groups
  pub decided :
      All
        (λ p. AreSame groups p.0 p.1 ⊎ AreApart (accepted_pairs pairs) groups p.0 p.1)
        (accepted_pairs pairs)

length-place : (x : ℕ) (ys : List ℕ) → length (place leb x ys) ≡ 1 + length ys
length-place x [] = refl
length-place x (y ∷ ys) = ground (arith, length-place x ys)

length-sort : (xs : List ℕ) → length (sort leb xs) ≡ length xs
length-sort [] = refl
length-sort (x ∷ xs) = let a = length-place x (sort leb xs) in let b = length-sort xs in omega arith

place-Distinct :
    (x : ℕ) (ys : List ℕ) → contains ys x ≡ false → Distinct ys → Distinct (place leb x ys)
place-Distinct x [] m d = (refl, tt)
place-Distinct x (y ∷ ys) m d =
    if_ind (λ l. Distinct l) (leb x y) (λ _. (m, d))
      (λ _. (
        contains-place x ys y ∙ ground (arith, eq_of_beq x y, beq_self y, d.0),
        place-Distinct x ys (ground arith) d.1,
      ))
  where
    contains-place :
        (x : ℕ) (ys : List ℕ) (a : ℕ) → contains (place leb x ys) a ≡ (x == a || contains ys a)
    contains-place x [] a = refl
    contains-place x (y ∷ ys) a = ground (arith, contains-place x ys a)

sort-Distinct : (xs : List ℕ) → Distinct xs → Distinct (sort leb xs)
sort-Distinct [] d = tt
sort-Distinct (x ∷ xs) d =
    place-Distinct x (sort leb xs) (contains-sort leb xs x ∙ d.0) (sort-Distinct xs d.1)

-- The entries that become groups.
abbrev entries : List (ℕ × List ℕ) → List (ℕ × List ℕ)
entries members = select several (sort root_order members)

abbrev IsEntry : List (ℕ × ℕ) → Groups → ℕ × List ℕ → Type 0
IsEntry accepted g e =
    IsClass accepted g.parent e.0 e.1 × (1 < length e.1) × (lookup e.0 g.members ≡ some e.1)

module _ (accepted : List (ℕ × ℕ)) (g : Groups) (p : IsPartition accepted g) where
  entries-AreEntries : All (IsEntry accepted g) (entries g.members)
  entries-AreEntries =
      All-map _ _ (entries g.members) (λ e h. entry e (lt e.1 h.0) h.1)
        (All-select _ several (sort root_order g.members)
          (All-sort root_order _ g.members (lookup_entries g.members p.once)))
    where
      lt : (s : List ℕ) → ltb 1 (length s) ≡ true → 1 < length s
      lt s h = ground arith

      entry :
          (e : ℕ × List ℕ) → 1 < length e.1 → lookup e.0 g.members ≡ some e.1 → IsEntry accepted g e
      entry e many at = elim (p.owned e.0 e.1 at) [
        | inl c ↦ (c, many, at)
        | inr l ↦ let one : length e.1 ≡ 1 = ap length l.sole in absurd (omega arith)
      ]

  sorted : (s : List ℕ) (x : ℕ) → contains (sort leb s) x ≡ true → contains s x ≡ true
  sorted s x m = sym (contains-sort leb s x) ∙ m

  IsClique-group : (e : ℕ × List ℕ) → IsEntry accepted g e → IsClique accepted (group_of e)
  IsClique-group e (c, many, at) = record {
    member = contains-sort leb e.1 e.0 ∙ c.own;
    least = λ x m. c.least x (sorted e.1 x m);
    all_pairs = λ x y m n. c.clique x y (sorted e.1 x m) (sorted e.1 y n);
    distinct = sort-Distinct e.1 c.distinct;
    several = (let q = length-sort e.1 in omega arith);
  }

  one_claim :
      (s : List ℕ) (x y : ℕ)
      → ltb 1 (length s) ≡ false
      → contains s x ≡ true
      → contains s y ≡ true
      → x ≡ y
  one_claim [] x y h m n = cc
  one_claim (a ∷ []) x y h m n =
      let q = eq_of_beq a x (ground arith) in let k = eq_of_beq a y (ground arith) in sym q ∙ k
  one_claim (a ∷ b ∷ s) x y h m n = absurd (long s h)
    where
      long : (s : List ℕ) → ltb 1 (length (a ∷ b ∷ s)) ≡ false → ⊥
      long s h = ground arith

  found_entry :
      (d : List (ℕ × List ℕ)) (r : ℕ) (s : List ℕ) → lookup r d ≡ some s → Exists (λ e. e.1 ≡ s) d
  found_entry [] r s h = cc
  found_entry ((j, t) ∷ d) r s h =
      if_ind (λ o. o ≡ some s → Exists (λ e. e.1 ≡ s) ((j, t) ∷ d)) (j == r) (λ _ k. inl (cc))
        (λ _ k. inr (found_entry d r s k)) h

  Together-AreSame : (x y : ℕ) → IsTogether g x y → AreSame (map group_of (entries g.members)) x y
  Together-AreSame x y t = elim (Bool-cases (ltb 1 (length t.set))) [
    | inr few ↦ inl (one_claim t.set x y few t.left t.right)
    | inl many ↦ inr (
        Exists-map _ _ group_of (entries g.members)
          (λ e same. (
            contains-sort leb e.1 x ∙ subst (λ s. contains s x ≡ true) (sym same) t.left,
            contains-sort leb e.1 y ∙ subst (λ s. contains s y ≡ true) (sym same) t.right,
          ))
          (Exists-select _ several (sort root_order g.members) (
            Exists-sort root_order _ g.members (
              Exists-weaken _ _ g.members
                (λ e same. (subst (λ s. ltb 1 (length s) ≡ true) (sym same) many, same))
                (found_entry g.members t.root t.set t.at)))))
  ]

-- No pair has been merged yet.
empty-IsPartition :
    (accepted : List (ℕ × ℕ)) → IsPartition accepted (record { parent = []; members = [] })
empty-IsPartition accepted = record {
  below = λ x p h. cc;
  rooted = λ r h. cc;
  owned = λ r s h. cc;
  apart = λ q r s t x tq aq tr ar m n. cc;
  shared = λ x p h. cc;
  once = tt;
}

groups-AreCanonical :
    (pairs : List (ℕ × ℕ)) (g : Groups)
    → IsPartition (accepted_pairs pairs) g
    → All (λ q. IsDecided (accepted_pairs pairs) g q.0 q.1) (accepted_pairs pairs)
    → AreCanonical pairs (map group_of (entries g.members))
groups-AreCanonical pairs g p decided =
    let there = entries-AreEntries (accepted_pairs pairs) g p in
    record {
      cliques =
          All_map_intro _ _ group_of (entries g.members) (IsClique-group (accepted_pairs pairs) g p)
            there;
      disjoint = λ x.
          All_map_intro _ _ group_of (entries g.members)
            (λ a ea.
              All_map_intro _ _ group_of (entries g.members)
                (λ b eb m n.
                  p.apart a.0 b.0 a.1 b.1 x ea.0.top ea.2 eb.0.top eb.2
                    (sorted (accepted_pairs pairs) g p a.1 x m)
                    (sorted (accepted_pairs pairs) g p b.1 x n))
                there)
            there;
      decided =
          All-map _ _ (accepted_pairs pairs)
            (λ q d. elim d [
              | inl t ↦ inl (Together-AreSame (accepted_pairs pairs) g p q.0 q.1 t)
              | inr b ↦ inr (record {
                one = b.one;
                other = b.other;
                left = Together-AreSame (accepted_pairs pairs) g p q.0 b.one b.left;
                right = Together-AreSame (accepted_pairs pairs) g p q.1 b.other b.right;
                different = b.different;
              })
            ])
            decided;
    }

-- `_canonical_groups` ends, without a missing key, with groups of at least two claims, each two of
-- which were accepted as the same, with the least claim as the canonical one; no claim is in groups
-- of two canonical claims; and each accepted pair is in one group, or its claims are, or are in
-- groups with, two claims that were not accepted as the same.
pub canonical_groups-AreCanonical :
    (pairs : List (ℕ × ℕ)) → Yields IsNever (AreCanonical pairs) (canonical_groups pairs)
unfolding canonical_groups
canonical_groups-AreCanonical pairs =
    let accepted = accepted_pairs pairs in
    Yields-bind _ _
      (merge_pairs-AreMerged accepted (sort pair_order accepted)
        (record { parent = []; members = [] }) (empty-IsPartition accepted))
      λ g m.
        returns (groups-AreCanonical pairs g m.part (All_of_sort pair_order _ accepted m.decided))
