-- ===== src/Evidence/Identity.antt =====
-- src/ai_researcher/evidence/identity.py: the model compares pairs of claims, claims that are all
-- pairwise the same become a group, and the group's evidence moves to its canonical claim.
pub mod Partition
pub mod Known
pub mod Roots
pub mod Joining
pub mod Merging
pub mod Cliques
pub mod Moving
pub mod Saving
pub mod Canonicalize
mod Tests
use ai_researcher.Prelude.{
  ℕ, ◌+◌, ◌-◌, suc, zero, min, String, ◌≡◌, Bool, true, false, not, ◌&&◌, ◌||◌, Option, none, some,
  List, [], ◌∷◌, ◌++◌, map, select, every, length, is_empty, leb, ltb, nat_eq, pair_eq, ◌==◌,
  contains, same_set, lookup, insert, keys, values, set_default, remove, sort, Result, ok, err,
  guard, need, ◌>>=◌, ◌>>◌, if◌then◌else◌,
}
use ai_researcher.Json.{Value, get, as_dict, as_list, as_bool, as_natural}
use ai_researcher.Tables.{EvidenceRow, ClaimRow}
use ai_researcher.Answer.Statements.{fromkeys}
use ai_researcher.Evidence.Errors.{
  Error, invalid_claim, invalid_response, invalid_comparison, missing_comparison, not_a_member,
  missing_key, out_of_fuel, model_failed,
}

pub record CanonicalGroup : Type 0 where
  pub canonical_id : ℕ
  pub claim_ids : List ℕ

pub record CanonicalizationResult : Type 0 where
  pub pairs_compared : ℕ
  pub canonical_claims : ℕ
  pub merged_claims : ℕ

-- The variables of the loop over the comparisons.
pub record Compared : Type 0 where
  pub seen : List (ℕ × ℕ)
  pub duplicates : List (ℕ × ℕ)

unfoldable pub compare_one : List (ℕ × ℕ) → Compared → Value → Result Error Compared
compare_one expected w comparison = do
  fields ← need (as_dict comparison) invalid_comparison
  left_id ← need (as_natural (get "left_id" fields)) invalid_comparison
  right_id ← need (as_natural (get "right_id" fields)) invalid_comparison
  same_claim ← need (as_bool (get "same_claim" fields)) invalid_comparison
  guard (contains expected (left_id, right_id)) invalid_comparison
  guard (not (contains w.seen (left_id, right_id))) invalid_comparison
  ok (record {
    seen = w.seen ++ (left_id, right_id) ∷ [];
    duplicates = if same_claim then w.duplicates ++ (left_id, right_id) ∷ [] else w.duplicates;
  })

unfoldable pub compare_all : List (ℕ × ℕ) → Compared → List Value → Result Error Compared
compare_all expected w [] = ok w
compare_all expected w (comparison ∷ rest) = do
  next ← compare_one expected w comparison
  compare_all expected next rest

-- `_validated_duplicate_pairs`, with the identifiers of the candidates.
unfoldable pub validated_duplicate_pairs : Value → List (ℕ × ℕ) → Result Error (List (ℕ × ℕ))
validated_duplicate_pairs response candidates = do
  fields ← need (as_dict response) invalid_response
  comparisons ← need (as_list (get "comparisons" fields)) invalid_response
  guard (every (λ p. leb 1 p.0 && leb 1 p.1) candidates) invalid_claim
  w ← compare_all candidates (record { seen = []; duplicates = [] }) comparisons
  guard (same_set w.seen candidates) missing_comparison
  ok w.duplicates

abbrev pub max : ℕ → ℕ → ℕ
max a b = if leb a b then b else a

-- The two identifiers in order.
abbrev pub pair_of : ℕ → ℕ → ℕ × ℕ
pair_of a b = (min a b, max a b)

unfoldable pub distinct_pairs : List (ℕ × ℕ) → List (ℕ × ℕ) → List (ℕ × ℕ)
distinct_pairs seen [] = seen
distinct_pairs seen (p ∷ ps) = distinct_pairs (if contains seen p then seen else seen ++ p ∷ []) ps

unfoldable pub accepted_pairs : List (ℕ × ℕ) → List (ℕ × ℕ)
accepted_pairs duplicate_pairs = distinct_pairs [] (map (λ p. pair_of p.0 p.1) duplicate_pairs)

-- `(a, b) <= (c, d)`
abbrev pub pair_order : ℕ × ℕ → ℕ × ℕ → Bool
pair_order p q = ltb p.0 q.0 || p.0 == q.0 && leb p.1 q.1

-- The dictionaries that `find` shares with the loop.
pub record Groups : Type 0 where
  pub parent : List (ℕ × ℕ)
  pub members : List (ℕ × List ℕ)

-- The loop of `find`, which halves the path.
unfoldable pub find_root : ℕ → ℕ → List (ℕ × ℕ) → Result Error (ℕ × List (ℕ × ℕ))
find_root zero claim_id parent = err out_of_fuel
find_root (suc fuel) claim_id parent = do
  p ← need (lookup claim_id parent) missing_key
  (if p == claim_id
      then ok (claim_id, parent)
      else (do q ← need (lookup p parent) missing_key; find_root fuel q (insert claim_id q parent)))

unfoldable pub known : ℕ → Groups → Groups
known claim_id g = record {
  parent = set_default claim_id claim_id g.parent;
  members = set_default claim_id (claim_id ∷ []) g.members;
}

-- A parent is not above its claim, so that a claim has fewer steps to its root than its identifier.
unfoldable pub find : ℕ → Groups → Result Error (ℕ × Groups)
find claim_id g = do
  r ← find_root (suc claim_id) claim_id (known claim_id g).parent
  ok (r.0, record { parent = r.1; members = (known claim_id g).members })

unfoldable pub all_accepted : List (ℕ × ℕ) → List ℕ → List ℕ → Bool
all_accepted accepted left right =
    every (λ l. every (λ r. contains accepted (pair_of l r)) right) left

-- The group of the greater root joins that of the smaller one.
unfoldable pub join : ℕ → ℕ → Groups → Result Error Groups
join new_root old_root g = do
  kept ← need (lookup new_root g.members) missing_key
  moved ← need (lookup old_root g.members) missing_key
  ok (record {
    parent = insert old_root new_root g.parent;
    members = insert new_root (fromkeys kept moved) (remove old_root g.members);
  })

unfoldable pub merge_roots : List (ℕ × ℕ) → ℕ → ℕ → Groups → Result Error Groups
merge_roots accepted left_root right_root g = if left_root == right_root then ok g else (do
  left ← need (lookup left_root g.members) missing_key
  right ← need (lookup right_root g.members) missing_key
  (if all_accepted accepted left right
      then join (min left_root right_root) (max left_root right_root) g
      else ok g))

unfoldable pub merge_pairs : List (ℕ × ℕ) → List (ℕ × ℕ) → Groups → Result Error Groups
merge_pairs accepted [] g = ok g
merge_pairs accepted ((left_id, right_id) ∷ pairs) g = do
  left ← find left_id g
  right ← find right_id left.1
  next ← merge_roots accepted left.0 right.0 right.1
  merge_pairs accepted pairs next

abbrev pub root_order : ℕ × List ℕ → ℕ × List ℕ → Bool
root_order a b = leb a.0 b.0

abbrev pub several : ℕ × List ℕ → Bool
several e = ltb 1 (length e.1)

abbrev pub group_of : ℕ × List ℕ → CanonicalGroup
group_of e = record { canonical_id = e.0; claim_ids = sort leb e.1 }

unfoldable pub canonical_groups : List (ℕ × ℕ) → Result Error (List CanonicalGroup)
canonical_groups duplicate_pairs = do
  let accepted = accepted_pairs duplicate_pairs
  g ← merge_pairs accepted (sort pair_order accepted) (record { parent = []; members = [] })
  ok (map group_of (select several (sort root_order g.members)))

-- The tables that `save_canonical_groups` changes, and the time of its transaction.
pub record ClaimTables (Real : Type 0) : Type 0 where
  pub claims : List (ClaimRow Real)
  pub claim_evidence : List EvidenceRow
  pub now : ℕ

-- `.values(canonical_claim_id=…, identity_checked_at=…)`
abbrev pub with_canonical : {Real : Type 0} → Option ℕ → ℕ → ClaimRow Real → ClaimRow Real
with_canonical canonical now c = record c {
  canonical_claim_id = canonical;
  identity_checked_at = some now;
}

unfoldable pub duplicate_ids : CanonicalGroup → List ℕ
duplicate_ids g = select (λ i. not (i == g.canonical_id)) g.claim_ids

abbrev pub is_pointed : List ℕ → Option ℕ → Bool
is_pointed ids none = false
is_pointed ids (some i) = contains ids i

-- The two updates of the claims.
unfoldable pub canonical_row : {Real : Type 0} → CanonicalGroup → ℕ → ClaimRow Real → ClaimRow Real
canonical_row g now c = if c.id == g.canonical_id then with_canonical none now c else c

unfoldable pub duplicate_row : {Real : Type 0} → CanonicalGroup → ℕ → ClaimRow Real → ClaimRow Real
duplicate_row g now c =
    if contains (duplicate_ids g) c.id || is_pointed (duplicate_ids g) c.canonical_claim_id
    then with_canonical (some g.canonical_id) now c
    else c

-- `(claim_id != canonical_id, id)`
abbrev pub evidence_order : ℕ → EvidenceRow → EvidenceRow → Bool
evidence_order canonical a b =
    if a.claim_id == canonical
    then not (b.claim_id == canonical) || leb a.id b.id
    else not (b.claim_id == canonical) && leb a.id b.id

-- The rows of the loop that are kept, by paper.
unfoldable pub kept_by_paper : List (ℕ × ℕ) → List EvidenceRow → List (ℕ × ℕ)
kept_by_paper d [] = d
kept_by_paper d (r ∷ rows) = kept_by_paper (set_default r.paper_id r.id d) rows

-- Of the group's evidence one row for each paper stays, and moves to the canonical claim.
unfoldable pub move_evidence : CanonicalGroup → List ℕ → List EvidenceRow → List EvidenceRow
move_evidence g kept [] = []
move_evidence g kept (r ∷ rows) =
    let rest = move_evidence g kept rows in
    if contains g.claim_ids r.claim_id
    then (if contains kept r.id then record r { claim_id = g.canonical_id } ∷ rest else rest)
    else r ∷ rest

unfoldable pub save_group :
    {Real : Type 0} → CanonicalGroup → ClaimTables Real → Result Error (ClaimTables Real)
save_group g t = do
  guard (contains g.claim_ids g.canonical_id) not_a_member
  let evidence_rows = select (λ r. contains g.claim_ids r.claim_id) t.claim_evidence
  let kept = values (kept_by_paper [] (sort (evidence_order g.canonical_id) evidence_rows))
  ok (record t {
    claims = map (duplicate_row g t.now) (map (canonical_row g t.now) t.claims);
    claim_evidence = move_evidence g kept t.claim_evidence;
  })

unfoldable pub save_canonical_groups :
    {Real : Type 0} → List CanonicalGroup → ClaimTables Real → Result Error (ClaimTables Real)
save_canonical_groups [] t = ok t
save_canonical_groups (g ∷ groups) t = do next ← save_group g t; save_canonical_groups groups next

unfoldable pub merged : List CanonicalGroup → ℕ
merged [] = 0
merged (g ∷ groups) = length g.claim_ids - 1 + merged groups

abbrev pub pair_ids : {Real : Type 0} → List (ClaimRow Real × ClaimRow Real) → List (ℕ × ℕ)
pair_ids pairs = map (λ p. (p.0.id, p.1.id)) pairs

-- What `_claim_payload` asks of the identifiers of a claim.
abbrev pub has_ids : {Real : Type 0} → ClaimRow Real → Bool
has_ids c = leb 1 c.id && leb 1 c.paper_id

-- With the store; an exception leaves its tables as they were.
unfoldable pub canonicalize :
    {Real : Type 0}
    → (List (ClaimRow Real × ClaimRow Real) → Option Value)
    → List (ClaimRow Real × ClaimRow Real)
    → ClaimTables Real
    → Result Error (CanonicalizationResult × ClaimTables Real)
canonicalize complete candidates t =
    if is_empty candidates
    then ok (record { pairs_compared = 0; canonical_claims = 0; merged_claims = 0 }, t)
    else (do
      guard (every (λ p. has_ids p.0 && has_ids p.1) candidates) invalid_claim
      response ← need (complete candidates) model_failed
      duplicate_pairs ← validated_duplicate_pairs response (pair_ids candidates)
      groups ← canonical_groups duplicate_pairs
      saved ← save_canonical_groups groups t
      ok (
        record {
          pairs_compared = length candidates;
          canonical_claims = length groups;
          merged_claims = merged groups;
        },
        saved,
      ))
