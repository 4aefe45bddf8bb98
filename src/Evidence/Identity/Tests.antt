-- ===== src/Evidence/Identity/Tests.antt =====
-- Six claims: three that are all the same, and three of which one is the same as both others.
use ai_researcher.Prelude.{
  ℕ, ◌≡◌, refl, true, Option, none, some, List, [], ◌∷◌, nat_eq, pair_eq, string_eq, Result, ok,
  err, Yields, Distinct,
}
use ai_researcher.Json.{
  Value, int, pos, bool, arr, obj, nil, cons, end, field, get, to_list, as_dict, as_list, as_bool,
  as_natural,
}
use ai_researcher.Tables.{supports, EvidenceRow, ClaimRow}
use ai_researcher.Answer.Statements.{fromkeys}
use ai_researcher.Evidence.Errors.{Error}
use ai_researcher.Evidence.Links.Stores.{row_ids}
use ai_researcher.Evidence.Identity.{
  CanonicalGroup, CanonicalizationResult, ClaimTables, pair_ids, compare_one, compare_all,
  validated_duplicate_pairs, distinct_pairs, accepted_pairs, find_root, known, find, all_accepted,
  join, merge_roots, merge_pairs, canonical_groups, duplicate_ids, canonical_row, duplicate_row,
  kept_by_paper, move_evidence, save_group, save_canonical_groups, merged, canonicalize,
}
use ai_researcher.Evidence.Identity.Roots.{IsNever}
use ai_researcher.Evidence.Identity.Cliques.{AreCanonical, canonical_groups-AreCanonical}
use ai_researcher.Evidence.Identity.Saving.{IsNotMember, IsSaved, save_group-IsSaved}
use ai_researcher.Evidence.Identity.Canonicalize.{
  IsIdentityFailure, AreAnswered, IsCanonicalized, validated_duplicate_pairs-AreAnswered,
  canonicalize-IsCanonicalized,
}

abbrev pairs : List (ℕ × ℕ)
pairs = (2, 1) ∷ (4, 6) ∷ (3, 2) ∷ (1, 3) ∷ (5, 4) ∷ []

canonical_groups_run :
    canonical_groups pairs
    ≡ ok (
        record { canonical_id = 1; claim_ids = 1 ∷ 2 ∷ 3 ∷ [] }
        ∷ record { canonical_id = 4; claim_ids = 4 ∷ 5 ∷ [] }
        ∷ [])
unfolding canonical_groups merge_pairs merge_roots join all_accepted find known find_root
    accepted_pairs distinct_pairs fromkeys
canonical_groups_run = refl

canonical_groups-AreCanonical_example : Yields IsNever (AreCanonical pairs) (canonical_groups pairs)
canonical_groups-AreCanonical_example = canonical_groups-AreCanonical pairs

abbrev the_claim : ℕ → Option ℕ → ClaimRow ℕ
the_claim id canonical = record {
  id = id;
  paper_id = 7;
  tree_node_id = 1;
  claim_text = "It gains.";
  normalized_text = "it gains";
  claim_type = "result";
  subject = none;
  predicate = none;
  object_value = some 3;
  unit = none;
  canonical_claim_id = canonical;
  identity_checked_at = none;
  extraction_model = "m";
  prompt_version = "1";
  created_at = 0;
}

abbrev evidence : ℕ → ℕ → ℕ → EvidenceRow
evidence id claim_id paper_id = record {
  id = id;
  claim_id = claim_id;
  tree_node_id = id;
  paper_id = paper_id;
  stance = supports;
  rationale_text = "r";
  is_direct = true;
  created_at = 0;
}

abbrev tables : ClaimTables ℕ
tables = record {
  claims = the_claim 1 none ∷ the_claim 2 none ∷ the_claim 3 (some 2) ∷ [];
  claim_evidence = evidence 1 2 7 ∷ evidence 2 1 7 ∷ evidence 3 2 8 ∷ evidence 4 5 8 ∷ [];
  now = 9;
}

abbrev candidates : List (ClaimRow ℕ × ClaimRow ℕ)
candidates = (the_claim 1 none, the_claim 2 none) ∷ []

abbrev answer : Value
answer = obj (
    field "comparisons"
      (arr (
        cons
          (obj (
            field "left_id" (int (pos 1))
              (field "right_id" (int (pos 2)) (field "same_claim" (bool true) end))))
          nil))
      end)

abbrev group : CanonicalGroup
group = record { canonical_id = 1; claim_ids = 1 ∷ 2 ∷ [] }

evidence_of : Result Error (CanonicalizationResult × ClaimTables ℕ) → List EvidenceRow
evidence_of (ok r) = r.1.claim_evidence
evidence_of (err e) = []

canonicalize_run :
    evidence_of (canonicalize (λ _. some answer) candidates tables)
    ≡ evidence 2 1 7 ∷ record (evidence 3 2 8) { claim_id = 1 } ∷ evidence 4 5 8 ∷ []
unfolding evidence_of canonicalize save_canonical_groups save_group move_evidence kept_by_paper
    duplicate_row canonical_row duplicate_ids validated_duplicate_pairs compare_all compare_one
    merged canonical_groups merge_pairs merge_roots join all_accepted find known find_root
    accepted_pairs distinct_pairs fromkeys get to_list as_dict as_list as_bool as_natural
canonicalize_run = refl

tables-Distinct : Distinct (row_ids tables.claim_evidence)
tables-Distinct = (refl, (refl, (refl, (refl, tt))))

save_group-IsSaved_example : Yields IsNotMember (IsSaved group tables) (save_group group tables)
save_group-IsSaved_example = save_group-IsSaved group tables tables-Distinct

validated_duplicate_pairs-AreAnswered_example :
    Yields IsIdentityFailure
      (AreAnswered (pair_ids candidates))
      (validated_duplicate_pairs answer (pair_ids candidates))
validated_duplicate_pairs-AreAnswered_example =
    validated_duplicate_pairs-AreAnswered answer (pair_ids candidates)

canonicalize-IsCanonicalized_example :
    Yields IsIdentityFailure
      (IsCanonicalized candidates tables)
      (canonicalize (λ _. some answer) candidates tables)
canonicalize-IsCanonicalized_example =
    canonicalize-IsCanonicalized (λ _. some answer) candidates tables
