-- ===== src/Monitor/Tests.antt =====
-- One subscribed claim, with three scores and a refutation.
use ai_researcher.Prelude.{
  ℕ, ◌≡◌, refl, true, false, none, some, [], ◌∷◌, nat_eq, option_eq, pair_eq, arith,
}
use ai_researcher.Json.{negsuc, pos}
use ai_researcher.Tables.{Stance, supports, refutes, topic, claim, EvidenceRow, ScoreRow}
use ai_researcher.Monitor.Changes.{
  Tables, active_claim_ids, had_prior_refute, is_first_refute, first_of_each, add_score, add_scores,
  has_moved, movement, distinct_pairs, new_papers, new_evidence, stance_flips, score_movements,
  discourse_mentions, detect_changes,
}
use ai_researcher.Monitor.Changes.Flips.{AreFlips, stance_flips-AreFlips}
use ai_researcher.Monitor.Changes.Movements.{AreMovements, score_movements-AreMovements}
use ai_researcher.Monitor.Changes.Quiet.{IsQuiet, detect_changes-quiet}

abbrev evidence : ℕ → Stance → ℕ → EvidenceRow
evidence id stance at = record {
  id = id;
  claim_id = 5;
  tree_node_id = 1;
  paper_id = 7;
  stance = stance;
  rationale_text = "r";
  is_direct = true;
  created_at = at;
}

abbrev score : ℕ → ℕ → ℕ → ScoreRow
score id confidence at = record {
  id = id;
  claim_id = 5;
  confidence = confidence;
  evidence_quality = 50;
  rubric_version = "1";
  scored_at = at;
}

abbrev tables : Tables
tables = record {
  papers =
      record {
        id = 7;
        doi = none;
        arxiv_id = none;
        openalex_id = none;
        s2_id = none;
        title = "T";
        abstract = none;
        published_at = none;
        venue = none;
        is_preprint = false;
        oa_status = none;
        pdf_path = none;
        tei_xml = none;
        parse_status = "parsed";
        parse_error = none;
        created_at = 11;
      }
      ∷ [];
  paper_scopes = record { paper_id = 7; scope_id = 2 } ∷ [];
  subscriptions =
      record {
        id = 1;
        kind = topic;
        scope_id = some 2;
        claim_id = none;
        created_at = 0;
        active = true;
      }
      ∷ record {
        id = 2;
        kind = claim;
        scope_id = none;
        claim_id = some 5;
        created_at = 0;
        active = true;
      }
      ∷ [];
  claim_evidence = evidence 1 supports 4 ∷ evidence 3 refutes 14 ∷ evidence 2 refutes 12 ∷ [];
  claim_scores = score 1 90 1 ∷ score 2 60 8 ∷ score 3 40 13 ∷ [];
  discourse_mentions =
      record { id = 6; discourse_item_id = 1; paper_id = 7; resolved_by = "doi"; created_at = 12 }
      ∷ [];
}

detect_changes_run : detect_changes tables 10 15 ≡ record {
  new_papers = record { paper_id = 7; scope_id = 2 } ∷ [];
  new_evidence =
      record { claim_id = 5; claim_evidence_id = 2; stance = refutes }
      ∷ record { claim_id = 5; claim_evidence_id = 3; stance = refutes }
      ∷ [];
  stance_flips = record { claim_id = 5; claim_evidence_id = 2 } ∷ [];
  score_movements =
      record {
        claim_id = 5;
        confidence_before = 60;
        confidence_after = 40;
        confidence_delta = negsuc 19;
        evidence_quality_before = 50;
        evidence_quality_after = 50;
        evidence_quality_delta = pos 0;
      }
      ∷ [];
  discourse_mentions = record { discourse_mention_id = 6; paper_id = 7; claim_id = 5 } ∷ [];
}
unfolding detect_changes new_papers new_evidence stance_flips score_movements discourse_mentions
    active_claim_ids had_prior_refute is_first_refute first_of_each add_score add_scores has_moved
    movement distinct_pairs
detect_changes_run = refl

stance_flips-AreFlips_example : AreFlips tables 10 (stance_flips tables 10)
stance_flips-AreFlips_example = stance_flips-AreFlips tables 10

score_movements-AreMovements_example : AreMovements tables 10 15 (score_movements tables 10 15)
score_movements-AreMovements_example = score_movements-AreMovements tables 10 15

tables-IsQuiet : IsQuiet tables 14
tables-IsQuiet = record {
  papers = omega arith;
  evidence = omega arith;
  scores = omega arith;
  mentions = omega arith;
}

detect_changes-quiet_example : detect_changes tables 14 15 ≡ record {
  new_papers = [];
  new_evidence = [];
  stance_flips = [];
  score_movements = [];
  discourse_mentions = [];
}
detect_changes-quiet_example = detect_changes-quiet tables 14 15 tables-IsQuiet
