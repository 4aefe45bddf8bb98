-- ===== src/Evidence/Tests.antt =====
-- One claim, two nodes that the traversal finds, and a table with a link that is out of date.
use ai_researcher.Prelude.{
  ℕ, String, ◌≡◌, refl, true, none, some, List, [], ◌∷◌, nat_eq, string_eq, Result, ok, err, Yields,
  arith,
}
use ai_researcher.Text.{strip, split, spaces, match_words, search_words, strip_prefix}
use ai_researcher.Json.{
  Value, int, pos, bool, str, arr, obj, nil, cons, end, field, get, to_list, as_dict, as_list,
  as_string, as_bool, as_natural,
}
use ai_researcher.Tables.{Stance, supports, refutes, mentions, EvidenceRow}
use ai_researcher.Retrieval.Traverse.{RankedNode, budget_exhausted}
use ai_researcher.Answer.Statements.{fromkeys}
use ai_researcher.Evidence.Errors.{Error}
use ai_researcher.Evidence.Links.{
  CandidateNode, ClaimEvidence, EvidenceTable, Claim, Services, verbatim_span, as_stance,
  candidates_by_id, add_link, classify, classify_all, validated_links, load_candidate_nodes,
  existing_by_node, is_unchanged, update_row, save_link, save_all, is_stale, save_links,
  link_evidence, count_claim, link_claims, link_scope_evidence,
}
use ai_researcher.Evidence.Links.Quotes.{IsBadAnswer, AreLinks, validated_links-AreLinks}
use ai_researcher.Evidence.Links.Stores.{IsKeyed}
use ai_researcher.Evidence.Links.Saved.{IsReconciled, save_links-IsReconciled}
use ai_researcher.Evidence.Links.Linking.{IsLinkFailure, IsLinked, link_evidence-IsLinked}
use ai_researcher.Evidence.Links.Tallying.{IsTally, claim_ids, link_scope_evidence-IsTally}

abbrev ranked : ℕ → RankedNode
ranked id = record {
  node_id = id;
  paper_id = 7;
  section_path = "Results";
  title = none;
  summary = "s";
  page_start = none;
  page_end = none;
  relevance = 50;
  reason = "r";
}

abbrev node : ℕ → String → CandidateNode
node id text = record { node_id = id; paper_id = 7; body_text = text }

abbrev classification : ℕ → String → String → Value
classification id stance rationale = obj (
    field "node_id" (int (pos id)) (
      field "stance" (str stance)
        (field "rationale" (str rationale) (field "is_direct" (bool true) end))))

abbrev answer : Value
answer = obj (
    field "classifications"
      (arr (
        cons (classification 2 "refutes" "no  gain")
          (cons (classification 1 "supports" "big gain") nil)))
      end)

abbrev services : Services
services = record {
  traverse = λ q scope. some (record {
    ranked_nodes = ranked 1 ∷ ranked 2 ∷ [];
    trace = record {
      expanded_nodes = [];
      selected_node_ids = [];
      stopped_reason = budget_exhausted;
    };
  });
  nodes = node 1 "a small gain" ∷ node 2 "We saw no\ngain." ∷ [];
  complete = λ id text candidates. some answer;
}

abbrev the_claim : Claim
the_claim = record { id = 5; normalized_text = " it gains " }

abbrev evidence : ℕ → ℕ → ℕ → Stance → EvidenceRow
evidence id claim_id node_id stance = record {
  id = id;
  claim_id = claim_id;
  tree_node_id = node_id;
  paper_id = 7;
  stance = stance;
  rationale_text = "r";
  is_direct = true;
  created_at = 0;
}

abbrev table : EvidenceTable
table = record {
  rows = evidence 1 5 2 supports ∷ evidence 2 4 2 mentions ∷ evidence 3 5 1 supports ∷ [];
  next_id = 4;
  now = 9;
}

abbrev the_link : ClaimEvidence
the_link = record {
  claim_id = 5;
  tree_node_id = 2;
  paper_id = 7;
  stance = refutes;
  rationale_text = "no\ngain";
  is_direct = true;
}

program : Unit {0}
unfolding link_scope_evidence link_claims count_claim link_evidence save_links is_stale save_all
    save_link update_row is_unchanged existing_by_node load_candidate_nodes validated_links
    classify_all classify add_link candidates_by_id as_stance verbatim_span strip split spaces
    match_words search_words strip_prefix get to_list as_dict as_list as_string as_bool as_natural
    fromkeys
program = tt

rows_of : Result Error (List ClaimEvidence × EvidenceTable) → List EvidenceRow
rows_of (ok r) = r.1.rows
rows_of (err e) = []

link_evidence_run :
    rows_of (link_evidence services the_claim "scope" table)
    ≡ record {
      id = 1;
      claim_id = 5;
      tree_node_id = 2;
      paper_id = 7;
      stance = refutes;
      rationale_text = "no\ngain";
      is_direct = true;
      created_at = 0;
    }
      ∷ evidence 2 4 2 mentions
      ∷ []
unfolding program rows_of
link_evidence_run = refl

table-IsKeyed : IsKeyed table
table-IsKeyed = record {
  distinct = (refl, (refl, (refl, tt)));
  below = (omega arith, (omega arith, (omega arith, tt)));
}

validated_links-AreLinks_example :
    Yields IsBadAnswer (AreLinks 5 services.nodes) (validated_links answer 5 services.nodes)
validated_links-AreLinks_example = validated_links-AreLinks answer 5 services.nodes

save_links-IsReconciled_example :
    IsReconciled 5 (the_link ∷ []) table (save_links 5 (the_link ∷ []) table)
save_links-IsReconciled_example =
    save_links-IsReconciled 5 (the_link ∷ []) table table-IsKeyed (refl, tt) (refl, tt)

link_evidence-IsLinked_example :
    Yields IsLinkFailure
      (IsLinked services the_claim table)
      (link_evidence services the_claim "scope" table)
link_evidence-IsLinked_example =
    link_evidence-IsLinked services the_claim "scope" table table-IsKeyed

link_scope_evidence-IsTally_example :
    IsTally services "scope"
      (claim_ids (the_claim ∷ []))
      (the_claim ∷ [])
      (record { claims_linked = 0; evidence_links = 0; failed = 0; table = table })
      (link_scope_evidence services "scope" (the_claim ∷ []) table)
link_scope_evidence-IsTally_example =
    link_scope_evidence-IsTally services "scope" (the_claim ∷ []) table table-IsKeyed
