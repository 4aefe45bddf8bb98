-- ===== src/Evidence/Links.antt =====
-- src/ai_researcher/evidence/link.py: candidate passages are classified, their quotes verified, and
-- the links of the claim reconciled with those that are stored.
pub mod Quotes
pub mod Stores
pub mod Saving
pub mod Saved
pub mod Keyed
pub mod Linking
pub mod Tallying
use ai_researcher.Prelude.{
  ℕ, ◌+◌, String, ◌≡◌, Bool, true, false, not, ◌&&◌, ◌||◌, Option, none, some, List, [], ◌∷◌, ◌++◌,
  map, filter_map, select, length, is_empty, leb, nat_eq, string_eq, ◌==◌, contains, same_set,
  lookup, insert, keys, Result, ok, err, guard, need, ◌>>=◌, ◌>>◌, if◌then◌else◌,
}
use ai_researcher.Text.{strip, split, is_blank, search_words}
use ai_researcher.Json.{Value, str, arr, obj, get, as_dict, as_list, as_string, as_bool, as_natural}
use ai_researcher.Tables.{Stance, supports, refutes, mentions, EvidenceRow}
use ai_researcher.Retrieval.Traverse.{TraversalResult, ranked_ids}
use ai_researcher.Answer.Statements.{fromkeys}
use ai_researcher.Evidence.Errors.{
  Error, invalid_claim, no_scope, invalid_object, invalid_classification, incomplete, unhashable,
  traversal_failed, model_failed,
}

pub record CandidateNode : Type 0 where
  pub node_id : ℕ
  pub paper_id : ℕ
  pub body_text : String

pub record ClaimEvidence : Type 0 where
  pub claim_id : ℕ
  pub tree_node_id : ℕ
  pub paper_id : ℕ
  pub stance : Stance
  pub rationale_text : String
  pub is_direct : Bool

-- `_verbatim_span`
unfoldable pub verbatim_span : String → String → Option String
verbatim_span body_text rationale =
    let words = split rationale in if is_empty words then none else search_words words body_text

-- `stance not in {…}`: a list or a dictionary has no hash.
unfoldable pub as_stance : Value → Result Error Stance
as_stance (str s) =
    if s == "supports"
    then ok supports
    else if s == "refutes"
    then ok refutes
    else if s == "mentions"
    then ok mentions
    else err invalid_classification
as_stance (arr vs) = err unhashable
as_stance (obj fs) = err unhashable
as_stance _ = err invalid_classification

-- `{candidate.node_id: candidate for candidate in candidates}`
unfoldable pub candidates_by_id :
    List (ℕ × CandidateNode) → List CandidateNode → List (ℕ × CandidateNode)
candidates_by_id d [] = d
candidates_by_id d (c ∷ candidates) = candidates_by_id (insert c.node_id c d) candidates

-- The variables of the loop over the classifications.
pub record Classified : Type 0 where
  pub seen_node_ids : List ℕ
  pub links : List ClaimEvidence

-- A rationale that is no quote leaves no link.
unfoldable pub add_link :
    ℕ → CandidateNode → Stance → Bool → Option String → List ClaimEvidence → List ClaimEvidence
add_link claim_id candidate stance is_direct none links = links
add_link claim_id candidate stance is_direct (some quote) links =
    links
    ++ record {
      claim_id = claim_id;
      tree_node_id = candidate.node_id;
      paper_id = candidate.paper_id;
      stance = stance;
      rationale_text = quote;
      is_direct = is_direct;
    }
      ∷ []

unfoldable pub classify :
    ℕ → List (ℕ × CandidateNode) → Classified → Value → Result Error Classified
classify claim_id by_id w classification = do
  fields ← need (as_dict classification) invalid_classification
  node_id ← need (as_natural (get "node_id" fields)) invalid_classification
  guard (not (contains w.seen_node_ids node_id)) invalid_classification
  candidate ← need (lookup node_id by_id) invalid_classification
  stance ← as_stance (get "stance" fields)
  rationale ← need (as_string (get "rationale" fields)) invalid_classification
  is_direct ← need (as_bool (get "is_direct" fields)) invalid_classification
  ok (record {
    seen_node_ids = w.seen_node_ids ++ node_id ∷ [];
    links =
        add_link claim_id candidate stance is_direct (verbatim_span candidate.body_text rationale)
          w.links;
  })

unfoldable pub classify_all :
    ℕ → List (ℕ × CandidateNode) → Classified → List Value → Result Error Classified
classify_all claim_id by_id w [] = ok w
classify_all claim_id by_id w (classification ∷ rest) = do
  next ← classify claim_id by_id w classification
  classify_all claim_id by_id next rest

unfoldable pub validated_links : Value → ℕ → List CandidateNode → Result Error (List ClaimEvidence)
validated_links response claim_id candidates = do
  fields ← need (as_dict response) invalid_object
  classifications ← need (as_list (get "classifications" fields)) invalid_object
  let by_id = candidates_by_id [] candidates
  w ← classify_all claim_id by_id (record { seen_node_ids = []; links = [] }) classifications
  guard (same_set w.seen_node_ids (keys by_id)) incomplete
  ok w.links

-- `load_candidate_nodes`, with the rows of the join for the nodes.
unfoldable pub load_candidate_nodes : List CandidateNode → List ℕ → List CandidateNode
load_candidate_nodes rows node_ids =
    filter_map
      (λ i. lookup i (candidates_by_id [] (select (λ r. contains node_ids r.node_id) rows)))
      node_ids

-- The table `claim_evidence`, the next value of its sequence, and the time.
pub record EvidenceTable : Type 0 where
  pub rows : List EvidenceRow
  pub next_id : ℕ
  pub now : ℕ

abbrev pub linked_nodes : List ClaimEvidence → List ℕ
linked_nodes [] = []
linked_nodes (l ∷ links) = l.tree_node_id ∷ linked_nodes links

-- `existing_by_node`
unfoldable pub existing_by_node : List (ℕ × EvidenceRow) → List EvidenceRow → List (ℕ × EvidenceRow)
existing_by_node d [] = d
existing_by_node d (r ∷ rows) = existing_by_node (insert r.tree_node_id r d) rows

abbrev pub stance_equal : Stance → Stance → Bool
stance_equal supports supports = true
stance_equal refutes refutes = true
stance_equal mentions mentions = true
stance_equal _ _ = false

abbrev bool_equal : Bool → Bool → Bool
bool_equal true b = b
bool_equal false b = not b

unfoldable pub is_unchanged : ClaimEvidence → EvidenceRow → Bool
is_unchanged link r =
    r.paper_id == link.paper_id
    && stance_equal r.stance link.stance
    && r.rationale_text == link.rationale_text
    && bool_equal r.is_direct link.is_direct

-- `.values(**values)`
abbrev pub with_values : ClaimEvidence → EvidenceRow → EvidenceRow
with_values link r = record {
  id = r.id;
  claim_id = link.claim_id;
  tree_node_id = link.tree_node_id;
  paper_id = link.paper_id;
  stance = link.stance;
  rationale_text = link.rationale_text;
  is_direct = link.is_direct;
  created_at = r.created_at;
}

unfoldable pub update_row : ℕ → ClaimEvidence → EvidenceRow → EvidenceRow
update_row i link r = if r.id == i then with_values link r else r

abbrev pub new_row : ClaimEvidence → ℕ → ℕ → EvidenceRow
new_row link i now = record {
  id = i;
  claim_id = link.claim_id;
  tree_node_id = link.tree_node_id;
  paper_id = link.paper_id;
  stance = link.stance;
  rationale_text = link.rationale_text;
  is_direct = link.is_direct;
  created_at = now;
}

-- One turn of the loop over the links, with the row that was there for the node.
unfoldable pub save_link : ClaimEvidence → Option EvidenceRow → EvidenceTable → EvidenceTable
save_link link none t = record t {
  rows = t.rows ++ new_row link t.next_id t.now ∷ [];
  next_id = t.next_id + 1;
}
save_link link (some existing) t =
    if is_unchanged link existing
    then t
    else record t { rows = map (update_row existing.id link) t.rows }

unfoldable pub save_all :
    List (ℕ × EvidenceRow) → List ClaimEvidence → EvidenceTable → EvidenceTable
save_all existing [] t = t
save_all existing (link ∷ links) t =
    save_all existing links (save_link link (lookup link.tree_node_id existing) t)

-- The rows of the claim whose node is not linked any more.
unfoldable pub is_stale : ℕ → List ClaimEvidence → EvidenceRow → Bool
is_stale claim_id links r =
    r.claim_id == claim_id && not (contains (linked_nodes links) r.tree_node_id)

unfoldable pub save_links : ℕ → List ClaimEvidence → EvidenceTable → EvidenceTable
save_links claim_id links t =
    save_all (existing_by_node [] (select (λ r. r.claim_id == claim_id) t.rows)) links
      (record t { rows = select (λ r. not (is_stale claim_id links r)) t.rows })

-- The claim, and what `link_evidence` calls.
pub record Claim : Type 0 where
  pub id : ℕ
  pub normalized_text : String

pub record Services : Type 0 where
  pub traverse : String → String → Option TraversalResult
  pub nodes : List CandidateNode
  pub complete : ℕ → String → List CandidateNode → Option Value

unfoldable pub link_evidence :
    Services → Claim → String → EvidenceTable → Result Error (List ClaimEvidence × EvidenceTable)
link_evidence s claim scope_name t = do
  guard (leb 1 claim.id) invalid_claim
  guard (not (is_blank (strip claim.normalized_text))) invalid_claim
  guard (not (is_blank (strip scope_name))) no_scope
  traversal ← need (s.traverse (strip claim.normalized_text) scope_name) traversal_failed
  let candidates = load_candidate_nodes s.nodes (fromkeys [] (ranked_ids traversal.ranked_nodes))
  (if is_empty candidates then ok ([], t) else (do
    response ← need (s.complete claim.id (strip claim.normalized_text) candidates) model_failed
    links ← validated_links response claim.id candidates
    ok (links, save_links claim.id links t)))

-- The counts of `link_scope_evidence`, and the table after its transactions.
pub record ScopeLinks : Type 0 where
  pub claims_linked : ℕ
  pub evidence_links : ℕ
  pub failed : ℕ
  pub table : EvidenceTable

-- An exception leaves the table as it was: each claim has a transaction of its own.
unfoldable pub count_claim :
    ScopeLinks → Result Error (List ClaimEvidence × EvidenceTable) → ScopeLinks
count_claim w (err e) = record w { failed = w.failed + 1 }
count_claim w (ok r) = record w {
  claims_linked = w.claims_linked + 1;
  evidence_links = w.evidence_links + length r.0;
  table = r.1;
}

unfoldable pub link_claims : Services → String → List Claim → ScopeLinks → ScopeLinks
link_claims s scope_name [] w = w
link_claims s scope_name (claim ∷ claims) w =
    link_claims s scope_name claims (count_claim w (link_evidence s claim scope_name w.table))

unfoldable pub link_scope_evidence : Services → String → List Claim → EvidenceTable → ScopeLinks
link_scope_evidence s scope_name claims t =
    link_claims s scope_name claims
      (record { claims_linked = 0; evidence_links = 0; failed = 0; table = t })
