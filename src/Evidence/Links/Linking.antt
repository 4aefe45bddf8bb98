-- ===== src/Evidence/Links/Linking.antt =====
-- `link_evidence` as a whole.
use ai_researcher.Prelude.{
  ℕ, String, ◌≡◌, refl, sym, subst, ◌⊎◌, inl, inr, not, List, [], ◌∷◌, select, is_empty, leb,
  nat_eq, contains, Distinct, All, All-map, All-filter_map, All-lookup, All_intro, Exists,
  Exists-self, Exists-weaken, All-select, Result, if_ind, Yields, returns, raises, Yields-need_any,
  Yields-guard, Yields-bind,
}
use ai_researcher.Text.{strip, is_blank}
use ai_researcher.Json.{Value}
use ai_researcher.Retrieval.Traverse.{ranked_ids}
use ai_researcher.Answer.Statements.{fromkeys}
use ai_researcher.Evidence.Errors.{Error, invalid_claim, no_scope, traversal_failed, model_failed}
use ai_researcher.Evidence.Links.{
  CandidateNode, ClaimEvidence, EvidenceTable, Claim, Services, linked_nodes, candidates_by_id,
  load_candidate_nodes, validated_links, save_links, link_evidence,
}
use ai_researcher.Evidence.Links.Quotes.{
  IsBadAnswer, IsAudited, IsCandidate, IsIndex, AreLinks, candidates_by_id-IsIndex,
  validated_links-AreLinks,
}
use ai_researcher.Evidence.Links.Stores.{IsKeyed}
use ai_researcher.Evidence.Links.Saved.{IsReconciled, save_links-IsReconciled}
use ai_researcher.Evidence.Links.Keyed.{save_links-IsKeyed}

-- The exceptions of `link_evidence`.
pub data IsLinkFailure : Error → Type 0 where
  bad_claim : IsLinkFailure invalid_claim
  blank_scope : IsLinkFailure no_scope
  no_traversal : IsLinkFailure traversal_failed
  no_answer : IsLinkFailure model_failed
  answer : {e : Error} → IsBadAnswer e → IsLinkFailure e

Exists-candidates :
    (P : CandidateNode → Type 0) (rows candidates : List CandidateNode)
    → All (IsCandidate rows) candidates
    → Exists P candidates
    → Exists P rows
Exists-candidates P rows [] h e = absurd e
Exists-candidates P rows (c ∷ candidates) h (inl p) =
    Exists-weaken _ _ rows (λ x q. subst P (sym q) p) h.0
Exists-candidates P rows (c ∷ candidates) h (inr e) = Exists-candidates P rows candidates h.1 e

-- The candidates are rows.
load_candidate_nodes-AreCandidates :
    (rows : List CandidateNode) (ids : List ℕ)
    → All (IsCandidate rows) (load_candidate_nodes rows ids)
unfolding load_candidate_nodes
load_candidate_nodes-AreCandidates rows ids =
    let wanted = λ (r : CandidateNode). contains ids r.node_id in
    let chosen = select wanted rows in
    let index : IsIndex rows (candidates_by_id [] chosen) =
      candidates_by_id-IsIndex rows chosen []
        (All-map _ _ chosen (λ r h. h.1) (All-select _ wanted rows (Exists-self rows))) tt in
    All-filter_map _ (λ (_ : ℕ). Unit {0}) (IsCandidate rows) ids
      (λ i c _ q. (All-lookup _ i c (candidates_by_id [] chosen) index q).1)
      (All_intro _ ids (λ _. tt))

-- What a call of `link_evidence` that returns has done.
pub record IsLinked (s : Services) (claim : Claim) (t : EvidenceTable)
    (r : List ClaimEvidence × EvidenceTable) : Type 0 where
  pub audited : All (IsAudited claim.id s.nodes) r.0
  pub once : Distinct (linked_nodes r.0)
  pub saved : ((r.0 ≡ []) × (r.1 ≡ t)) ⊎ IsReconciled claim.id r.0 t r.1
  pub keyed : IsKeyed r.1

finish-IsLinked :
    (s : Services) (claim : Claim) (t : EvidenceTable) (candidates : List CandidateNode)
    (links : List ClaimEvidence)
    → IsKeyed t
    → All (IsCandidate s.nodes) candidates
    → AreLinks claim.id candidates links
    → IsLinked s claim t (links, save_links claim.id links t)
finish-IsLinked s claim t candidates links keyed known h = record {
  audited =
      All-map _ _ links
        (λ l a. record {
          claim = a.claim;
          source = Exists-candidates _ s.nodes candidates known a.source;
        })
        h.audited;
  once = h.once;
  saved = inr (
      save_links-IsReconciled claim.id links t keyed (All-map _ _ links (λ l a. a.claim) h.audited)
        h.once);
  keyed = save_links-IsKeyed claim.id links t keyed;
}

-- `link_evidence` raises one of its exceptions, or returns links of the claim to distinct nodes,
-- each with the paper of a stored node and a part of that node's text, and has reconciled the table
-- with them or, without a link, left it as it was; the identifiers of the table stay distinct and
-- below the next one, as they are assumed to be before.
pub link_evidence-IsLinked :
    (s : Services) (claim : Claim) (scope_name : String) (t : EvidenceTable)
    → IsKeyed t
    → Yields IsLinkFailure (IsLinked s claim t) (link_evidence s claim scope_name t)
unfolding link_evidence
link_evidence-IsLinked s claim scope_name t keyed =
    let text = strip claim.normalized_text in
    Yields-bind _ _ (Yields-guard (leb 1 claim.id) _ bad_claim) λ _ _.
      Yields-bind _ _ (Yields-guard (not (is_blank text)) _ bad_claim) λ _ _.
        Yields-bind _ _ (Yields-guard (not (is_blank (strip scope_name))) _ blank_scope) λ _ _.
          Yields-bind _ _ (Yields-need_any (s.traverse text scope_name) _ no_traversal) λ found _.
            let ids = fromkeys [] (ranked_ids found.ranked_nodes) in
            let candidates = load_candidate_nodes s.nodes ids in
            if_ind (Yields IsLinkFailure (IsLinked s claim t)) (is_empty candidates)
              (λ _.
                returns
                  (record { audited = tt; once = tt; saved = inl (refl, refl); keyed = keyed }))
              (λ _.
                Yields-bind _ _ (Yields-need_any (s.complete claim.id text candidates) _ no_answer)
                  λ response _.
                    Yields-bind _ _ (validated_links-answer response claim.id candidates) λ links h.
                      returns (
                        finish-IsLinked s claim t candidates links keyed
                          (load_candidate_nodes-AreCandidates s.nodes ids) h))
  where
    validated_links-answer :
        (response : Value) (claim_id : ℕ) (candidates : List CandidateNode)
        → Yields IsLinkFailure
            (AreLinks claim_id candidates)
            (validated_links response claim_id candidates)
    validated_links-answer response claim_id candidates =
        go (validated_links-AreLinks response claim_id candidates)
      where
        go :
            {r : Result Error (List ClaimEvidence)}
            → Yields IsBadAnswer (AreLinks claim_id candidates) r
            → Yields IsLinkFailure (AreLinks claim_id candidates) r
        go (returns p) = returns p
        go (raises x) = raises (answer x)
