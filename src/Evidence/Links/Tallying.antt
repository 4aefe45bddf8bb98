-- ===== src/Evidence/Links/Tallying.antt =====
-- `link_scope_evidence` as a whole.
use ai_researcher.Prelude.{
  ℕ, ◌+◌, String, ◌≡◌, refl, sym, ap, ◌∙◌, inl, inr, Bool, true, false, not, List, [], ◌∷◌, select,
  length, length-append, ◌++◌, nat_eq, ◌==◌, beq_self, eq_of_beq, contains, All, All-map, Result,
  ok, err, if_ind, Bool-cases, Yields, Yields-ok, arith,
}
use ai_researcher.Tables.{EvidenceRow}
use ai_researcher.Evidence.Errors.{Error}
use ai_researcher.Evidence.Links.{
  ClaimEvidence, EvidenceTable, Claim, Services, ScopeLinks, link_evidence, count_claim,
  link_claims, link_scope_evidence,
}
use ai_researcher.Evidence.Links.Stores.{IsKeyed, of_other}
use ai_researcher.Evidence.Links.Linking.{IsLinkFailure, IsLinked, link_evidence-IsLinked}

abbrev pub claim_ids : List Claim → List ℕ
claim_ids [] = []
claim_ids (c ∷ claims) = c.id ∷ claim_ids claims

-- The rows of claims that are not among these.
abbrev pub outside : List ℕ → EvidenceRow → Bool
outside ids r = not (contains ids r.claim_id)

-- The order of selections does not matter.
select_finer :
    (coarse fine : EvidenceRow → Bool) (xs : List EvidenceRow)
    → ((r : EvidenceRow) → fine r ≡ true → coarse r ≡ true)
    → select fine (select coarse xs) ≡ select fine xs
select_finer coarse fine [] h = refl
select_finer coarse fine (x ∷ xs) h =
    let ih = select_finer coarse fine xs h in
    elim (Bool-cases (fine x)) [
      | inl in_fine ↦ rw (h x in_fine, in_fine) (ap (λ l. x ∷ l) ih)
      | inr out ↦
          rw out
            (if_ind (λ l. select fine l ≡ select fine xs) (coarse x) (λ _. rw out ih) (λ _. ih))
    ]

-- The turns of the claims, each on the table that the turn before has left: the claims whose
-- `link_evidence` returned, those whose raised, which leave the table, and all links returned.
pub data Turns (s : Services) (scope_name : String)
    : List Claim
      → EvidenceTable
      → EvidenceTable
      → List Claim
      → List Claim
      → List ClaimEvidence
      → Type 0 where
  over : {t : EvidenceTable} → Turns s scope_name [] t t [] [] []
  returned :
      {claim : Claim} {claims linked failed : List Claim} {t next after : EvidenceTable}
      {links rest : List ClaimEvidence}
      → link_evidence s claim scope_name t ≡ ok (links, next)
      → Turns s scope_name claims next after linked failed rest
      → Turns s scope_name (claim ∷ claims) t after (claim ∷ linked) failed (links ++ rest)
  raised :
      {claim : Claim} {claims linked failed : List Claim} {t after : EvidenceTable}
      {rest : List ClaimEvidence} {e : Error}
      → link_evidence s claim scope_name t ≡ err e
      → Turns s scope_name claims t after linked failed rest
      → Turns s scope_name (claim ∷ claims) t after linked (claim ∷ failed) rest

-- The counts are those of the turns.
pub record IsTally (s : Services) (scope_name : String) (ids : List ℕ) (claims : List Claim)
    (before after : ScopeLinks) : Type 0 where
  pub linked : List Claim
  pub failed : List Claim
  pub links : List ClaimEvidence
  pub turns : Turns s scope_name claims before.table after.table linked failed links
  pub count_linked : after.claims_linked ≡ before.claims_linked + length linked
  pub count_failed : after.failed ≡ before.failed + length failed
  pub count_links : after.evidence_links ≡ before.evidence_links + length links
  pub counted :
      after.claims_linked + after.failed ≡ before.claims_linked + before.failed + length claims
  pub others : select (outside ids) after.table.rows ≡ select (outside ids) before.table.rows
  pub keyed : IsKeyed after.table

module _ (s : Services) (scope_name : String) (ids : List ℕ) where
  others_of_saved :
      (claim : Claim) (t : EvidenceTable) (r : List ClaimEvidence × EvidenceTable)
      → contains ids claim.id ≡ true
      → IsLinked s claim t r
      → select (outside ids) r.1.rows ≡ select (outside ids) t.rows
  others_of_saved claim t r member h = elim h.saved [
    | inl same ↦ ap (λ (u : EvidenceTable). select (outside ids) u.rows) same.1
    | inr done ↦
        sym (select_finer (of_other claim.id) (outside ids) r.1.rows other)
        ∙ ap (select (outside ids)) done.others
        ∙ select_finer (of_other claim.id) (outside ids) t.rows other
  ]
    where
      other : (x : EvidenceRow) → outside ids x ≡ true → of_other claim.id x ≡ true
      other x q = elim (Bool-cases (x.claim_id == claim.id)) [
        | inr apart ↦ ground arith
        | inl same ↦
            let out : contains ids x.claim_id ≡ false = ground arith in
            let there : contains ids x.claim_id ≡ contains ids claim.id =
              ap (contains ids) (eq_of_beq x.claim_id claim.id same) in
            cc (sym out ∙ there ∙ member)
      ]

  count_claim-IsTally :
      (claim : Claim) (claims : List Claim) (w after : ScopeLinks)
      (r : Result Error (List ClaimEvidence × EvidenceTable))
      → link_evidence s claim scope_name w.table ≡ r
      → contains ids claim.id ≡ true
      → Yields IsLinkFailure (IsLinked s claim w.table) r
      → IsTally s scope_name ids claims (count_claim w r) after
      → IsTally s scope_name ids (claim ∷ claims) w after
  unfolding count_claim
  count_claim-IsTally claim claims w after (err e) q member y h = record {
    linked = h.linked;
    failed = claim ∷ h.failed;
    links = h.links;
    turns = raised q h.turns;
    count_linked = h.count_linked;
    count_failed = let a = h.count_failed in omega arith;
    count_links = h.count_links;
    counted = let a = h.counted in omega arith;
    others = h.others;
    keyed = h.keyed;
  }
  count_claim-IsTally claim claims w after (ok r) q member y h = record {
    linked = claim ∷ h.linked;
    failed = h.failed;
    links = r.0 ++ h.links;
    turns = returned q h.turns;
    count_linked = let a = h.count_linked in omega arith;
    count_failed = h.count_failed;
    count_links = let a = h.count_links in let b = length-append r.0 h.links in omega arith;
    counted = let a = h.counted in omega arith;
    others = h.others ∙ others_of_saved claim w.table r member (Yields-ok y refl);
    keyed = h.keyed;
  }

  count_claim-IsKeyed :
      (claim : Claim) (w : ScopeLinks) (r : Result Error (List ClaimEvidence × EvidenceTable))
      → IsKeyed w.table
      → Yields IsLinkFailure (IsLinked s claim w.table) r
      → IsKeyed (count_claim w r).table
  unfolding count_claim
  count_claim-IsKeyed claim w (err e) keyed y = keyed
  count_claim-IsKeyed claim w (ok r) keyed y = (Yields-ok y refl).keyed

  link_claims-IsTally :
      (claims : List Claim) (w : ScopeLinks)
      → All (λ c. contains ids c.id ≡ true) claims
      → IsKeyed w.table
      → IsTally s scope_name ids claims w (link_claims s scope_name claims w)
  unfolding link_claims
  link_claims-IsTally [] w known keyed = record {
    linked = [];
    failed = [];
    links = [];
    turns = over;
    count_linked = omega arith;
    count_failed = omega arith;
    count_links = omega arith;
    counted = omega arith;
    others = refl;
    keyed = keyed;
  }
  link_claims-IsTally (c ∷ claims) w known keyed =
      let r = link_evidence s c scope_name w.table in
      let y = link_evidence-IsLinked s c scope_name w.table keyed in
      count_claim-IsTally c claims w _ r refl known.0 y
        (link_claims-IsTally claims (count_claim w r) known.1 (count_claim-IsKeyed c w r keyed y))

claim_ids-contains :
    (claims : List Claim) → All (λ c. contains (claim_ids claims) c.id ≡ true) claims
claim_ids-contains [] = tt
claim_ids-contains (c ∷ claims) = (
  ground (arith, beq_self c.id),
  All-map _ _ claims (λ x h. ground arith) (claim_ids-contains claims),
)

-- `link_scope_evidence` takes the claims in order, each on the table that the one before left, and
-- counts as linked exactly those whose `link_evidence` returns, with the number of the links, and
-- as failed those whose raises, which change nothing and do not stop the others; the rows of claims
-- outside the scope stay as they were, and the identifiers of the table distinct and below the next
-- one, as they are assumed to be before.
pub link_scope_evidence-IsTally :
    (s : Services) (scope_name : String) (claims : List Claim) (t : EvidenceTable)
    → IsKeyed t
    → IsTally s scope_name
        (claim_ids claims)
        claims
        (record { claims_linked = 0; evidence_links = 0; failed = 0; table = t })
        (link_scope_evidence s scope_name claims t)
unfolding link_scope_evidence
link_scope_evidence-IsTally s scope_name claims t keyed =
    link_claims-IsTally s scope_name (claim_ids claims) claims
      (record { claims_linked = 0; evidence_links = 0; failed = 0; table = t })
      (claim_ids-contains claims) keyed
