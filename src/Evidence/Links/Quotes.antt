-- ===== src/Evidence/Links/Quotes.antt =====
-- What a link has been checked for.
use Prim.Native.String.{◌++◌ as concat}
use ai_researcher.Prelude.{
  false_of_not, Bool-cases, ℕ, String, ◌≡◌, refl, sym, ap, subst, ◌∙◌, inl, inr, Bool, true, false,
  not, Option, none, some, List, [], ◌∷◌, ◌++◌, nat_eq, string_eq, ◌==◌, beq_self, eq_of_beq,
  is_empty, contains, contains-append, same_set, Distinct, Distinct-snoc, lookup, insert, All,
  All-append, All-map, All-insert, All-lookup, Exists, Exists-self, Exists-weaken, if_ind, Yields,
  returns, raises, Yields-need, Yields-need_any, Yields-guard, Yields-bind, arith,
}
use ai_researcher.Text.{split}
use ai_researcher.Text.Matching.{search_words_lem}
use ai_researcher.Json.{
  Value, null, bool, int, float, str, obj, arr, get, as_dict, as_list, as_string, as_bool,
  as_natural,
}
use ai_researcher.Tables.{Stance}
use ai_researcher.Evidence.Errors.{
  Error, invalid_object, invalid_classification, incomplete, unhashable,
}
use ai_researcher.Evidence.Links.{
  CandidateNode, ClaimEvidence, Classified, verbatim_span, as_stance, candidates_by_id, add_link,
  classify, classify_all, validated_links, linked_nodes,
}

-- The exceptions for an answer of the model that is no set of classifications.
pub data IsBadAnswer : Error → Type 0 where
  object : IsBadAnswer invalid_object
  classification : IsBadAnswer invalid_classification
  missing : IsBadAnswer incomplete
  no_hash : IsBadAnswer unhashable

-- A part of the text, character by character.
abbrev pub IsPart : String → String → Type 0
IsPart quote text =
    (before : String) × (after : String) × (text ≡ concat before (concat quote after))

-- The link is one of the claim, to a candidate node and its paper, and it quotes the node's text.
pub record IsAudited (claim_id : ℕ) (candidates : List CandidateNode) (link : ClaimEvidence)
    : Type 0 where
  pub claim : link.claim_id ≡ claim_id
  pub source :
      Exists
        (λ c.
          (c.node_id ≡ link.tree_node_id)
          × (c.paper_id ≡ link.paper_id)
          × IsPart link.rationale_text c.body_text)
        candidates

verbatim_span-IsPart :
    (body rationale quote : String) → verbatim_span body rationale ≡ some quote → IsPart quote body
unfolding verbatim_span
verbatim_span-IsPart body rationale quote h =
    if_ind (λ o. o ≡ some quote → IsPart quote body) (is_empty (split rationale)) (λ _ k. cc)
      (λ _ k. search_words_lem (split rationale) body quote k) h

-- The entries of `candidates_by_id` are candidates, each under its node.
abbrev pub IsCandidate : List CandidateNode → CandidateNode → Type 0
IsCandidate candidates c = Exists (λ x. x ≡ c) candidates

abbrev pub IsIndex : List CandidateNode → List (ℕ × CandidateNode) → Type 0
IsIndex candidates d = All (λ e. (e.1.node_id ≡ e.0) × IsCandidate candidates e.1) d

pub candidates_by_id-IsIndex :
    (all rest : List CandidateNode) (d : List (ℕ × CandidateNode))
    → All (IsCandidate all) rest
    → IsIndex all d
    → IsIndex all (candidates_by_id d rest)
unfolding candidates_by_id
candidates_by_id-IsIndex all [] d h k = k
candidates_by_id-IsIndex all (c ∷ rest) d h k =
    candidates_by_id-IsIndex all rest (insert c.node_id c d) h.1
      (All-insert _ c.node_id c d (refl, h.0) k)

as_stance-Yields : (v : Value) → Yields IsBadAnswer (λ _. Unit {0}) (as_stance v)
unfolding as_stance
as_stance-Yields (str s) =
    if_ind (Yields _ _) (s == "supports") (λ _. returns tt)
      (λ _.
        if_ind (Yields _ _) (s == "refutes") (λ _. returns tt)
          (λ _.
            if_ind (Yields _ _) (s == "mentions") (λ _. returns tt) (λ _. raises classification)))
as_stance-Yields (arr vs) = raises no_hash
as_stance-Yields (obj fs) = raises no_hash
as_stance-Yields null = raises classification
as_stance-Yields (bool b) = raises classification
as_stance-Yields (int n) = raises classification
as_stance-Yields (float x) = raises classification

pub linked_nodes-append :
    (xs ys : List ClaimEvidence) → linked_nodes (xs ++ ys) ≡ linked_nodes xs ++ linked_nodes ys
linked_nodes-append [] ys = refl
linked_nodes-append (x ∷ xs) ys =
    ap (λ (l : List ℕ). x.tree_node_id ∷ l) (linked_nodes-append xs ys)

-- Between two classifications: the links are audited, and they are to distinct nodes that have been
-- seen.
record IsSound (claim_id : ℕ) (candidates : List CandidateNode) (w : Classified) : Type 0 where
  audited : All (IsAudited claim_id candidates) w.links
  once : Distinct (linked_nodes w.links)
  seen : All (λ i. contains w.seen_node_ids i ≡ true) (linked_nodes w.links)

unseen :
    (seen : List ℕ) (i : ℕ) (nodes : List ℕ)
    → contains seen i ≡ false
    → All (λ j. contains seen j ≡ true) nodes
    → contains nodes i ≡ false
unseen seen i [] new h = refl
unseen seen i (j ∷ nodes) new h = elim (Bool-cases (j == i)) [
  | inl same ↦ cc (sym h.0 ∙ ap (contains seen) (eq_of_beq j i same) ∙ new)
  | inr apart ↦ ground (arith, unseen seen i nodes new h.1)
]

module _ (claim_id : ℕ) (candidates : List CandidateNode) where
  grow :
      (w : Classified) (i : ℕ)
      → IsSound claim_id candidates w
      → IsSound claim_id candidates
          (record { seen_node_ids = w.seen_node_ids ++ i ∷ []; links = w.links })
  grow w i h = record {
    audited = h.audited;
    once = h.once;
    seen =
        All-map _ _ (linked_nodes w.links)
          (λ j k. ground (arith, contains-append w.seen_node_ids (i ∷ []) j)) h.seen;
  }

  add_link-IsSound :
      (w : Classified) (c : CandidateNode) (stance : Stance) (direct : Bool) (o : Option String)
      → contains w.seen_node_ids c.node_id ≡ false
      → IsCandidate candidates c
      → ((quote : String) → o ≡ some quote → IsPart quote c.body_text)
      → IsSound claim_id candidates w
      → IsSound claim_id candidates (record {
        seen_node_ids = w.seen_node_ids ++ c.node_id ∷ [];
        links = add_link claim_id c stance direct o w.links;
      })
  unfolding add_link
  add_link-IsSound w c stance direct none new known quoted h = grow w c.node_id h
  add_link-IsSound w c stance direct (some quote) new known quoted h =
      let more = grow w c.node_id h in
      record {
        audited = All-append _ w.links _ h.audited (
          record {
            claim = refl;
            source =
                Exists-weaken _ _ candidates
                  (λ x e.
                    subst
                      (λ y.
                        (y.node_id ≡ c.node_id)
                        × (y.paper_id ≡ c.paper_id)
                        × IsPart quote y.body_text)
                      (sym e) (refl, refl, quoted quote refl))
                  known;
          },
          tt,
        );
        once =
            subst (λ (l : List ℕ). Distinct l) (sym (linked_nodes-append w.links _))
              (Distinct-snoc (linked_nodes w.links) c.node_id h.once
                (unseen w.seen_node_ids c.node_id (linked_nodes w.links) new h.seen));
        seen =
            subst (All (λ i. contains (w.seen_node_ids ++ c.node_id ∷ []) i ≡ true))
              (sym (linked_nodes-append w.links _))
              (All-append _ (linked_nodes w.links) _ more.seen (
                ground (
                  arith,
                  contains-append w.seen_node_ids (c.node_id ∷ []) c.node_id,
                  beq_self c.node_id,
                ),
                tt,
              ));
      }

  classify-IsSound :
      (by_id : List (ℕ × CandidateNode)) (w : Classified) (v : Value)
      → IsIndex candidates by_id
      → IsSound claim_id candidates w
      → Yields IsBadAnswer (IsSound claim_id candidates) (classify claim_id by_id w v)
  unfolding classify
  classify-IsSound by_id w v index h =
      Yields-bind _ _ (Yields-need_any (as_dict v) _ classification) λ fields _.
        Yields-bind _ _ (Yields-need_any (as_natural (get "node_id" fields)) _ classification)
          λ i _.
            Yields-bind _ _ (Yields-guard (not (contains w.seen_node_ids i)) _ classification)
              λ _ new.
                Yields-bind _ _ (Yields-need (lookup i by_id) _ classification (λ c q. q))
                  λ c found. Yields-bind _ _ (as_stance-Yields (get "stance" fields)) λ stance _.
                    Yields-bind _ _
                      (Yields-need_any (as_string (get "rationale" fields)) _ classification)
                      λ rationale _.
                        Yields-bind _ _
                          (Yields-need_any (as_bool (get "is_direct" fields)) _ classification)
                          λ direct _.
                            let (named, known) = All-lookup _ i c by_id index found in
                            returns (
                              subst
                                (λ j. IsSound claim_id candidates (record {
                                  seen_node_ids = w.seen_node_ids ++ j ∷ [];
                                  links =
                                      add_link claim_id c stance direct
                                        (verbatim_span c.body_text rationale) w.links;
                                }))
                                named
                                (add_link-IsSound w c stance direct
                                  (verbatim_span c.body_text rationale)
                                  (subst (λ j. contains w.seen_node_ids j ≡ false) (sym named)
                                    (false_of_not _ new))
                                  known
                                  (λ quote q. verbatim_span-IsPart c.body_text rationale quote q)
                                  h))

  classify_all-IsSound :
      (by_id : List (ℕ × CandidateNode)) (w : Classified) (vs : List Value)
      → IsIndex candidates by_id
      → IsSound claim_id candidates w
      → Yields IsBadAnswer (IsSound claim_id candidates) (classify_all claim_id by_id w vs)
  unfolding classify_all
  classify_all-IsSound by_id w [] index h = returns h
  classify_all-IsSound by_id w (v ∷ vs) index h =
      Yields-bind _ _ (classify-IsSound by_id w v index h)
        λ next k. classify_all-IsSound by_id next vs index k

-- The links of one claim: audited, and to distinct nodes.
pub record AreLinks (claim_id : ℕ) (candidates : List CandidateNode) (links : List ClaimEvidence)
    : Type 0 where
  pub audited : All (IsAudited claim_id candidates) links
  pub once : Distinct (linked_nodes links)

-- `_validated_links` returns links of the claim to distinct candidates, each with the candidate's
-- paper and with a rationale that is a part of the candidate's text, character by character; or it
-- raises an exception for the answer.
pub validated_links-AreLinks :
    (response : Value) (claim_id : ℕ) (candidates : List CandidateNode)
    → Yields IsBadAnswer
        (AreLinks claim_id candidates)
        (validated_links response claim_id candidates)
unfolding validated_links
validated_links-AreLinks response claim_id candidates =
    Yields-bind _ _ (Yields-need_any (as_dict response) _ object) λ fields _.
      Yields-bind _ _ (Yields-need_any (as_list (get "classifications" fields)) _ object) λ vs _.
        Yields-bind _ _
          (classify_all-IsSound claim_id candidates (candidates_by_id [] candidates) _ vs
            (candidates_by_id-IsIndex candidates candidates [] (Exists-self candidates) tt)
            (record { audited = tt; once = tt; seen = tt }))
          λ w h.
            Yields-bind _ _ (Yields-guard (same_set w.seen_node_ids _) _ missing)
              λ _ _. returns (record { audited = h.audited; once = h.once })
