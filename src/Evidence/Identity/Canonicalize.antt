-- ===== src/Evidence/Identity/Canonicalize.antt =====
-- `canonicalize` as a whole: which exceptions it raises, and what it leaves of the claims.
use ai_researcher.Prelude.{
  ℕ, ◌≡◌, refl, sym, ap, ◌∙◌, Bool, true, false, not, ◌&&◌, ◌||◌, Option, none, List, [], ◌∷◌, ◌++◌,
  map, length, every, leb, nat_eq, pair_eq, ◌==◌, contains, contains-append, same_set, Distinct,
  Distinct-snoc, All, All-append, Result, if◌then◌else◌, if_ind, Yields, returns, raises,
  Yields-need_any, Yields-guard, Yields-bind, Yields-map, arith,
}
use ai_researcher.Json.{Value, get, as_dict, as_list, as_bool, as_natural}
use ai_researcher.Tables.{ClaimRow}
use ai_researcher.Evidence.Errors.{
  Error, invalid_claim, invalid_response, invalid_comparison, missing_comparison, model_failed,
}
use ai_researcher.Evidence.Identity.{
  duplicate_ids, is_pointed, CanonicalGroup, CanonicalizationResult, Compared, ClaimTables,
  compare_one, compare_all, validated_duplicate_pairs, canonical_row, duplicate_row, save_group,
  save_canonical_groups, pair_ids, has_ids, canonicalize,
}
use ai_researcher.Evidence.Identity.Roots.{IsNever}
use ai_researcher.Evidence.Identity.Cliques.{IsClique, canonical_groups-AreCanonical}

-- The exceptions of a comparison.
pub data IsIdentityFailure : Error → Type 0 where
  no_answer : IsIdentityFailure model_failed
  response : IsIdentityFailure invalid_response
  claim : IsIdentityFailure invalid_claim
  comparison : IsIdentityFailure invalid_comparison
  missing : IsIdentityFailure missing_comparison

-- Pairs that were asked for, each once.
pub record AreAnswered (candidates duplicates : List (ℕ × ℕ)) : Type 0 where
  pub asked : All (λ p. contains candidates p ≡ true) duplicates
  pub once : Distinct duplicates

-- Between two comparisons.
record IsComparing (candidates : List (ℕ × ℕ)) (w : Compared) : Type 0 where
  asked : All (λ p. contains candidates p ≡ true) w.duplicates
  once : Distinct w.duplicates
  seen : (p : ℕ × ℕ) → contains w.duplicates p ≡ true → contains w.seen p ≡ true

module _ (candidates : List (ℕ × ℕ)) where
  add-IsComparing :
      (w : Compared) (p : ℕ × ℕ) (same : Bool)
      → contains candidates p ≡ true
      → contains w.seen p ≡ false
      → IsComparing candidates w
      → IsComparing candidates (record {
        seen = w.seen ++ p ∷ [];
        duplicates = if same then w.duplicates ++ p ∷ [] else w.duplicates;
      })
  add-IsComparing w p false known new h = record {
    asked = h.asked;
    once = h.once;
    seen = λ q m. ground (arith, contains-append w.seen (p ∷ []) q, h.seen q m);
  }
  add-IsComparing w p true known new h = record {
    asked = All-append _ w.duplicates (p ∷ []) h.asked (known, tt);
    once = Distinct-snoc w.duplicates p h.once (absent (contains w.duplicates p) refl);
    seen = λ q m. more q (contains w.duplicates q) refl m;
  }
    where
      absent : (b : Bool) → contains w.duplicates p ≡ b → contains w.duplicates p ≡ false
      absent false q = q
      absent true q = cc (sym new ∙ h.seen p q)

      more :
          (q : ℕ × ℕ) (b : Bool)
          → contains w.duplicates q ≡ b
          → contains (w.duplicates ++ p ∷ []) q ≡ true
          → contains (w.seen ++ p ∷ []) q ≡ true
      more q true e m = ground (arith, contains-append w.seen (p ∷ []) q, h.seen q e)
      more q false e m =
          ground (arith, contains-append w.seen (p ∷ []) q, contains-append w.duplicates (p ∷ []) q)

  compare_one-IsComparing :
      (w : Compared) (v : Value)
      → IsComparing candidates w
      → Yields IsIdentityFailure (IsComparing candidates) (compare_one candidates w v)
  unfolding compare_one
  compare_one-IsComparing w v h =
      Yields-bind _ _ (Yields-need_any (as_dict v) _ comparison) λ fields _.
        Yields-bind _ _ (Yields-need_any (as_natural (get "left_id" fields)) _ comparison) λ left _.
          Yields-bind _ _ (Yields-need_any (as_natural (get "right_id" fields)) _ comparison)
            λ right _.
              Yields-bind _ _ (Yields-need_any (as_bool (get "same_claim" fields)) _ comparison)
                λ same _.
                  Yields-bind _ _ (Yields-guard (contains candidates (left, right)) _ comparison)
                    λ _ known.
                      Yields-bind _ _
                        (Yields-guard (not (contains w.seen (left, right))) _ comparison)
                        λ _ new.
                          returns (add-IsComparing w (left, right) same known (ground arith) h)

  compare_all-IsComparing :
      (vs : List Value) (w : Compared)
      → IsComparing candidates w
      → Yields IsIdentityFailure (IsComparing candidates) (compare_all candidates w vs)
  unfolding compare_all
  compare_all-IsComparing [] w h = returns h
  compare_all-IsComparing (v ∷ vs) w h =
      Yields-bind _ _ (compare_one-IsComparing w v h) λ next k. compare_all-IsComparing vs next k

-- All that `_validated_duplicate_pairs` returns are pairs of the candidates, each once; or it raises one of its
-- exceptions.
pub validated_duplicate_pairs-AreAnswered :
    (answer : Value) (candidates : List (ℕ × ℕ))
    → Yields IsIdentityFailure
        (AreAnswered candidates)
        (validated_duplicate_pairs answer candidates)
unfolding validated_duplicate_pairs
validated_duplicate_pairs-AreAnswered answer candidates =
    Yields-bind _ _ (Yields-need_any (as_dict answer) _ response) λ fields _.
      Yields-bind _ _ (Yields-need_any (as_list (get "comparisons" fields)) _ response) λ vs _.
        Yields-bind _ _ (Yields-guard (every (λ p. leb 1 p.0 && leb 1 p.1) candidates) _ claim)
          λ _ _.
            Yields-bind _ _
              (compare_all-IsComparing candidates vs (record { seen = []; duplicates = [] })
                (record { asked = tt; once = tt; seen = λ p m. m }))
              λ w h.
                Yields-bind _ _ (Yields-guard (same_set w.seen candidates) _ missing)
                  λ _ _. returns (record { asked = h.asked; once = h.once })

-- A claim but for its place among the canonical ones.
abbrev pub original : {Real : Type 0} → ClaimRow Real → ClaimRow Real
original c = record c { canonical_claim_id = none; identity_checked_at = none }

original-saved :
    {Real : Type 0} (g : CanonicalGroup) (now : ℕ) (cs : List (ClaimRow Real))
    → map original (map (duplicate_row g now) (map (canonical_row g now) cs)) ≡ map original cs
unfolding canonical_row duplicate_row
original-saved g now [] = refl
original-saved {Real = Real} g now (c ∷ cs) =
    let first : original (canonical_row g now c) ≡ original c =
      if_ind (λ d. original d ≡ original c) (c.id == g.canonical_id) (λ _. refl) (λ _. refl) in
    ap
      (λ (d : ClaimRow Real).
        d ∷ map original (map (duplicate_row g now) (map (canonical_row g now) cs)))
      (second (canonical_row g now c) ∙ first)
    ∙ ap (λ (l : List (ClaimRow Real)). original c ∷ l) (original-saved g now cs)
  where
    second : (d : ClaimRow Real) → original (duplicate_row g now d) ≡ original d
    second d =
        if_ind (λ e. original e ≡ original d)
          (contains (duplicate_ids g) d.id || is_pointed (duplicate_ids g) d.canonical_claim_id)
          (λ _. refl) (λ _. refl)

save_canonical_groups-original :
    {Real : Type 0} (accepted : List (ℕ × ℕ)) (groups : List CanonicalGroup) (t : ClaimTables Real)
    → All (IsClique accepted) groups
    → Yields IsNever
        (λ u. map original u.claims ≡ map original t.claims)
        (save_canonical_groups groups t)
unfolding save_canonical_groups save_group
save_canonical_groups-original accepted [] t h = returns refl
save_canonical_groups-original accepted (g ∷ groups) t h = rw h.0.member (
    Yields-map (λ u q. q ∙ original-saved g t.now t.claims)
      (save_canonical_groups-original accepted groups _ h.1))

-- What a call of `canonicalize` that returns has done.
pub record IsCanonicalized {Real : Type 0} (candidates : List (ClaimRow Real × ClaimRow Real))
    (t : ClaimTables Real) (r : CanonicalizationResult × ClaimTables Real) : Type 0 where
  pub compared : r.0.pairs_compared ≡ length candidates
  pub originals : map original r.1.claims ≡ map original t.claims

never :
    {A : Type 0} {P : A → Type 0} {r : Result Error A}
    → Yields IsNever P r
    → Yields IsIdentityFailure P r
never (returns p) = returns p
never (raises x) = absurd x

-- `canonicalize` raises an exception only for the model, its answer or an identifier below 1; or it
-- reports as many comparisons as there are pairs, and every claim stays but for its canonical claim
-- and the time of the check.
pub canonicalize-IsCanonicalized :
    {Real : Type 0} (complete : List (ClaimRow Real × ClaimRow Real) → Option Value)
    (candidates : List (ClaimRow Real × ClaimRow Real)) (t : ClaimTables Real)
    → Yields IsIdentityFailure (IsCanonicalized candidates t) (canonicalize complete candidates t)
unfolding canonicalize
canonicalize-IsCanonicalized complete [] t = returns (record { compared = refl; originals = refl })
canonicalize-IsCanonicalized complete (c ∷ cs) t =
    Yields-bind _ _ (Yields-guard (every (λ p. has_ids p.0 && has_ids p.1) (c ∷ cs)) _ claim) λ _ _.
      Yields-bind _ _ (Yields-need_any (complete (c ∷ cs)) _ no_answer) λ answer _.
        Yields-bind _ _ (validated_duplicate_pairs-AreAnswered answer (pair_ids (c ∷ cs)))
          λ pairs _. Yields-bind _ _ (never (canonical_groups-AreCanonical pairs)) λ groups h.
            Yields-bind _ _ (never (save_canonical_groups-original _ groups t h.cliques))
              λ saved same. returns (record { compared = refl; originals = same })
