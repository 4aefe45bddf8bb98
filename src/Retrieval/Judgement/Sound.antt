-- ===== src/Retrieval/Judgement/Sound.antt =====
-- What an accepted answer of the model has been checked for.
use ai_researcher.Prelude.{
  false_of_not, insert_new, keys-insert_new, Yields, returns, Yields-need_any, Yields-guard,
  Yields-bind, sym, ◌∙◌, ℕ, ◌≤◌, ◌≡◌, refl, Bool, true, false, not, List, [], ◌∷◌, ◌++◌, leb,
  leb→le, nat_eq, string_eq, contains, Distinct, Distinct-snoc, same_set, true_of_&&, keys, values,
  insert, All, All-append, arith, every, ap,
}
use ai_researcher.Text.{strip, is_blank}
use ai_researcher.Json.{Value, get, as_dict, as_list, as_bool, as_string, as_natural}
use ai_researcher.Retrieval.Outcomes.{IsReported, object, judgement, incomplete}
use ai_researcher.Retrieval.Judgement.{
  Judgement, Judgements, judge, judge_all, validated_judgements,
}

-- Each judgement has a relevance of at most 100 and a reason that is not blank.
abbrev pub IsUsable : Judgement → Type 0
IsUsable j = (j.relevance ≤ 100) × (is_blank j.reason ≡ false)

pub record IsChecked (expected_ids : List ℕ) (js : Judgements) : Type 0 where
  pub distinct : Distinct (keys js)
  pub expected : every (contains expected_ids) (keys js) ≡ true
  pub usable : All IsUsable (values js)

values-snoc :
    (k : ℕ) (j : Judgement) (js : Judgements) → values (js ++ (k, j) ∷ []) ≡ values js ++ j ∷ []
values-snoc k j [] = refl
values-snoc k j ((i, l) ∷ js) = ap (λ vs. l ∷ vs) (values-snoc k j js)

every-snoc :
    (test : ℕ → Bool) (xs : List ℕ) (a : ℕ)
    → every test xs ≡ true
    → test a ≡ true
    → every test (xs ++ a ∷ []) ≡ true
every-snoc test [] a h k = ground arith
every-snoc test (x ∷ xs) a h k = ground (arith, every-snoc test xs a)

insert-IsChecked :
    (expected_ids : List ℕ) (k : ℕ) (j : Judgement) (js : Judgements)
    → contains (keys js) k ≡ false
    → contains expected_ids k ≡ true
    → IsUsable j
    → IsChecked expected_ids js
    → IsChecked expected_ids (insert k j js)
insert-IsChecked expected_ids k j js new known u c =
    rw (insert_new {V = Judgement} k j js new) (record {
      distinct =
          rw
            (sym (ap (λ (d : Judgements). keys d) (insert_new k j js new))
              ∙ keys-insert_new k j js new)
            (Distinct-snoc (keys js) k c.distinct new);
      expected =
          rw
            (sym (ap (λ (d : Judgements). keys d) (insert_new k j js new))
              ∙ keys-insert_new k j js new)
            (every-snoc (contains expected_ids) (keys js) k c.expected known);
      usable = rw (values-snoc k j js) (All-append IsUsable (values js) (j ∷ []) c.usable (u, tt));
    })

judge-IsChecked :
    (expected_ids : List ℕ) (js : Judgements) (item : Value)
    → IsChecked expected_ids js
    → Yields IsReported (IsChecked expected_ids) (judge expected_ids js item)
unfolding judge
judge-IsChecked expected_ids js item c =
    Yields-bind _ _ (Yields-need_any (as_dict item) _ judgement) λ fields _.
      Yields-bind _ _ (Yields-need_any (as_natural (get "node_id" fields)) _ judgement) λ k _.
        Yields-bind _ _ (Yields-guard (contains expected_ids k) _ judgement) λ _ known.
          Yields-bind _ _ (Yields-guard (not (contains (keys js) k)) _ judgement) λ _ new.
            Yields-bind _ _ (Yields-need_any (as_natural (get "relevance" fields)) _ judgement)
              λ relevance _.
                Yields-bind _ _ (Yields-guard (leb relevance 100) _ judgement) λ _ small.
                  Yields-bind _ _ (Yields-need_any (as_bool (get "selected" fields)) _ judgement)
                    λ selected _.
                      Yields-bind _ _ (Yields-need_any (as_bool (get "expand" fields)) _ judgement)
                        λ expand _.
                          Yields-bind _ _
                            (Yields-need_any (as_string (get "reason" fields)) _ judgement)
                            λ reason _.
                              Yields-bind _ _
                                (Yields-guard (not (is_blank (strip reason))) _ judgement)
                                λ _ said. returns (
                                  insert-IsChecked expected_ids k _ js (false_of_not _ new) known
                                    (leb→le relevance 100 small, false_of_not _ said) c)

judge_all-IsChecked :
    (expected_ids : List ℕ) (js : Judgements) (records : List Value)
    → IsChecked expected_ids js
    → Yields IsReported (IsChecked expected_ids) (judge_all expected_ids js records)
unfolding judge_all
judge_all-IsChecked expected_ids js [] c = returns c
judge_all-IsChecked expected_ids js (item ∷ records) c =
    Yields-bind _ _ (judge-IsChecked expected_ids js item c)
      λ next checked. judge_all-IsChecked expected_ids next records checked

-- Every opened node has a judgement, no other node has one, and none has two.
pub record IsComplete (expected_ids : List ℕ) (js : Judgements) : Type 0 where
  pub checked : IsChecked expected_ids js
  pub judged : every (contains (keys js)) expected_ids ≡ true

-- The validator returns a complete set of judgements, or raises `TraversalResponseError`.
pub validated_judgements-IsComplete :
    (response : Value) (expected_ids : List ℕ)
    → Yields IsReported
        (λ r. IsComplete expected_ids r.0)
        (validated_judgements response expected_ids)
unfolding validated_judgements
validated_judgements-IsComplete response expected_ids =
    Yields-bind _ _ (Yields-need_any (as_dict response) _ object) λ fields _.
      Yields-bind _ _ (Yields-need_any (as_list (get "judgements" fields)) _ object) λ records _.
        Yields-bind _ _ (Yields-need_any (as_bool (get "sufficient_evidence" fields)) _ object)
          λ sufficient _.
            Yields-bind _ _
              (judge_all-IsChecked expected_ids [] records
                (record { distinct = tt; expected = refl; usable = tt }))
              λ js checked.
                Yields-bind _ _ (Yields-guard (same_set (keys js) expected_ids) _ incomplete)
                  λ _ same. returns (record { checked = checked; judged = (true_of_&& _ _ same).1 })
