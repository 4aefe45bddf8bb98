-- ===== src/Trees/Shortlist/Selection.antt =====
-- What a shortlist of the model has been checked for.
use ai_researcher.Prelude.{
  false_of_not, ℕ, String, ◌≡◌, refl, ◌≤◌, true, false, not, ◌||◌, Option, List, [], ◌∷◌, ◌++◌,
  nat_eq, ◌==◌, leb, length, is_empty, take, length-take, if_ind, All, All-append, contains,
  Distinct, Distinct-snoc, Yields, returns, Yields-need_any, Yields-guard, Yields-bind, Yields-map,
  All-map, arith, zero, suc,
}
use ai_researcher.Text.{strip, is_blank}
use ai_researcher.Json.{Value, get, as_dict, as_list, as_natural}
use ai_researcher.Trees.Shortlist.{
  Error, invalid_request, invalid_object, invalid_paper_id, model_failed, Candidate, CandidateRow,
  candidate_ids, add_row, load_candidates, select_papers, validated_paper_ids,
  validate_shortlist_request, shortlist,
}

abbrev pub row_ids : List CandidateRow → List ℕ
row_ids [] = []
row_ids (row ∷ rows) = row.id ∷ row_ids rows

-- At most `limit` papers, each a paper of the rows, none twice.
pub record IsShortlist (rows : List CandidateRow) (limit : ℕ) (paper_ids : List ℕ) : Type 0 where
  pub short : length paper_ids ≤ limit
  pub distinct : Distinct paper_ids
  pub known : All (λ i. contains (row_ids rows) i ≡ true) paper_ids

contains-add_row :
    (row : CandidateRow) (cs : List Candidate) (a : ℕ)
    → contains (candidate_ids (add_row row cs)) a ≡ (contains (candidate_ids cs) a || row.id == a)
unfolding add_row
contains-add_row row [] a = ground arith
contains-add_row row (c ∷ cs) a =
    if_ind
      (λ l. contains (candidate_ids l) a ≡ (contains (candidate_ids (c ∷ cs)) a || row.id == a))
      (c.paper_id == row.id) (λ same. ground arith) (λ _. ground (arith, contains-add_row row cs a))

contains-load_candidates :
    (cs : List Candidate) (rows : List CandidateRow) (a : ℕ)
    → contains (candidate_ids (load_candidates cs rows)) a
      ≡ (contains (candidate_ids cs) a || contains (row_ids rows) a)
unfolding load_candidates
contains-load_candidates cs [] a = ground arith
contains-load_candidates cs (row ∷ rows) a =
    ground (arith, contains-load_candidates (add_row row cs) rows a, contains-add_row row cs a)

pub data IsRefused : Error → Type 0 where
  request : IsRefused invalid_request
  object : IsRefused invalid_object
  paper : IsRefused invalid_paper_id
  no_model : IsRefused model_failed

All-take : (P : ℕ → Type 0) (n : ℕ) (xs : List ℕ) → All P xs → All P (take n xs)
All-take P zero xs h = tt
All-take P (suc n) [] h = tt
All-take P (suc n) (x ∷ xs) h = (h.0, All-take P n xs h.1)

contains-take :
    (n : ℕ) (xs : List ℕ) (a : ℕ) → contains xs a ≡ false → contains (take n xs) a ≡ false
contains-take zero xs a h = refl
contains-take (suc n) [] a h = refl
contains-take (suc n) (x ∷ xs) a h = ground (arith, contains-take n xs a)

Distinct-take : (n : ℕ) (xs : List ℕ) → Distinct xs → Distinct (take n xs)
Distinct-take zero xs d = tt
Distinct-take (suc n) [] d = tt
Distinct-take (suc n) (x ∷ xs) d = (contains-take n xs x d.0, Distinct-take n xs d.1)

abbrev IsSelection : List ℕ → List ℕ → Type 0
IsSelection expected selected = Distinct selected × All (λ i. contains expected i ≡ true) selected

select_papers-IsSelection :
    (expected selected : List ℕ) (values : List Value)
    → IsSelection expected selected
    → Yields IsRefused (IsSelection expected) (select_papers expected selected values)
unfolding select_papers
select_papers-IsSelection expected selected [] h = returns h
select_papers-IsSelection expected selected (v ∷ vs) h =
    Yields-bind _ _ (Yields-need_any (as_natural v) _ paper) λ i _.
      Yields-bind _ _ (Yields-guard (contains expected i) _ paper) λ _ known.
        Yields-bind _ _ (Yields-guard (not (contains selected i)) _ paper) λ _ new.
          select_papers-IsSelection expected (selected ++ i ∷ []) vs (
            Distinct-snoc selected i h.0 (false_of_not _ new),
            All-append _ selected (i ∷ []) h.1 (known, tt),
          )

validated_paper_ids-IsShortlist :
    (response : Value) (rows : List CandidateRow) (limit : ℕ)
    → Yields IsRefused
        (IsShortlist rows limit)
        (validated_paper_ids response (load_candidates [] rows) limit)
unfolding validated_paper_ids
validated_paper_ids-IsShortlist response rows limit =
    Yields-bind _ _ (Yields-need_any (as_dict response) _ object) λ fields _.
      Yields-bind _ _ (Yields-need_any (as_list (get "paper_ids" fields)) _ object) λ values _.
        Yields-bind _ _
          (select_papers-IsSelection (candidate_ids (load_candidates [] rows)) [] values (tt, tt))
          λ selected (distinct, known). returns (record {
            short = omega (arith, length-take limit selected);
            distinct = Distinct-take limit selected distinct;
            known = All-take _ limit selected (
                All-map _ _ selected (λ i h. ground (arith, contains-load_candidates [] rows i))
                  known);
          })

validate_shortlist_request-Yields :
    (scope question : String) (limit : ℕ)
    → Yields IsRefused (λ _. Unit {0}) (validate_shortlist_request scope question limit)
unfolding validate_shortlist_request
validate_shortlist_request-Yields scope question limit =
    Yields-bind _ _ (Yields-guard (not (is_blank (strip scope))) _ request) λ _ _.
      Yields-bind _ _ (Yields-guard (not (is_blank (strip question))) _ request)
        λ _ _. Yields-map (λ _ _. tt) (Yields-guard (leb 1 limit) _ request)

-- A shortlist is at most `limit` papers long, without repetition, and of papers of the scope's
-- rows alone; the only exceptions are those for a bad request or a bad answer, and what the
-- gateway raises.
pub shortlist-IsShortlist :
    (rows : String → List CandidateRow) (complete : List Candidate → Option Value)
    (scope question : String) (limit : ℕ)
    → Yields IsRefused
        (IsShortlist (rows scope) limit)
        (shortlist rows complete scope question limit)
unfolding shortlist
shortlist-IsShortlist rows complete scope question limit =
    Yields-bind _ _ (validate_shortlist_request-Yields scope question limit) λ _ _.
      if_ind (Yields _ _) (is_empty (load_candidates [] (rows scope)))
        (λ _. returns (record { short = omega arith; distinct = tt; known = tt }))
        (λ _.
          Yields-bind _ _ (Yields-need_any (complete (load_candidates [] (rows scope))) _ no_model)
            λ response _. validated_paper_ids-IsShortlist response (rows scope) limit)
