-- ===== src/Answer/Statements/Attribution.antt =====
-- What the accepted statements have been checked for.
use ai_researcher.Prelude.{
  false_of_not, ℕ, ◌≡◌, refl, ap, ◌∙◌, true, false, not, ◌||◌, List, [], ◌∷◌, ◌++◌, nat_eq,
  string_eq, ◌==◌, eq_of_beq, is_empty, length, if_ind, if◌then◌else◌, All, All-append, contains,
  contains-append, Distinct, Distinct-snoc, Yields, returns, Yields-need_any, Yields-guard,
  Yields-bind, Bool-cases, arith, inl, inr,
}
use ai_researcher.Text.{strip, is_blank, splitlines}
use ai_researcher.Json.{Value, get, as_dict, as_list, as_string, as_natural}
use ai_researcher.Answer.Errors.{Error}
use ai_researcher.Answer.Statements.{
  Statement, fromkeys, allowed_ids, validated_statement, statement_all, validated_statements,
}

snoc_some : (xs : List ℕ) (a : ℕ) → is_empty (xs ++ a ∷ []) ≡ false
snoc_some [] a = refl
snoc_some (x ∷ xs) a = refl

-- `fromkeys` keeps the elements, each of them once.
pub All-fromkeys :
    (P : ℕ → Type 0) (seen ids : List ℕ) → All P seen → All P ids → All P (fromkeys seen ids)
unfolding fromkeys
All-fromkeys P seen [] h k = h
All-fromkeys P seen (i ∷ ids) h k =
    All-fromkeys P (if contains seen i then seen else seen ++ i ∷ []) ids
      (if_ind (λ l. All P l) (contains seen i) (λ _. h)
        (λ _. All-append P seen (i ∷ []) h (k.0, tt)))
      k.1

pub Distinct-fromkeys : (seen ids : List ℕ) → Distinct seen → Distinct (fromkeys seen ids)
unfolding fromkeys
Distinct-fromkeys seen [] d = d
Distinct-fromkeys seen (i ∷ ids) d =
    Distinct-fromkeys (if contains seen i then seen else seen ++ i ∷ []) ids (
      if_ind (λ (l : List ℕ). Distinct l) (contains seen i) (λ _. d)
        (λ new. Distinct-snoc seen i d new))

-- One more key is there, and those before it are.
contains-step :
    (seen : List ℕ) (i a : ℕ)
    → contains (if contains seen i then seen else seen ++ i ∷ []) a ≡ (contains seen a || i == a)
contains-step seen i a = elim (Bool-cases (i == a)) [
  | inl same ↦
      let q : contains seen i ≡ contains seen a = ap (contains seen) (eq_of_beq i a same) in
      elim (Bool-cases (contains seen i)) [
        | inl old ↦ rw old (ground arith)
        | inr new ↦ rw new (ground (arith, contains-append seen (i ∷ []) a))
      ]
  | inr apart ↦ elim (Bool-cases (contains seen i)) [
    | inl old ↦ rw old (ground arith)
    | inr new ↦ rw new (ground (arith, contains-append seen (i ∷ []) a))
  ]
]

pub contains-fromkeys :
    (seen ids : List ℕ) (a : ℕ)
    → contains (fromkeys seen ids) a ≡ (contains seen a || contains ids a)
unfolding fromkeys
contains-fromkeys seen [] a = ground arith
contains-fromkeys seen (i ∷ ids) a = ground (
  arith,
  contains-fromkeys (if contains seen i then seen else seen ++ i ∷ []) ids a,
  contains-step seen i a,
)

some-fromkeys : (seen ids : List ℕ) → is_empty seen ≡ false → is_empty (fromkeys seen ids) ≡ false
unfolding fromkeys
some-fromkeys seen [] h = h
some-fromkeys seen (i ∷ ids) h =
    some-fromkeys (if contains seen i then seen else seen ++ i ∷ []) ids (
      if_ind (λ (l : List ℕ). is_empty l ≡ false) (contains seen i) (λ _. h)
        (λ _. snoc_some seen i))

some-fromkeys_nil : (ids : List ℕ) → is_empty ids ≡ false → is_empty (fromkeys [] ids) ≡ false
unfolding fromkeys
some-fromkeys_nil [] h = cc
some-fromkeys_nil (i ∷ ids) h = some-fromkeys (i ∷ []) ids refl

-- A statement says something, and cites at least one node, allowed nodes alone, and none twice.
pub record IsAttributed (allowed_node_ids : List ℕ) (s : Statement) : Type 0 where
  pub said : is_blank s.text ≡ false
  pub cites : is_empty s.node_ids ≡ false
  pub distinct : Distinct s.node_ids
  pub allowed : All (λ i. contains allowed_node_ids i ≡ true) s.node_ids

pub Anything : Error → Type 0
Anything e = Unit

anything : (e : Error) → Anything e
unfolding Anything
anything e = tt

allowed_ids-All :
    (allowed_node_ids : List ℕ) (values : List Value)
    → Yields Anything
        (λ ids.
          (is_empty ids ≡ is_empty values) × All (λ i. contains allowed_node_ids i ≡ true) ids)
        (allowed_ids allowed_node_ids values)
unfolding allowed_ids
allowed_ids-All allowed_node_ids [] = returns (refl, tt)
allowed_ids-All allowed_node_ids (v ∷ vs) =
    Yields-bind _ _ (Yields-need_any (as_natural v) _ (anything _)) λ i _.
      Yields-bind _ _ (Yields-guard (contains allowed_node_ids i) _ (anything _)) λ _ known.
        Yields-bind _ _ (allowed_ids-All allowed_node_ids vs) λ ids k. returns (refl, (known, k.1))

validated_statement-IsAttributed :
    (allowed_node_ids : List ℕ) (item : Value)
    → Yields Anything (IsAttributed allowed_node_ids) (validated_statement allowed_node_ids item)
unfolding validated_statement
validated_statement-IsAttributed allowed_node_ids item =
    Yields-bind _ _ (Yields-need_any (as_dict item) _ (anything _)) λ fields _.
      Yields-bind _ _ (Yields-need_any (as_string (get "text" fields)) _ (anything _)) λ text _.
        Yields-bind _ _ (Yields-guard (not (is_blank (strip text))) _ (anything _)) λ _ said.
          Yields-bind _ _ (Yields-guard (length (splitlines (strip text)) == 1) _ (anything _))
            λ _ _.
              Yields-bind _ _ (Yields-need_any (as_list (get "node_ids" fields)) _ (anything _))
                λ values _.
                  Yields-bind _ _ (Yields-guard (not (is_empty values)) _ (anything _)) λ _ more.
                    Yields-bind _ _ (allowed_ids-All allowed_node_ids values) λ ids k.
                      returns (record {
                        said = false_of_not _ said;
                        cites = some-fromkeys_nil ids (k.0 ∙ false_of_not _ more);
                        distinct = Distinct-fromkeys [] ids tt;
                        allowed = All-fromkeys _ [] ids tt k.1;
                      })

statement_all-IsAttributed :
    (allowed_node_ids : List ℕ) (records : List Value)
    → Yields Anything (All (IsAttributed allowed_node_ids)) (statement_all allowed_node_ids records)
unfolding statement_all
statement_all-IsAttributed allowed_node_ids [] = returns tt
statement_all-IsAttributed allowed_node_ids (item ∷ records) =
    Yields-bind _ _ (validated_statement-IsAttributed allowed_node_ids item) λ s a.
      Yields-bind _ _ (statement_all-IsAttributed allowed_node_ids records)
        λ statements b. returns (a, b)

pub validated_statements-IsAttributed :
    (response : Value) (allowed_node_ids : List ℕ)
    → Yields Anything
        (λ statements.
          (is_empty statements ≡ false) × All (IsAttributed allowed_node_ids) statements)
        (validated_statements response allowed_node_ids)
unfolding validated_statements
validated_statements-IsAttributed response allowed_node_ids =
    Yields-bind _ _ (Yields-need_any (as_dict response) _ (anything _)) λ fields _.
      Yields-bind _ _ (Yields-need_any (as_list (get "statements" fields)) _ (anything _))
        λ records _.
          Yields-bind _ _ (statement_all-IsAttributed allowed_node_ids records) λ statements a.
            Yields-bind _ _ (Yields-guard (not (is_empty statements)) _ (anything _))
              λ _ more. returns (false_of_not _ more, a)
