-- ===== src/Answer/Synthesize/Grounding.antt =====
-- What an answer of `synthesize` rests on.
use ai_researcher.Prelude.{
  Exists, Exists-self, All-select, ℕ, ◌≡◌, refl, ◌⊎◌, inl, inr, sym, subst, ◌∙◌, Bool, true, false,
  Option, none, some, List, [], ◌∷◌, map, nat_eq, is_empty, if_ind, All, All-left, All-right,
  All-append, All_of_contains, All-insert, All-lookup, contains, lookup_of_contains, Distinct,
  length, ltb, select, keys, insert, Result, ok, err, Yields, returns, raises, Yields-need,
  Yields-bind, Yields-catch, String,
}
use ai_researcher.Text.{join_with}
use ai_researcher.Json.{Value}
use ai_researcher.Retrieval.Traverse.{RankedNode, TraversalResult}
use ai_researcher.Answer.Errors.{
  Error, unresolved, model_failed, missing_key, invalid_object, invalid_statement, no_statements,
  lookup_failed,
}
use ai_researcher.Answer.Citation.{Citation}
use ai_researcher.Answer.Statements.{Statement, fromkeys, render_statement}
use ai_researcher.Answer.Statements.Attribution.{
  IsAttributed, All-fromkeys, Distinct-fromkeys, contains-fromkeys,
  validated_statements-IsAttributed,
}
use ai_researcher.Answer.Synthesize.{
  Answer, Payload, has_real_page_range, nodes_by_id, statement_ids, cite_all, attempt, retry,
  insufficient_answer, is_budget_exhausted, on_unresolved, conclude, synthesize,
}

-- The exceptions that come from outside: from the gateway, or from the citation of a node.
pub data IsOutside (cite_node : RankedNode → Result Error Citation) : Error → Type 0 where
  gateway : IsOutside cite_node model_failed
  citing : {e : Error} (n : RankedNode) → cite_node n ≡ err e → IsOutside cite_node e

-- A retrieved node that can be cited.
abbrev pub IsCitable : TraversalResult → RankedNode → Type 0
IsCitable result n = (has_real_page_range n ≡ true) × Exists (λ r. r ≡ n) result.ranked_nodes

-- The citations of the nodes, one for each.
abbrev pub Cites : (RankedNode → Result Error Citation) → List RankedNode → List Citation → Type 0
Cites cite_node [] [] = Unit
Cites cite_node (n ∷ ns) (c ∷ cs) = (cite_node n ≡ ok c) × Cites cite_node ns cs
Cites cite_node _ _ = ⊥

abbrev pub node_ids_of : List RankedNode → List ℕ
node_ids_of [] = []
node_ids_of (n ∷ ns) = n.node_id ∷ node_ids_of ns

-- An answer with a text: its lines are statements that each cite a node, and its citations are
-- those of citable nodes, each cited once, every node that a statement names among them.
pub record IsGrounded (cite_node : RankedNode → Result Error Citation) (result : TraversalResult)
    (a : Answer) : Type 0 where
  pub statements : List Statement
  pub sources : List RankedNode
  pub text : a.answer_text ≡ some (join_with "\n" (map render_statement statements))
  pub said : is_empty statements ≡ false
  pub sufficient : a.insufficient_evidence ≡ false
  pub cited : Cites cite_node sources a.citations
  pub citable : All (IsCitable result) sources
  pub once : Distinct (node_ids_of sources)
  pub attributed : All (IsAttributed (node_ids_of sources)) statements

-- An answer that says that the evidence does not suffice, and why.
pub record IsRefusal (a : Answer) : Type 0 where
  pub silent : a.answer_text ≡ none
  pub bare : a.citations ≡ []
  pub marked : a.insufficient_evidence ≡ true
  pub reason : String
  pub explained : a.message ≡ some reason

insufficient_answer-IsRefusal : (b : Bool) (m : String) → IsRefusal (insufficient_answer b m)
unfolding insufficient_answer
insufficient_answer-IsRefusal b m = record {
  silent = refl;
  bare = refl;
  marked = refl;
  reason = m;
  explained = refl;
}

module _ (cite_node : RankedNode → Result Error Citation) (P : RankedNode → Type 0) where
  -- Each node stands under its own identifier.
  abbrev IsIndex : List (ℕ × RankedNode) → Type 0
  IsIndex d = All (λ e. (e.1.node_id ≡ e.0) × P e.1) d

  nodes_by_id-IsIndex :
      (nodes : List RankedNode) (d : List (ℕ × RankedNode))
      → All P nodes
      → IsIndex d
      → IsIndex (nodes_by_id d nodes)
  unfolding nodes_by_id
  nodes_by_id-IsIndex [] d h k = k
  nodes_by_id-IsIndex (n ∷ nodes) d h k =
      nodes_by_id-IsIndex nodes (insert n.node_id n d) h.1
        (All-insert _ n.node_id n d (refl, h.0) k)

  abbrev AreSources : List ℕ → List Citation → Type 0
  AreSources ids citations =
      (sources : List RankedNode) × Cites cite_node sources citations
      × (node_ids_of sources ≡ ids)
      × All P sources

  cite_one : (n : RankedNode) → Yields (IsOutside cite_node) (λ c. cite_node n ≡ ok c) (cite_node n)
  cite_one n = go (cite_node n) refl
    where
      go :
          (r : Result Error Citation)
          → cite_node n ≡ r
          → Yields (IsOutside cite_node) (λ c. cite_node n ≡ ok c) r
      go (ok c) q = returns q
      go (err e) q = raises (citing n q)

  cite_all-AreSources :
      (d : List (ℕ × RankedNode)) (ids : List ℕ)
      → IsIndex d
      → All (λ i. contains (keys d) i ≡ true) ids
      → Yields (IsOutside cite_node) (AreSources ids) (cite_all cite_node d ids)
  unfolding cite_all
  cite_all-AreSources d [] h k = returns ([], tt, refl, tt)
  cite_all-AreSources d (i ∷ ids) h k =
      let (n, found) = lookup_of_contains i d k.0 in
      let (named, good) = All-lookup _ i n d h found in
      rw found (
        Yields-bind _ _ (cite_one n) λ c one.
          Yields-bind _ _ (cite_all-AreSources d ids h k.1) λ cs (ns, cited, names, goods).
            returns (n ∷ ns, (one, cited), cc (named, names), (good, goods)))

-- What the attempts give.
abbrev IsAccepted : List ℕ → Option (List Statement) → Type 0
IsAccepted allowed none = Unit
IsAccepted allowed (some statements) =
    (is_empty statements ≡ false) × All (IsAttributed allowed) statements

module _ (cite_node : RankedNode → Result Error Citation) where
  attempt-IsAccepted :
      (call_model : Payload → Option Value) (payload : Payload) (allowed : List ℕ)
      → Yields (IsOutside cite_node) (IsAccepted allowed) (attempt call_model payload allowed)
  unfolding attempt
  attempt-IsAccepted call_model payload allowed =
      Yields-bind _ _ (Yields-need (call_model payload) _ gateway (λ a h. h)) λ response _.
        Yields-catch {P = IsAccepted allowed} _ _
          (Yields-bind _ _ (validated_statements-IsAttributed response allowed)
            λ statements good. returns good)
          (λ o h. h) (λ e _. returns tt)

  retry-IsAccepted :
      (call_model : Payload → Option Value) (payload : Payload) (allowed : List ℕ)
      (first : Option (List Statement))
      → IsAccepted allowed first
      → Yields (IsOutside cite_node) (IsAccepted allowed) (retry call_model payload allowed first)
  unfolding retry
  retry-IsAccepted call_model payload allowed none h = attempt-IsAccepted call_model payload allowed
  retry-IsAccepted call_model payload allowed (some statements) h = returns h

reattribute :
    (allowed target : List ℕ) (statements : List Statement)
    → All (IsAttributed allowed) statements
    → All (λ i. contains target i ≡ true) (statement_ids statements)
    → All (IsAttributed target) statements
reattribute allowed target [] h k = tt
reattribute allowed target (s ∷ statements) h k = (
  record {
    said = h.0.said;
    cites = h.0.cites;
    distinct = h.0.distinct;
    allowed = All-left _ s.node_ids (statement_ids statements) k;
  },
  reattribute allowed target statements h.1 (All-right _ s.node_ids (statement_ids statements) k),
)

all_ids :
    (allowed : List ℕ) (statements : List Statement)
    → All (IsAttributed allowed) statements
    → All (λ i. contains allowed i ≡ true) (statement_ids statements)
all_ids allowed [] h = tt
all_ids allowed (s ∷ statements) h =
    All-append _ s.node_ids (statement_ids statements) h.0.allowed (all_ids allowed statements h.1)

-- What `synthesize` promises of its answer.
pub record IsAnswer (cite_node : RankedNode → Result Error Citation) (result : TraversalResult)
    (a : Answer) : Type 0 where
  pub limited : a.budget_limited ≡ is_budget_exhausted result.trace.stopped_reason
  pub outcome : IsRefusal a ⊎ IsGrounded cite_node result a

module _ (cite_node : RankedNode → Result Error Citation) (result : TraversalResult) where
  refusal :
      (m : String)
      → IsAnswer cite_node result
          (insufficient_answer (is_budget_exhausted result.trace.stopped_reason) m)
  unfolding insufficient_answer
  refusal m = record { limited = refl; outcome = inl (insufficient_answer-IsRefusal _ m) }

  handled :
      (e : Error)
      → IsOutside cite_node e
      → Yields
          (IsOutside cite_node)
          (IsAnswer cite_node result)
          (on_unresolved (is_budget_exhausted result.trace.stopped_reason) e)
  unfolding on_unresolved
  handled unresolved x = returns (refusal _)
  handled invalid_object x = raises x
  handled invalid_statement x = raises x
  handled no_statements x = raises x
  handled model_failed x = raises x
  handled lookup_failed x = raises x
  handled missing_key x = raises x

  conclude-IsAnswer :
      (d : List (ℕ × RankedNode)) (o : Option (List Statement))
      → IsIndex cite_node (IsCitable result) d
      → IsAccepted (keys d) o
      → Yields
          (IsOutside cite_node)
          (IsAnswer cite_node result)
          (conclude cite_node (is_budget_exhausted result.trace.stopped_reason) d o)
  unfolding conclude
  conclude-IsAnswer d none h k = returns (refusal _)
  conclude-IsAnswer d (some statements) h (more, good) =
      let ids = statement_ids statements in
      let here =
        All_of_contains (λ i. contains (fromkeys [] ids) i ≡ true) ids
          (λ a m. contains-fromkeys [] ids a ∙ m) in
      Yields-catch {P = IsAnswer cite_node result} _ _
        (Yields-bind _ _
          (cite_all-AreSources cite_node (IsCitable result) d (fromkeys [] ids) h
            (All-fromkeys _ [] ids tt (all_ids (keys d) statements good)))
          λ cs (sources, cited, names, citable). returns (record {
            limited = refl;
            outcome = inr (record {
              statements = statements;
              sources = sources;
              text = refl;
              said = more;
              sufficient = refl;
              cited = cited;
              citable = citable;
              once = subst (λ (l : List ℕ). Distinct l) (sym names) (Distinct-fromkeys [] ids tt);
              attributed =
                  subst (λ l. All (IsAttributed l) statements) (sym names)
                    (reattribute (keys d) (fromkeys [] ids) statements good here);
            });
          }))
        (λ a q. q) handled

-- For any model and any way to cite a node, `synthesize` returns a grounded answer or a refusal,
-- marked as limited exactly if the traversal stopped for its budget; it raises only what the
-- gateway or the citation of a node raises, so an answer of the model that names other nodes, or
-- none, never becomes text.
pub synthesize-IsAnswer :
    (call_model : Payload → Option Value) (cite_node : RankedNode → Result Error Citation)
    (question : String) (result : TraversalResult)
    → Yields
        (IsOutside cite_node)
        (IsAnswer cite_node result)
        (synthesize call_model cite_node question result)
unfolding synthesize
synthesize-IsAnswer call_model cite_node question result =
    let citable = select has_real_page_range result.ranked_nodes in
    let d = nodes_by_id [] citable in
    if_ind (Yields _ _) (ltb (length citable) 2) (λ _. returns (refusal cite_node result _))
      (λ _. Yields-bind _ _ (attempt-IsAccepted cite_node call_model _ (keys d)) λ first h.
        Yields-bind _ _ (retry-IsAccepted cite_node call_model _ (keys d) first h) λ o k.
          conclude-IsAnswer cite_node result d o
            (nodes_by_id-IsIndex cite_node (IsCitable result) citable []
              (All-select _ _ result.ranked_nodes (Exists-self result.ranked_nodes)) tt)
            k)
