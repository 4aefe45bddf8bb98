-- ===== src/Answer/Synthesize.antt =====
-- `synthesize` of src/ai_researcher/answer/synthesize.py.
pub mod Grounding
use ai_researcher.Prelude.{
  ℕ, String, ◌≡◌, Bool, true, false, ◌&&◌, Option, none, some, List, [], ◌∷◌, ◌++◌, map, nat_eq,
  ◌==◌, length, ltb, leb, select, keys, lookup, insert, Result, ok, err, need, catch, ◌>>=◌,
  if◌then◌else◌,
}
use ai_researcher.Text.{join_with}
use ai_researcher.Json.{Value}
use ai_researcher.Retrieval.Traverse.{RankedNode, TraversalResult, StopReason, budget_exhausted}
use ai_researcher.Answer.Errors.{Error, unresolved, model_failed, missing_key}
use ai_researcher.Answer.Citation.{Citation}
use ai_researcher.Answer.Statements.{Statement, fromkeys, validated_statements, render_statement}

pub record Answer : Type 0 where
  pub answer_text : Option String
  pub citations : List Citation
  pub budget_limited : Bool
  pub insufficient_evidence : Bool
  pub message : Option String

-- What `_synthesis_payload` is made from.
pub record Payload : Type 0 where
  pub question : String
  pub nodes : List RankedNode
  pub regeneration : Bool

abbrev pub real_range : Option ℕ → Option ℕ → Bool
real_range (some start) (some end) = ltb 0 start && leb start end
real_range _ _ = false

unfoldable pub has_real_page_range : RankedNode → Bool
has_real_page_range node = real_range node.page_start node.page_end

-- `{node.node_id: node for node in nodes}`
unfoldable pub nodes_by_id : List (ℕ × RankedNode) → List RankedNode → List (ℕ × RankedNode)
nodes_by_id d [] = d
nodes_by_id d (node ∷ nodes) = nodes_by_id (insert node.node_id node d) nodes

abbrev pub statement_ids : List Statement → List ℕ
statement_ids [] = []
statement_ids (s ∷ statements) = s.node_ids ++ statement_ids statements

-- `[cite_node(nodes_by_id[node_id]) for node_id in cited_node_ids]`
unfoldable pub cite_all :
    (RankedNode → Result Error Citation)
    → List (ℕ × RankedNode)
    → List ℕ
    → Result Error (List Citation)
cite_all cite_node d [] = ok []
cite_all cite_node d (i ∷ ids) = do
  node ← need (lookup i d) missing_key
  citation ← cite_node node
  citations ← cite_all cite_node d ids
  ok (citation ∷ citations)

-- One turn of the loop over the attempts: the validator's exception is not passed on.
unfoldable pub attempt :
    (Payload → Option Value) → Payload → List ℕ → Result Error (Option (List Statement))
attempt call_model payload allowed_node_ids = do
  response ← need (call_model payload) model_failed
  catch (do statements ← validated_statements response allowed_node_ids; ok (some statements))
      (λ e. ok none)

-- The second turn, unless the first gave statements.
unfoldable pub retry :
    (Payload → Option Value)
    → Payload
    → List ℕ
    → Option (List Statement)
    → Result Error (Option (List Statement))
retry call_model payload allowed_node_ids (some statements) = ok (some statements)
retry call_model payload allowed_node_ids none = attempt call_model payload allowed_node_ids

unfoldable pub insufficient_answer : Bool → String → Answer
insufficient_answer budget_limited message = record {
  answer_text = none;
  citations = [];
  budget_limited = budget_limited;
  insufficient_evidence = true;
  message = some message;
}

abbrev pub is_budget_exhausted : StopReason → Bool
is_budget_exhausted budget_exhausted = true
is_budget_exhausted _ = false

-- `except CitationResolutionError`
unfoldable pub on_unresolved : Bool → Error → Result Error Answer
on_unresolved budget_limited unresolved = ok (
    insufficient_answer budget_limited
      "Insufficient evidence: cited nodes could not be resolved to papers with a DOI or arXiv ID.")
on_unresolved budget_limited e = err e

-- What follows the attempts.
unfoldable pub conclude :
    (RankedNode → Result Error Citation)
    → Bool
    → List (ℕ × RankedNode)
    → Option (List Statement)
    → Result Error Answer
conclude cite_node budget_limited d none = ok (
    insufficient_answer budget_limited
      "Insufficient evidence: synthesis could not produce statements grounded only in the retrieved nodes.")
conclude cite_node budget_limited d (some statements) =
    catch
      (do
        citations ← cite_all cite_node d (fromkeys [] (statement_ids statements))
        ok (record {
          answer_text = some (join_with "\n" (map render_statement statements));
          citations = citations;
          budget_limited = budget_limited;
          insufficient_evidence = false;
          message = none;
        }))
      (on_unresolved budget_limited)

unfoldable pub synthesize :
    (Payload → Option Value)
    → (RankedNode → Result Error Citation)
    → String
    → TraversalResult
    → Result Error Answer
synthesize call_model cite_node question result =
    let budget_limited = is_budget_exhausted result.trace.stopped_reason in
    let citable = select has_real_page_range result.ranked_nodes in
    let d = nodes_by_id [] citable in
    let answer = (do
      first ←
          attempt call_model (record { question = question; nodes = citable; regeneration = false })
            (keys d)
      statements ←
          retry call_model (record { question = question; nodes = citable; regeneration = true })
            (keys d) first
      conclude cite_node budget_limited d statements) in
    if ltb (length citable) 2
    then ok (
        insufficient_answer budget_limited
          "Insufficient evidence: at least two supporting nodes with real page ranges are required to synthesize an answer.")
    else answer
