-- ===== src/Ask.antt =====
-- `ask_corpus_tool` of src/ai_researcher/mcp/server.py: a question goes through the traversal and
-- the synthesis. The command `ask` of src/ai_researcher/cli.py calls the two in the same way.
pub mod Sourced
mod Tests
use ai_researcher.Prelude.{ℕ, suc, String, Bool, Option, List, [], ◌∷◌, Result, ok, err}
use ai_researcher.Json.{Value}
use ai_researcher.Retrieval.Errors.{Error as RetrievalError}
use ai_researcher.Retrieval.Traverse.{
  StopReason, RankedNode, TraversalTrace, TraversalResult, TraceRow, Services, nodes_expanded,
  traverse,
}
use ai_researcher.Answer.Errors.{Error as AnswerError}
use ai_researcher.Answer.Citation.{Citation}
use ai_researcher.Answer.Synthesize.{Answer, Payload, synthesize}

-- The tool passes on what either part raises.
pub data AskError : Type 0 where
  retrieving : RetrievalError → AskError
  answering : AnswerError → AskError

pub record CitationRecord : Type 0 where
  pub number : ℕ
  pub node_id : ℕ
  pub paper_id : ℕ
  pub paper_title : String
  pub section_path : String
  pub page_start : Option ℕ
  pub page_end : Option ℕ
  pub identifier_type : String
  pub identifier : String

pub record TraceRecord : Type 0 where
  pub nodes_expanded : ℕ
  pub selected_node_ids : List ℕ
  pub stopped_reason : StopReason

pub record AskCorpusResult : Type 0 where
  pub answer : Option String
  pub citations : List CitationRecord
  pub budget_limited : Bool
  pub insufficient_evidence : Bool
  pub message : Option String
  pub trace : TraceRecord

-- `for number, citation in enumerate(grounded_answer.citations, start=1)`
unfoldable pub citation_records : ℕ → List Citation → List CitationRecord
citation_records number [] = []
citation_records number (c ∷ citations) =
    record {
      number = number;
      node_id = c.node_id;
      paper_id = c.paper_id;
      paper_title = c.paper_title;
      section_path = c.section_path;
      page_start = c.page_start;
      page_end = c.page_end;
      identifier_type = c.identifier_type;
      identifier = c.identifier;
    }
    ∷ citation_records (suc number) citations

abbrev pub trace_record : TraversalTrace → TraceRecord
trace_record t = record {
  nodes_expanded = nodes_expanded t;
  selected_node_ids = t.selected_node_ids;
  stopped_reason = t.stopped_reason;
}

unfoldable pub ask_result : TraversalTrace → Answer → AskCorpusResult
ask_result t a = record {
  answer = a.answer_text;
  citations = citation_records 1 a.citations;
  budget_limited = a.budget_limited;
  insufficient_evidence = a.insufficient_evidence;
  message = a.message;
  trace = trace_record t;
}

abbrev pub reported : TraversalTrace → Result AnswerError Answer → Result AskError AskCorpusResult
reported t (ok a) = ok (ask_result t a)
reported t (err e) = err (answering e)

module _ (services : Services) (call_model : Payload → Option Value)
    (cite_node : RankedNode → Result AnswerError Citation) (question scope : String) where
  abbrev pub synthesized : Result RetrievalError TraversalResult → Result AskError AskCorpusResult
  synthesized (ok result) = reported result.trace (synthesize call_model cite_node question result)
  synthesized (err e) = err (retrieving e)

  -- The traces that the store holds are the state.
  unfoldable pub ask_corpus_tool :
      ℕ → List TraceRow → Result AskError AskCorpusResult × List TraceRow
  ask_corpus_tool max_nodes store =
      let traversed = traverse services question scope max_nodes store in
      (synthesized traversed.0, traversed.1)
