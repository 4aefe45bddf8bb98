-- ===== src/Ask/Tests.antt =====
-- A question about a tree of two sections; the theorem of Ask at it.
use ai_researcher.Prelude.{
  ℕ, String, true, false, ◌≡◌, refl, Option, none, some, [], ◌∷◌, nat_eq, string_eq, Result, ok,
  err, Yields,
}
use ai_researcher.Text.{strip, splitlines, str, join_with}
use ai_researcher.Json.{
  Value, bool, int, pos, str as text_value, arr, obj, nil, cons, end, field, get, to_list, as_dict,
  as_list, as_bool, as_string, as_natural,
}
use ai_researcher.Retrieval.Budget.{create, consume}
use ai_researcher.Retrieval.Judgement.{judge, judge_all, validated_judgements}
use ai_researcher.Retrieval.Walk.{
  TraversalNode, Complete, traversal_payload, roots, children, record_batch, enqueue, expand_batch,
  round, loop,
}
use ai_researcher.Retrieval.Traverse.{
  Services, expansion_index, rankings, stop_reason, trace_row, traversal_result, finish,
  is_distinct, walk, rank, find, traverse,
}
use ai_researcher.Answer.Errors.{Error}
use ai_researcher.Answer.Citation.{CitationPaper, render_citation, identifier_of}
use ai_researcher.Answer.Statements.{
  fromkeys, allowed_ids, validated_statement, statement_all, validated_statements, render_statement,
}
use ai_researcher.Answer.Synthesize.{
  Payload, has_real_page_range, nodes_by_id, cite_all, attempt, retry, insufficient_answer,
  on_unresolved, conclude, synthesize,
}
use ai_researcher.Ask.{AskError, AskCorpusResult, citation_records, ask_result, ask_corpus_tool}
use ai_researcher.Ask.Sourced.{IsAskFault, IsSourced, ask_corpus_tool-IsSourced}

abbrev section : ℕ → TraversalNode
section id = record {
  id = id;
  paper_id = 7;
  parent_id = none;
  section_path = "Results";
  title = none;
  summary = "s";
  page_start = some 1;
  page_end = some 2;
}

abbrev judged : ℕ → Value
judged id = obj (
    field "node_id" (int (pos id)) (
      field "relevance" (int (pos 50)) (
        field "selected" (bool true)
          (field "expand" (bool false) (field "reason" (text_value "why") end)))))

abbrev both : Complete
both calls p = some (
    obj (
      field "judgements" (arr (cons (judged 1) (cons (judged 2) nil)))
        (field "sufficient_evidence" (bool true) end)))

abbrev services : Services
services = record {
  shortlist = λ s q n. some (7 ∷ []);
  load_scope_tree = λ s ids. some (5, section 1 ∷ section 2 ∷ []);
  complete = both;
}

abbrev one_statement : Payload → Option Value
one_statement p = some (
    obj (
      field "statements"
        (arr (
          cons
            (obj (
              field "text" (text_value "It holds.")
                (field "node_ids" (arr (cons (int (pos 2)) nil)) end)))
            nil))
        end))

abbrev library : ℕ → Result Error CitationPaper
library i = ok (record { id = i; title = "T"; doi = some "10.1/x"; arxiv_id = none })

answer_of : Result AskError AskCorpusResult → Option String
answer_of (ok r) = r.answer
answer_of (err e) = none

ask_run :
    answer_of
      ((ask_corpus_tool services one_statement (render_citation library) "why?" "qc" 2 []).0)
    ≡ some "It holds. [node 2]"
unfolding answer_of ask_corpus_tool ask_result citation_records traverse find walk rank finish loop
    round validated_judgements judge judge_all get as_dict as_list as_bool as_string as_natural
    to_list strip create consume roots children record_batch enqueue expand_batch traversal_payload
    expansion_index rankings stop_reason trace_row traversal_result is_distinct synthesize conclude
    on_unresolved insufficient_answer retry attempt cite_all nodes_by_id has_real_page_range
    fromkeys allowed_ids validated_statement statement_all validated_statements render_statement
    render_citation identifier_of splitlines str join_with
ask_run = refl

ask_corpus_tool-IsSourced_example :
    Yields
      (IsAskFault services one_statement library "why?" "qc" 2 [])
      (IsSourced services one_statement library "why?" "qc" 2 [])
      ((ask_corpus_tool services one_statement (render_citation library) "why?" "qc" 2 []).0)
ask_corpus_tool-IsSourced_example =
    ask_corpus_tool-IsSourced services one_statement library "why?" "qc" 2 []
