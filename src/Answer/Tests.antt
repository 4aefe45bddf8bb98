-- ===== src/Answer/Tests.antt =====
-- Three ranked nodes, one without pages; a model whose first answer names that one.
use ai_researcher.Prelude.{
  String, ℕ, ◌≡◌, refl, true, false, Option, none, some, [], ◌∷◌, nat_eq, string_eq, Result, ok,
  err, Yields,
}
use ai_researcher.Text.{strip, splitlines, str, join_with}
use ai_researcher.Json.{
  Value, Items, int, pos, str as text_value, arr, obj, nil, cons, end, field, get, to_list, as_dict,
  as_list, as_string, as_natural,
}
use ai_researcher.Retrieval.Traverse.{RankedNode, TraversalResult, budget_exhausted}
use ai_researcher.Answer.Errors.{Error}
use ai_researcher.Answer.Citation.{CitationPaper, render_citation, identifier_of}
use ai_researcher.Answer.Citation.Openable.{IsUncitable, IsOpenable, render_citation-IsOpenable}
use ai_researcher.Answer.Statements.{
  fromkeys, allowed_ids, validated_statement, statement_all, validated_statements, render_statement,
}
use ai_researcher.Answer.Synthesize.{
  Payload, Answer, has_real_page_range, nodes_by_id, cite_all, attempt, retry, insufficient_answer,
  on_unresolved, conclude, synthesize,
}
use ai_researcher.Answer.Synthesize.Grounding.{IsOutside, IsAnswer, synthesize-IsAnswer}

abbrev ranked : ℕ → Option ℕ → RankedNode
ranked id page = record {
  node_id = id;
  paper_id = 7;
  section_path = "Results";
  title = none;
  summary = "s";
  page_start = page;
  page_end = page;
  relevance = 50;
  reason = "r";
}

abbrev retrieved : TraversalResult
retrieved = record {
  ranked_nodes = ranked 1 (some 3) ∷ ranked 2 none ∷ ranked 3 (some 4) ∷ [];
  trace = record { expanded_nodes = []; selected_node_ids = []; stopped_reason = budget_exhausted };
}

abbrev one_statement : Items → Value
one_statement ids = obj (
    field "statements"
      (arr
        (cons (obj (field "text" (text_value " It holds. ") (field "node_ids" (arr ids) end))) nil))
      end)

abbrev two_attempts : Payload → Option Value
two_attempts p = elim p.regeneration [
  | false ↦ some (one_statement (cons (int (pos 2)) nil))
  | true ↦ some (one_statement (cons (int (pos 3)) (cons (int (pos 1)) (cons (int (pos 3)) nil))))
]

abbrev library : ℕ → Result Error CitationPaper
library i = ok (record { id = i; title = "T"; doi = some ""; arxiv_id = some "2401.1" })

program : Unit {0}
unfolding synthesize conclude on_unresolved insufficient_answer retry attempt cite_all nodes_by_id
    has_real_page_range fromkeys allowed_ids validated_statement statement_all validated_statements
    render_statement render_citation identifier_of strip splitlines str join_with get to_list
    as_dict as_list as_string as_natural
program = tt

texts : Result Error Answer → Option String
texts (ok a) = a.answer_text
texts (err e) = none

synthesize_run :
    texts (synthesize two_attempts (render_citation library) "q" retrieved)
    ≡ some "It holds. [nodes 3, 1]"
unfolding texts synthesize conclude on_unresolved insufficient_answer retry attempt cite_all
    nodes_by_id has_real_page_range fromkeys allowed_ids validated_statement statement_all
    validated_statements render_statement render_citation identifier_of strip splitlines str
    join_with get to_list as_dict as_list as_string as_natural
synthesize_run = refl

synthesize-IsAnswer_example :
    Yields
      (IsOutside (render_citation library))
      (IsAnswer (render_citation library) retrieved)
      (synthesize two_attempts (render_citation library) "q" retrieved)
synthesize-IsAnswer_example =
    synthesize-IsAnswer two_attempts (render_citation library) "q" retrieved

render_citation-IsOpenable_example :
    Yields
      (IsUncitable library 7)
      (IsOpenable library (ranked 1 (some 3)))
      (render_citation library (ranked 1 (some 3)))
render_citation-IsOpenable_example = render_citation-IsOpenable library (ranked 1 (some 3))
