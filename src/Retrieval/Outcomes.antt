-- ===== src/Retrieval/Outcomes.antt =====
-- How a part of a traversal may end: with a value that has a property, or with an exception that
-- is part of the module's contract. The failures that would be faults of the code itself are not
-- among these: a missing key, an overdrawn budget, and the lack of fuel.
use ai_researcher.Retrieval.Errors.{
  Error, model_failed, invalid_object, invalid_judgement, incomplete_judgements, limit_not_positive,
  empty_question, empty_scope, duplicate_node_ids, unknown_scope, shortlist_failed,
}

pub data IsReported : Error → Type 0 where
  failed : IsReported model_failed
  object : IsReported invalid_object
  judgement : IsReported invalid_judgement
  incomplete : IsReported incomplete_judgements
  bad_limit : IsReported limit_not_positive
  no_question : IsReported empty_question
  no_scope : IsReported empty_scope
  duplicates : IsReported duplicate_node_ids
  unknown : IsReported unknown_scope
  shortlist : IsReported shortlist_failed
