-- ===== src/Retrieval/Errors.antt =====
-- The exceptions of src/ai_researcher/retrieval/{budget,traverse}.py.
pub data Error : Type 0 where
  -- ValueError of `ExpansionBudget`
  limit_not_positive used_out_of_range budget_exceeded : Error
  -- ValueError of `traverse`
  empty_question empty_scope duplicate_node_ids : Error
  -- TraversalResponseError
  invalid_object invalid_judgement incomplete_judgements : Error
  -- UnknownTraversalScopeError
  unknown_scope : Error
  -- what the shortlist function or the model gateway raises
  shortlist_failed model_failed : Error
  -- KeyError of a dictionary that is indexed
  missing_key : Error
  -- The loop of the model stopped for lack of fuel; the program has no such outcome.
  out_of_fuel : Error
