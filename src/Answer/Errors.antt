-- ===== src/Answer/Errors.antt =====
-- The exceptions of src/ai_researcher/answer.
pub data Error : Type 0 where
  -- SynthesisResponseError
  invalid_object invalid_statement no_statements : Error
  -- CitationResolutionError
  unresolved : Error
  -- what the model gateway and the lookup of a paper raise beside these
  model_failed lookup_failed : Error
  -- KeyError of a dictionary that is indexed
  missing_key : Error
