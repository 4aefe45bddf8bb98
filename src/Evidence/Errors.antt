-- ===== src/Evidence/Errors.antt =====
-- The exceptions of src/ai_researcher/evidence.
pub data Error : Type 0 where
  -- EvidenceLinkingError
  invalid_claim no_scope invalid_object invalid_classification incomplete : Error
  -- ValueError of the comparison of claims
  invalid_response invalid_comparison missing_comparison not_a_member : Error
  -- TypeError of a list or a dictionary that is looked up in a set
  unhashable : Error
  -- KeyError, and the bound on the steps of `find`
  missing_key out_of_fuel : Error
  -- what the traversal and the model gateway raise
  traversal_failed model_failed : Error
