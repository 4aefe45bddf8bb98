-- ===== src/Trees/Errors.antt =====
-- The exceptions of src/ai_researcher/trees/build.py.
pub data Error : Type 0 where
  -- TreeBuildError
  no_sections duplicate_ids cycle invalid_object invalid_record incomplete : Error
  missing_parent : Error
  -- UnknownScopeError
  unknown_scope : Error
  -- what the model gateway raises
  model_failed : Error
  -- KeyError of a dictionary that is indexed, and StopIteration of `next`
  missing_key no_ancestor : Error
  -- A loop of the model stopped for lack of fuel; the program has no such outcome.
  out_of_fuel : Error
