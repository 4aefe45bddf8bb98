-- ===== src/Extraction/Errors.antt =====
-- The exceptions of src/ai_researcher/extraction/validate.py, and why a record or a paper fails.
pub data Error : Type 0 where
  -- JSONDecodeError, TypeError or ValueError for the payload as a whole
  malformed : Error
  -- OverflowError of `int` for an infinite number
  overflow : Error
  -- the ValueError of `json.loads` for an integer of too many digits, where nothing catches it
  oversized : Error
  -- the bound on texts within texts
  out_of_fuel : Error

-- The exceptions of `json.loads` on a text: JSONDecodeError, and the plain ValueError for an integer
-- of more digits than Python converts.
pub data LoadError : Type 0 where
  not_json too_long : LoadError

pub data Reason : Type 0 where
  malformed_payload fetch_failed unparseable after_retry : Reason
