-- ===== src/Json.antt =====
-- What a language model answers with: JSON as Python reads it, and the tests that the validators
-- make on it. A number with a fraction or an exponent is a `float`; of that the program uses at
-- most its integer part and whether it is a whole number.
use ai_researcher.Prelude.{
  ℕ, String, Bool, true, false, Option, none, some, List, [], ◌∷◌, ◌==◌, string_eq, if◌then◌else◌,
}

-- `negsuc n` is -(n + 1).
pub data ℤ : Type 0 where
  pos : ℕ → ℤ
  negsuc : ℕ → ℤ

-- `json.loads` also reads `Infinity`, `-Infinity` and `NaN`.
pub data Float : Type 0 where
  finite : (truncated : ℤ) (whole : Bool) → Float
  infinite : Float
  nan : Float

mutual
  pub data Value : Type 0 where
    null : Value
    bool : Bool → Value
    int : ℤ → Value
    float : Float → Value
    str : String → Value
    obj : Fields → Value
    arr : Items → Value

  pub data Fields : Type 0 where
    field : String → Value → Fields → Fields
    end : Fields

  pub data Items : Type 0 where
    cons : Value → Items → Items
    nil : Items

-- `record.get(key)`: `None`, which JSON writes `null`, for a missing key.
unfoldable pub get : String → Fields → Value
get k end = null
get k (field j v fs) = if j == k then v else get k fs

-- `key in record`
unfoldable pub has_key : String → Fields → Bool
has_key k end = false
has_key k (field j v fs) = if j == k then true else has_key k fs

unfoldable pub to_list : Items → List Value
to_list nil = []
to_list (cons v vs) = v ∷ to_list vs

-- `isinstance(v, dict)`, `isinstance(v, list)`, `isinstance(v, bool)`, `isinstance(v, str)`, with
-- the value that the test admits.
unfoldable pub as_dict : Value → Option Fields
as_dict (obj fs) = some fs
as_dict _ = none

unfoldable pub as_list : Value → Option (List Value)
unfolding to_list
as_list (arr vs) = some (to_list vs)
as_list _ = none

unfoldable pub as_bool : Value → Option Bool
as_bool (bool b) = some b
as_bool _ = none

unfoldable pub as_string : Value → Option String
as_string (str s) = some s
as_string _ = none

-- `isinstance(v, int) and not isinstance(v, bool)`, of a value that is then compared with numbers
-- from 0 on, so that a negative one fails as another type does.
unfoldable pub as_natural : Value → Option ℕ
as_natural (int (pos n)) = some n
as_natural _ = none
