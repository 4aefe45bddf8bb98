-- ===== src/Extraction/Validate/Payload.antt =====
-- `_coerce_records` ends: a text within a text is shorter.
use Prim.Native.String.{len}
use ai_researcher.Prelude.{
  ℕ, zero, suc, ◌≤◌, ◌<◌, String, ◌≡◌, Result, ok, err, refl, nat_eq, string_eq, if_ind, Yields,
  returns, raises, Yields-need_any, Yields-bind, arith,
}
use ai_researcher.Json.{Value, null, bool, int, float, str, obj, arr, get, has_key, as_list}
use ai_researcher.Extraction.Errors.{Error, malformed, LoadError}
use ai_researcher.Extraction.Validate.{caught, coerce_records, depth}

-- A text that is read from a text is shorter.
abbrev pub AreShorter : (String → Result LoadError Value) → Type 0
AreShorter loads = (s t : String) → loads s ≡ ok (str t) → len t < len s

pub data IsMalformed : Error → Type 0 where
  bad_payload : IsMalformed malformed

caught-ok : (r : Result LoadError Value) → Yields IsMalformed (λ v. r ≡ ok v) (caught r)
unfolding caught
caught-ok (ok v) = returns refl
caught-ok (err e) = raises bad_payload

module _ (loads : String → Result LoadError Value) (shorter : AreShorter loads) where
  -- The bound on texts within texts is enough.
  pub coerce_records-Yields :
      (fuel : ℕ) (raw : Value)
      → depth raw ≤ fuel
      → Yields IsMalformed (λ _. Unit {0}) (coerce_records loads fuel raw)
  unfolding coerce_records
  coerce_records-Yields zero null h = absurd (omega arith)
  coerce_records-Yields zero (bool b) h = absurd (omega arith)
  coerce_records-Yields zero (int n) h = absurd (omega arith)
  coerce_records-Yields zero (float x) h = absurd (omega arith)
  coerce_records-Yields zero (str s) h = absurd (omega arith)
  coerce_records-Yields zero (obj fs) h = absurd (omega arith)
  coerce_records-Yields zero (arr vs) h = absurd (omega arith)
  coerce_records-Yields (suc fuel) null h = returns tt
  coerce_records-Yields (suc fuel) (bool b) h = raises bad_payload
  coerce_records-Yields (suc fuel) (int n) h = raises bad_payload
  coerce_records-Yields (suc fuel) (float x) h = raises bad_payload
  coerce_records-Yields (suc fuel) (arr vs) h = returns tt
  coerce_records-Yields (suc fuel) (obj fs) h =
      if_ind (Yields IsMalformed (λ _. Unit {0})) (has_key "records" fs)
        (λ _. Yields-need_any (as_list (get "records" fs)) _ bad_payload) (λ _. returns tt)
  coerce_records-Yields (suc fuel) (str s) h =
      Yields-bind _ _ (caught-ok (loads s)) λ v q. coerce_records-Yields fuel v (deeper v q)
    where
      deeper : (v : Value) → loads s ≡ ok v → depth v ≤ fuel
      deeper (str t) q = let l = shorter s t q in omega arith
      deeper null q = omega arith
      deeper (bool b) q = omega arith
      deeper (int n) q = omega arith
      deeper (float x) q = omega arith
      deeper (obj fs) q = omega arith
      deeper (arr vs) q = omega arith
