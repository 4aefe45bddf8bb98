-- ===== src/Answer/Statements.antt =====
-- `_validated_statements` and `_render_statement` of src/ai_researcher/answer/synthesize.py.
pub mod Attribution
use Prim.Native.String.{◌++◌ as concat}
use ai_researcher.Prelude.{
  ℕ, String, ◌≡◌, Bool, true, false, not, ◌&&◌, List, [], ◌∷◌, ◌++◌, map, nat_eq, string_eq, ◌==◌,
  length, is_empty, contains, Result, ok, err, guard, need, ◌>>=◌, ◌>>◌, if◌then◌else◌,
}
use ai_researcher.Text.{strip, is_blank, splitlines, str, join_with}
use ai_researcher.Json.{Value, get, as_dict, as_list, as_string, as_natural}
use ai_researcher.Answer.Errors.{Error, invalid_object, invalid_statement, no_statements}

pub record Statement : Type 0 where
  pub text : String
  pub node_ids : List ℕ

-- `dict.fromkeys(ids)` after `seen`: every identifier once, in the order of the first occurrences.
unfoldable pub fromkeys : List ℕ → List ℕ → List ℕ
fromkeys seen [] = seen
fromkeys seen (i ∷ ids) = fromkeys (if contains seen i then seen else seen ++ i ∷ []) ids

unfoldable pub allowed_ids : List ℕ → List Value → Result Error (List ℕ)
allowed_ids allowed_node_ids [] = ok []
allowed_ids allowed_node_ids (v ∷ vs) = do
  i ← need (as_natural v) invalid_statement
  guard (contains allowed_node_ids i) invalid_statement
  ids ← allowed_ids allowed_node_ids vs
  ok (i ∷ ids)

unfoldable pub validated_statement : List ℕ → Value → Result Error Statement
validated_statement allowed_node_ids item = do
  fields ← need (as_dict item) invalid_statement
  text ← need (as_string (get "text" fields)) invalid_statement
  guard (not (is_blank (strip text))) invalid_statement
  guard (length (splitlines (strip text)) == 1) invalid_statement
  values ← need (as_list (get "node_ids" fields)) invalid_statement
  guard (not (is_empty values)) invalid_statement
  ids ← allowed_ids allowed_node_ids values
  ok (record { text = strip text; node_ids = fromkeys [] ids })

unfoldable pub statement_all : List ℕ → List Value → Result Error (List Statement)
statement_all allowed_node_ids [] = ok []
statement_all allowed_node_ids (item ∷ records) = do
  statement ← validated_statement allowed_node_ids item
  statements ← statement_all allowed_node_ids records
  ok (statement ∷ statements)

unfoldable pub validated_statements : Value → List ℕ → Result Error (List Statement)
validated_statements response allowed_node_ids = do
  fields ← need (as_dict response) invalid_object
  records ← need (as_list (get "statements" fields)) invalid_object
  statements ← statement_all allowed_node_ids records
  guard (not (is_empty statements)) no_statements
  ok statements

unfoldable pub render_statement : Statement → String
render_statement s =
    let label = if length s.node_ids == 1 then "node" else "nodes" in
    concat s.text
      (concat " [" (concat label (concat " " (concat (join_with ", " (map str s.node_ids)) "]"))))
