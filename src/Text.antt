-- ===== src/Text.antt =====
-- What the program uses of Python's `str`: `strip`, `split`, and the truth value of a text.
-- `casefold`, NFKC normalisation and the character classes are tables of the Unicode database:
-- they enter as parameters where they are used.
pub mod Matching
use Prim.Native.Char.{Char, code}
use Prim.Native.String.{◌++◌ as concat}
use ai_researcher.Prelude.{
  Option, none, some, String, Bool, ◌&&◌, ◌||◌, List, [], ◌∷◌, false, leb, nat_beq, ◌==◌, string_eq,
  if◌then◌else◌, select, not, ℕ, zero, suc, ◌/◌, ◌%◌, ltb,
}

-- The characters that `str.isspace` accepts, which `strip` and `split` cut at.
unfoldable pub is_space : Char → Bool
is_space c =
    let n = code c in
    leb 9 n && leb n 13
    || leb 28 n && leb n 32
    || nat_beq n 133
    || nat_beq n 160
    || nat_beq n 5760
    || leb 8192 n && leb n 8202
    || leb 8232 n && leb n 8233
    || nat_beq n 8239
    || nat_beq n 8287
    || nat_beq n 12288

lstrip : String → String
unfolding is_space
lstrip String.[] = ""
lstrip (String.◌∷◌ c s) = if is_space c then lstrip s else String.◌∷◌ c s

rstrip : String → String
unfolding is_space
rstrip String.[] = ""
rstrip (String.◌∷◌ c s) =
    let rest = rstrip s in if is_space c && rest == "" then "" else String.◌∷◌ c rest

-- `text.strip()`
unfoldable pub strip : String → String
unfolding lstrip rstrip
strip s = lstrip (rstrip s)

-- `not text`
abbrev pub is_blank : String → Bool
is_blank s = s == ""

-- One more character in front of the words of a text.
extend : Char → List String → List String
unfolding is_space
extend c [] = if is_space c then "" ∷ [] else String.◌∷◌ c "" ∷ []
extend c (w ∷ ws) = if is_space c then "" ∷ w ∷ ws else String.◌∷◌ c w ∷ ws

words : String → List String
unfolding extend
words String.[] = "" ∷ []
words (String.◌∷◌ c s) = extend c (words s)

-- `text.split()`: the maximal runs of characters that are not spaces.
unfoldable pub split : String → List String
unfolding words
split s = select (λ w. not (is_blank w)) (words s)

-- `" ".join(parts)`
unfoldable pub join : List String → String
join [] = ""
join (w ∷ []) = w
join (w ∷ v ∷ ws) = concat w (concat " " (join (v ∷ ws)))

nth : List String → ℕ → String
nth [] n = ""
nth (w ∷ ws) zero = w
nth (w ∷ ws) (suc n) = nth ws n

digit : ℕ → String
unfolding nth
digit n = nth ("0" ∷ "1" ∷ "2" ∷ "3" ∷ "4" ∷ "5" ∷ "6" ∷ "7" ∷ "8" ∷ "9" ∷ []) n

decimal : ℕ → ℕ → String
unfolding digit
decimal zero n = ""
decimal (suc fuel) n =
    let rest = decimal fuel (n / 10) in if ltb n 10 then digit n else concat rest (digit (n % 10))

-- `str(n)`, on more fuel than `n` has digits.
unfoldable pub str : ℕ → String
unfolding decimal
str n = decimal (suc n) n

-- `separator.join(parts)`
unfoldable pub join_with : String → List String → String
join_with separator [] = ""
join_with separator (w ∷ []) = w
join_with separator (w ∷ v ∷ ws) = concat w (concat separator (join_with separator (v ∷ ws)))

-- The characters that end a line for `str.splitlines`.
is_line_break : Char → Bool
is_line_break c =
    let n = code c in
    leb 10 n && leb n 13 || leb 28 n && leb n 30 || nat_beq n 133 || leb 8232 n && leb n 8233

starts_line_feed : String → Bool
starts_line_feed String.[] = false
starts_line_feed (String.◌∷◌ c s) = nat_beq (code c) 10

-- One more character in front of the lines of a text.
extend_line : Char → List String → List String
extend_line c [] = String.◌∷◌ c "" ∷ []
extend_line c (w ∷ ws) = String.◌∷◌ c w ∷ ws

-- `text.splitlines()`; a carriage return and a line feed together end one line.
unfoldable pub splitlines : String → List String
unfolding is_line_break starts_line_feed extend_line
splitlines String.[] = []
splitlines (String.◌∷◌ c s) =
    let rest = splitlines s in
    if is_line_break c
    then if nat_beq (code c) 13 && starts_line_feed s then rest else "" ∷ rest
    else extend_line c rest

unfoldable pub strip_prefix : String → String → Option String
strip_prefix String.[] s = some s
strip_prefix (String.◌∷◌ c p) String.[] = none
strip_prefix (String.◌∷◌ c p) (String.◌∷◌ d s) =
    let rest = strip_prefix p s in if nat_beq (code c) (code d) then rest else none

-- `text.removeprefix(prefix)` for the first of the prefixes that the text starts with.
unfoldable pub remove_first_prefix : List String → String → String
unfolding strip_prefix
remove_first_prefix [] s = s
remove_first_prefix (p ∷ ps) s = elim (strip_prefix p s) [
  | some rest ↦ rest
  | none ↦ remove_first_prefix ps s
]

-- The leading spaces, and what follows them.
unfoldable pub spaces : String → String × String
unfolding is_space
spaces String.[] = ("", "")
spaces (String.◌∷◌ c s) =
    let (before, rest) = spaces s in
    if is_space c then (String.◌∷◌ c before, rest) else ("", String.◌∷◌ c s)

-- The text at the start of `s` that the words match, with spaces of any length between two words:
-- the regular expression `\s+` joins the escaped words.
unfoldable pub match_words : List String → String → Option String
unfolding strip_prefix
match_words [] s = some ""
match_words (w ∷ []) s = elim (strip_prefix w s) [ none ↦ none | some rest ↦ some w ]
match_words (w ∷ v ∷ ws) s = elim (strip_prefix w s) [
  | none ↦ none
  | some rest ↦
      let gap = spaces rest in
      if is_blank gap.0 then none else elim (match_words (v ∷ ws) gap.1) [
        | none ↦ none
        | some tail ↦ some (concat w (concat gap.0 tail))
      ]
]

-- `re.search`: the leftmost match.
unfoldable pub search_words : List String → String → Option String
search_words ws String.[] = match_words ws ""
search_words ws (String.◌∷◌ c s) = elim (match_words ws (String.◌∷◌ c s)) [
  | some found ↦ some found
  | none ↦ search_words ws s
]
