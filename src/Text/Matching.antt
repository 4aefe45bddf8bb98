-- ===== src/Text/Matching.antt =====
-- What a match is: a part of the text.
use Prim.Native.Char.{Char, code}
use Prim.Native.String.{◌++◌ as concat}
use Prim.Native.String.append
use text.Mathlib.TextEquality.{Char-path}
use ai_researcher.Prelude.{
  String, Option, none, some, List, [], ◌∷◌, ◌≡◌, refl, sym, ap, ◌∙◌, nat_beq, nat_beq_iff,
  Bool-cases, inl, inr, if_ind, if◌then◌else◌, string_eq,
}
use ai_researcher.Text.{is_space, is_blank, strip_prefix, spaces, match_words, search_words}

concat_nil : (s : String) → concat "" s ≡ s
concat_nil s = append.nil s

concat_cons : (c : Char) (a b : String) → concat (String.◌∷◌ c a) b ≡ String.◌∷◌ c (concat a b)
concat_cons c a b = append.cons c a b

concat_assoc : (a b c : String) → concat (concat a b) c ≡ concat a (concat b c)
concat_assoc String.[] b c = rw (concat_nil b, concat_nil (concat b c)) refl
concat_assoc (String.◌∷◌ x a) b c =
    rw (concat_cons x a b, concat_cons x (concat a b) c, concat_cons x a (concat b c))
      (ap (λ s. String.◌∷◌ x s) (concat_assoc a b c))

strip_prefix_lem : (p s rest : String) → strip_prefix p s ≡ some rest → s ≡ concat p rest
unfolding strip_prefix
strip_prefix_lem String.[] s rest h = cc (concat_nil rest)
strip_prefix_lem (String.◌∷◌ c p) String.[] rest h = cc
strip_prefix_lem (String.◌∷◌ c p) (String.◌∷◌ d s) rest h =
    elim (Bool-cases (nat_beq (code c) (code d))) [
      | inr apart ↦ cc (rw apart at h)
      | inl same ↦
          let q = Char-path c d ((nat_beq_iff (code c) (code d)).0 same) in
          let ih = strip_prefix_lem p s rest (rw same at h) in
          ap (λ x. String.◌∷◌ x s) (sym q)
          ∙ ap (λ x. String.◌∷◌ c x) ih
          ∙ sym (concat_cons c p rest)
    ]

spaces_lem : (s : String) → s ≡ concat (spaces s).0 (spaces s).1
unfolding spaces
spaces_lem String.[] = sym (concat_nil "")
spaces_lem (String.◌∷◌ c s) =
    if_ind (λ (r : String × String). String.◌∷◌ c s ≡ concat r.0 r.1) (is_space c)
      (λ _. ap (λ x. String.◌∷◌ c x) (spaces_lem s) ∙ sym (concat_cons c (spaces s).0 (spaces s).1))
      (λ _. sym (concat_nil (String.◌∷◌ c s)))

-- The text starts with what is matched.
pub match_words_lem :
    (ws : List String) (s m : String)
    → match_words ws s ≡ some m
    → (rest : String) × (s ≡ concat m rest)
unfolding match_words
match_words_lem [] s m h = (s, cc (concat_nil s))
match_words_lem (w ∷ []) s m h = go (strip_prefix w s) refl h
  where
    go :
        (o : Option String)
        → strip_prefix w s ≡ o
        → elim o as (λ _. Option String) [ none ↦ none | some rest ↦ some w ] ≡ some m
        → (rest : String) × (s ≡ concat m rest)
    go none q k = cc
    go (some rest) q k = (rest, strip_prefix_lem w s rest q ∙ ap (λ x. concat x rest) (cc))
match_words_lem (w ∷ v ∷ ws) s m h =
    go (strip_prefix w s) refl (λ rest tail. match_words_lem (v ∷ ws) (spaces rest).1 tail) h
  where
    go :
        (o : Option String)
        → strip_prefix w s ≡ o
        → ((rest tail : String)
            → match_words (v ∷ ws) (spaces rest).1 ≡ some tail
            → (after : String) × ((spaces rest).1 ≡ concat tail after))
        → elim o as (λ _. Option String) [
          | none ↦ none
          | some rest ↦
              if is_blank (spaces rest).0
              then none
              else elim (match_words (v ∷ ws) (spaces rest).1) [
                | none ↦ none
                | some tail ↦ some (concat w (concat (spaces rest).0 tail))
              ]
        ]
          ≡ some m
        → (after : String) × (s ≡ concat m after)
    go none q ih k = cc
    go (some rest) q ih k =
        if_ind (λ o. o ≡ some m → (after : String) × (s ≡ concat m after))
          (is_blank (spaces rest).0) (λ _ e. cc)
          (λ _ e. inner (match_words (v ∷ ws) (spaces rest).1) refl e) k
      where
        inner :
            (o : Option String)
            → match_words (v ∷ ws) (spaces rest).1 ≡ o
            → elim o as (λ _. Option String) [
              | none ↦ none
              | some tail ↦ some (concat w (concat (spaces rest).0 tail))
            ]
              ≡ some m
            → (after : String) × (s ≡ concat m after)
        inner none r e = cc
        inner (some tail) r e =
            let (after, split) = ih rest tail r in
            let whole : concat w (concat (spaces rest).0 tail) ≡ m = cc in
            (
              after,
              strip_prefix_lem w s rest q
                  ∙ ap (concat w) (
                      spaces_lem rest
                      ∙ ap (concat (spaces rest).0) split
                      ∙ sym (concat_assoc (spaces rest).0 tail after))
                  ∙ sym (concat_assoc w (concat (spaces rest).0 tail) after)
                  ∙ ap (λ x. concat x after) whole,
            )

-- A match is a part of the text.
pub search_words_lem :
    (ws : List String) (s m : String)
    → search_words ws s ≡ some m
    → (before after : String) × (s ≡ concat before (concat m after))
unfolding search_words
search_words_lem ws String.[] m h =
    let (after, q) = match_words_lem ws "" m h in ("", after, q ∙ sym (concat_nil (concat m after)))
search_words_lem ws (String.◌∷◌ c s) m h =
    go (match_words ws (String.◌∷◌ c s)) refl (search_words_lem ws s m) h
  where
    go :
        (o : Option String)
        → match_words ws (String.◌∷◌ c s) ≡ o
        → (search_words ws s ≡ some m
            → (before after : String) × (s ≡ concat before (concat m after)))
        → elim o as (λ _. Option String) [ some found ↦ some found | none ↦ search_words ws s ]
          ≡ some m
        → (before after : String) × (String.◌∷◌ c s ≡ concat before (concat m after))
    go none q ih k =
        let (before, after, e) = ih k in
        (
          String.◌∷◌ c before,
          after,
          ap (λ x. String.◌∷◌ c x) e ∙ sym (concat_cons c before (concat m after)),
        )
    go (some found) q ih k =
        let (after, e) = match_words_lem ws (String.◌∷◌ c s) found q in
        let same : found ≡ m = cc in
        ("", after, e ∙ ap (λ x. concat x after) same ∙ sym (concat_nil (concat m after)))
