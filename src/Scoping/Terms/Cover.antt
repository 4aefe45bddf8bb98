-- ===== src/Scoping/Terms/Cover.antt =====
-- What `_unique_nonempty` keeps of its argument.
use ai_researcher.Prelude.{
  ◌==◌, nat_eq, String, ◌≡◌, refl, sym, ap, subst, ◌∙◌, Bool, true, false, not, ◌&&◌, List, [], ◌∷◌,
  ◌++◌, map-append, string_eq, beq_self, if◌then◌else◌, if_ind, select, select_all, All_intro,
  Bool-cases, beq_comm, eq_of_beq, append-nil, append_assoc, inl, inr, ◌⊎◌, All, All-append, Exists,
  Exists-self, All-map, Exists-weaken, contains, contains-append, Distinct, Distinct-snoc, arith,
}
use ai_researcher.Text.{strip, is_blank}
use ai_researcher.Scoping.Terms.{Unique, fold_keys, keep, keep_all, unique_nonempty}

select_both :
    (f g h : String → Bool) (xs : List String)
    → ((x : String) → (f x && g x) ≡ h x)
    → select f (select g xs) ≡ select h xs
select_both f g h [] same = refl
select_both f g h (x ∷ xs) same =
    let ih = select_both f g h xs same in
    let at = same x in
    elim (Bool-cases (g x)) [
      | inr out ↦ (let absent : h x ≡ false = ground arith in rw (out, absent) ih)
      | inl into ↦ elim (Bool-cases (f x)) [
        | inl inside ↦
            (let both : h x ≡ true = ground arith in rw (into, inside, both) (ap (λ l. x ∷ l) ih))
        | inr outside ↦ (let neither : h x ≡ false = ground arith in rw (into, outside, neither) ih)
      ]
    ]

module _ (casefold : String → String) where
  -- No two terms alike but for case, and none blank.
  pub record IsUnique (u : Unique) : Type 0 where
    pub same_keys : u.seen ≡ fold_keys casefold u.unique
    pub distinct : Distinct u.seen
    pub given : All (λ s. is_blank s ≡ false) u.unique

  keep-IsUnique : (u : Unique) (v : String) → IsUnique u → IsUnique (keep casefold u v)
  unfolding keep
  keep-IsUnique u v h =
      if_ind IsUnique (not (is_blank (strip v)) && not (contains u.seen (casefold (strip v))))
        (λ q. record {
          same_keys =
              ap (λ (l : List String). l ++ casefold (strip v) ∷ []) h.same_keys
              ∙ sym (map-append casefold u.unique (strip v ∷ []));
          distinct = Distinct-snoc u.seen (casefold (strip v)) h.distinct (ground arith);
          given = All-append _ u.unique (strip v ∷ []) h.given (ground arith, tt);
        })
        (λ _. h)

  -- A value that is not blank has its key among those kept, and a key stays.
  keep-covers :
      (u : Unique) (v : String)
      → is_blank (strip v) ≡ false
      → contains (keep casefold u v).seen (casefold (strip v)) ≡ true
  unfolding keep
  keep-covers u v h =
      if_ind (λ (w : Unique). contains w.seen (casefold (strip v)) ≡ true)
        (not (is_blank (strip v)) && not (contains u.seen (casefold (strip v))))
        (λ q. ground (
          arith,
          contains-append u.seen (casefold (strip v) ∷ []) (casefold (strip v)),
          beq_self (casefold (strip v)),
        ))
        (λ q. ground arith)

  keep-seen :
      (u : Unique) (v k : String)
      → contains u.seen k ≡ true
      → contains (keep casefold u v).seen k ≡ true
  unfolding keep
  keep-seen u v k h =
      if_ind (λ (w : Unique). contains w.seen k ≡ true)
        (not (is_blank (strip v)) && not (contains u.seen (casefold (strip v))))
        (λ q. ground (arith, contains-append u.seen (casefold (strip v) ∷ []) k)) (λ q. h)

  keep_all-seen :
      (u : Unique) (values : List String) (k : String)
      → contains u.seen k ≡ true
      → contains (keep_all casefold u values).seen k ≡ true
  unfolding keep_all
  keep_all-seen u [] k h = h
  keep_all-seen u (v ∷ values) k h = keep_all-seen (keep casefold u v) values k (keep-seen u v k h)

  keep_all-IsUnique :
      (u : Unique) (values : List String) → IsUnique u → IsUnique (keep_all casefold u values)
  unfolding keep_all
  keep_all-IsUnique u [] h = h
  keep_all-IsUnique u (v ∷ values) h =
      keep_all-IsUnique (keep casefold u v) values (keep-IsUnique u v h)

  keep_all-covers :
      (u : Unique) (values : List String)
      → All
          (λ v.
            is_blank (strip v) ≡ false
            → contains (keep_all casefold u values).seen (casefold (strip v)) ≡ true)
          values
  unfolding keep_all
  keep_all-covers u [] = tt
  keep_all-covers u (v ∷ values) = (
    λ h. keep_all-seen (keep casefold u v) values _ (keep-covers u v h),
    keep_all-covers (keep casefold u v) values,
  )

  -- The values that are not blank, stripped, but for those with the key of an earlier one.
  abbrev pub first_spellings : List String → List String
  first_spellings [] = []
  first_spellings (v ∷ values) =
      let rest = first_spellings values in
      if is_blank (strip v)
      then rest
      else strip v ∷ select (λ s. not (casefold s == casefold (strip v))) rest

  abbrev fresh : List String → String → Bool
  fresh seen s = not (contains seen (casefold s))

  keep-turn :
      (u : Unique) (v : String) (rest : List String)
      → (keep casefold u v).unique ++ select (fresh (keep casefold u v).seen) rest
        ≡ u.unique
          ++ select (fresh u.seen) (
              if is_blank (strip v)
              then rest
              else strip v ∷ select (λ s. not (casefold s == casefold (strip v))) rest)
  unfolding keep
  keep-turn u v rest = elim (Bool-cases (is_blank (strip v))) [
    | inl blank ↦ rw blank refl
    | inr given ↦
        let key = casefold (strip v) in
        elim (Bool-cases (contains u.seen key)) [
          | inl old ↦
              rw (given, old)
                (ap (λ l. u.unique ++ l)
                  (sym (
                    select_both (fresh u.seen) (λ s. not (casefold s == key)) (fresh u.seen) rest
                      (λ s. of_old s (Bool-cases (casefold s == key)) old))))
          | inr new ↦
              rw (given, new)
                (append_assoc u.unique (strip v ∷ []) (select (fresh (u.seen ++ key ∷ [])) rest)
                  ∙ ap (λ l. u.unique ++ strip v ∷ l)
                      (sym (
                        select_both (fresh u.seen) (λ s. not (casefold s == key))
                          (fresh (u.seen ++ key ∷ [])) rest
                          (λ s. ground (
                            arith,
                            contains-append u.seen (key ∷ []) (casefold s),
                            beq_comm key (casefold s),
                          )))))
        ]
  ]
    where
      of_old :
          (s : String)
          → ((casefold s == casefold (strip v)) ≡ true)
            ⊎ ((casefold s == casefold (strip v)) ≡ false)
          → contains u.seen (casefold (strip v)) ≡ true
          → (fresh u.seen s && not (casefold s == casefold (strip v))) ≡ fresh u.seen s
      of_old s (inl same) old =
          let q : contains u.seen (casefold s) ≡ true =
            ap (contains u.seen) (eq_of_beq (casefold s) (casefold (strip v)) same) ∙ old in
          ground arith
      of_old s (inr apart) old = ground arith

  keep_all-unique :
      (u : Unique) (values : List String)
      → (keep_all casefold u values).unique
        ≡ u.unique ++ select (fresh u.seen) (first_spellings values)
  unfolding keep_all
  keep_all-unique u [] = sym (append-nil u.unique)
  keep_all-unique u (v ∷ values) =
      keep_all-unique (keep casefold u v) values ∙ keep-turn u v (first_spellings values)

  -- A term comes from a value.
  abbrev IsFrom : List String → String → Type 0
  IsFrom all s = Exists (λ v. s ≡ strip v) all

  keep-IsFrom :
      (all : List String) (u : Unique) (v : String)
      → IsFrom all (strip v)
      → All (IsFrom all) u.unique
      → All (IsFrom all) (keep casefold u v).unique
  unfolding keep
  keep-IsFrom all u v given h =
      if_ind (λ (w : Unique). All (IsFrom all) w.unique)
        (not (is_blank (strip v)) && not (contains u.seen (casefold (strip v))))
        (λ _. All-append (IsFrom all) u.unique (strip v ∷ []) h (given, tt)) (λ _. h)

  keep_all-IsFrom :
      (all : List String) (u : Unique) (values : List String)
      → All (λ v. IsFrom all (strip v)) values
      → All (IsFrom all) u.unique
      → All (IsFrom all) (keep_all casefold u values).unique
  unfolding keep_all
  keep_all-IsFrom all u [] given h = h
  keep_all-IsFrom all u (v ∷ values) given h =
      keep_all-IsFrom all (keep casefold u v) values given.1 (keep-IsFrom all u v given.0 h)

  -- The terms without repetition: each is a value, stripped, none is blank, no two have one key, and every value that is not
  -- blank has its key among them.
  pub record IsCover (values terms : List String) : Type 0 where
    pub first : terms ≡ first_spellings values
    pub from_values : All (IsFrom values) terms
    pub given : All (λ s. is_blank s ≡ false) terms
    pub distinct : Distinct (fold_keys casefold terms)
    pub covers :
        All
          (λ v.
            is_blank (strip v) ≡ false
            → contains (fold_keys casefold terms) (casefold (strip v)) ≡ true)
          values

-- For any case folding, `_unique_nonempty` returns values of its argument, stripped and in their
-- order: it drops the blank values and all but the first of the values that are equal after
-- stripping and case folding, and no other.
pub unique_nonempty-IsCover :
    (casefold : String → String) (values : List String)
    → IsCover casefold values (unique_nonempty casefold values)
unfolding unique_nonempty
unique_nonempty-IsCover casefold values =
    let u = keep_all casefold (record { unique = []; seen = [] }) values in
    let h =
      keep_all-IsUnique casefold (record { unique = []; seen = [] }) values
        (record { same_keys = refl; distinct = tt; given = tt }) in
    record {
      first =
          keep_all-unique casefold (record { unique = []; seen = [] }) values
          ∙ select_all _ (first_spellings casefold values) (All_intro _ _ λ s. refl);
      from_values =
          keep_all-IsFrom casefold values (record { unique = []; seen = [] }) values
            (All-map _ _ values (λ v e. Exists-weaken _ _ values (λ x q. ap strip (sym q)) e)
              (Exists-self values))
            tt;
      given = h.given;
      distinct = subst (λ (l : List String). Distinct l) h.same_keys h.distinct;
      covers =
          subst
            (λ (l : List String).
              All (λ v. is_blank (strip v) ≡ false → contains l (casefold (strip v)) ≡ true) values)
            h.same_keys (keep_all-covers casefold (record { unique = []; seen = [] }) values);
    }
