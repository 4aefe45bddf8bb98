-- ===== src/Migrations/Sequence.antt =====
-- The migrations that `discover_migrations` makes of the files.
use mathlib.Core.List.{Perm}
use ai_researcher.Prelude.{
  ℕ, ◌<◌, String, ◌≡◌, refl, sym, ap, subst, ◌∙◌, true, false, not, ◌||◌, Option, none, some, List,
  [], ◌∷◌, ◌++◌, append_assoc, append-nil, nat_eq, ◌==◌, if_ind, All, contains, Distinct,
  Distinct-snoc, sort, place, IsSorted, sort-IsSorted, Yields, returns, Yields-needed, sort-perm,
  Yields-guard, Yields-bind, Yields-map, arith,
}
use ai_researcher.Migrations.{
  Error, invalid_filename, duplicate_version, statement_failed, File, Migration, versions, read_all,
  not_after, discover_migrations,
}

pub versions-append : (xs ys : List Migration) → versions (xs ++ ys) ≡ versions xs ++ versions ys
versions-append [] ys = refl
versions-append (x ∷ xs) ys = ap (λ l. x.version ∷ l) (versions-append xs ys)

contains-place :
    (x : Migration) (ys : List Migration) (a : ℕ)
    → contains (versions (place not_after x ys)) a ≡ (x.version == a || contains (versions ys) a)
contains-place x [] a = refl
contains-place x (y ∷ ys) a =
    if_ind (λ l. contains (versions l) a ≡ (x.version == a || contains (versions (y ∷ ys)) a))
      (not_after x y) (λ _. refl) (λ _. ground (arith, contains-place x ys a))

contains-sorted :
    (xs : List Migration) (a : ℕ)
    → contains (versions (sort not_after xs)) a ≡ contains (versions xs) a
contains-sorted [] a = refl
contains-sorted (x ∷ xs) a =
    ground (arith, contains-place x (sort not_after xs) a, contains-sorted xs a)

Distinct-place :
    (x : Migration) (ys : List Migration)
    → contains (versions ys) x.version ≡ false
    → Distinct (versions ys)
    → Distinct (versions (place not_after x ys))
Distinct-place x [] h d = (refl, tt)
Distinct-place x (y ∷ ys) h d =
    if_ind (λ l. Distinct (versions l)) (not_after x y) (λ _. (h, d))
      (λ _. (ground (arith, contains-place x ys y.version), Distinct-place x ys (ground arith) d.1))

Distinct-sorted :
    (xs : List Migration) → Distinct (versions xs) → Distinct (versions (sort not_after xs))
Distinct-sorted [] d = tt
Distinct-sorted (x ∷ xs) d =
    Distinct-place x (sort not_after xs) (ground (arith, contains-sorted xs x.version, d.0))
      (Distinct-sorted xs d.1)

-- Each file has a version in its name, and is the migration of that version.
pub record IsRead (file : File) (m : Migration) : Type 0 where
  pub version : file.version ≡ some m.version
  pub name : m.name ≡ file.stem
  pub text : m.text ≡ file.text

abbrev pub AreRead : List File → List Migration → Type 0
AreRead [] [] = Unit
AreRead (file ∷ files) (m ∷ ms) = IsRead file m × AreRead files ms
AreRead _ _ = ⊥

-- Each version is below all that follow.
abbrev pub AreAscending : List Migration → Type 0
AreAscending [] = Unit
AreAscending (m ∷ ms) = All (λ x. m.version < x.version) ms × AreAscending ms

sorted-AreAscending :
    (ms : List Migration) → IsSorted not_after ms → Distinct (versions ms) → AreAscending ms
sorted-AreAscending [] s d = tt
sorted-AreAscending (m ∷ ms) s d = (below ms s.0 d.0, sorted-AreAscending ms s.1 d.1)
  where
    below :
        (l : List Migration)
        → All (λ x. not_after m x ≡ true) l
        → contains (versions l) m.version ≡ false
        → All (λ x. m.version < x.version) l
    below [] h out = tt
    below (x ∷ l) h out = (
      (let le = h.0 in let apart : (x.version == m.version) ≡ false = ground arith in ground arith),
      below l h.1 (ground arith),
    )

-- The migrations are those of the files, in numeric order, and no version comes twice.
pub record IsSequence (files : List File) (ms : List Migration) : Type 0 where
  pub parsed : List Migration
  pub from_files : AreRead files parsed
  pub same : Perm ms parsed
  pub ascending : AreAscending ms
  pub distinct : Distinct (versions ms)

-- The exceptions: a directory that is no sequence, or a file that the database refuses.
pub data IsFailure {S : Type 0} (execute : String → S → Option S) : Error → Type 0 where
  bad_name : IsFailure execute invalid_filename
  bad_version : IsFailure execute duplicate_version
  refused :
      (m : Migration) (schema : S)
      → execute m.text schema ≡ none
      → IsFailure execute statement_failed

module _ {S : Type 0} (execute : String → S → Option S) where
  -- What the loop over the files has made of the rest.
  abbrev IsReading : List Migration → List File → List Migration → Type 0
  IsReading ms files r =
      Distinct (versions r)
      × ((parsed : List Migration) × AreRead files parsed × (r ≡ ms ++ parsed))

  read_all-IsReading :
      (ms : List Migration) (files : List File)
      → Distinct (versions ms)
      → Yields (IsFailure execute) (IsReading ms files) (read_all ms files)
  unfolding read_all
  read_all-IsReading ms [] d = returns (d, ([], tt, sym (append-nil ms)))
  read_all-IsReading ms (file ∷ files) d =
      Yields-bind _ _ (Yields-needed file.version _ (λ _. bad_name) (λ v q. q)) λ v q.
        Yields-bind _ _ (Yields-guard (not (contains (versions ms) v)) _ bad_version) λ _ new.
          let m : Migration = record { version = v; name = file.stem; text = file.text } in
          Yields-map
            (λ r h. (
              h.0,
              (
                m ∷ h.1.0,
                (record { version = q; name = refl; text = refl }, h.1.1),
                h.1.2 ∙ append_assoc ms (m ∷ []) h.1.0,
              ),
            ))
            (read_all-IsReading (ms ++ m ∷ []) files (
              subst (λ (l : List ℕ). Distinct l) (sym (versions-append ms (m ∷ [])))
                (Distinct-snoc (versions ms) v d (ground arith))))

  pub discover_migrations-IsSequence :
      (files : List File)
      → Yields (IsFailure execute) (IsSequence files) (discover_migrations files)
  unfolding discover_migrations
  discover_migrations-IsSequence files = Yields-bind _ _ (read_all-IsReading [] files tt) λ ms h.
      returns (record {
        parsed = h.1.0;
        from_files = h.1.1;
        same = subst (λ l. Perm (sort not_after ms) l) h.1.2 (sort-perm not_after ms);
        ascending =
            sorted-AreAscending (sort not_after ms)
              (sort-IsSorted not_after (λ a b k. ground arith) (λ a b c k l. ground arith) ms)
              (Distinct-sorted ms h.0);
        distinct = Distinct-sorted ms h.0;
      })
