-- ===== src/Migrations.antt =====
-- src/ai_researcher/db/migrate.py: numbered SQL files, each applied once, in one transaction.
pub mod Sequence
pub mod Once
mod Tests
use ai_researcher.Prelude.{
  ℕ, String, ◌≡◌, Bool, true, false, not, Option, none, some, List, [], ◌∷◌, ◌++◌, map, nat_eq,
  string_eq, ◌==◌, leb, contains, sort, Result, ok, err, guard, need, ◌>>=◌, ◌>>◌, if◌then◌else◌,
}

pub data Error : Type 0 where
  -- MigrationDefinitionError
  invalid_filename duplicate_version : Error
  -- what the database raises
  statement_failed : Error

-- A file of the directory: the version that its name starts with if the name is one of a
-- migration, its stem, and its text.
pub record File : Type 0 where
  pub version : Option ℕ
  pub stem : String
  pub text : String

pub record Migration : Type 0 where
  pub version : ℕ
  pub name : String
  pub text : String

abbrev pub versions : List Migration → List ℕ
versions [] = []
versions (m ∷ ms) = m.version ∷ versions ms

-- `for path in directory.glob("*.sql")`
unfoldable pub read_all : List Migration → List File → Result Error (List Migration)
read_all migrations [] = ok migrations
read_all migrations (file ∷ files) = do
  version ← need file.version invalid_filename
  guard (not (contains (versions migrations) version)) duplicate_version
  read_all (migrations ++ record { version = version; name = file.stem; text = file.text } ∷ [])
      files

abbrev pub not_after : Migration → Migration → Bool
not_after a b = leb a.version b.version

unfoldable pub discover_migrations : List File → Result Error (List Migration)
discover_migrations files = do migrations ← read_all [] files; ok (sort not_after migrations)

-- The database: what the files change, and the versions of `schema_migration`.
pub record Database (S : Type 0) : Type 0 where
  pub schema : S
  pub applied : List ℕ

module _ {S : Type 0} (execute : String → S → Option S) where
  -- One turn of the loop, with the versions that were applied before it.
  -- The insertion fails for a version that is listed already, the table's primary key.
  unfoldable pub apply_one :
      List ℕ → Migration → Database S × List String → Result Error (Database S × List String)
  apply_one applied_versions m (db, applied_now) =
      let run = (do
        schema ← need (execute m.text db.schema) statement_failed
        guard (not (contains db.applied m.version)) statement_failed
        ok (
          record { schema = schema; applied = db.applied ++ m.version ∷ [] },
          applied_now ++ m.name ∷ [],
        )) in
      if contains applied_versions m.version then ok (db, applied_now) else run

  unfoldable pub apply_all :
      List ℕ → List Migration → Database S × List String → Result Error (Database S × List String)
  apply_all applied_versions [] r = ok r
  apply_all applied_versions (m ∷ ms) r = do
    next ← apply_one applied_versions m r
    apply_all applied_versions ms next

  -- The transaction is rolled back when this raises.
  unfoldable pub migrate : List File → Database S → Result Error (Database S × List String)
  migrate files db = do
    migrations ← discover_migrations files
    apply_all db.applied migrations (db, [])
