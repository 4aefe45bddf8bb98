-- ===== src/Migrations/Tests.antt =====
-- Three files, of which the database has applied one.
use ai_researcher.Prelude.{String, ◌≡◌, refl, Option, some, List, [], ◌∷◌, ◌++◌, nat_eq, ok, Yields}
use ai_researcher.Migrations.{
  File, Database, read_all, discover_migrations, apply_one, apply_all, migrate,
}
use ai_researcher.Migrations.Sequence.{IsFailure}
use ai_researcher.Migrations.Once.{IsMigrated, migrate-IsMigrated}

abbrev files : List File
files =
    record { version = some 10; stem = "010_c"; text = "C" }
    ∷ record { version = some 1; stem = "001_a"; text = "A" }
    ∷ record { version = some 2; stem = "002_b"; text = "B" }
    ∷ []

-- The schema is the list of the texts that were run.
abbrev execute : String → List String → Option (List String)
execute text schema = some (schema ++ text ∷ [])

abbrev started : Database (List String)
started = record { schema = "A" ∷ []; applied = 1 ∷ [] }

migrate_run :
    migrate execute files started
    ≡ ok (
      record { schema = "A" ∷ "B" ∷ "C" ∷ []; applied = 1 ∷ 2 ∷ 10 ∷ [] },
      "002_b" ∷ "010_c" ∷ [],
    )
unfolding migrate discover_migrations read_all apply_all apply_one
migrate_run = refl

migrate-IsMigrated_example :
    Yields (IsFailure execute) (IsMigrated execute files started) (migrate execute files started)
migrate-IsMigrated_example = migrate-IsMigrated execute files started
