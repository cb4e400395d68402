-- ===== src/Tests/Migrations.antt =====
-- Two migrations, on a schema that is the list of what was executed.
use Prim.Native.String.{String}
use payment_apis.Prelude.{◌≡◌, refl, none, some, List, [], ◌∷◌}
use payment_apis.Db.{Result, ok}
use payment_apis.Migrate.{
  Target, insert_name, sort, migration_files, apply_file, apply_all, run_migrations,
}
use payment_apis.Migrate.Progress.{pending, Progress, run_migrations-Progress}
use payment_apis.Migrate.Rerun.{run_migrations-again}

abbrev execute : String → List String → Result (List String)
execute sql schema = ok (sql ∷ schema)

abbrev read_file : String → String
read_file name = name

abbrev entries : List String
entries = "0002.sql" ∷ "README" ∷ "0001.sql" ∷ []

abbrev empty : Target (List String)
empty = record { schema = []; schema_migrations = none }

abbrev migrated : Target (List String)
migrated = record {
  schema = "0002.sql" ∷ "0001.sql" ∷ [];
  schema_migrations = some ("0002.sql" ∷ "0001.sql" ∷ []);
}

runs_both : run_migrations execute read_file entries empty ≡ (ok 2, migrated)
unfolding run_migrations apply_all apply_file migration_files sort insert_name
runs_both = refl

run_migrations-Progress_example :
    Progress execute read_file
      (pending [] (migration_files entries))
      0
      empty
      (run_migrations execute read_file entries empty).0
      (run_migrations execute read_file entries empty).1
run_migrations-Progress_example = run_migrations-Progress execute read_file entries empty

run_migrations-again_example : run_migrations execute read_file entries migrated ≡ (ok 0, migrated)
run_migrations-again_example =
    run_migrations-again execute read_file entries empty 2 migrated runs_both
