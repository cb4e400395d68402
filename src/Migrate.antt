-- ===== src/Migrate.antt =====
-- src/migrate.ts: the runner of the files in migrations/. What a file's SQL does to the schema, and the
-- directory with its files, are parameters.
pub mod Progress
pub mod Rerun
use Prim.Native.Nat.{ℕ}
use Prim.Native.String.{String, slice, len}
use text.Mathlib.Text.{◌==◌ as ◌=ₛ◌, is_le}
use Prim.Native.String.{compare}
use payment_apis.Prelude.{
  suc, ◌-◌, Bool, false, Option, none, some, List, [], ◌∷◌, select, any, leb, if◌then◌else◌,
}
use payment_apis.Errors.{db_error, unique_violation}
use payment_apis.Db.{Void, Result, ok, err, bind_result}

-- `f.endsWith(suffix)`
abbrev pub ends_with : String → String → Bool
ends_with s suffix =
    if leb (len suffix) (len s) then slice s (len s - len suffix) (len s) =ₛ suffix else false

-- `.sort()`, by the characters' codes.
unfoldable pub insert_name : String → List String → List String
insert_name x [] = x ∷ []
insert_name x (y ∷ ys) =
    let later = insert_name x ys in if is_le (compare x y) then x ∷ y ∷ ys else y ∷ later

unfoldable pub sort : List String → List String
sort [] = []
sort (x ∷ xs) = insert_name x (sort xs)

-- `(await readdir(migrationsDir)).filter((f) => f.endsWith(".sql")).sort()`
unfoldable pub migration_files : List String → List String
migration_files entries = sort (select (λ f. ends_with f ".sql") entries)

-- The database that is migrated: its schema, and the names in schema_migrations once that is there.
pub record Target (S : Type 0) : Type 0 where
  pub schema : S
  pub schema_migrations : Option (List String)

abbrev pub names_of : Option (List String) → List String
names_of none = []
names_of (some names) = names

-- `applied.has(file)`
abbrev pub has : List String → String → Bool
has names file = any (λ name. name =ₛ file) names

module _ {S : Type 0} where
  -- CREATE TABLE IF NOT EXISTS schema_migrations
  abbrev pub create_table : Target S → Target S
  create_table t = record t { schema_migrations = some (names_of t.schema_migrations) }

  -- The INSERT, with PRIMARY KEY (name).
  abbrev insert_row : String → Target S → Result (Target S)
  insert_row file t =
      let names = names_of t.schema_migrations in
      if has names file
      then err (db_error unique_violation)
      else ok (record t { schema_migrations = some (file ∷ names) })

  -- COMMIT, or ROLLBACK and throw on.
  abbrev pub finish : Target S → Result (Target S) → Result Void × Target S
  finish before (ok after) = (ok tt, after)
  finish before (err e) = (err e, before)

  -- The loop goes on after a file that was applied.
  abbrev pub go_on : (Target S → Result ℕ × Target S) → Result Void × Target S → Result ℕ × Target S
  go_on rest (ok done, t) = rest t
  go_on rest (err e, t) = (err e, t)

  module _ (execute : String → S → Result S) (read_file : String → String) where
    -- The `try` of the loop.
    unfoldable pub apply_file : String → Target S → Result Void × Target S
    apply_file file t = finish t (
        bind_result (execute (read_file file) t.schema)
          λ schema. insert_row file (record t { schema = schema }))

    -- The loop, with the count `ran`.
    unfoldable pub apply_all : List String → List String → ℕ → Target S → Result ℕ × Target S
    apply_all applied [] ran t = (ok ran, t)
    apply_all applied (file ∷ files) ran t =
        let skipped = apply_all applied files ran t in
        let applying = go_on (apply_all applied files (suc ran)) (apply_file file t) in
        if has applied file then skipped else applying

    -- `runMigrations`
    unfoldable pub run_migrations : List String → Target S → Result ℕ × Target S
    run_migrations entries t =
        let ready = create_table t in
        apply_all (names_of ready.schema_migrations) (migration_files entries) 0 ready
