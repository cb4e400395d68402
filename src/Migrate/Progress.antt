-- ===== src/Migrate/Progress.antt =====
-- What a run of src/migrate.ts has done when it ends, also when it throws.
use Prim.Native.String.{String}
use payment_apis.Prelude.{
  ℕ, suc, ◌+◌, ◌≡◌, refl, ap, ◌∙◌, ◌⊎◌, inl, inr, not, some, List, [], ◌∷◌, ◌++◌, length, select,
  arith, Bool-cases,
}
use payment_apis.Errors.{Error, db_error, unique_violation}
use payment_apis.Db.{Result, ok, err, bind_result, Result-cases}
use payment_apis.Migrate.{
  Target, names_of, has, create_table, migration_files, apply_file, apply_all, run_migrations,
}

-- The files that the loop does not skip.
abbrev pub pending : List String → List String → List String
pending applied files = select (λ f. not (has applied f)) files

-- The names of files that were applied one after the other, the last one first.
abbrev pub recorded : List String → List String → List String
recorded [] names = names
recorded (file ∷ files) names = recorded files (file ∷ names)

module _ {S : Type 0} (execute : String → S → Result S) (read_file : String → String) where
  -- The files' SQL, one after the other.
  abbrev pub executed : List String → S → Result S
  executed [] s = ok s
  executed (file ∷ files) s = bind_result (execute (read_file file) s) (executed files)

  -- How a run over files that are still to do has ended: the first of them took effect, each whole, and
  -- with its name; all of them, or the next one threw.
  pub record Progress (files : List String) (ran : ℕ) (t : Target S) (r : Result ℕ)
      (after : Target S) : Type 0 where
    pub done : List String
    pub rest : List String
    pub split : files ≡ done ++ rest
    pub schema : executed done t.schema ≡ ok after.schema
    pub names : names_of after.schema_migrations ≡ recorded done (names_of t.schema_migrations)
    pub ended :
        ((rest ≡ []) × (r ≡ ok (ran + length done)))
        ⊎ ((file : String) × (more : List String) × (e : Error) × (rest ≡ file ∷ more)
            × (r ≡ err e))

  pub apply_file-cases :
      (file : String) (t : Target S)
      → ((s : S) × (execute (read_file file) t.schema ≡ ok s)
          × (apply_file execute read_file file t ≡ (
            ok tt,
            record t { schema = s; schema_migrations = some (file ∷ names_of t.schema_migrations) },
          )))
        ⊎ ((e : Error) × (apply_file execute read_file file t ≡ (err e, t)))
  unfolding apply_file
  apply_file-cases file t = elim (Result-cases (execute (read_file file) t.schema)) [
    | inl (s, e) ↦ elim (Bool-cases (has (names_of t.schema_migrations) file)) [
      | inl known ↦ inr (db_error unique_violation, rw e (rw known refl))
      | inr new ↦ inl (s, e, rw e (rw new refl))
    ]
    | inr (x, e) ↦ inr (x, rw e refl)
  ]

  -- A file that was applied before the rest.
  Progress-more :
      (file : String) (files : List String) (ran : ℕ) (t : Target S) (s : S) (r : Result ℕ)
      (after : Target S)
      → execute (read_file file) t.schema ≡ ok s
      → Progress files
          (suc ran)
          (record t { schema = s; schema_migrations = some (file ∷ names_of t.schema_migrations) })
          r
          after
      → Progress (file ∷ files) ran t r after
  Progress-more file files ran t s r after e p = record {
    done = file ∷ p.done;
    rest = p.rest;
    split = ap (λ fs. file ∷ fs) p.split;
    schema = rw e p.schema;
    names = p.names;
    ended = elim p.ended [
      | inl (nothing, all) ↦ inl (nothing, all ∙ ap ok (omega arith))
      | inr stopped ↦ inr stopped
    ];
  }

  apply_all-Progress :
      (applied files : List String) (ran : ℕ) (t : Target S)
      → Progress
          (pending applied files)
          ran
          t
          (apply_all execute read_file applied files ran t).0
          (apply_all execute read_file applied files ran t).1
  unfolding apply_all
  apply_all-Progress applied [] ran t = record {
    done = [];
    rest = [];
    split = refl;
    schema = refl;
    names = refl;
    ended = inl (refl, ap ok (omega arith));
  }
  apply_all-Progress applied (file ∷ files) ran t = elim (Bool-cases (has applied file)) [
    | inl known ↦ rw known (apply_all-Progress applied files ran t)
    | inr new ↦ rw new (elim (apply_file-cases file t) [
      | inl (s, e, step) ↦ rw step (
          Progress-more file (pending applied files) ran t s _ _ e
            (apply_all-Progress applied files (suc ran) _))
      | inr (x, step) ↦ rw step record {
        done = [];
        rest = file ∷ pending applied files;
        split = refl;
        schema = refl;
        names = refl;
        ended = inr (file, pending applied files, x, refl, refl);
      }
    ])
  ]

  -- A run of the migrations that ends, whether it returns or throws, has executed the first of the files to
  -- do in the order of their names, each once and with its name recorded: all of them if it returns, with
  -- their number, and if it throws all that stand before the file that failed.
  pub run_migrations-Progress :
      (entries : List String) (t : Target S)
      → Progress
          (pending (names_of t.schema_migrations) (migration_files entries))
          0
          t
          (run_migrations execute read_file entries t).0
          (run_migrations execute read_file entries t).1
  unfolding run_migrations
  run_migrations-Progress entries t =
      let p =
        apply_all-Progress (names_of t.schema_migrations) (migration_files entries) 0
          (create_table t) in
      record {
        done = p.done;
        rest = p.rest;
        split = p.split;
        schema = p.schema;
        names = p.names;
        ended = p.ended;
      }
