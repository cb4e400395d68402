-- ===== src/Migrate/Rerun.antt =====
-- What a second run of src/migrate.ts does.
use Prim.Native.String.{String}
use text.Mathlib.TextPositions.{eq_refl}
use payment_apis.Prelude.{
  ℕ, suc, ◌≡◌, refl, ap, subst, sym, ◌∙◌, inl, inr, true, Option, some, List, [], ◌∷◌, All,
  All-append, arith, Bool-cases,
}
use payment_apis.Db.{Result, ok}
use payment_apis.Migrate.{
  Target, names_of, has, create_table, migration_files, apply_all, run_migrations,
}
use payment_apis.Migrate.Progress.{
  pending, recorded, Progress, apply_file-cases, run_migrations-Progress,
}

-- A recorded name stays, and what was done is recorded.
has-recorded :
    (done names : List String) (f : String)
    → has names f ≡ true
    → has (recorded done names) f ≡ true
has-recorded [] names f h = h
has-recorded (x ∷ done) names f h = has-recorded done (x ∷ names) f (ground (arith, h))

recorded-All : (done names : List String) → All (λ f. has (recorded done names) f ≡ true) done
recorded-All [] names = tt
recorded-All (x ∷ done) names =
    (has-recorded done (x ∷ names) x (rw (eq_refl x) refl), recorded-All done (x ∷ names))

-- A file is applied, or it is among those to do.
All-pending :
    (P : String → Type 0) (applied files : List String)
    → ((f : String) → has applied f ≡ true → P f)
    → All P (pending applied files)
    → All P files
All-pending P applied [] known todo = tt
All-pending P applied (f ∷ files) known todo = elim (Bool-cases (has applied f)) [
  | inl e ↦ (known f e, All-pending P applied files known (rw e at todo))
  | inr e ↦ let all = rw e at todo in (all.0, All-pending P applied files known all.1)
]

HasTable : {S : Type 0} → Target S → Type 0
HasTable t = t.schema_migrations ≡ some (names_of t.schema_migrations)

module _ {S : Type 0} (execute : String → S → Result S) (read_file : String → String) where
  skips :
      (applied files : List String) (ran : ℕ) (t : Target S)
      → All (λ f. has applied f ≡ true) files
      → apply_all execute read_file applied files ran t ≡ (ok ran, t)
  unfolding apply_all
  skips applied [] ran t all = refl
  skips applied (f ∷ files) ran t all = rw all.0 (skips applied files ran t all.1)

  apply_all-HasTable :
      (applied files : List String) (ran : ℕ) (t : Target S)
      → HasTable t
      → HasTable (apply_all execute read_file applied files ran t).1
  unfolding apply_all HasTable
  apply_all-HasTable applied [] ran t h = h
  apply_all-HasTable applied (f ∷ files) ran t h = elim (Bool-cases (has applied f)) [
    | inl known ↦ rw known (apply_all-HasTable applied files ran t h)
    | inr new ↦ rw new (elim (apply_file-cases execute read_file f t) [
      | inl (s, e, step) ↦ rw step (apply_all-HasTable applied files (suc ran) _ refl)
      | inr (x, step) ↦ rw step h
    ])
  ]

  -- A run that returned has recorded all files.
  returned-All :
      (files : List String) (t : Target S) (ran n : ℕ) (after : Target S)
      → Progress execute read_file (pending (names_of t.schema_migrations) files) ran t (ok n) after
      → All (λ f. has (names_of after.schema_migrations) f ≡ true) files
  returned-All files t ran n after p =
      let Kept : String → Type 0 = λ f. has (names_of after.schema_migrations) f ≡ true in
      All-pending Kept (names_of t.schema_migrations) files
        (λ f known. rw p.names (has-recorded p.done (names_of t.schema_migrations) f known))
        (elim p.ended [
          | inl (nothing, all) ↦ subst (All Kept) (sym p.split) (
              All-append Kept p.done p.rest
                (rw p.names (recorded-All p.done (names_of t.schema_migrations))) (rw nothing tt))
          | inr (file, more, e, stopped, thrown) ↦ absurd (cc)
        ])

  -- After a run of the migrations that returned, another run executes nothing, and leaves all as it is.
  pub run_migrations-again :
      (entries : List String) (t : Target S) (n : ℕ) (after : Target S)
      → run_migrations execute read_file entries t ≡ (ok n, after)
      → run_migrations execute read_file entries after ≡ (ok 0, after)
  unfolding run_migrations HasTable
  run_migrations-again entries t n after h =
      let p : Progress execute read_file
          (pending (names_of t.schema_migrations) (migration_files entries)) 0 t (ok n) after =
        subst
          (λ (r : Result ℕ × Target S).
            Progress execute read_file
              (pending (names_of t.schema_migrations) (migration_files entries)) 0 t r.0 r.1)
          h (run_migrations-Progress execute read_file entries t) in
      let there : HasTable after =
        subst (λ (r : Result ℕ × Target S). HasTable r.1) h
          (apply_all-HasTable (names_of t.schema_migrations) (migration_files entries) 0
            (create_table t) refl) in
      skips (names_of after.schema_migrations) (migration_files entries) 0 (create_table after)
        (returned-All (migration_files entries) t 0 n after p)
      ∙ ap (λ (ms : Option (List String)). (ok 0, record after { schema_migrations = ms }))
          (sym there)
