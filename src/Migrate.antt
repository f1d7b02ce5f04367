-- ===== src/Migrate.antt =====
-- internal/db/migrate.go: the migrations that are not yet recorded, in the order of their names, in
-- one transaction.
pub mod Spec
pub mod Laws
pub mod Plan
pub mod Transaction
use users.Prelude.{
  ℕ, ◌+◌, ◌≡◌, ◌⊎◌, Bool, true, false, Option, none, some, List, [], ◌∷◌, ◌++◌, Bytes, bytes_eq,
  text_leb, ◌||◌, if◌then◌else◌,
}
use users.Prelude.Tables.{sort_with}
use users.Errors.{Result, ok, err, Error, message, unique_violation, wrap}
use users.Server.Status.{or_error}

-- fs.DirEntry
pub record Entry : Type 0 where
  pub name : Bytes
  pub is_dir : Bool

-- The embedded files of the package migrations.
pub record Files : Type 0 where
  pub read_dir : Result (List Entry)
  pub read_file : (name : Bytes) → Result Bytes

-- The rows of schema_migrations, where the table exists, and the other tables.
pub record Schema (S : Type 0) : Type 0 where
  pub versions : Option (List Bytes)
  pub tables : S

-- The recorded versions, none where the table does not exist.
abbrev pub recorded : {S : Type 0} → Schema S → List Bytes
recorded schema = elim schema.versions [ none ↦ [] | some versions ↦ versions ]

-- A connection, with the number of the statements that it has run.
pub record Session (S : Type 0) : Type 0 where
  pub schema : Schema S
  pub clock : ℕ

abbrev pub T : (S A : Type 0) → Type 0
T S A = Session S → Result A × Session S

-- PostgreSQL and pgx: what a script does, which statements fail, and pgxpool.Pool.Acquire and
-- pgx.BeginFunc, which commits where the body succeeds, unless beginning or committing fails, and
-- rolls back where it fails. Where committing fails, as on a lost connection, PostgreSQL may have
-- committed or not.
pub record Postgres (S : Type 0) : Type 0 where
  pub exec_script : Bytes → S → Result S
  pub fault : ℕ → Option Error
  pub acquire : Result (Unit {0})
  pub begin_func : T S (Unit {0}) → T S (Unit {0})
  pub committed :
      (body : T S (Unit {0})) (s : Session S)
      → (body s).0 ≡ ok tt
      → (((begin_func body s).0 ≡ ok tt) × ((begin_func body s).1.schema ≡ (body s).1.schema))
        ⊎ ((e : Error) × ((begin_func body s).0 ≡ err e)
            × (((begin_func body s).1.schema ≡ s.schema)
                ⊎ ((begin_func body s).1.schema ≡ (body s).1.schema)))
  pub rolled_back :
      (body : T S (Unit {0})) (s : Session S) (e : Error)
      → (body s).0 ≡ err e
      → (e' : Error) × ((begin_func body s).0 ≡ err e') × ((begin_func body s).1.schema ≡ s.schema)

unfoldable pub has_version : Bytes → List Bytes → Bool
unfolding bytes_eq
has_version version [] = false
has_version version (v ∷ versions) = bytes_eq v version || has_version version versions

-- entries[i].Name() < entries[j].Name()
unfoldable pub entry_le : Entry → Entry → Bool
unfolding text_leb
entry_le x y = text_leb x.name y.name

module _ {S : Type 0} where
  pure : {A : Type 0} → A → T S A
  pure a s = (ok a, s)

  lift : {A : Type 0} → Result A → T S A
  lift r s = (r, s)

  then_ : {A B : Type 0} → Result A → (A → T S B) → T S B
  then_ (ok a) f s = f a s
  then_ (err e) f s = (err e, s)

  infixl 5 ◌>>=◌
  pub ◌>>=◌ : {A B : Type 0} → T S A → (A → T S B) → T S B
  unfolding then_
  ◌>>=◌ m f s = let (r, s') = m s in then_ r f s'

  answer : {A : Type 0} → Option Error → (Schema S → Result A × Schema S) → T S A
  answer (some e) run s = (err e, record s { clock = s.clock + 1 })
  answer none run s =
      let (r, schema) = run s.schema in (r, record { schema = schema; clock = s.clock + 1 })

  -- One statement, with the error that the code wraps its error in.
  pub statement :
      {A : Type 0} → Postgres S → (Error → Error) → (Schema S → Result A × Schema S) → T S A
  unfolding answer or_error
  statement db f run s = let (r, s') = answer (db.fault s.clock) run s in (or_error f r, s')

  -- CREATE TABLE IF NOT EXISTS schema_migrations
  create_table : Schema S → Result (Unit {0}) × Schema S
  create_table schema = (ok tt, record schema { versions = some (recorded schema) })

  -- SELECT EXISTS (SELECT 1 FROM schema_migrations WHERE version = $1)
  select_applied : Bytes → Schema S → Result Bool × Schema S
  unfolding has_version
  select_applied version schema = elim schema.versions [
    | none ↦ (err (message "relation schema_migrations does not exist"), schema)
    | some versions ↦ (ok (has_version version versions), schema)
  ]

  exec_script : Postgres S → Bytes → Schema S → Result (Unit {0}) × Schema S
  exec_script db content schema = elim (db.exec_script content schema.tables) [
    | err e ↦ (err e, schema)
    | ok tables ↦ (ok tt, record schema { tables = tables })
  ]

  -- INSERT INTO schema_migrations (version) VALUES ($1)
  insert_version : Bytes → Schema S → Result (Unit {0}) × Schema S
  unfolding has_version
  insert_version version schema = elim schema.versions [
    | none ↦ (err (message "relation schema_migrations does not exist"), schema)
    | some versions ↦
        if has_version version versions
        then (err (unique_violation "schema_migrations_pkey"), schema)
        else (ok tt, record schema { versions = some (versions ++ version ∷ []) })
  ]

  read_version : Files → Bytes → T S Bytes
  unfolding lift or_error
  read_version files version = lift (or_error (wrap "read migration") (files.read_file version))

  exec_version : Postgres S → Bytes → T S (Unit {0})
  unfolding statement exec_script
  exec_version db content = statement db (wrap "apply migration") (exec_script db content)

  record_version : Postgres S → Bytes → Unit {0} → T S (Unit {0})
  unfolding statement insert_version
  record_version db version u = statement db (wrap "record migration") (insert_version version)

  run_version : Postgres S → Bytes → Bytes → T S (Unit {0})
  unfolding ◌>>=◌ exec_version record_version
  run_version db version content = exec_version db content >>= record_version db version

  -- The rest of a round for a version that is not recorded yet.
  apply_unless : Postgres S → Files → Bytes → Bool → T S (Unit {0})
  unfolding ◌>>=◌ read_version run_version pure
  apply_unless db files version applied =
      if applied then pure tt else read_version files version >>= run_version db version

  check_version : Postgres S → Bytes → T S Bool
  unfolding statement select_applied
  check_version db version = statement db (wrap "check migration") (select_applied version)

  apply_version : Postgres S → Files → Bytes → T S (Unit {0})
  unfolding ◌>>=◌ check_version apply_unless
  apply_version db files version = check_version db version >>= apply_unless db files version

  apply_entry : Postgres S → Files → Entry → T S (Unit {0})
  unfolding apply_version pure
  apply_entry db files entry = if entry.is_dir then pure tt else apply_version db files entry.name

  -- The loop over the entries.
  pub apply_entries : Postgres S → Files → List Entry → T S (Unit {0})
  unfolding ◌>>=◌ apply_entry pure
  apply_entries db files [] = pure tt
  apply_entries db files (entry ∷ entries) =
      apply_entry db files entry >>= λ _. apply_entries db files entries

  -- The body of the transaction.
  apply_sorted : Postgres S → Files → List Entry → T S (Unit {0})
  unfolding apply_entries entry_le sort_with
  apply_sorted db files entries = apply_entries db files (sort_with entry_le entries)

  read_entries : Files → Unit {0} → T S (List Entry)
  unfolding lift or_error
  read_entries files u = lift (or_error (wrap "read migrations") files.read_dir)

  ensure_table : Postgres S → T S (Unit {0})
  unfolding statement create_table
  ensure_table db = statement db (wrap "ensure schema_migrations") create_table

  migrate : Postgres S → Files → T S (Unit {0})
  unfolding ◌>>=◌ ensure_table read_entries apply_sorted
  migrate db files = (ensure_table db >>= read_entries files) >>= apply_sorted db files

  unfoldable pub apply_migrations : Postgres S → Files → T S (Unit {0})
  unfolding migrate
  apply_migrations db files s = elim db.acquire [
    | err e ↦ (err (wrap "acquire connection" e), s)
    | ok u ↦ db.begin_func (migrate db files) s
  ]
