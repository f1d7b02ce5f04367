-- ===== src/Migrate/Spec.antt =====
-- What a run of the migrations promises: which files it applies, and what their scripts do.
use users.Prelude.{
  ◌≡◌, refl, Bool, false, not, ◌&&◌, ◌||◌, List, [], ◌∷◌, ◌++◌, map, Bytes, bytes_eq, All, arith,
}
use users.Prelude.Tables.{where_}
use users.Errors.{Result, ok, ◌>>=◌, ok-split, ok-injective}
use users.Migrate.{Entry, Files, Postgres, has_version}

-- A file that is not recorded.
abbrev pub is_new : List Bytes → Entry → Bool
is_new versions entry = not entry.is_dir && not (has_version entry.name versions)

-- The names of the files that are not recorded.
abbrev pub unapplied : List Bytes → List Entry → List Bytes
unapplied versions entries = map (λ (entry : Entry). entry.name) (where_ (is_new versions) entries)

module _ {S : Type 0} (db : Postgres S) (files : Files) where
  unfoldable run_script : Bytes → S → Result S
  run_script name tables = do content ← files.read_file name; db.exec_script content tables

  -- The scripts of some files, one after the other.
  unfoldable pub run_scripts : List Bytes → S → Result S
  unfolding run_script
  run_scripts [] tables = ok tables
  run_scripts (name ∷ names) tables = do tables ← run_script name tables; run_scripts names tables

  pub run_scripts-one :
      (name : Bytes) {content : Bytes} {tables later : S}
      → files.read_file name ≡ ok content
      → db.exec_script content tables ≡ ok later
      → run_scripts (name ∷ []) tables ≡ ok later
  unfolding run_scripts
  run_scripts-one name h h' = rw (h, h') refl

  pub run_scripts-cons :
      (name : Bytes) (names : List Bytes) (tables : S) {later last : S}
      → run_scripts (name ∷ []) tables ≡ ok later
      → run_scripts names later ≡ ok last
      → run_scripts (name ∷ names) tables ≡ ok last
  unfolding run_scripts
  run_scripts-cons name names tables h h' =
      let (later, ran, same) = ok-split (run_script name tables) ok h in
      rw (ran, ok-injective same) h'

has_version-append :
    (name other : Bytes) (versions : List Bytes)
    → has_version name (versions ++ other ∷ []) ≡ (has_version name versions || bytes_eq other name)
unfolding has_version
has_version-append name other [] = ground arith
has_version-append name other (v ∷ versions) =
    ground (arith, has_version-append name other versions)

-- Once a version is recorded, the entries of other names are applied as before.
pub unapplied-append :
    (name : Bytes) (versions : List Bytes) (entries : List Entry)
    → All (λ (y : Entry). bytes_eq name y.name ≡ false) entries
    → unapplied (versions ++ name ∷ []) entries ≡ unapplied versions entries
unfolding where_
unapplied-append name versions [] h = refl
unapplied-append name versions (entry ∷ entries) h =
    let e : is_new (versions ++ name ∷ []) entry ≡ is_new versions entry =
      ground (arith, has_version-append entry.name name versions, h.0) in
    rw e (ground (arith, unapplied-append name versions entries h.1))
