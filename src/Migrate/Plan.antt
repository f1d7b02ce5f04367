-- ===== src/Migrate/Plan.antt =====
-- Which migrations a run has to apply, and in which order.
use users.Prelude.{
  ◌≡◌, refl, subst, true, false, not, &&-eq_true, Bool-cases, inl, inr, some, List, [], ◌∷◌, ◌++◌,
  Bytes, bytes_eq, bytes_eq_iff, bytes_eq_refl, map, All-map, arith,
}
use users.Prelude.Tables.{
  Member, here, there, where_, sort_with, All-where, All-where_true, All-sort_with,
}
use users.Prelude.Pairs.{Pairs, Pairs-where}
use users.Prelude.Listing.{
  Lists, All-Member, All-both, Member-where, Member-sort_with, Member-map, All-of_map, Pairs-of_map,
  Pairs-sort_with, Before, Before-chain, text_leb-Before, text_leb-Behind,
}
use users.Errors.{ok}
use users.Migrate.{Entry, Files, Postgres, Schema, entry_le, has_version, recorded}
use users.Migrate.Spec.{is_new, unapplied, run_scripts}
use users.Migrate.Laws.{NamedApart}

-- A file of the directory that is not recorded.
abbrev pub IsMissing : List Bytes → List Entry → Bytes → Type 0
IsMissing versions entries name =
    ((entry : Entry) × Member entry entries × (entry.is_dir ≡ false) × (entry.name ≡ name))
    × ¬ Member name versions

has_version-Member :
    (name : Bytes) (versions : List Bytes) → Member name versions → has_version name versions ≡ true
unfolding has_version
has_version-Member name (_ ∷ versions) (here _) = rw (bytes_eq_refl name) refl
has_version-Member name (v ∷ versions) (there _ m) =
    ground (arith, has_version-Member name versions m)
has_version-Member name [] m = elim m [ ]

Member-has_version :
    (name : Bytes) (versions : List Bytes) → has_version name versions ≡ true → Member name versions
unfolding has_version
Member-has_version name [] h = absurd (cc)
Member-has_version name (v ∷ versions) h = elim (Bool-cases (bytes_eq v name)) [
  | inl e ↦ subst (λ x. Member x (v ∷ versions)) ((bytes_eq_iff v name).0 e) (here versions)
  | inr e ↦ there v (Member-has_version name versions (ground (arith, e, h)))
]

module _ (versions : List Bytes) (entries : List Entry) where
  is_new-IsMissing :
      (entry : Entry)
      → Member entry entries × (is_new versions entry ≡ true)
      → IsMissing versions entries entry.name
  is_new-IsMissing entry (m, h) =
      let (file, new) = &&-eq_true (not entry.is_dir) (not (has_version entry.name versions)) h in
      (
        (entry, m, ground (arith, file), refl),
        λ known. absurd (ground (arith, new, has_version-Member entry.name versions known)),
      )

  is_new-of_missing :
      (entry : Entry)
      → entry.is_dir ≡ false
      → ¬ Member entry.name versions
      → is_new versions entry ≡ true
  is_new-of_missing entry file new = elim (Bool-cases (has_version entry.name versions)) [
    | inl e ↦ absurd (new (Member-has_version entry.name versions e))
    | inr e ↦ rw (file, e) refl
  ]

  -- The files that the loop applies are the missing ones, in the order of their names.
  pub unapplied-Lists :
      Pairs NamedApart entries
      → Lists Before (IsMissing versions entries) (unapplied versions (sort_with entry_le entries))
  unfolding entry_le
  unapplied-Lists distinct =
      let name = λ (entry : Entry). entry.name in
      let sorted = sort_with entry_le entries in
      let p = is_new versions in
      record {
        ordered = Pairs-of_map name Before (where_ p sorted) (
            Pairs-where (λ x y. Before x.name y.name) p sorted
              (Pairs-sort_with NamedApart (λ x y. Before x.name y.name) entry_le
                (λ x y. text_leb-Before x.name y.name) (λ x y. text_leb-Behind x.name y.name)
                (λ x y z. Before-chain) entries distinct));
        sound = All-of_map name (IsMissing versions entries) (where_ p sorted) (
            All-map (where_ p sorted) is_new-IsMissing (
              All-both (λ entry. Member entry entries) (λ entry. p entry ≡ true) (where_ p sorted)
                (All-where (λ entry. Member entry entries) p sorted
                  (All-sort_with (λ entry. Member entry entries) entry_le entries
                    (All-Member entries)))
                (All-where_true p sorted)));
        complete = λ found ((entry, m, file, e), new).
            subst (λ x. Member x (map name (where_ p sorted))) e
              (Member-map name (
                Member-where p (Member-sort_with entry_le m) (
                  is_new-of_missing entry file
                    (λ known. new (subst (λ x. Member x versions) e known)))));
      }

-- All that was missing is applied: the scripts of exactly the files that were not recorded ran, one
-- after the other in the order of their names, and their names are recorded in that order behind the
-- others.
abbrev pub AllMissingRun :
    {S : Type 0} → Postgres S → Files → List Entry → (before later : Schema S) → Type 0
AllMissingRun db files entries before later =
    (names : List Bytes) × Lists Before (IsMissing (recorded before) entries) names
    × (later.versions ≡ some (recorded before ++ names))
    × (run_scripts db files names before.tables ≡ ok later.tables)
