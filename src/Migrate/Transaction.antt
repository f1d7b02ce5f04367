-- ===== src/Migrate/Transaction.antt =====
-- A run of the migrations applies all that is missing, or nothing.
use users.Prelude.{◌≡◌, refl, sym, ◌∙◌, ap, ◌⊎◌, inl, inr, some, List}
use users.Prelude.Tables.{sort_with}
use users.Prelude.Pairs.{Pairs}
use users.Errors.{ok, err, Error, wrap, ok-injective, Result-cases}
use users.Server.Status.Laws.{or_error-ok}
use users.Migrate.{
  Entry, Files, Session, recorded, Postgres, lift, ◌>>=◌, create_table, entry_le, apply_sorted,
  read_entries, ensure_table, migrate, apply_migrations,
}
use users.Migrate.Plan.{AllMissingRun, unapplied-Lists}
use users.Migrate.Spec.{unapplied, run_scripts}
use users.Migrate.Laws.{NamedApart, Pairs-sort_with, bind-ok, statement-ok, Did, apply_entries-ok}

module _ {S : Type 0} (db : Postgres S) (files : Files) where
  migrate-ok :
      (s s' : Session S) (entries : List Entry)
      → files.read_dir ≡ ok entries
      → Pairs NamedApart entries
      → migrate db files s ≡ (ok tt, s')
      → Did db files
          (recorded s.schema)
          (unapplied (recorded s.schema) (sort_with entry_le entries))
          s.schema
          s'.schema
  unfolding migrate ensure_table read_entries lift apply_sorted
  migrate-ok s s' entries listed distinct h =
      let (found, s2, started, rest) =
        bind-ok (ensure_table db >>= read_entries files) (apply_sorted db files) s h in
      let (u, s1, ensured, read) = bind-ok (ensure_table db) (read_entries files) s started in
      let created = statement-ok db (wrap "ensure schema_migrations") create_table s ensured in
      let table : some (recorded s.schema) ≡ s1.schema.versions = ap (λ x. x.1.versions) created in
      let same : s.schema.tables ≡ s1.schema.tables = ap (λ x. x.1.tables) created in
      let here : s1.schema ≡ s2.schema = ap (λ x. x.1.schema) read in
      let listed' : entries ≡ found =
        ok-injective
          (sym listed ∙ or_error-ok (wrap "read migrations") files.read_dir (ap (λ x. x.0) read)) in
      let did =
        apply_entries-ok db files (sort_with entry_le entries) (recorded s.schema) s2 s'
          (sym (table ∙ ap (λ schema. schema.versions) here))
          (Pairs-sort_with entry_le entries distinct) (rw (sym listed') at rest) in
      let names = unapplied (recorded s.schema) (sort_with entry_le entries) in
      (did.0, ap (run_scripts db files names) (same ∙ ap (λ schema. schema.tables) here) ∙ did.1)

  migrate-AllMissingRun :
      (s : Session S) (entries : List Entry)
      → files.read_dir ≡ ok entries
      → Pairs NamedApart entries
      → (migrate db files s).0 ≡ ok tt
      → AllMissingRun db files entries s.schema (migrate db files s).1.schema
  migrate-AllMissingRun s entries listed distinct done =
      let did =
        migrate-ok s (migrate db files s).1 entries listed distinct
          (ap (λ r. (r, (migrate db files s).1)) done) in
      (
        unapplied (recorded s.schema) (sort_with entry_le entries),
        unapplied-Lists (recorded s.schema) entries distinct,
        did.0,
        did.1,
      )

  -- Where a run of the migrations over a directory whose entries differ in their names returns an
  -- error, either the tables and the recorded versions are as they were, or the scripts of exactly the
  -- files that were not recorded have run, one after the other in the order of their names, and their
  -- names are recorded in that order behind the others; never a part of them.
  pub apply_migrations-failed :
      (s : Session S) (entries : List Entry) (e : Error)
      → files.read_dir ≡ ok entries
      → Pairs NamedApart entries
      → (apply_migrations db files s).0 ≡ err e
      → ((apply_migrations db files s).1.schema ≡ s.schema)
        ⊎ AllMissingRun db files entries s.schema (apply_migrations db files s).1.schema
  unfolding apply_migrations run_scripts
  apply_migrations-failed s entries e listed distinct h = elim (Result-cases db.acquire) [
    | inl (e', closed) ↦ inl (rw (apply_migrations, closed) refl)
    | inr (u, acquired) ↦
        let failed = rw (apply_migrations, acquired) at h in
        rw (apply_migrations, acquired)
          (elim (Result-cases (migrate db files s).0) [
            | inl (e', stopped) ↦
                let back = db.rolled_back (migrate db files) s e' stopped in inl back.2
            | inr (u, done) ↦ elim (db.committed (migrate db files) s done) [
              | inl committed ↦ absurd (cc (committed.0, failed))
              | inr (e', lost, inl back) ↦ inl back
              | inr (e', lost, inr kept) ↦
                  inr (rw kept (migrate-AllMissingRun s entries listed distinct done))
            ]
          ])
  ]

  -- Where a run succeeds over a directory whose entries differ in their names, it has run the scripts
  -- of exactly the files that were not recorded, one after the other in the order of their names, and
  -- has recorded their names in that order behind the others.
  pub apply_migrations-applied :
      (s : Session S) (entries : List Entry)
      → files.read_dir ≡ ok entries
      → Pairs NamedApart entries
      → (apply_migrations db files s).0 ≡ ok tt
      → AllMissingRun db files entries s.schema (apply_migrations db files s).1.schema
  unfolding apply_migrations run_scripts
  apply_migrations-applied s entries listed distinct h = elim (Result-cases db.acquire) [
    | inl (e', closed) ↦ absurd (cc (rw (apply_migrations, closed) at h))
    | inr (u, acquired) ↦
        let ran = rw (apply_migrations, acquired) at h in
        rw (apply_migrations, acquired)
          (elim (Result-cases (migrate db files s).0) [
            | inl (e', stopped) ↦
                let back = db.rolled_back (migrate db files) s e' stopped in
                absurd (cc (back.1, ran))
            | inr (u, done) ↦ elim (db.committed (migrate db files) s done) [
              | inl committed ↦
                  rw (committed.1) (migrate-AllMissingRun s entries listed distinct done)
              | inr back ↦ absurd (cc (back.1, ran))
            ]
          ])
  ]
