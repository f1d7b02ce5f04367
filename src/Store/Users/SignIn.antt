-- ===== src/Store/Users/SignIn.antt =====
-- `ResolveOrCreateUser` twice with one subject.
use Prim.Native.String.{String}
use text.Mathlib.Text.{◌==◌ as str_eq}
use users.Prelude.{
  ◌≢◌, ◌⊎◌, ◌+◌, ◌≡◌, refl, sym, ◌∙◌, ap, Bool, false, Option, none, some, ◌∷◌, Bytes,
  bytes_eq_refl, Bool-cases, inl, inr,
}
use users.Prelude.Tables.{first_where, exists_where}
use users.Errors.{
  Result, ok, err, Error, ok-injective, is_no_rows, as_unique_violation, unique_violation,
}
use users.World.{Environment, World, M, ◌>>=◌, attempt, lift, pure, raise}
use users.World.Runs.{bind-of_attempt}
use users.World.Quiet.{IsQuiet, statement-IsQuiet}
use users.Store.Types.{User, UserRow, UserInput, Database}
use users.Store.Rows.{scan_user, text_of}
use users.Store.Statements.{
  select_user_by_subject, insert_user, user_row, has_subject, has_id, has_username,
}
use users.Store.Users.{
  query_user, insert_and_scan, after_lookup, after_insert, on_conflict, after_conflict,
  resolve_or_create_user,
}

-- What `scan_user` makes of a row.
abbrev pub user_of : UserRow → User
user_of row = record {
  meta = record { id = row.identity_id; created_at = row.created_at; updated_at = row.updated_at };
  oidc_subject = row.oidc_subject;
  name = row.name;
  email = row.email;
  nickname = row.nickname;
  username = text_of row.username;
  photo_url = row.photo_url;
}

abbrev scanned : Result UserRow → Result User
scanned (ok row) = ok (user_of row)
scanned (err e) = err e

bind-scan :
    (m : M UserRow) (w w' : World) (r : Result UserRow)
    → m w ≡ (r, w')
    → (m >>= λ row. lift (scan_user row)) w ≡ (scanned r, w')
unfolding ◌>>=◌ lift scan_user
bind-scan m w w' (ok row) h = rw h refl
bind-scan m w w' (err e) h = rw h refl

-- The world behind one statement that left these tables.
abbrev stepped : World → Database → World
stepped w db = record w { db = db; clock = w.clock + 1 }

module _ (env : Environment) (quiet : IsQuiet env) where
  query-eq :
      (select : Database → Result UserRow) (w : World)
      → query_user env select w ≡ (scanned (select w.db), stepped w w.db)
  unfolding query_user
  query-eq select w =
      bind-scan _ w (stepped w w.db) (select w.db)
        (statement-IsQuiet env quiet (λ _ _ db. (select db, db)) w)

  abbrev insertion : UserInput → World → Result UserRow × Database
  insertion input w = insert_user (env.fresh_uuid w.clock) (env.now w.clock) input w.db

  insert-eq :
      (input : UserInput) (w : World)
      → insert_and_scan env input w
        ≡ (scanned (insertion input w).0, stepped w (insertion input w).1)
  unfolding insert_and_scan
  insert-eq input w =
      bind-scan _ w (stepped w (insertion input w).1) (insertion input w).0
        (statement-IsQuiet env quiet (λ id now db. insert_user id now input db) w)

  -- The subject's row, and the user that it holds.
  abbrev Stored : Bytes → User → Database → Type 0
  Stored subject user db =
      (row : UserRow) × (first_where (has_subject subject) db.users ≡ some row)
      × (user_of row ≡ user)

  first-step :
      (input : UserInput) (w : World)
      → resolve_or_create_user env input w
        ≡ after_lookup env input
            (scanned (select_user_by_subject input.oidc_subject w.db))
            (stepped w w.db)
  unfolding resolve_or_create_user
  first-step input w =
      bind-of_attempt _ _ w (stepped w w.db)
        (query-eq (select_user_by_subject input.oidc_subject) w)

  -- A stored subject is found, and nothing is written.
  resolve-found :
      (input : UserInput) (w : World) (row : UserRow)
      → first_where (has_subject input.oidc_subject) w.db.users ≡ some row
      → resolve_or_create_user env input w ≡ (ok (user_of row, false), stepped w w.db)
  unfolding after_lookup select_user_by_subject pure
  resolve-found input w row h = first-step input w ∙ rw h refl

  abbrev new_row : UserInput → World → UserRow
  new_row input w = user_row (env.fresh_uuid w.clock) (env.now w.clock) input

  -- The INSERT adds the row, or breaks a unique index and changes nothing.
  insertion-cases :
      (input : UserInput) (w : World)
      → (insertion input w
          ≡ (ok (new_row input w), record w.db { users = new_row input w ∷ w.db.users }))
        ⊎ ((c : String) × (insertion input w ≡ (err (unique_violation c), w.db)))
  unfolding insert_user
  insertion-cases input w =
      elim (Bool-cases (exists_where (has_id (env.fresh_uuid w.clock)) w.db.users)) [
        | inl a ↦ inr ("users_pkey", rw a refl)
        | inr a ↦ elim (Bool-cases (exists_where (has_subject input.oidc_subject) w.db.users)) [
          | inl b ↦ inr ("users_oidc_subject_idx", rw (a, b) refl)
          | inr b ↦ elim (Bool-cases (exists_where (has_username input.username) w.db.users)) [
            | inl c ↦ inr ("users_username_idx", rw (a, b, c) refl)
            | inr c ↦ inl (rw (a, b, c) refl)
          ]
        ]
      ]

  lookup-fails :
      (input : UserInput) (w : World)
      → first_where (has_subject input.oidc_subject) w.db.users ≡ none
      → (answer : User × Bool)
      → ((attempt (query_user env (select_user_by_subject input.oidc_subject)) >>= after_conflict)
          w).0
        ≢ ok answer
  unfolding after_conflict select_user_by_subject raise
  lookup-fails input w missing answer h =
      let run =
        bind-of_attempt (query_user env (select_user_by_subject input.oidc_subject)) after_conflict
          w (stepped w w.db) (query-eq (select_user_by_subject input.oidc_subject) w) in
      cc (rw missing at (sym (ap (λ r. r.0) run) ∙ h))

  -- Behind a broken index, with no such subject in the tables, the call fails.
  conflict-fails :
      (input : UserInput) (e : Error) (c : String) (w : World)
      → first_where (has_subject input.oidc_subject) w.db.users ≡ none
      → (answer : User × Bool) → (on_conflict env input e (some c) w).0 ≢ ok answer
  unfolding on_conflict raise
  conflict-fails input e c w missing answer h = elim (Bool-cases (str_eq c "users_username_idx")) [
    | inl a ↦ cc (rw a at h)
    | inr a ↦ elim (Bool-cases (str_eq c "users_oidc_subject_idx")) [
      | inl b ↦ lookup-fails input w missing answer (rw (a, b) at h)
      | inr b ↦ cc (rw (a, b) at h)
    ]
  ]

  -- Without the subject in the tables, the call inserts.
  second-step :
      (input : UserInput) (w : World)
      → first_where (has_subject input.oidc_subject) w.db.users ≡ none
      → resolve_or_create_user env input w
        ≡ after_insert env input
            (scanned (insertion input (stepped w w.db)).0)
            (stepped (stepped w w.db) (insertion input (stepped w w.db)).1)
  unfolding after_lookup select_user_by_subject is_no_rows
  second-step input w missing =
      first-step input w
      ∙ rw missing (
          bind-of_attempt _ (after_insert env input) (stepped w w.db)
            (stepped (stepped w w.db) (insertion input (stepped w w.db)).1)
            (insert-eq input (stepped w w.db)))

  -- A subject that was inserted is stored.
  insert-Stored :
      (input : UserInput) (w : World) (answer : User × Bool)
      → first_where (has_subject input.oidc_subject) w.db.users ≡ none
      → (after_insert env input (scanned (insertion input w).0) (stepped w (insertion input w).1)).0
        ≡ ok answer
      → Stored input.oidc_subject answer.0
          (after_insert env input
            (scanned (insertion input w).0)
            (stepped w (insertion input w).1)).1.db
  unfolding after_insert pure has_subject as_unique_violation first_where
  insert-Stored input w answer missing h = elim (insertion-cases input w) [
    | inl q ↦ rw q (
      new_row input w,
      rw (bytes_eq_refl input.oidc_subject) refl,
      ap (λ (a : User × Bool). a.0) (ok-injective (rw q at h)),
    )
    | inr (c, q) ↦
        absurd
          (conflict-fails input (unique_violation c) c (stepped w w.db) missing answer (rw q at h))
  ]

  -- A call that succeeds leaves the subject's row, with the user that was returned.
  resolve-Stored :
      (input : UserInput) (w : World) (answer : User × Bool)
      → (found : Option UserRow) → first_where (has_subject input.oidc_subject) w.db.users ≡ found
      → (resolve_or_create_user env input w).0 ≡ ok answer
      → Stored input.oidc_subject answer.0 (resolve_or_create_user env input w).1.db
  resolve-Stored input w answer (some row) e h =
      let run = resolve-found input w row e in
      rw run (row, e, ap (λ (a : User × Bool). a.0) (ok-injective (sym (ap (λ r. r.0) run) ∙ h)))
  resolve-Stored input w answer none e h =
      let run = second-step input w e in
      rw run (insert-Stored input (stepped w w.db) answer e (sym (ap (λ r. r.0) run) ∙ h))

  -- Where nothing fails and nobody else writes, signing in again with the subject of a sign-in that
  -- succeeded returns the user that it returned, reports that nothing was created and changes
  -- nothing, whatever else the profile says now.
  pub resolve_or_create_user-again :
      (input again : UserInput) (w : World) (user : User) (created : Bool)
      → again.oidc_subject ≡ input.oidc_subject
      → (resolve_or_create_user env input w).0 ≡ ok (user, created)
      → ((resolve_or_create_user env again (resolve_or_create_user env input w).1).0
          ≡ ok (user, false))
        × ((resolve_or_create_user env again (resolve_or_create_user env input w).1).1.db
            ≡ (resolve_or_create_user env input w).1.db)
  resolve_or_create_user-again input again w user created same h =
      let (row, stored, is_user) = resolve-Stored input w (user, created) _ refl h in
      let run = resolve-found again (resolve_or_create_user env input w).1 row (rw same stored) in
      (ap (λ r. r.0) run ∙ ap (λ u. ok (u, false)) is_user, ap (λ r. r.1.db) run)
