-- ===== src/Store/Users/Consistent.antt =====
-- The operations on users keep the constraints of the tables, whatever fails and whatever other
-- sessions do that keeps them.
use Prim.Native.String.{String}
use users.Store.Rows.{scan_user}
use users.Prelude.{ℕ, Option, none, some, List, [], ◌∷◌, Bytes}
use users.Errors.{Result, ok, err, Error, as_unique_violation}
use users.World.{Environment, statement}
use users.World.Keeps.{Keeps, Stable, Keeps-statement, keeps_rules, Keeps-bind, Keeps-lift}
use users.Store.Types.{UserId, User, UserRow, UserInput, Database}
use users.Store.Consistent.{IsConsistent, insert_user-IsConsistent, delete_user_rows-IsConsistent}
use users.Store.Users.{
  query_user, insert_and_scan, or_not_found, after_conflict, on_conflict, after_insert,
  after_lookup, resolve_or_create_user, after_create, create_user, get_user,
  get_user_by_oidc_subject, batch_get_users, after_delete, delete_user,
}

module _ (env : Environment) (stable : Stable env IsConsistent) where
  -- A statement that reads.
  pub reads :
      {A : Type 0} (select : Database → Result A)
      → Keeps IsConsistent (statement env (λ _ _ db. (select db, db)))
  reads select = Keeps-statement env (λ _ _ db. (select db, db)) stable (λ _ _ db h. h)

  query_user-Keeps :
      (select : Database → Result UserRow) → Keeps IsConsistent (query_user env select)
  unfolding query_user
  query_user-Keeps select = search (keeps_rules, reads)

  insert-Keeps : (input : UserInput) → Keeps IsConsistent (insert_and_scan env input)
  unfolding insert_and_scan
  insert-Keeps input =
      Keeps-bind _ _
        (Keeps-statement env _ stable (λ id now db h. insert_user-IsConsistent id now input db h))
        (λ row. Keeps-lift (scan_user row))

  or_not_found-Keeps : (r : Result User) → Keeps IsConsistent (or_not_found r)
  unfolding or_not_found
  or_not_found-Keeps (ok user) = search keeps_rules
  or_not_found-Keeps (err e) = search keeps_rules

  after_conflict-Keeps : (r : Result User) → Keeps IsConsistent (after_conflict r)
  unfolding after_conflict
  after_conflict-Keeps (ok user) = search keeps_rules
  after_conflict-Keeps (err e) = search keeps_rules

  on_conflict-Keeps :
      (input : UserInput) (e : Error) (c : Option String)
      → Keeps IsConsistent (on_conflict env input e c)
  unfolding on_conflict
  on_conflict-Keeps input e none = search keeps_rules
  on_conflict-Keeps input e (some c) = search (keeps_rules, query_user-Keeps, after_conflict-Keeps)

  after_insert-Keeps :
      (input : UserInput) (r : Result User) → Keeps IsConsistent (after_insert env input r)
  unfolding after_insert
  after_insert-Keeps input (ok user) = search keeps_rules
  after_insert-Keeps input (err e) = on_conflict-Keeps input e (as_unique_violation e)

  after_lookup-Keeps :
      (input : UserInput) (r : Result User) → Keeps IsConsistent (after_lookup env input r)
  unfolding after_lookup
  after_lookup-Keeps input (ok user) = search keeps_rules
  after_lookup-Keeps input (err e) = search (keeps_rules, insert-Keeps, after_insert-Keeps)

  pub resolve_or_create_user-Keeps :
      (input : UserInput) → Keeps IsConsistent (resolve_or_create_user env input)
  unfolding resolve_or_create_user
  resolve_or_create_user-Keeps input = search (keeps_rules, query_user-Keeps, after_lookup-Keeps)

  after_create-Keeps : (r : Result User) → Keeps IsConsistent (after_create r)
  unfolding after_create
  after_create-Keeps (ok user) = search keeps_rules
  after_create-Keeps (err e) = search keeps_rules

  pub create_user-Keeps : (input : UserInput) → Keeps IsConsistent (create_user env input)
  unfolding create_user
  create_user-Keeps input = search (keeps_rules, insert-Keeps, after_create-Keeps)

  pub get_user-Keeps : (id : UserId) → Keeps IsConsistent (get_user env id)
  unfolding get_user
  get_user-Keeps id = search (keeps_rules, query_user-Keeps, or_not_found-Keeps)

  pub get_user_by_oidc_subject-Keeps :
      (subject : Bytes) → Keeps IsConsistent (get_user_by_oidc_subject env subject)
  unfolding get_user_by_oidc_subject
  get_user_by_oidc_subject-Keeps subject =
      search (keeps_rules, query_user-Keeps, or_not_found-Keeps)

  pub batch_get_users-Keeps : (ids : List UserId) → Keeps IsConsistent (batch_get_users env ids)
  unfolding batch_get_users
  batch_get_users-Keeps [] = search keeps_rules
  batch_get_users-Keeps (id ∷ ids) = search (keeps_rules, reads)

  after_delete-Keeps : (n : ℕ) → Keeps IsConsistent (after_delete n)
  unfolding after_delete
  after_delete-Keeps n = search keeps_rules

  pub delete_user-Keeps : (id : UserId) → Keeps IsConsistent (delete_user env id)
  unfolding delete_user
  delete_user-Keeps id =
      Keeps-bind _ _
        (Keeps-statement env _ stable (λ _ _ db h. delete_user_rows-IsConsistent id db h))
        after_delete-Keeps
