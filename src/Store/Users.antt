-- ===== src/Store/Users.antt =====
-- The users of internal/store/store.go, but for `UpdateUser`, `ListUsers` and `SearchUsers`.
pub mod Consistent
pub mod SignIn
pub mod Inserted
use Prim.Native.String.{String}
use text.Mathlib.Text.{◌==◌ as str_eq}
use users.Prelude.{
  ℕ, Bool, true, false, Option, none, some, List, [], ◌∷◌, Bytes, ◌==◌, ◌||◌, if◌then◌else◌,
}
use users.Prelude.Tables.{where_, order_by}
use users.Errors.{
  Result, ok, err, not_found, already_exists, as_unique_violation, is_no_rows, Error,
}
use users.World.{Environment, M, raise, lift, pure, attempt, statement, ◌>>=◌}
use users.Store.Types.{UserId, Time, User, UserRow, UserInput, Database}
use users.Store.Rows.{scan_user}
use users.Store.Statements.{select_user, select_user_by_subject, insert_user, delete_user_rows}

-- s.pool.QueryRow(…) of a SELECT, and scanUser
query_user : Environment → (Database → Result UserRow) → M User
query_user env select = do row ← statement env (λ _ _ db. (select db, db)); lift (scan_user row)

-- s.pool.QueryRow(…) of the INSERT, and scanUser
insert_and_scan : Environment → UserInput → M User
insert_and_scan env input = do
  row ← statement env (λ id now db. insert_user id now input db)
  lift (scan_user row)

-- An error of a SELECT of one user.
lookup_error : Error → Error
unfolding is_no_rows
lookup_error e = if is_no_rows e then not_found "user" else e

or_not_found : Result User → M User
unfolding lookup_error
or_not_found (ok user) = pure user
or_not_found (err e) = raise (lookup_error e)

-- `ResolveOrCreateUser`: the second SELECT, after a conflict on the subject.
after_conflict : Result User → M (User × Bool)
unfolding lookup_error
after_conflict (ok user) = pure (user, false)
after_conflict (err e) = raise (lookup_error e)

on_conflict : Environment → UserInput → Error → Option String → M (User × Bool)
unfolding query_user after_conflict
on_conflict env input e none = raise e
on_conflict env input e (some constraint) =
    if str_eq constraint "users_username_idx"
    then raise (already_exists "username")
    else if str_eq constraint "users_oidc_subject_idx"
    then (do
      found ← attempt (query_user env (select_user_by_subject input.oidc_subject))
      after_conflict found)
    else raise (already_exists "user")

after_insert : Environment → UserInput → Result User → M (User × Bool)
unfolding on_conflict as_unique_violation
after_insert env input (ok user) = pure (user, true)
after_insert env input (err e) = on_conflict env input e (as_unique_violation e)

after_lookup : Environment → UserInput → Result User → M (User × Bool)
unfolding after_insert insert_and_scan is_no_rows
after_lookup env input (ok user) = pure (user, false)
after_lookup env input (err e) =
    if is_no_rows e
    then (do inserted ← attempt (insert_and_scan env input); after_insert env input inserted)
    else raise e

unfoldable pub resolve_or_create_user : Environment → UserInput → M (User × Bool)
unfolding query_user after_lookup
resolve_or_create_user env input = do
  found ← attempt (query_user env (select_user_by_subject input.oidc_subject))
  after_lookup env input found

-- What `CreateUser` makes of an error of its INSERT.
create_error : Error → Option String → Error
create_error e none = e
create_error e (some constraint) =
    if str_eq constraint "users_username_idx"
    then already_exists "username"
    else if str_eq constraint "users_oidc_subject_idx"
    then already_exists "user"
    else already_exists "user"

after_create : Result User → M User
unfolding create_error as_unique_violation
after_create (ok user) = pure user
after_create (err e) = raise (create_error e (as_unique_violation e))

unfoldable pub create_user : Environment → UserInput → M User
unfolding insert_and_scan after_create
create_user env input = do inserted ← attempt (insert_and_scan env input); after_create inserted

pub get_user : Environment → UserId → M User
unfolding query_user or_not_found
get_user env id = do found ← attempt (query_user env (select_user id)); or_not_found found

pub get_user_by_oidc_subject : Environment → Bytes → M User
unfolding query_user or_not_found
get_user_by_oidc_subject env subject = do
  found ← attempt (query_user env (select_user_by_subject subject))
  or_not_found found

-- `for rows.Next()` over rows that are scanned one by one
unfoldable pub scan_all {ℓ κ} :
    {A : Type ℓ} {B : Type κ} → (A → Result B) → List A → Result (List B)
scan_all scan [] = ok []
scan_all scan (row ∷ rows) =
    let rest = scan_all scan rows in
    elim (scan row) [ err e ↦ err e | ok x ↦ elim rest [ err e ↦ err e | ok xs ↦ ok (x ∷ xs) ] ]

contains_id : UserId → List UserId → Bool
contains_id id [] = false
contains_id id (x ∷ xs) = id == x || contains_id id xs

pub batch_get_users : Environment → List UserId → M (List User)
unfolding scan_all contains_id where_ order_by
batch_get_users env [] = pure []
batch_get_users env (id ∷ ids) = do
  rows ← statement env (λ _ _ db. (
    ok (
        order_by (λ (row : UserRow). row.identity_id)
          (where_ (λ (row : UserRow). contains_id row.identity_id (id ∷ ids)) db.users)),
    db,
  ))
  lift (scan_all scan_user rows)

after_delete : ℕ → M (Unit {0})
after_delete affected = if affected == 0 then raise (not_found "user") else pure tt

unfoldable pub delete_user : Environment → UserId → M (Unit {0})
unfolding after_delete
delete_user env id = do
  affected ← statement env (λ _ _ db. (ok (delete_user_rows id db).0, (delete_user_rows id db).1))
  after_delete affected
