-- ===== src/Store/Update.antt =====
-- `UpdateUser` of internal/store/store.go: the statement is built from the fields that are given, and is run
-- here by looking each placeholder up among its arguments.
pub mod Consistent
pub mod Meaning
use Prim.Native.String.{String}
use text.Mathlib.Text.{◌==◌ as str_eq}
use users.Prelude.{
  ℕ, zero, suc, Bool, true, false, not, ◌&&◌, Option, none, some, List, [], ◌∷◌, Bytes, bytes_eq,
  if◌then◌else◌, and_then,
}
use users.Prelude.Tables.{first_where, exists_where, update_where}
use users.Errors.{
  Result, ok, err, no_rows, message, unique_violation, not_found, already_exists,
  as_unique_violation, is_no_rows, Error,
}
use users.World.{Environment, M, raise, lift, pure, attempt, statement, ◌>>=◌}
use users.Store.Types.{UserId, Time, User, UserRow, UserUpdate, Database}
use users.Store.Rows.{scan_user}
use users.Store.Statements.{has_id, has_username}
use users.Store.Query.{
  Arg, bytes, uuid, SetClause, assign, updated_at_now, UpdateBuilder, UpdateQuery, empty_builder,
  add, is_empty, build,
}

abbrev pub user_columns : String
user_columns =
    "identity_id, oidc_subject, name, email, nickname, username, photo_url, created_at, updated_at"

-- The argument of `$n`.
arg_at : List Arg → ℕ → Option Arg
arg_at [] n = none
arg_at (a ∷ args) zero = none
arg_at (a ∷ args) (suc zero) = some a
arg_at (a ∷ args) (suc (suc n)) = arg_at args (suc n)

-- A column of `users` that takes a text.
set_field : String → Bytes → UserRow → Option UserRow
set_field field v row =
    if str_eq field "name"
    then some (record row { name = v })
    else if str_eq field "email"
    then some (record row { email = v })
    else if str_eq field "nickname"
    then some (record row { nickname = v })
    else if str_eq field "username"
    then some (record row { username = some v })
    else if str_eq field "photo_url"
    then some (record row { photo_url = v })
    else none

-- A column is set to a bound text; a UUID is no text.
set_arg : String → UserRow → Arg → Option UserRow
unfolding set_field
set_arg field row (bytes v) = set_field field v row
set_arg field row (uuid id) = none

apply_clause : Time → List Arg → SetClause → UserRow → Option UserRow
unfolding arg_at set_arg
apply_clause now args updated_at_now row = some (record row { updated_at = now })
apply_clause now args (assign field placeholder) row =
    and_then (arg_at args placeholder) (set_arg field row)

pub apply_clauses : Time → List Arg → List SetClause → UserRow → Option UserRow
unfolding apply_clause
apply_clauses now args [] row = some row
apply_clauses now args (c ∷ cs) row =
    and_then (apply_clause now args c row) (apply_clauses now args cs)

-- Another row, with the username of this one.
username_clash : UserRow → UserRow → Bool
unfolding has_username has_id
username_clash row other = elim row.username [
  | none ↦ false
  | some u ↦ not (has_id row.identity_id other) && has_username u other
]

pub username_taken : UserRow → List UserRow → Bool
unfolding username_clash exists_where
username_taken row rows = exists_where (username_clash row) rows

-- The row that is updated, with its new fields, goes back into the table.
store_updated : UserId → Option UserRow → Database → Result UserRow × Database
unfolding username_taken has_id update_where
store_updated id none db = (err (message "the statement is not valid"), db)
store_updated id (some row) db =
    if username_taken row db.users
    then (err (unique_violation "users_username_idx"), db)
    else (ok row, record db { users = update_where (has_id id) (λ _. row) db.users })

update_found : Time → UpdateQuery → UserId → Option UserRow → Database → Result UserRow × Database
unfolding store_updated apply_clauses
update_found now q id none db = (err no_rows, db)
update_found now q id (some row) db =
    store_updated id (apply_clauses now q.args q.set_clauses row) db

-- UPDATE users SET … WHERE identity_id = $n RETURNING …, with the argument of the last placeholder
update_by_id : Time → UpdateQuery → Option Arg → Database → Result UserRow × Database
unfolding update_found has_id first_where
update_by_id now q (some (uuid id)) db = update_found now q id (first_where (has_id id) db.users) db
update_by_id now q (some (bytes v)) db = (err (message "the statement is not valid"), db)
update_by_id now q none db = (err (message "the statement is not valid"), db)

-- The statement of `build`, for the table `users`.
pub run_update : Time → UpdateQuery → Database → Result UserRow × Database
unfolding update_by_id arg_at
run_update now q db =
    if str_eq q.table "users" && str_eq q.id_column "identity_id"
    then update_by_id now q (arg_at q.args q.id_placeholder) db
    else (err (message "the statement is not valid"), db)

abbrev add_given : UpdateBuilder → String → Option Bytes → UpdateBuilder
add_given b field none = b
add_given b field (some v) = add b field (bytes v)

pub update_builder : UserUpdate → UpdateBuilder
unfolding add
update_builder update =
    let b = add_given empty_builder "name" update.name in
    let b = add_given b "email" update.email in
    let b = add_given b "nickname" update.nickname in
    let b = add_given b "username" update.username in add_given b "photo_url" update.photo_url

-- What `UpdateUser` makes of an error of the statement.
update_error : Error → Error
unfolding is_no_rows as_unique_violation
update_error e = if is_no_rows e then not_found "user" else elim (as_unique_violation e) [
  | some constraint ↦
      if str_eq constraint "users_username_idx"
      then already_exists "username"
      else already_exists "user"
  | none ↦ e
]

after_update : Result User → M User
unfolding update_error
after_update (ok user) = pure user
after_update (err e) = raise (update_error e)

run_and_scan : Environment → UpdateQuery → M User
unfolding run_update
run_and_scan env query = do
  row ← statement env (λ _ now db. run_update now query db)
  lift (scan_user row)

pub update_user : Environment → UserId → UserUpdate → M User
unfolding update_builder is_empty build run_and_scan after_update
update_user env id update =
    let builder = update_builder update in
    if is_empty builder then raise (message "user update requires at least one field") else do
      result ← attempt (run_and_scan env (build builder "users" user_columns "identity_id" id))
      after_update result
