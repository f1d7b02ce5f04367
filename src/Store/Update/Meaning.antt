-- ===== src/Store/Update/Meaning.antt =====
-- What the UPDATE statement that is built means.
use users.Prelude.{false, ◌≡◌, refl, Option, none, some, Bytes, arith}
use users.Prelude.Tables.{first_where, update_where}
use users.Errors.{ok, err, no_rows}
use users.Store.Statements.{has_id}
use users.Store.Types.{Database, UserId, Time, UserRow, UserUpdate}
use users.Store.Query.{UpdateQuery, build, build_update_query, add, uuid}
use users.Store.Update.{
  user_columns, apply_clauses, apply_clause, arg_at, set_field, set_arg, update_builder, run_update,
  update_by_id, update_found, store_updated, username_taken,
}

abbrev or_old : Option Bytes → Bytes → Bytes
or_old none old = old
or_old (some new) old = new

abbrev or_old_name : Option Bytes → Option Bytes → Option Bytes
or_old_name none old = old
or_old_name (some new) old = some new

-- The row with the given fields.
abbrev pub updated_row : Time → UserUpdate → UserRow → UserRow
updated_row now update row = record row {
  name = or_old update.name row.name;
  email = or_old update.email row.email;
  nickname = or_old update.nickname row.nickname;
  username = or_old_name update.username row.username;
  photo_url = or_old update.photo_url row.photo_url;
  updated_at = now;
}

abbrev query_of : UserId → UserUpdate → UpdateQuery
query_of id update = build (update_builder update) "users" user_columns "identity_id" id

given-fields :
    (now : Time) (id : UserId) (row : UserRow)
    (name email nickname username photo_url : Option Bytes)
    → let u : UserUpdate = record {
      name = name;
      email = email;
      nickname = nickname;
      username = username;
      photo_url = photo_url;
    } in
      apply_clauses now (query_of id u).args (query_of id u).set_clauses row
      ≡ some (updated_row now u row)
unfolding build build_update_query add apply_clauses apply_clause arg_at set_field set_arg
    update_builder
given-fields now id row name email nickname username photo_url = ground arith

id-placeholder :
    (id : UserId) (name email nickname username photo_url : Option Bytes)
    → let u : UserUpdate = record {
      name = name;
      email = email;
      nickname = nickname;
      username = username;
      photo_url = photo_url;
    } in
      arg_at (query_of id u).args (query_of id u).id_placeholder ≡ some (uuid id)
unfolding build build_update_query add arg_at update_builder
id-placeholder id name email nickname username photo_url = ground arith

-- The UPDATE statement that `UpdateUser` builds finds its row by the id, and fails with no rows where
-- there is none. Where the new username is not that of another row, it writes to that row exactly the
-- fields that are given and the time of the update, and returns the new row.
pub run_update-build :
    (now : Time) (id : UserId) (update : UserUpdate) (db : Database)
    → let query = build (update_builder update) "users" user_columns "identity_id" id in
      (first_where (has_id id) db.users ≡ none → run_update now query db ≡ (err no_rows, db))
      × ((row : UserRow)
          → first_where (has_id id) db.users ≡ some row
          → username_taken (updated_row now update row) db.users ≡ false
          → run_update now query db ≡ (
            ok (updated_row now update row),
            record db {
              users = update_where (has_id id) (λ _. updated_row now update row) db.users;
            },
          ))
unfolding run_update update_by_id update_found store_updated build build_update_query
run_update-build now id update db = (
  λ missing. rw (placed, missing) refl,
  λ row found free. rw (placed, found, fields row, free) refl,
)
  where
    placed : arg_at (query_of id update).args (query_of id update).id_placeholder ≡ some (uuid id)
    placed =
        id-placeholder id update.name update.email update.nickname update.username update.photo_url

    fields :
        (row : UserRow)
        → apply_clauses now (query_of id update).args (query_of id update).set_clauses row
          ≡ some (updated_row now update row)
    fields row =
        given-fields now id row update.name update.email update.nickname update.username
          update.photo_url
