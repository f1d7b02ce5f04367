-- ===== src/Store/Statements.antt =====
-- What the SQL statements of internal/store/store.go do to the tables of the migrations, one function for
-- each statement: unique indexes, foreign keys with ON DELETE CASCADE, and the defaults.
use users.Prelude.{
  ℕ, Bool, true, false, not, ◌&&◌, Option, none, some, List, ◌∷◌, Bytes, bytes_eq, ltb, leb, ◌==◌,
  length, if◌then◌else◌,
}
use users.Prelude.Tables.{where_, first_where, exists_where, update_where, sort_with}
use users.Errors.{Result, ok, err, no_rows, unique_violation, foreign_key_violation}
use users.Store.Types.{
  UserId, Time, UserRow, ApiTokenRow, DeviceRow, Database, UserInput, CreateApiTokenInput,
  CreateDeviceInput, UpdateDeviceLivenessInput, device_connectivity_offline, device_status_pending,
}

-- The row of QueryRow(…).Scan: the first one, or pgx.ErrNoRows.
abbrev pub row_or_none {ℓ} : {A : Type ℓ} → Option A → Result A
row_or_none none = err no_rows
row_or_none (some row) = ok row

-- NULL is equal to nothing.
unfoldable pub has_username : Bytes → UserRow → Bool
unfolding bytes_eq
has_username username row = elim row.username [ none ↦ false | some u ↦ bytes_eq u username ]

unfoldable pub has_id : UserId → UserRow → Bool
has_id id row = row.identity_id == id

unfoldable pub has_subject : Bytes → UserRow → Bool
unfolding bytes_eq
has_subject subject row = bytes_eq row.oidc_subject subject

-- SELECT … FROM users WHERE oidc_subject = $1
unfoldable pub select_user_by_subject : Bytes → Database → Result UserRow
unfolding has_subject first_where
select_user_by_subject subject db = row_or_none (first_where (has_subject subject) db.users)

-- SELECT … FROM users WHERE identity_id = $1
unfoldable pub select_user : UserId → Database → Result UserRow
unfolding has_id first_where
select_user id db = row_or_none (first_where (has_id id) db.users)

abbrev pub user_row : UserId → Time → UserInput → UserRow
user_row id now input = record {
  identity_id = id;
  oidc_subject = input.oidc_subject;
  name = input.name;
  email = input.email;
  nickname = input.nickname;
  username = some input.username;
  photo_url = input.photo_url;
  created_at = now;
  updated_at = now;
}

-- INSERT INTO users … RETURNING …; the indexes are checked in the order in which they were made.
unfoldable pub insert_user : UserId → Time → UserInput → Database → Result UserRow × Database
unfolding has_id has_subject has_username exists_where
insert_user id now input db =
    if exists_where (has_id id) db.users
    then (err (unique_violation "users_pkey"), db)
    else if exists_where (has_subject input.oidc_subject) db.users
    then (err (unique_violation "users_oidc_subject_idx"), db)
    else if exists_where (has_username input.username) db.users
    then (err (unique_violation "users_username_idx"), db)
    else (ok (user_row id now input), record db { users = user_row id now input ∷ db.users })

-- DELETE FROM users WHERE identity_id = $1; the result is RowsAffected.
unfoldable pub delete_user_rows : UserId → Database → ℕ × Database
unfolding has_id where_
delete_user_rows id db = (
  length (where_ (has_id id) db.users),
  record {
    users = where_ (λ row. not (has_id id row)) db.users;
    api_tokens = where_ (λ row. not (row.identity_id == id)) db.api_tokens;
    devices = where_ (λ row. not (row.identity_id == id)) db.devices;
  },
)

abbrev pub api_token_row : UserId → Time → CreateApiTokenInput → ApiTokenRow
api_token_row id now input = record {
  id = id;
  identity_id = input.identity_id;
  name = input.name;
  token_hash = input.token_hash;
  token_prefix = input.token_prefix;
  expires_at = input.expires_at;
  created_at = now;
  last_used_at = none;
}

unfoldable pub has_hash : Bytes → ApiTokenRow → Bool
unfolding bytes_eq
has_hash hash row = bytes_eq row.token_hash hash

-- INSERT INTO user_api_tokens … RETURNING …; `id` is the column's default, uuid_generate_v4().
unfoldable pub insert_api_token :
    UserId → Time → CreateApiTokenInput → Database → Result ApiTokenRow × Database
unfolding has_hash has_id exists_where
insert_api_token id now input db =
    if exists_where (λ row. row.id == id) db.api_tokens
    then (err (unique_violation "user_api_tokens_pkey"), db)
    else if exists_where (has_hash input.token_hash) db.api_tokens
    then (err (unique_violation "user_api_tokens_token_hash_idx"), db)
    else if not (exists_where (has_id input.identity_id) db.users)
    then (err (foreign_key_violation "user_api_tokens_identity_id_fkey"), db)
    else (
      ok (api_token_row id now input),
      record db { api_tokens = api_token_row id now input ∷ db.api_tokens },
    )

-- SELECT … FROM user_api_tokens WHERE identity_id = $1 ORDER BY created_at DESC
unfoldable pub select_api_tokens : UserId → Database → List ApiTokenRow
unfolding where_ sort_with
select_api_tokens identity_id db =
    sort_with (λ x y. leb y.created_at x.created_at)
      (where_ (λ row. row.identity_id == identity_id) db.api_tokens)

-- DELETE FROM user_api_tokens WHERE id = $1 AND identity_id = $2
unfoldable pub delete_api_token_rows : UserId → UserId → Database → ℕ × Database
unfolding where_
delete_api_token_rows id identity_id db =
    let doomed = λ (row : ApiTokenRow). row.id == id && row.identity_id == identity_id in
    (
      length (where_ doomed db.api_tokens),
      record db { api_tokens = where_ (λ row. not (doomed row)) db.api_tokens },
    )

-- expires_at IS NULL OR expires_at > NOW()
unfoldable pub is_live : Time → ApiTokenRow → Bool
is_live now row = elim row.expires_at [ none ↦ true | some t ↦ ltb now t ]

abbrev pub touch : Time → ApiTokenRow → ApiTokenRow
touch now row = record row { last_used_at = some now }

unfoldable pub touch_found :
    Time → (ApiTokenRow → Bool) → Option ApiTokenRow → Database → Result ApiTokenRow × Database
unfolding update_where
touch_found now used none db = (err no_rows, db)
touch_found now used (some row) db =
    (ok (touch now row), record db { api_tokens = update_where used (touch now) db.api_tokens })

unfoldable pub usable : Time → Bytes → ApiTokenRow → Bool
unfolding has_hash is_live
usable now hash row = has_hash hash row && is_live now row

-- UPDATE user_api_tokens SET last_used_at = NOW() WHERE token_hash = $1 AND (…) RETURNING …
unfoldable pub touch_api_token : Time → Bytes → Database → Result ApiTokenRow × Database
unfolding touch_found usable first_where
touch_api_token now hash db =
    touch_found now (usable now hash) (first_where (usable now hash) db.api_tokens) db

-- SELECT … FROM user_api_tokens WHERE token_hash = $1
unfoldable pub select_api_token : Bytes → Database → Result ApiTokenRow
unfolding has_hash first_where
select_api_token hash db = row_or_none (first_where (has_hash hash) db.api_tokens)

abbrev pub device_row : UserId → Time → CreateDeviceInput → DeviceRow
device_row id now input = record {
  id = id;
  identity_id = input.identity_id;
  name = input.name;
  open_ziti_identity_id = input.open_ziti_identity_id;
  enrollment_jwt = some input.enrollment_jwt;
  status = device_status_pending;
  connectivity = device_connectivity_offline;
  enrolled_at = none;
  last_seen_at = none;
  created_at = now;
}

-- INSERT INTO user_devices … RETURNING …
unfoldable pub insert_device :
    UserId → Time → CreateDeviceInput → Database → Result DeviceRow × Database
unfolding has_id exists_where
insert_device id now input db =
    if exists_where (λ row. row.id == id) db.devices
    then (err (unique_violation "user_devices_pkey"), db)
    else if not (exists_where (has_id input.identity_id) db.users)
    then (err (foreign_key_violation "user_devices_identity_id_fkey"), db)
    else (
      ok (device_row id now input),
      record db { devices = device_row id now input ∷ db.devices },
    )

pub has_device_id : UserId → DeviceRow → Bool
has_device_id id row = row.id == id

abbrev pub with_liveness : UpdateDeviceLivenessInput → DeviceRow → DeviceRow
with_liveness input row = record row {
  status = input.status;
  connectivity = input.connectivity;
  enrolled_at = input.enrolled_at;
  last_seen_at = input.last_seen_at;
}

unfoldable pub device_found :
    UpdateDeviceLivenessInput → Option DeviceRow → Database → Result DeviceRow × Database
unfolding update_where has_device_id
device_found input none db = (err no_rows, db)
device_found input (some row) db = (
  ok (with_liveness input row),
  record db { devices = update_where (has_device_id input.id) (with_liveness input) db.devices },
)

-- UPDATE user_devices SET status = $1, connectivity = $2, enrolled_at = $3, last_seen_at = $4 WHERE id = $5
unfoldable pub update_device : UpdateDeviceLivenessInput → Database → Result DeviceRow × Database
unfolding device_found first_where
update_device input db = device_found input (first_where (has_device_id input.id) db.devices) db

-- DELETE FROM user_devices WHERE id = $1 AND identity_id = $2 RETURNING …
unfoldable pub delete_device_rows : UserId → UserId → Database → Result DeviceRow × Database
unfolding where_ first_where
delete_device_rows id identity_id db =
    let doomed = λ (row : DeviceRow). row.id == id && row.identity_id == identity_id in
    (
      row_or_none (first_where doomed db.devices),
      record db { devices = where_ (λ row. not (doomed row)) db.devices },
    )
