-- ===== src/Store/Rows.antt =====
-- `scanUser`, `scanUserDirectoryEntry`, `scanAPIToken` and `scanDevice` of internal/store/store.go: from a
-- row of a table to the value that the store returns.
use users.Prelude.{Bool, Option, none, some, Bytes, bytes_eq, ◌||◌, if◌then◌else◌}
use users.Errors.{Result, ok, err, message}
use users.Store.Types.{
  User, UserRow, UserDirectoryEntry, ApiToken, ApiTokenRow, Device, DeviceRow,
  device_status_pending, device_status_enrolled, device_connectivity_online,
  device_connectivity_offline,
}

-- A NULL text is read as the empty string.
abbrev pub text_of : Option Bytes → Bytes
text_of none = users.Prelude.[]
text_of (some s) = s

unfoldable pub scan_user : UserRow → Result User
scan_user row = ok (record {
  meta = record { id = row.identity_id; created_at = row.created_at; updated_at = row.updated_at };
  oidc_subject = row.oidc_subject;
  name = row.name;
  email = row.email;
  nickname = row.nickname;
  username = text_of row.username;
  photo_url = row.photo_url;
})

-- The entry's username is read into a string, which refuses a NULL.
unfoldable pub scan_user_directory_entry : UserRow → Result UserDirectoryEntry
scan_user_directory_entry row = elim row.username [
  | none ↦ err (message "cannot scan NULL into *string")
  | some username ↦ ok (record {
    identity_id = row.identity_id;
    username = username;
    name = row.name;
    photo_url = row.photo_url;
  })
]

unfoldable pub scan_api_token : ApiTokenRow → Result ApiToken
scan_api_token row = ok (record {
  id = row.id;
  identity_id = row.identity_id;
  name = row.name;
  token_hash = row.token_hash;
  token_prefix = row.token_prefix;
  expires_at = row.expires_at;
  created_at = row.created_at;
  last_used_at = row.last_used_at;
})

unfoldable pub is_device_status : Bytes → Bool
unfolding bytes_eq
is_device_status s = bytes_eq s device_status_pending || bytes_eq s device_status_enrolled

unfoldable pub is_device_connectivity : Bytes → Bool
unfolding bytes_eq
is_device_connectivity s =
    bytes_eq s device_connectivity_online || bytes_eq s device_connectivity_offline

unfoldable pub scan_device : DeviceRow → Result Device
unfolding is_device_status is_device_connectivity
scan_device row =
    if is_device_status row.status
    then if is_device_connectivity row.connectivity
      then ok (record {
        id = row.id;
        identity_id = row.identity_id;
        name = row.name;
        open_ziti_identity_id = row.open_ziti_identity_id;
        enrollment_jwt = row.enrollment_jwt;
        status = row.status;
        connectivity = row.connectivity;
        enrolled_at = row.enrolled_at;
        last_seen_at = row.last_seen_at;
        created_at = row.created_at;
      })
      else err (message "unsupported device connectivity")
    else err (message "unsupported device status")
