-- ===== src/Server/Status.antt =====
-- `toStatusError`, `isAlreadyExists`, `parseUUID`, `decodePageCursor` and `validateClusterRole` of
-- internal/server/server.go, and what a handler makes of an error of a call.
pub mod Laws
pub mod Ends
use Prim.Native.String.{String}
use text.Mathlib.Text.{◌==◌ as str_eq}
use users.Prelude.{ℕ, Bool, false, Option, none, some, [], Bytes, bytes_eq, if◌then◌else◌}
use users.Errors.{
  Result, ok, err, Error, not_found, already_exists, internal, message, status, status_from,
  as_not_found, as_already_exists,
}
use users.World.{M, Uuids, lift, attempt, ◌>>=◌}
use users.Store.Types.{UserId, PageCursor}
use users.Store.Pagination.{Base64, decode_page_token}

-- The error of a result, changed on the way out: `if err != nil { return nil, f(err) }`.
unfoldable pub or_error {ℓ} : {A : Type ℓ} → (Error → Error) → Result A → Result A
or_error f (ok a) = ok a
or_error f (err e) = err (f e)

-- The same for a call.
unfoldable pub or_fail : {A : Type 0} → (Error → Error) → M A → M A
unfolding or_error
or_fail f m = do r ← attempt m; lift (or_error f r)

other_error : Error → Option String → Error
other_error e (some resource) = status already_exists "already exists"
other_error e none = status_from internal "internal error" e

status_of : Error → Option String → Error
unfolding other_error as_already_exists
status_of e (some resource) = status not_found "not found"
status_of e none = other_error e (as_already_exists e)

unfoldable pub to_status_error : Error → Error
unfolding status_of as_not_found
to_status_error e = status_of e (as_not_found e)

unfoldable pub is_already_exists : Error → String → Bool
unfolding as_already_exists
is_already_exists e resource = elim (as_already_exists e) [
  | none ↦ false
  | some r ↦ str_eq r resource
]

unfoldable pub parse_uuid : Uuids → Bytes → Result UserId
unfolding bytes_eq
parse_uuid uuids value =
    if bytes_eq value [] then err (message "value is empty") else uuids.parse value

cursor_of : Result UserId → Result (Option PageCursor)
cursor_of (err e) = err e
cursor_of (ok id) = ok (some (record { after_id = id }))

unfoldable pub decode_page_cursor : Uuids → Base64 → Bytes → Result (Option PageCursor)
unfolding bytes_eq cursor_of decode_page_token
decode_page_cursor uuids base64 token =
    if bytes_eq token [] then ok none else cursor_of (decode_page_token uuids base64 token)

-- users.v1.ClusterRole; `other` stands for the values that no case names.
pub data ClusterRole : Type 0 where
  unspecified admin : ClusterRole
  other : ℕ → ClusterRole

unfoldable pub validate_cluster_role : ClusterRole → Option Error
validate_cluster_role unspecified = none
validate_cluster_role admin = none
validate_cluster_role (other n) = some (message "unsupported role")
