-- ===== src/Server/Devices.antt =====
-- The handlers of internal/server/server.go for devices.
pub mod Undo
pub mod Converted
pub mod Raises
use users.Prelude.{ℕ, Bool, not, Option, none, some, List, [], ◌∷◌, Bytes, bytes_eq, if◌then◌else◌}
use users.Prelude.Int.{ℤ}
use users.Errors.{Result, ok, err, Error, message, status, status_from, invalid_argument, internal}
use users.World.{
  Environment, M, ZitiIdentity, Call, create_device_identity, delete_device_identity, pure, raise,
  lift, attempt, invoke, ◌>>=◌, ◌>>◌,
}
use users.Store.Types.{UserId, Device, CreateDeviceInput}
use users.Store.Devices
use users.Store.Pagination
use users.Store.Pagination.{Base64}
use users.Server.Status.{or_error, or_fail, to_status_error, parse_uuid, decode_page_cursor}
use users.Server.Auth.{Metadata, require_identity}
use users.Server.Users.{require}
use users.Server.Admin.{map_list_result}
use users.Server.Proto.{ProtoDevice, to_proto_device}
use users.Server.GroupSync.Groups.{user_group_role_attributes}

-- zitiManagementClient.CreateDeviceIdentity
ziti_create : Environment → UserId → Bytes → List Bytes → M ZitiIdentity
ziti_create env user_id name role_attributes =
    let user_identity_id = env.uuids.to_string user_id in
    invoke (create_device_identity user_identity_id name role_attributes)
      (λ clock. env.create_device_identity clock user_identity_id name role_attributes)

-- zitiManagementClient.DeleteDeviceIdentity
ziti_delete : Environment → Bytes → M (Unit {0})
ziti_delete env ziti_identity_id =
    invoke (delete_device_identity ziti_identity_id)
      (λ clock. env.delete_device_identity clock ziti_identity_id)

-- What `CreateDevice` does with the answer of the store.
after_insert : Environment → Bytes → Result Device → M Device
unfolding ziti_delete to_status_error
after_insert env ziti_identity_id (ok device) = pure device
after_insert env ziti_identity_id (err e) = do
  _ ← attempt (ziti_delete env ziti_identity_id)
  raise (to_status_error e)

-- From the answer of CreateDeviceIdentity on.
unfoldable pub store_device : Environment → UserId → Bytes → ZitiIdentity → M Device
unfolding require after_insert bytes_eq
store_device env user_id name identity = do
  require (not (bytes_eq identity.ziti_identity_id []))
      (status internal "create device identity: missing ziti identity id")
  require (not (bytes_eq identity.enrollment_jwt []))
      (status internal "create device identity: missing enrollment jwt")
  stored ← attempt (
      Devices.create_device env (record {
        identity_id = user_id;
        name = name;
        open_ziti_identity_id = identity.ziti_identity_id;
        enrollment_jwt = identity.enrollment_jwt;
      }))
  after_insert env identity.ziti_identity_id stored

-- A panic of toProtoDevice ends the handler with an error: no error value that the service passes on.
pub converted : Option ProtoDevice → Result ProtoDevice
converted none = err (message "panic")
converted (some device) = ok device

unfoldable pub create_device : Environment → ℕ → Metadata → Bytes → M (ProtoDevice × Bytes)
unfolding require_identity require or_fail user_group_role_attributes ziti_create store_device
    converted to_proto_device bytes_eq
create_device env fuel metadata name = do
  id ← require_identity env metadata
  require (not (bytes_eq name [])) (status invalid_argument "name must be provided")
  role_attributes ←
      or_fail (status_from internal "list user group memberships")
        (user_group_role_attributes env fuel id)
  identity ←
      or_fail (status_from internal "create device identity")
        (ziti_create env id name role_attributes)
  device ← store_device env id name identity
  proto ← lift (converted (to_proto_device env.uuids device))
  pure (proto, identity.enrollment_jwt)

-- The devices of a page, with the panic of each.
pub convert_all : List (Option ProtoDevice) → Result (List ProtoDevice)
unfolding converted
convert_all [] = ok []
convert_all (device ∷ devices) =
    let rest = convert_all devices in
    elim (converted device) [
      | err e ↦ err e
      | ok proto ↦ elim rest [ err e ↦ err e | ok protos ↦ ok (proto ∷ protos) ]
    ]

unfoldable pub list_devices :
    Environment → Base64 → Metadata → ℤ → Bytes → M (List ProtoDevice × Bytes)
unfolding require_identity or_error or_fail decode_page_cursor map_list_result convert_all
    to_proto_device
list_devices env base64 metadata page_size page_token = do
  id ← require_identity env metadata
  cursor ← lift (
      or_error (status_from invalid_argument "invalid page_token")
        (decode_page_cursor env.uuids base64 page_token))
  result ← or_fail to_status_error (Pagination.list_devices env id page_size cursor)
  let (devices, next_token) =
      map_list_result env.uuids base64 result.devices result.next_cursor (to_proto_device env.uuids)
  protos ← lift (convert_all devices)
  pure (protos, next_token)

unfoldable pub delete_device : Environment → Metadata → Bytes → M (Unit {0})
unfolding require_identity or_error or_fail parse_uuid ziti_delete
delete_device env metadata device_id = do
  id ← require_identity env metadata
  device_id ← lift (or_error (status_from invalid_argument "id") (parse_uuid env.uuids device_id))
  device ← or_fail to_status_error (Devices.delete_device env id device_id)
  _ ← attempt (ziti_delete env device.open_ziti_identity_id)
  pure tt
