-- ===== src/Server/Devices/Raises.antt =====
-- The errors of the handlers for devices.
use users.Prelude.{ℕ, ◌≡◌, refl, true, Option, List, map, Bytes, All}
use users.Prelude.Int.{ℤ}
use users.Errors.{Result, ok, err, Error, is_status, err-is_status}
use users.World.{Environment, World, M, ZitiIdentity, lift, pure, attempt, then_, ◌>>=◌}
use users.World.Yields.{Yields}
use users.Store.Types.{UserId, Device, DeviceListResult, PageCursor}
use users.Store.Pagination
use users.Store.Pagination.{Base64}
use users.Store.Pagination.Scanned.{Scanned, list_devices-Scanned}
use users.Server.Status.{or_error, or_fail, to_status_error}
use users.Server.Auth.{Metadata}
use users.Server.Auth.Raises.{Raises-require_identity}
use users.Server.Admin.{map_list_result}
use users.Server.Proto.{ProtoDevice, to_proto_device}
use users.Server.Devices.{
  after_insert, store_device, converted, convert_all, create_device, list_devices, delete_device,
}
use users.Server.Devices.Converted.{store_device-Scanned, converted-Scanned, convert_all-Scanned}
use users.Server.Raises.{Raises, raises_rules, Raises-or_fail_store}

module _ {A B : Type 0} (P : A → Type 0) where
  -- The rest may rely on what holds of the value.
  Raises-bind_yields :
      (m : M A) (f : A → M B)
      → Raises m
      → Yields P m
      → ((a : A) → P a → Raises (f a))
      → Raises (m >>= f)
  unfolding ◌>>=◌
  Raises-bind_yields m f km ym kf = record {
    error = λ w e h. go (m w).0 (m w).1 (km.error w) (ym.value w) e h;
  }
    where
      go :
          (r : Result A) (w : World)
          → ((e : Error) → r ≡ err e → is_status e ≡ true)
          → ((a : A) → r ≡ ok a → P a)
          → (e : Error) → (then_ r f w).0 ≡ err e
          → is_status e ≡ true
      go (ok a) w k y e h = (kf a (y a refl)).error w e h
      go (err d) w k y e h = err-is_status d e h (k d refl)

Yields-or_fail :
    {A : Type 0} (P : A → Type 0) (f : Error → Error) (m : M A)
    → Yields P m
    → Yields P (or_fail f m)
unfolding or_fail attempt lift or_error ◌>>=◌ then_
Yields-or_fail {A} P f m k = record { value = λ w a h. go (m w).0 (m w).1 (k.value w) a h }
  where
    go :
        (r : Result A) (w : World)
        → ((a : A) → r ≡ ok a → P a)
        → (a : A) → (lift (or_error f r) w).0 ≡ ok a
        → P a
    go (ok b) w y a h = y a h
    go (err e) w y a h = absurd (cc)

Raises-lift_ok : {A : Type 0} (r : Result A) (a : A) → r ≡ ok a → Raises (lift r)
unfolding lift
Raises-lift_ok r a h = record { error = λ w e same. absurd (cc (h, same)) }

module _ (env : Environment) where
  Raises-after_insert : (id : Bytes) (r : Result Device) → Raises (after_insert env id r)
  unfolding after_insert
  Raises-after_insert id (ok device) = search raises_rules
  Raises-after_insert id (err e) = search raises_rules

  Raises-store_device :
      (user_id : UserId) (name : Bytes) (identity : ZitiIdentity)
      → Raises (store_device env user_id name identity)
  unfolding store_device
  Raises-store_device user_id name identity = search (raises_rules, Raises-after_insert) depth 9

  finished : (device : Device) (jwt : Bytes) → M (ProtoDevice × Bytes)
  unfolding converted to_proto_device
  finished device jwt =
      lift (converted (to_proto_device env.uuids device)) >>= λ proto. pure (proto, jwt)

  Raises-finished : (device : Device) (jwt : Bytes) → Scanned device → Raises (finished device jwt)
  unfolding finished
  Raises-finished device jwt h =
      let (proto, e) = converted-Scanned env.uuids device h in
      search (raises_rules, Raises-lift_ok (converted (to_proto_device env.uuids device)) proto e)

  stored :
      (id : UserId) (name : Bytes) (identity : ZitiIdentity)
      → Raises
          (store_device env id name identity >>= λ device. finished device identity.enrollment_jwt)
  stored id name identity =
      Raises-bind_yields Scanned (store_device env id name identity)
        (λ device. finished device identity.enrollment_jwt) (Raises-store_device id name identity)
        (store_device-Scanned env id name identity)
        (λ device h. Raises-finished device identity.enrollment_jwt h)

  pub Raises-create_device :
      (fuel : ℕ) (metadata : Metadata) (name : Bytes)
      → Raises (create_device env fuel metadata name)
  unfolding create_device finished
  Raises-create_device fuel metadata name =
      search (raises_rules, Raises-require_identity, stored) depth 12

  pub Raises-delete_device :
      (metadata : Metadata) (id : Bytes) → Raises (delete_device env metadata id)
  unfolding delete_device
  Raises-delete_device metadata id = search (raises_rules, Raises-require_identity) depth 12

  -- The end of `ListDevices`.
  paged : Base64 → DeviceListResult → M (List ProtoDevice × Bytes)
  unfolding convert_all to_proto_device map_list_result
  paged base64 result =
      let (devices, next_token) =
        map_list_result env.uuids base64 result.devices result.next_cursor
          (to_proto_device env.uuids) in
      lift (convert_all devices) >>= λ protos. pure (protos, next_token)

  Raises-paged :
      (base64 : Base64) (result : DeviceListResult)
      → All Scanned result.devices
      → Raises (paged base64 result)
  unfolding paged map_list_result
  Raises-paged base64 result h =
      let (protos, e) = convert_all-Scanned env.uuids result.devices h in
      search (
        raises_rules,
        Raises-lift_ok (convert_all (map (to_proto_device env.uuids) result.devices)) protos e,
      )

  listed :
      (base64 : Base64) (id : UserId) (size : ℤ) (cursor : Option PageCursor)
      → Raises
          (or_fail to_status_error (Pagination.list_devices env id size cursor) >>= paged base64)
  listed base64 id size cursor =
      Raises-bind_yields (λ (r : DeviceListResult). All Scanned r.devices)
        (or_fail to_status_error (Pagination.list_devices env id size cursor)) (paged base64)
        (Raises-or_fail_store (Pagination.list_devices env id size cursor))
        (Yields-or_fail (λ (r : DeviceListResult). All Scanned r.devices) to_status_error
          (Pagination.list_devices env id size cursor) (list_devices-Scanned env id size cursor))
        (Raises-paged base64)

  pub Raises-list_devices :
      (base64 : Base64) (metadata : Metadata) (size : ℤ) (token : Bytes)
      → Raises (list_devices env base64 metadata size token)
  unfolding list_devices paged
  Raises-list_devices base64 metadata size token =
      search (raises_rules, Raises-require_identity, listed) depth 12
