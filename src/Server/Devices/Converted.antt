-- ===== src/Server/Devices/Converted.antt =====
-- The devices that reach the converter come from rows, so it does not panic.
use users.Prelude.{◌≡◌, ◌∙◌, refl, Option, none, some, List, [], ◌∷◌, map, Bytes, All}
use users.Errors.{Result, ok, err, ok-injective}
use users.World.{Environment, M, Uuids, ZitiIdentity, raise, lift, attempt}
use users.World.Yields.{Yields, Yields-raise, Yields-pure, Yields-bind, Yields-last, Yields-then}
use users.Store.Types.{UserId, Device, DeviceRow, CreateDeviceInput}
use users.Store.Rows.{scan_device}
use users.Store.Devices
use users.Store.Pagination.Scanned.{Scanned}
use users.Server.Status.{to_status_error}
use users.Server.Proto.{ProtoDevice, to_proto_device}
use users.Server.Proto.Total.{to_proto_device-scan_device}
use users.Server.Devices.{after_insert, store_device, converted, convert_all, ziti_delete}

Yields-scan : (row : DeviceRow) → Yields Scanned (lift (scan_device row))
unfolding lift
Yields-scan row = record { value = λ w device h. (row, h) }

create_device-Scanned :
    (env : Environment) (input : CreateDeviceInput)
    → Yields Scanned (Devices.create_device env input)
unfolding Devices.create_device
create_device-Scanned env input = Yields-last Scanned _ (λ row. lift (scan_device row)) Yields-scan

-- A result that holds such a device, if any.
abbrev Stored : Result Device → Type 0
Stored r = (device : Device) → r ≡ ok device → Scanned device

Yields-attempt : (m : M Device) → Yields Scanned m → Yields Stored (attempt m)
unfolding attempt
Yields-attempt m k = record {
  value = λ w r h device same. k.value w device (ok-injective h ∙ same);
}

after_insert-Scanned :
    (env : Environment) (id : Bytes) (r : Result Device)
    → Stored r
    → Yields Scanned (after_insert env id r)
unfolding after_insert
after_insert-Scanned env id (ok device) k = Yields-pure Scanned device (k device refl)
after_insert-Scanned env id (err e) k =
    Yields-last Scanned (attempt (ziti_delete env id)) (λ _. raise (to_status_error e))
      (λ _. Yields-raise Scanned (to_status_error e))

pub store_device-Scanned :
    (env : Environment) (user_id : UserId) (name : Bytes) (identity : ZitiIdentity)
    → Yields Scanned (store_device env user_id name identity)
unfolding store_device
store_device-Scanned env user_id name identity =
    let input : CreateDeviceInput = record {
      identity_id = user_id;
      name = name;
      open_ziti_identity_id = identity.ziti_identity_id;
      enrollment_jwt = identity.enrollment_jwt;
    } in
    Yields-then Scanned _ _ (
      Yields-then Scanned _ _ (
        Yields-bind Stored Scanned (attempt (Devices.create_device env input))
          (after_insert env identity.ziti_identity_id)
          (Yields-attempt (Devices.create_device env input) (create_device-Scanned env input))
          (after_insert-Scanned env identity.ziti_identity_id)))

pub converted-Scanned :
    (uuids : Uuids) (device : Device)
    → Scanned device
    → (proto : ProtoDevice) × (converted (to_proto_device uuids device) ≡ ok proto)
unfolding converted
converted-Scanned uuids device (row, h) =
    let (proto, e) = to_proto_device-scan_device uuids row device h in rw e (proto, refl)

convert_all-cons :
    (device : Option ProtoDevice) (devices : List (Option ProtoDevice)) {proto : ProtoDevice}
    {protos : List ProtoDevice}
    → converted device ≡ ok proto
    → convert_all devices ≡ ok protos
    → convert_all (device ∷ devices) ≡ ok (proto ∷ protos)
unfolding convert_all converted
convert_all-cons none devices h h' = absurd (cc)
convert_all-cons (some device) devices h h' = rw (h', ← ok-injective h) refl

pub convert_all-Scanned :
    (uuids : Uuids) (devices : List Device)
    → All Scanned devices
    → (protos : List ProtoDevice) × (convert_all (map (to_proto_device uuids) devices) ≡ ok protos)
unfolding convert_all
convert_all-Scanned uuids [] h = ([], refl)
convert_all-Scanned uuids (device ∷ devices) h =
    let (proto, e) = converted-Scanned uuids device h.0 in
    let (protos, f) = convert_all-Scanned uuids devices h.1 in
    (
      proto ∷ protos,
      convert_all-cons (to_proto_device uuids device) (map (to_proto_device uuids) devices) e f,
    )
