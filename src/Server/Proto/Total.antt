-- ===== src/Server/Proto/Total.antt =====
-- The conversions never panic on what the store returns.
use users.Prelude.{◌≡◌, refl, true, some, bytes_eq, Bool-cases, inl, inr}
use users.Errors.{ok, ok-injective}
use users.World.{Uuids}
use users.Store.Types.{
  Device, DeviceRow, DeviceStatus, DeviceConnectivity, device_status_pending,
  device_connectivity_online,
}
use users.Store.Rows.{scan_device, is_device_status, is_device_connectivity}
use users.Server.Proto.{
  ProtoDevice, ProtoStatus, ProtoConnectivity, to_proto_device, to_proto_device_status,
  to_proto_device_connectivity, proto_device,
}

status_total :
    (s : DeviceStatus)
    → is_device_status s ≡ true
    → (p : ProtoStatus) × (to_proto_device_status s ≡ some p)
unfolding is_device_status to_proto_device_status
status_total s h = elim (Bool-cases (bytes_eq s device_status_pending)) [
  | inl e ↦ rw e (_, refl)
  | inr e ↦ rw (e, rw e at h) (_, refl)
]

connectivity_total :
    (s : DeviceConnectivity)
    → is_device_connectivity s ≡ true
    → (p : ProtoConnectivity) × (to_proto_device_connectivity s ≡ some p)
unfolding is_device_connectivity to_proto_device_connectivity
connectivity_total s h = elim (Bool-cases (bytes_eq s device_connectivity_online)) [
  | inl e ↦ rw e (_, refl)
  | inr e ↦ rw (e, rw e at h) (_, refl)
]

scanned :
    (row : DeviceRow) (d : Device)
    → scan_device row ≡ ok d
    → (is_device_status d.status ≡ true) × (is_device_connectivity d.connectivity ≡ true)
unfolding scan_device
scanned row d h = elim (Bool-cases (is_device_status row.status)) [
  | inr e ↦ absurd (cc (rw e at h))
  | inl e ↦ elim (Bool-cases (is_device_connectivity row.connectivity)) [
    | inr f ↦ absurd (cc (rw (e, f) at h))
    | inl f ↦ rw (← ok-injective (rw (e, f) at h)) (e, f)
  ]
]

-- Every device that the store reads from a row is converted: no row makes the conversion panic.
pub to_proto_device-scan_device :
    (uuids : Uuids) (row : DeviceRow) (d : Device)
    → scan_device row ≡ ok d
    → (p : ProtoDevice) × (to_proto_device uuids d ≡ some p)
unfolding to_proto_device proto_device
to_proto_device-scan_device uuids row d h =
    let (s, c) = scanned row d h in
    let (p, e) = status_total d.status s in
    let (q, f) = connectivity_total d.connectivity c in rw (e, f) (_, refl)
