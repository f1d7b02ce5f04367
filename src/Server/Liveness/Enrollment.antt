-- ===== src/Server/Liveness/Enrollment.antt =====
-- Every enrolled device has the time of its enrollment.
use users.Prelude.{◌≡◌, refl, Option, none, some, [], bytes_eq, All}
use users.Prelude.Tables.{first_where}
use users.Prelude.Pairs.{All-update_where}
use users.World.{Environment, World, Liveness, pure}
use users.World.Keeps.{
  Keeps, Stable, Keeps-bind, Keeps-statement, Keeps-lift, Keeps-pure, Keeps-if, Keeps-current_time,
  Keeps-invoke,
}
use users.Store.Types.{
  Database, Time, Device, DeviceRow, DeviceStatus, DeviceConnectivity, UpdateDeviceLivenessInput,
  device_status_enrolled,
}
use users.Store.Statements.{update_device, device_found, with_liveness, has_device_id}
use users.Store.Devices.{update_device_liveness}
use users.Server.Liveness.{
  first_enrolled, liveness_update, record_liveness, poll_known, poll_device,
  device_connectivity_from_ziti, device_status_from_ziti,
}

abbrev pub IsDated : DeviceStatus → Option Time → Type 0
IsDated status enrolled_at = status ≡ device_status_enrolled → (t : Time) × (enrolled_at ≡ some t)

-- A device with the status `enrolled` has the time of its enrollment.
abbrev pub AllDated : Database → Type 0
AllDated db = All (λ (row : DeviceRow). IsDated row.status row.enrolled_at) db.devices

first_enrolled-IsDated :
    (now : Time) (status : DeviceStatus) (before : Option Time)
    → IsDated status (first_enrolled now status before)
unfolding first_enrolled
first_enrolled-IsDated now status (some t) e = (t, refl)
first_enrolled-IsDated now status none e = rw e (now, refl)

found-AllDated :
    (input : UpdateDeviceLivenessInput) (found : Option DeviceRow) (db : Database)
    → IsDated input.status input.enrolled_at
    → AllDated db
    → AllDated (device_found input found db).1
unfolding device_found
found-AllDated input none db dated h = h
found-AllDated input (some row) db dated h =
    All-update_where (λ (r : DeviceRow). IsDated r.status r.enrolled_at) (has_device_id input.id)
      (with_liveness input) db.devices (λ x k. dated) h

pub update_device-AllDated :
    (input : UpdateDeviceLivenessInput)
    → IsDated input.status input.enrolled_at
    → (db : Database) → AllDated db
    → AllDated (update_device input db).1
unfolding update_device
update_device-AllDated input dated db h =
    found-AllDated input (first_where (has_device_id input.id) db.devices) db dated h

pub update_device-users :
    (input : UpdateDeviceLivenessInput) (db : Database)
    → (update_device input db).1.users ≡ db.users
unfolding update_device device_found
update_device-users input db = go (first_where (has_device_id input.id) db.devices)
  where
    go : (found : Option DeviceRow) → (device_found input found db).1.users ≡ db.users
    go none = refl
    go (some row) = refl

-- A poll of a device keeps what a dated update of a device keeps.
module _ (env : Environment) (P : Database → Type 0) (stable : Stable env P)
    (updated : (input : UpdateDeviceLivenessInput)
      → IsDated input.status input.enrolled_at
      → (db : Database) → P db
      → P (update_device input db).1) where
  update_device_liveness-Keeps :
      (input : UpdateDeviceLivenessInput)
      → IsDated input.status input.enrolled_at
      → Keeps P (update_device_liveness env input)
  unfolding update_device_liveness
  update_device_liveness-Keeps input dated =
      Keeps-bind _ _ (Keeps-statement env _ stable (λ _ _. updated input dated))
        (λ row. Keeps-lift _)

  record_liveness-Keeps :
      (device : Device) (status : DeviceStatus) (connectivity : DeviceConnectivity)
      → Keeps P (record_liveness env device status connectivity)
  unfolding record_liveness liveness_update
  record_liveness-Keeps device status connectivity =
      Keeps-if _ _ _ (λ _. Keeps-pure tt)
        (λ _. Keeps-bind _ _ (Keeps-current_time env) (λ now.
          Keeps-bind _ _
            (update_device_liveness-Keeps (liveness_update now device status connectivity)
              (first_enrolled-IsDated now status device.enrolled_at))
            (λ _. Keeps-pure tt)))

  poll_known-Keeps : (device : Device) → Keeps P (poll_known env device)
  unfolding poll_known
  poll_known-Keeps device = Keeps-bind _ _ (Keeps-invoke _ _) (λ (liveness : Liveness).
      Keeps-bind _ _ (Keeps-lift (device_status_from_ziti liveness.enrollment_state)) (λ status.
        record_liveness-Keeps device status
          (device_connectivity_from_ziti liveness.has_edge_router_connection)))

  pub poll_device-Keeps : (device : Device) → Keeps P (poll_device env device)
  unfolding poll_device
  poll_device-Keeps device =
      Keeps-if (bytes_eq device.open_ziti_identity_id []) (pure tt) (poll_known env device)
        (λ _. Keeps-pure tt) (λ _. poll_known-Keeps device)

module _ (env : Environment) (stable : Stable env AllDated) where
  -- After a poll of any device, whatever the answer about it, an enrolled device in the tables has the
  -- time of its enrollment, if that held before and other sessions keep it.
  pub poll_device-AllDated :
      (device : Device) (w : World) → AllDated w.db → AllDated (poll_device env device w).1.db
  poll_device-AllDated device w h =
      (poll_device-Keeps env AllDated stable update_device-AllDated device).at w h
