-- ===== src/Server/Liveness.antt =====
-- internal/server/device_liveness.go: what a poll of one device writes, and (Poll) the poll of all.
pub mod Enrollment
pub mod Poll
use users.Prelude.{
  ℕ, Bool, true, false, ◌&&◌, Option, none, some, Bytes, [], bytes_eq, if◌then◌else◌,
}
use users.Errors.{Result, ok, err, message}
use users.World.{
  Environment, M, EnrollmentState, pending, enrolled, other, Liveness, Call, get_liveness, pure,
  lift, invoke, current_time, ◌>>=◌, ◌>>◌,
}
use users.Store.Types.{
  Time, Device, DeviceStatus, DeviceConnectivity, UpdateDeviceLivenessInput, device_status_pending,
  device_status_enrolled, device_connectivity_online, device_connectivity_offline,
}
use users.Store.Devices.{update_device_liveness}

device_connectivity_from_ziti : Bool → DeviceConnectivity
device_connectivity_from_ziti has_edge_router_connection =
    if has_edge_router_connection then device_connectivity_online else device_connectivity_offline

device_status_from_ziti : EnrollmentState → Result DeviceStatus
device_status_from_ziti pending = ok device_status_pending
device_status_from_ziti enrolled = ok device_status_enrolled
device_status_from_ziti (other n) = err (message "unknown OpenZiti enrollment state")

first_enrolled : Time → DeviceStatus → Option Time → Option Time
unfolding bytes_eq
first_enrolled now status (some t) = some t
first_enrolled now status none = if bytes_eq status device_status_enrolled then some now else none

liveness_update : Time → Device → DeviceStatus → DeviceConnectivity → UpdateDeviceLivenessInput
unfolding first_enrolled bytes_eq
liveness_update now device status connectivity = record {
  id = device.id;
  status = status;
  connectivity = connectivity;
  enrolled_at = first_enrolled now status device.enrolled_at;
  last_seen_at =
      if bytes_eq connectivity device_connectivity_online then some now else device.last_seen_at;
}

-- An offline device that has not changed.
is_unchanged : Device → DeviceStatus → DeviceConnectivity → Bool
unfolding bytes_eq
is_unchanged device status connectivity =
    bytes_eq status device.status
    && bytes_eq connectivity device.connectivity
    && bytes_eq connectivity device_connectivity_offline

record_liveness : Environment → Device → DeviceStatus → DeviceConnectivity → M (Unit {0})
unfolding is_unchanged liveness_update update_device_liveness
record_liveness env device status connectivity =
    if is_unchanged device status connectivity then pure tt else do
      now ← current_time env
      _ ← update_device_liveness env (liveness_update now device status connectivity)
      pure tt

poll_known : Environment → Device → M (Unit {0})
unfolding device_status_from_ziti device_connectivity_from_ziti record_liveness
poll_known env device = do
  liveness ←
      invoke (get_liveness device.open_ziti_identity_id)
        (λ clock. env.get_liveness clock device.open_ziti_identity_id)
  status ← lift (device_status_from_ziti liveness.enrollment_state)
  record_liveness env device status
      (device_connectivity_from_ziti liveness.has_edge_router_connection)

pub poll_device : Environment → Device → M (Unit {0})
unfolding poll_known bytes_eq
poll_device env device =
    if bytes_eq device.open_ziti_identity_id [] then pure tt else poll_known env device
