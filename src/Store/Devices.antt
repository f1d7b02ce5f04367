-- ===== src/Store/Devices.antt =====
-- The devices of internal/store/store.go, but for `ListDevices`.
pub mod Consistent
pub mod Ownership
use users.Prelude.{Option, none, some, if◌then◌else◌}
use users.Errors.{Result, ok, err, not_found, is_no_rows, Error}
use users.World.{Environment, M, raise, lift, pure, attempt, statement, ◌>>=◌}
use users.Store.Types.{UserId, Device, CreateDeviceInput, UpdateDeviceLivenessInput}
use users.Store.Rows.{scan_device}
use users.Store.Statements.{insert_device, update_device, delete_device_rows}

unfoldable pub create_device : Environment → CreateDeviceInput → M Device
create_device env input = do
  row ← statement env (λ id now db. insert_device id now input db)
  lift (scan_device row)

unfoldable pub update_device_liveness : Environment → UpdateDeviceLivenessInput → M Device
update_device_liveness env input = do
  row ← statement env (λ _ _ db. update_device input db)
  lift (scan_device row)

after_delete : Result Device → M Device
unfolding is_no_rows
after_delete (ok device) = pure device
after_delete (err e) = raise (if is_no_rows e then not_found "device" else e)

delete_and_scan : Environment → UserId → UserId → M Device
delete_and_scan env identity_id device_id = do
  row ← statement env (λ _ _ db. delete_device_rows device_id identity_id db)
  lift (scan_device row)

pub delete_device : Environment → UserId → UserId → M Device
unfolding after_delete delete_and_scan
delete_device env identity_id device_id = do
  deleted ← attempt (delete_and_scan env identity_id device_id)
  after_delete deleted
