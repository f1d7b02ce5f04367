-- ===== src/Store/Devices/Consistent.antt =====
-- The operations on devices keep the constraints of the tables.
use users.Errors.{Result, ok, err}
use users.World.{Environment}
use users.World.Keeps.{Keeps, Stable, Keeps-statement, Keeps-bind, Keeps-lift, keeps_rules}
use users.Prelude.Tables.{first_where}
use users.Store.Types.{UserId, Device, CreateDeviceInput, UpdateDeviceLivenessInput}
use users.Store.Rows.{scan_device}
use users.Store.Statements.{update_device, has_device_id}
use users.Store.Consistent.{
  IsConsistent, insert_device-IsConsistent, device_found-IsConsistent,
  delete_device_rows-IsConsistent,
}
use users.Store.Devices.{
  create_device, update_device_liveness, after_delete, delete_and_scan, delete_device,
}

module _ (env : Environment) (stable : Stable env IsConsistent) where
  pub create_device-Keeps :
      (input : CreateDeviceInput) → Keeps IsConsistent (create_device env input)
  unfolding create_device
  create_device-Keeps input =
      Keeps-bind _ _
        (Keeps-statement env _ stable (λ id now db h. insert_device-IsConsistent db h id now input))
        (λ row. Keeps-lift (scan_device row))

  pub update_device_liveness-Keeps :
      (input : UpdateDeviceLivenessInput) → Keeps IsConsistent (update_device_liveness env input)
  unfolding update_device_liveness update_device
  update_device_liveness-Keeps input =
      Keeps-bind _ _
        (Keeps-statement env _ stable (λ _ _ db h.
          device_found-IsConsistent db h input (first_where (has_device_id input.id) db.devices)))
        (λ row. Keeps-lift (scan_device row))

  after_delete-Keeps : (r : Result Device) → Keeps IsConsistent (after_delete r)
  unfolding after_delete
  after_delete-Keeps (ok device) = search keeps_rules
  after_delete-Keeps (err e) = search keeps_rules

  delete-Keeps : (id device_id : UserId) → Keeps IsConsistent (delete_and_scan env id device_id)
  unfolding delete_and_scan
  delete-Keeps id device_id =
      Keeps-bind _ _
        (Keeps-statement env _ stable
          (λ _ _ db h. delete_device_rows-IsConsistent db h device_id id))
        (λ row. Keeps-lift (scan_device row))

  pub delete_device-Keeps :
      (id device_id : UserId) → Keeps IsConsistent (delete_device env id device_id)
  unfolding delete_device
  delete_device-Keeps id device_id = search (keeps_rules, delete-Keeps, after_delete-Keeps)
