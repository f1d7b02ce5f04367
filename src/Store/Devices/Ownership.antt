-- ===== src/Store/Devices/Ownership.antt =====
-- `DeleteDevice` touches only what the caller owns.
use users.Prelude.{ℕ, ◌≡◌, refl, ◌∙◌, List}
use users.Errors.{Result, ok, err}
use users.World.{Environment, World}
use users.World.Keeps.{
  Keeps, Stable, Keeps-bind, Keeps-attempt, Keeps-lift, Keeps-statement, keeps_rules,
}
use users.Store.Types.{UserId, Device, DeviceRow, Database}
use users.Store.Ownership.{others_devices, delete_device_rows-others}
use users.Store.Devices.{delete_device, delete_and_scan, after_delete}

module _ (env : Environment) (id : UserId) (kept : List DeviceRow) where
  abbrev pub OthersKeep : Database → Type 0
  OthersKeep db = others_devices id db ≡ kept

  after_delete-Keeps : (r : Result Device) → Keeps OthersKeep (after_delete r)
  unfolding after_delete
  after_delete-Keeps (ok d) = search keeps_rules
  after_delete-Keeps (err e) = search keeps_rules

  delete-Keeps :
      Stable env OthersKeep
      → (device_id : UserId) → Keeps OthersKeep (delete_device env id device_id)
  unfolding delete_device delete_and_scan
  delete-Keeps stable device_id =
      Keeps-bind _ _
        (Keeps-attempt _ (
          Keeps-bind _ _
            (Keeps-statement env _ stable
              (λ _ _ db h. delete_device_rows-others device_id id db ∙ h))
            (λ row. Keeps-lift _)))
        after_delete-Keeps

-- Whatever device id a user asks to delete, the devices of all other users are left as they were,
-- where other sessions leave them.
pub delete_device-others :
    (env : Environment) (id device_id : UserId) (w : World)
    → ((clock : ℕ) (db : Database) → others_devices id (env.before clock db) ≡ others_devices id db)
    → others_devices id (delete_device env id device_id w).1.db ≡ others_devices id w.db
delete_device-others env id device_id w alone =
    (delete-Keeps env id (others_devices id w.db) (λ clock db h. alone clock db ∙ h) device_id).at w
      refl
