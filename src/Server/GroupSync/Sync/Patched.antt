-- ===== src/Server/GroupSync/Sync/Patched.antt =====
-- A synchronisation that succeeds has patched every device of the user.
use users.Prelude.{
  ℕ, ◌<◌, ◌≡◌, ◌≢◌, refl, sym, ◌∙◌, ap, List, [], ◌∷◌, ◌++◌, map, append-nil, append_assoc, Bytes,
  length, All,
}
use users.Prelude.Tables.{order_by}
use users.Prelude.Pairs.{Pairs}
use users.Errors.{ok, wrap}
use users.World.{Environment, World, Call, patch_role_attributes, pure, invoke, ◌>>◌}
use users.World.Quiet.{IsQuiet}
use users.World.Runs.{bind-ok, bind-of_ok}
use users.Store.Types.{UserId, Device, DeviceRow, Database}
use users.Store.Pagination.{owned_devices}
use users.Server.Status.Laws.{or_fail-ok}
use users.Server.GroupSync.{patch_devices, stale_candidate_attributes}
use users.Server.GroupSync.Groups.{user_group_role_attributes}
use users.Server.GroupSync.Groups.Keeps.{role_attributes-Keeps}
use users.Server.GroupSync.Sync.{list_all_user_devices, sync_user_device_group_roles}
use users.Server.GroupSync.Sync.Walk.{
  device_of, IsReadable, device_row_id, list_all_user_devices_complete,
}

-- The request for one device.
abbrev pub patch_of : List Bytes → List Bytes → Device → Call
patch_of desired remove device = patch_role_attributes device.open_ziti_identity_id desired remove

patch_devices-calls :
    (env : Environment) (desired remove : List Bytes) (devices : List Device) (w : World)
    → (patch_devices env desired remove devices w).0 ≡ ok tt
    → (patch_devices env desired remove devices w).1.calls
      ≡ w.calls ++ map (patch_of desired remove) devices
unfolding patch_devices pure ◌>>◌ invoke
patch_devices-calls env desired remove [] w h = sym (append-nil w.calls)
patch_devices-calls env desired remove (device ∷ devices) w h =
    let id = device.open_ziti_identity_id in
    let patch =
      invoke (patch_role_attributes id desired remove)
        (λ clock. env.patch_role_attributes clock id desired remove) in
    let (u, patched, run) =
      or_fail-ok (wrap "patch device role attributes") patch
        (λ _. patch_devices env desired remove devices) w h in
    ap (λ r. r.1.calls) run
    ∙ patch_devices-calls env desired remove devices (patch w).1 (ap (λ r. r.0) (sym run) ∙ h)
    ∙ append_assoc w.calls (patch_of desired remove device ∷ [])
        (map (patch_of desired remove) devices)

-- In an environment where nothing in the database fails and nobody else writes, where the ids of the
-- devices are distinct and their rows carry a known status and connectivity, and on fuel for more than
-- the devices of the user, a synchronisation that succeeds found the role attributes of the groups of
-- the user, and after that made one call for each device of the user, in the order of their ids: it
-- adds those attributes and removes the stale candidates.
pub sync-Patched :
    (env : Environment)
    → IsQuiet env
    → (fuel : ℕ) (user_id : UserId) (candidates : List Bytes) (w : World)
    → Pairs (λ (x y : DeviceRow). x.id ≢ y.id) w.db.devices
    → All IsReadable w.db.devices
    → length (owned_devices user_id w.db) < fuel
    → (sync_user_device_group_roles env fuel user_id candidates w).0 ≡ ok tt
    → (desired : List Bytes) × ((user_group_role_attributes env fuel user_id w).0 ≡ ok desired)
      × ((sync_user_device_group_roles env fuel user_id candidates w).1.calls
          ≡ (user_group_role_attributes env fuel user_id w).1.calls
            ++ map
                (patch_of desired (stale_candidate_attributes desired candidates))
                (map device_of (order_by device_row_id (owned_devices user_id w.db))))
unfolding sync_user_device_group_roles
sync-Patched env quiet fuel user_id candidates w distinct readable l h =
    let (desired, found, run) = bind-ok (user_group_role_attributes env fuel user_id) _ w h in
    let w1 = (user_group_role_attributes env fuel user_id w).1 in
    let same : w1.db ≡ w.db =
      (role_attributes-Keeps env (λ db. db ≡ w.db) fuel user_id).at w refl in
    let all =
      list_all_user_devices_complete env quiet fuel user_id w1 (rw same distinct) (rw same readable)
        (rw same l) in
    let remove = stale_candidate_attributes desired candidates in
    let devices = map device_of (order_by device_row_id (owned_devices user_id w1.db)) in
    let listed =
      bind-of_ok (list_all_user_devices env fuel user_id) (patch_devices env desired remove) w1
        (list_all_user_devices env fuel user_id w1).1
        (ap (λ r. (r, (list_all_user_devices env fuel user_id w1).1)) all.0) in
    let ran = run ∙ listed in
    let patched =
      patch_devices-calls env desired remove devices (list_all_user_devices env fuel user_id w1).1
        (ap (λ r. r.0) (sym ran) ∙ h) in
    (
      desired,
      found,
      ap (λ r. r.1.calls) ran
          ∙ patched
          ∙ ap (λ c. c ++ map (patch_of desired remove) devices) all.2
          ∙ ap
              (λ (db : Database).
                w1.calls
                ++ map (patch_of desired remove)
                    (map device_of (order_by device_row_id (owned_devices user_id db))))
              same,
    )
