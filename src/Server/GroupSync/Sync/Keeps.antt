-- ===== src/Server/GroupSync/Sync/Keeps.antt =====
-- What a synchronisation and the loops over pages keep of the tables, whatever the outcome.
use users.Prelude.{ℕ, zero, suc, Option, none, some, List, [], ◌∷◌, ◌++◌, Bytes}
use users.Prelude.Int.{pos}
use users.Errors.{Error, wrap}
use users.World.{Environment, M, patch_role_attributes}
use users.World.Keeps.{Keeps, Stable, Keeps-bind, Keeps-then, Keeps-invoke, Keeps-pure, keeps_rules}
use users.Store.Types.{UserId, User, Device, PageCursor, Database}
use users.Store.Pagination.{max_list_page_size}
use users.Store.Pagination.Keeps.{list_users-Keeps, list_devices-Keeps}
use users.Server.Status.{or_fail}
use users.Server.GroupSync.{patch_devices}
use users.Server.GroupSync.Groups.Keeps.{role_attributes-Keeps}
use users.Server.GroupSync.Sync.{
  device_pages, list_all_user_devices, sync_user_device_group_roles, sync_users, user_pages,
}

Keeps-or_fail :
    {A : Type 0} {P : Database → Type 0} (f : Error → Error) (m : M A)
    → Keeps P m
    → Keeps P (or_fail f m)
unfolding or_fail
Keeps-or_fail f m k = search keeps_rules

Keeps-cursor :
    {A : Type 0} {P : Database → Type 0} (stop : M A) (more : PageCursor → M A)
    (cursor : Option PageCursor)
    → Keeps P stop
    → ((c : PageCursor) → Keeps P (more c))
    → Keeps P (elim cursor [ none ↦ stop | some c ↦ more c ])
Keeps-cursor stop more none stopped later = stopped
Keeps-cursor stop more (some c) stopped later = later c

module _ (env : Environment) (P : Database → Type 0) (stable : Stable env P) where
  device_pages-Keeps :
      (fuel : ℕ) (id : UserId) (cursor : Option PageCursor) (devices : List Device)
      → Keeps P (device_pages env fuel id cursor devices)
  unfolding device_pages or_fail
  device_pages-Keeps zero id cursor devices = search keeps_rules
  device_pages-Keeps (suc fuel) id cursor devices =
      Keeps-bind _ _
        (Keeps-or_fail (wrap "list devices") _
          (list_devices-Keeps env stable id (pos max_list_page_size) cursor))
        (λ result.
          Keeps-cursor _ _ result.next_cursor (Keeps-pure _)
            (λ c. device_pages-Keeps fuel id (some c) (devices ++ result.devices)))

  pub list_all_user_devices-Keeps :
      (fuel : ℕ) (id : UserId) → Keeps P (list_all_user_devices env fuel id)
  unfolding list_all_user_devices
  list_all_user_devices-Keeps fuel id = device_pages-Keeps fuel id none []

  -- The loop over the pages keeps what the loop over a page keeps.
  pub user_pages-Keeps :
      (fuel : ℕ) (visit : List User → M (Unit {0})) (cursor : Option PageCursor)
      → ((users : List User) → Keeps P (visit users))
      → Keeps P (user_pages env fuel visit cursor)
  unfolding user_pages
  user_pages-Keeps zero visit cursor kept = search keeps_rules
  user_pages-Keeps (suc fuel) visit cursor kept =
      Keeps-bind _ _
        (Keeps-or_fail (wrap "list users") _
          (list_users-Keeps env stable (pos max_list_page_size) cursor))
        (λ result. Keeps-then _ _ (kept result.users) (
          Keeps-cursor _ _ result.next_cursor (Keeps-pure _)
            (λ c. user_pages-Keeps fuel visit (some c) kept)))

  patch_devices-Keeps :
      (desired remove : List Bytes) (devices : List Device)
      → Keeps P (patch_devices env desired remove devices)
  unfolding patch_devices or_fail
  patch_devices-Keeps desired remove [] = search keeps_rules
  patch_devices-Keeps desired remove (device ∷ devices) =
      let id = device.open_ziti_identity_id in
      Keeps-then _ _
        (Keeps-or_fail (wrap "patch device role attributes") _
          (Keeps-invoke (patch_role_attributes id desired remove) _))
        (patch_devices-Keeps desired remove devices)

  sync-Keeps :
      (fuel : ℕ) (id : UserId) (candidates : List Bytes)
      → Keeps P (sync_user_device_group_roles env fuel id candidates)
  unfolding sync_user_device_group_roles
  sync-Keeps fuel id candidates =
      search
        (keeps_rules, role_attributes-Keeps env P, list_all_user_devices-Keeps, patch_devices-Keeps)

  pub sync_users-Keeps : (fuel : ℕ) (users : List User) → Keeps P (sync_users env fuel users)
  unfolding sync_users
  sync_users-Keeps fuel [] = search keeps_rules
  sync_users-Keeps fuel (user ∷ users) =
      Keeps-then _ _ (sync-Keeps fuel user.meta.id []) (sync_users-Keeps fuel users)
