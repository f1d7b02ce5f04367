-- ===== src/Server/GroupSync/Sync/Users.antt =====
-- The reconciliation, `ReconcileAllUserDeviceGroupRoles`, reaches every user.
use users.Prelude.{ℕ, ◌<◌, ◌≡◌, ◌≢◌, refl, sym, ◌∙◌, ap, List, [], ◌∷◌, map, length}
use users.Prelude.Tables.{order_by}
use users.Prelude.Pairs.{Pairs}
use users.Errors.{ok}
use users.World.{Environment, World, M, pure, ◌>>◌}
use users.Server.GroupSync.Sync.Keeps.{sync_users-Keeps}
use users.World.Quiet.{IsQuiet}
use users.World.Keeps.{Stable}
use users.World.Runs.{bind-ok}
use users.Store.Types.{User, UserRow, Database}
use users.Store.Users.SignIn.{user_of}
use users.Server.GroupSync.Sync.{
  sync_user_device_group_roles, sync_users, reconcile_all_user_device_group_roles,
}
use users.Server.GroupSync.Sync.Reached.{Reached, done, visit, user_row_id, all_pages-Reached}

-- The synchronisation of one user, as the reconciliation calls it.
abbrev pub sync_user : Environment → ℕ → User → M (Unit {0})
sync_user env fuel user = sync_user_device_group_roles env fuel user.meta.id []

sync_users-Reached :
    (env : Environment) (fuel : ℕ) (users : List User) (w : World)
    → (sync_users env fuel users w).0 ≡ ok tt
    → Reached (sync_user env fuel) users w (sync_users env fuel users w).1
unfolding sync_users ◌>>◌
sync_users-Reached env fuel [] w h = unfold pure in done
sync_users-Reached env fuel (user ∷ users) w h =
    let (u, synced, run) = bind-ok (sync_user env fuel user) (λ _. sync_users env fuel users) w h in
    let later =
      sync_users-Reached env fuel users (sync_user env fuel user w).1
        (ap (λ r. r.0) (sym run) ∙ h) in
    rw run (visit synced later)

-- In an environment where nothing in the database fails and nobody else writes, where the ids of the
-- users are distinct, and on fuel for more than their number, a reconciliation that succeeds has
-- synchronised every user, once and in the order of their ids: each synchronisation succeeded in the
-- world that the one before left, but for the clock.
pub reconcile-Reached :
    (env : Environment)
    → IsQuiet env
    → (fuel : ℕ) (w : World) → Pairs (λ (x y : UserRow). x.identity_id ≢ y.identity_id) w.db.users
    → length w.db.users < fuel
    → (reconcile_all_user_device_group_roles env fuel w).0 ≡ ok tt
    → Reached
        (sync_user env fuel)
        (map user_of (order_by user_row_id w.db.users))
        w
        (reconcile_all_user_device_group_roles env fuel w).1
unfolding reconcile_all_user_device_group_roles
reconcile-Reached env quiet fuel w distinct l h =
    let rows = w.db.users in
    let stable : Stable env (λ db. db.users ≡ rows) =
      λ clock db same. ap (λ (d : Database). d.users) (quiet.alone clock db) ∙ same in
    all_pages-Reached env quiet rows (sync_user env fuel) (sync_users env fuel)
      (sync_users-Reached env fuel) (sync_users-Keeps env (λ db. db.users ≡ rows) stable fuel)
      distinct fuel w refl l h
