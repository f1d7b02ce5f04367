-- ===== src/Server/Liveness/Poll/Laws.antt =====
-- What a poll of all devices keeps of the tables.
use users.Prelude.{◌≡◌, ◌≢◌, ◌<◌, refl, ap, ◌∙◌, map, length, ℕ, List, [], ◌∷◌}
use users.Errors.{Result, ok, err}
use users.World.Quiet.{IsQuiet}
use users.World.Runs.{bind-of_ok, bind-of_attempt}
use users.Store.Users.SignIn.{user_of}
use users.Prelude.Pairs.{Pairs}
use users.Prelude.Tables.{order_by}
use users.Server.GroupSync.Sync.{list_all_user_devices}
use users.Server.GroupSync.Sync.Reached.{
  Reached, done, visit, user_row_id, all_pages-Reached, all_pages-ok,
}
use users.World.{Environment, World, pure, ◌>>◌}
use users.World.Keeps.{Keeps, Stable, Keeps-bind, Keeps-then, Keeps-attempt, Keeps-pure}
use users.Store.Types.{User, UserRow, Device, Database}
use users.Server.GroupSync.Sync.Keeps.{list_all_user_devices-Keeps, user_pages-Keeps}
use users.Server.Liveness.{poll_device}
use users.Server.Liveness.Enrollment.{
  AllDated, poll_device-Keeps, update_device-AllDated, update_device-users,
}
use users.Server.Liveness.Poll.{
  poll_devices, poll_listed, poll_user, poll_users, poll_device_liveness,
}

module _ (env : Environment) (P : Database → Type 0) (stable : Stable env P)
    (polled : (device : Device) → Keeps P (poll_device env device)) where
  poll_devices-Keeps : (devices : List Device) → Keeps P (poll_devices env devices)
  unfolding poll_devices
  poll_devices-Keeps [] = Keeps-pure tt
  poll_devices-Keeps (device ∷ devices) =
      Keeps-bind _ _ (Keeps-attempt _ (polled device)) (λ _. poll_devices-Keeps devices)

  poll_listed-Keeps : (listed : Result (List Device)) → Keeps P (poll_listed env listed)
  unfolding poll_listed
  poll_listed-Keeps (err e) = Keeps-pure tt
  poll_listed-Keeps (ok devices) = poll_devices-Keeps devices

  poll_users-Keeps : (fuel : ℕ) (users : List User) → Keeps P (poll_users env fuel users)
  unfolding poll_users poll_user
  poll_users-Keeps fuel [] = Keeps-pure tt
  poll_users-Keeps fuel (user ∷ users) =
      Keeps-then _ _
        (Keeps-bind _ _
          (Keeps-attempt _ (list_all_user_devices-Keeps env P stable fuel user.meta.id))
          poll_listed-Keeps)
        (poll_users-Keeps fuel users)

  poll_device_liveness-Keeps : (fuel : ℕ) → Keeps P (poll_device_liveness env fuel)
  unfolding poll_device_liveness
  poll_device_liveness-Keeps fuel =
      user_pages-Keeps env P stable fuel (poll_users env fuel) _ (poll_users-Keeps fuel)

-- After a poll of the devices of all users, however it ends and whatever the answers about them, an
-- enrolled device in the tables has the time of its enrollment, if that held before and other sessions
-- keep it.
pub poll_device_liveness-AllDated :
    (env : Environment)
    → Stable env AllDated
    → (fuel : ℕ) (w : World) → AllDated w.db
    → AllDated (poll_device_liveness env fuel w).1.db
poll_device_liveness-AllDated env stable fuel w h =
    (poll_device_liveness-Keeps env AllDated stable
        (poll_device-Keeps env AllDated stable update_device-AllDated) fuel).at
      w h

poll_devices-ok :
    (env : Environment) (devices : List Device) (w : World) → (poll_devices env devices w).0 ≡ ok tt
unfolding poll_devices
poll_devices-ok env [] w = unfold pure in refl
poll_devices-ok env (device ∷ devices) w =
    ap (λ r. r.0)
      (bind-of_attempt (poll_device env device) (λ _. poll_devices env devices) w
        (poll_device env device w).1 refl)
    ∙ poll_devices-ok env devices (poll_device env device w).1

poll_listed-ok :
    (env : Environment) (listed : Result (List Device)) (w : World)
    → (poll_listed env listed w).0 ≡ ok tt
unfolding poll_listed
poll_listed-ok env (err e) w = unfold pure in refl
poll_listed-ok env (ok devices) w = poll_devices-ok env devices w

-- The errors of one user are skipped.
poll_user-ok :
    (env : Environment) (fuel : ℕ) (user : User) (w : World) → (poll_user env fuel user w).0 ≡ ok tt
unfolding poll_user
poll_user-ok env fuel user w =
    let listed = list_all_user_devices env fuel user.meta.id in
    ap (λ r. r.0) (bind-of_attempt listed (poll_listed env) w (listed w).1 refl)
    ∙ poll_listed-ok env (listed w).0 (listed w).1

poll_users-run :
    (env : Environment) (fuel : ℕ) (users : List User) (w : World)
    → ((poll_users env fuel users w).0 ≡ ok tt)
      × Reached (poll_user env fuel) users w (poll_users env fuel users w).1
unfolding poll_users ◌>>◌
poll_users-run env fuel [] w = unfold pure in (refl, done)
poll_users-run env fuel (user ∷ users) w =
    let w' = (poll_user env fuel user w).1 in
    let polled = poll_user-ok env fuel user w in
    let (later, reached) = poll_users-run env fuel users w' in
    rw
      (bind-of_ok (poll_user env fuel user) (λ _. poll_users env fuel users) w w'
        (ap (λ r. (r, w')) polled))
      (later, visit polled reached)

-- In an environment where nothing in the database fails and nobody else writes, where the ids of the
-- users are distinct, and on fuel for more than their number, a poll succeeds whatever the other
-- services answer, and has polled every user, once and in the order of their ids, each in the world
-- that the one before left, but for the clock.
pub poll_device_liveness-Reached :
    (env : Environment)
    → IsQuiet env
    → (fuel : ℕ) (w : World) → Pairs (λ (x y : UserRow). x.identity_id ≢ y.identity_id) w.db.users
    → length w.db.users < fuel
    → ((poll_device_liveness env fuel w).0 ≡ ok tt)
      × Reached
          (poll_user env fuel)
          (map user_of (order_by user_row_id w.db.users))
          w
          (poll_device_liveness env fuel w).1
unfolding poll_device_liveness
poll_device_liveness-Reached env quiet fuel w distinct l =
    let rows = w.db.users in
    let P = λ (db : Database). db.users ≡ rows in
    let stable : Stable env P =
      λ clock db same. ap (λ (d : Database). d.users) (quiet.alone clock db) ∙ same in
    let keeps =
      poll_users-Keeps env P stable
        (poll_device-Keeps env P stable
          (λ input dated db same. update_device-users input db ∙ same))
        fuel in
    let reach = λ (users : List User) (w : World) (h : (poll_users env fuel users w).0 ≡ ok tt).
      (poll_users-run env fuel users w).1 in
    let succeeds =
      all_pages-ok env quiet rows (poll_user env fuel) (poll_users env fuel) reach keeps distinct
        (λ users w. (poll_users-run env fuel users w).0) fuel w refl l in
    (
      succeeds,
      all_pages-Reached env quiet rows (poll_user env fuel) (poll_users env fuel) reach keeps
          distinct fuel w refl l succeeds,
    )
