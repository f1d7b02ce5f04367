-- ===== src/Server/Liveness/Poll.antt =====
-- `PollDeviceLiveness` and `StartDeviceLivenessPolling` of internal/server/device_liveness.go: the
-- errors of one user's devices and of one device are logged, and the poll goes on.
pub mod Laws
use users.Prelude.{ℕ, List, [], ◌∷◌, none}
use users.Prelude.Int.{ℤ}
use users.Errors.{Result, ok, err}
use users.World.{Environment, M, pure, attempt, ◌>>=◌, ◌>>◌}
use users.Store.Types.{User, Device}
use users.Server.Ticker.{Signal, start_ticker}
use users.Server.GroupSync.Sync.{list_all_user_devices, user_pages}
use users.Server.Liveness.{poll_device}

-- The loop over the devices of a user.
poll_devices : Environment → List Device → M (Unit {0})
unfolding poll_device
poll_devices env [] = pure tt
poll_devices env (device ∷ devices) = do
  _ ← attempt (poll_device env device)
  poll_devices env devices

poll_listed : Environment → Result (List Device) → M (Unit {0})
unfolding poll_devices
poll_listed env (err e) = pure tt
poll_listed env (ok devices) = poll_devices env devices

-- The body of the loop over the users of a page.
pub poll_user : Environment → ℕ → User → M (Unit {0})
unfolding poll_listed list_all_user_devices
poll_user env fuel user = do
  devices ← attempt (list_all_user_devices env fuel user.meta.id)
  poll_listed env devices

-- The loop over the users of a page.
poll_users : Environment → ℕ → List User → M (Unit {0})
unfolding poll_user
poll_users env fuel [] = pure tt
poll_users env fuel (user ∷ users) = do poll_user env fuel user; poll_users env fuel users

pub poll_device_liveness : Environment → ℕ → M (Unit {0})
unfolding user_pages poll_users
poll_device_liveness env fuel = user_pages env fuel (poll_users env fuel) none

start_device_liveness_polling : Environment → ℕ → ℤ → List Signal → M (Unit {0})
unfolding start_ticker poll_device_liveness
start_device_liveness_polling env fuel interval signals =
    start_ticker interval (poll_device_liveness env fuel) signals
