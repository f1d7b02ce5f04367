-- ===== src/Config.antt =====
-- internal/config/config.go: the configuration, from the variables of the environment.
pub mod Laws
use users.Prelude.{Bool, List, [], Bytes, codes, bytes_eq, if◌then◌else◌}
use users.Prelude.Int.{ℤ}
use users.Errors.{Result, ok, err, message, wrap, ◌>>=◌}
use users.Server.Status.{or_error}

-- Intervals are durations in nanoseconds.
pub record Config : Type 0 where
  pub grpc_address : Bytes
  pub database_url : Bytes
  pub authorization_address : Bytes
  pub identity_address : Bytes
  pub ziti_management_address : Bytes
  pub groups_address : Bytes
  pub nats_url : Bytes
  pub group_sync_durable : Bytes
  pub reconciliation_interval : ℤ
  pub device_liveness_interval : ℤ

-- os.Getenv, which is empty for a variable that is not set, and time.ParseDuration.
pub record Os : Type 0 where
  pub getenv : Bytes → Bytes
  pub parse_duration : Bytes → Result ℤ

-- The value of a variable, or its default: `if value == "" { value = … }`.
unfoldable pub getenv_or : Os → (name fallback : Bytes) → Bytes
unfolding bytes_eq
getenv_or os name fallback =
    let value = os.getenv name in if bytes_eq value [] then fallback else value

-- The fields that are texts.
texts : Os → Bytes → ℤ → ℤ → Config
unfolding getenv_or
texts os database_url reconciliation_interval device_liveness_interval = record {
  grpc_address = getenv_or os (codes "GRPC_ADDRESS") (codes ":50051");
  database_url = database_url;
  authorization_address =
      getenv_or os (codes "AUTHORIZATION_ADDRESS") (codes "authorization:50051");
  identity_address = getenv_or os (codes "IDENTITY_ADDRESS") (codes "identity:50051");
  ziti_management_address =
      getenv_or os (codes "ZITI_MANAGEMENT_ADDRESS") (codes "ziti-management:50051");
  groups_address = getenv_or os (codes "GROUPS_ADDRESS") (codes "groups:50051");
  nats_url = getenv_or os (codes "NATS_URL") (codes "nats://nats:4222");
  group_sync_durable = getenv_or os (codes "GROUP_SYNC_DURABLE") (codes "users-group-sync");
  reconciliation_interval = reconciliation_interval;
  device_liveness_interval = device_liveness_interval;
}

reconciliation_interval : Os → Result ℤ
unfolding or_error getenv_or
reconciliation_interval os =
    or_error (wrap "GROUP_SYNC_RECONCILIATION_INTERVAL")
      (os.parse_duration (getenv_or os (codes "GROUP_SYNC_RECONCILIATION_INTERVAL") (codes "60s")))

device_liveness_interval : Os → Result ℤ
unfolding or_error getenv_or
device_liveness_interval os =
    or_error (wrap "DEVICE_LIVENESS_INTERVAL")
      (os.parse_duration (getenv_or os (codes "DEVICE_LIVENESS_INTERVAL") (codes "30s")))

-- From the check of DATABASE_URL on.
with_database : Os → Bytes → Result Config
unfolding texts reconciliation_interval device_liveness_interval
with_database os database_url = do
  reconciliation ← reconciliation_interval os
  liveness ← device_liveness_interval os
  ok (texts os database_url reconciliation liveness)

unfoldable pub from_env : Os → Result Config
unfolding with_database bytes_eq
from_env os =
    let database_url = os.getenv (codes "DATABASE_URL") in
    if bytes_eq database_url []
    then err (message "DATABASE_URL must be set")
    else with_database os database_url
