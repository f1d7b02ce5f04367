-- ===== src/Process.antt =====
-- cmd/users-service/main.go: what `run` opens, starts and closes, in which order.
pub mod Laws
use users.Prelude.{List, [], ◌∷◌, ◌++◌, Bytes}
use users.Errors.{Result, ok, err, Error, wrap}
use users.Server.Status.{or_error}
use users.Config.{Os, Config, from_env}

-- What a deferred call closes: the signals, the connection pool and the four connections.
pub data Resource : Type 0 where
  signals pool authorization identity ziti_management groups : Resource

pub data Event : Type 0 where
  opened closed : Resource → Event
  migrated : Event
  -- StartGroupMembershipConsumerLoop, StartGroupRoleReconciliation, StartDeviceLivenessPolling
  consumer_started reconciliation_started polling_started : Event
  -- net.Listen, and a Serve that has returned
  listening served : Event

-- How grpcServer.Serve returns: nil, grpc.ErrServerStopped, or another error.
pub data ServeEnd : Type 0 where
  finished server_stopped : ServeEnd
  failed : Error → ServeEnd

-- pgxpool, internal/db, grpc and net: how each call that `run` makes answers.
pub record Calls : Type 0 where
  pub parse_config : (database_url : Bytes) → Result (Unit {0})
  pub new_pool : Result (Unit {0})
  pub apply_migrations : Result (Unit {0})
  pub new_client : (address : Bytes) → Result (Unit {0})
  pub listen : (address : Bytes) → Result (Unit {0})
  pub serve : ServeEnd

-- A part of the program: what it returns, and its events.
abbrev pub P : Type 0 → Type 0
P A = Result A × List Event

-- `if err != nil { return f(err) }`, with an event behind a call that succeeds.
call : {A B : Type 0} → (Error → Error) → Result A → List Event → (A → P B) → P B
call f (err e) events rest = (err (f e), [])
call f (ok a) events rest = let (r, later) = rest a in (r, events ++ later)

-- A resource that is opened, with `defer r.Close()` behind it.
with_deferred : {A B : Type 0} → Resource → (Error → Error) → Result A → P B → P B
with_deferred resource f (err e) rest = (err (f e), [])
with_deferred resource f (ok a) rest =
    let (r, later) = rest in (r, opened resource ∷ (later ++ closed resource ∷ []))

serve_end : ServeEnd → Result (Unit {0})
serve_end finished = ok tt
serve_end server_stopped = ok tt
serve_end (failed e) = err (wrap "serve" e)

-- From the gRPC server on.
serve : Calls → Config → P (Unit {0})
unfolding call serve_end
serve calls cfg =
    let (r, later) =
      call (wrap "listen") (calls.listen cfg.grpc_address) (listening ∷ [])
        (λ _. (serve_end calls.serve, served ∷ [])) in
    (r, consumer_started ∷ reconciliation_started ∷ polling_started ∷ later)

-- Each part of `run` from one `defer` to the end, the last part first.
connect_groups : Calls → Config → P (Unit {0})
unfolding with_deferred serve
connect_groups calls cfg =
    with_deferred groups (wrap "connect to groups") (calls.new_client cfg.groups_address)
      (serve calls cfg)

connect_ziti_management : Calls → Config → P (Unit {0})
unfolding with_deferred connect_groups
connect_ziti_management calls cfg =
    with_deferred ziti_management (wrap "connect to ziti management")
      (calls.new_client cfg.ziti_management_address) (connect_groups calls cfg)

connect_identity : Calls → Config → P (Unit {0})
unfolding with_deferred connect_ziti_management
connect_identity calls cfg =
    with_deferred identity (wrap "connect to identity") (calls.new_client cfg.identity_address)
      (connect_ziti_management calls cfg)

connect : Calls → Config → P (Unit {0})
unfolding with_deferred connect_identity
connect calls cfg =
    with_deferred authorization (wrap "connect to authorization")
      (calls.new_client cfg.authorization_address) (connect_identity calls cfg)

migrate : Calls → Config → P (Unit {0})
unfolding call connect
migrate calls cfg =
    call (wrap "apply migrations") calls.apply_migrations (migrated ∷ []) (λ _. connect calls cfg)

open_pool : Calls → Config → P (Unit {0})
unfolding with_deferred migrate
open_pool calls cfg =
    with_deferred pool (wrap "create connection pool") calls.new_pool (migrate calls cfg)

-- From the configuration on.
configure : Calls → Config → P (Unit {0})
unfolding call open_pool
configure calls cfg =
    call (wrap "parse database url") (calls.parse_config cfg.database_url) []
      (λ _. open_pool calls cfg)

unfoldable pub run : Os → Calls → P (Unit {0})
unfolding call with_deferred configure from_env
run os calls =
    with_deferred signals (λ e. e) (ok tt) (call (λ e. e) (from_env os) [] (configure calls))
