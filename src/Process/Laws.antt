-- ===== src/Process/Laws.antt =====
-- Whatever fails, the program closes what it has opened.
use users.Prelude.{
  ◌≡◌, refl, sym, ◌∙◌, ap, Option, none, some, List, [], ◌∷◌, ◌++◌, append_assoc, append-nil, arith,
}
use users.Errors.{Result, ok, err, Error, wrap}
use users.Config.{Os, Config, from_env}
use users.Process.{
  Resource, signals, pool, authorization, identity, ziti_management, groups, Event, opened, closed,
  migrated, consumer_started, reconciliation_started, polling_started, listening, served, Calls, P,
  call, with_deferred, serve_end, serve, connect_groups, connect_ziti_management, connect_identity,
  connect, migrate, open_pool, configure, run,
}

-- The resources that are open behind some events, the last one first; `none` where one is closed that
-- was not opened last.
close_last : Resource → List Resource → Option (List Resource)
close_last signals (signals ∷ open_) = some open_
close_last pool (pool ∷ open_) = some open_
close_last authorization (authorization ∷ open_) = some open_
close_last identity (identity ∷ open_) = some open_
close_last ziti_management (ziti_management ∷ open_) = some open_
close_last groups (groups ∷ open_) = some open_
close_last _ _ = none

pub replay : List Event → List Resource → Option (List Resource)
unfolding close_last
replay [] open_ = some open_
replay (opened r ∷ events) open_ = replay events (r ∷ open_)
replay (closed r ∷ events) open_ = elim (close_last r open_) [
  | none ↦ none
  | some open_ ↦ replay events open_
]
replay (_ ∷ events) open_ = replay events open_

close_last-same : (r : Resource) (open_ : List Resource) → close_last r (r ∷ open_) ≡ some open_
unfolding close_last
close_last-same signals open_ = refl
close_last-same pool open_ = refl
close_last-same authorization open_ = refl
close_last-same identity open_ = refl
close_last-same ziti_management open_ = refl
close_last-same groups open_ = refl

-- A part that closes what it opens.
record IsBalanced {A : Type 0} (part : P A) : Type 0 where
  at :
      (rest : List Event) (open_ : List Resource)
      → replay (part.1 ++ rest) open_ ≡ replay rest open_

call-IsBalanced :
    {A B : Type 0} (f : Error → Error) (answer : Result A) (events : List Event) (part : A → P B)
    → ((rest : List Event) (open_ : List Resource)
        → replay (events ++ rest) open_ ≡ replay rest open_)
    → ((a : A) → IsBalanced (part a))
    → IsBalanced (call f answer events part)
unfolding call replay
call-IsBalanced f (err e) events part h k = record { at = λ rest open_. refl }
call-IsBalanced f (ok a) events part h k = record {
  at = λ rest open_.
      ap (λ l. replay l open_) (append_assoc events (part a).1 rest)
      ∙ h ((part a).1 ++ rest) open_
      ∙ (k a).at rest open_;
}

with_deferred-IsBalanced :
    {A B : Type 0} (r : Resource) (f : Error → Error) (answer : Result A) (part : P B)
    → IsBalanced part
    → IsBalanced (with_deferred r f answer part)
unfolding with_deferred replay
with_deferred-IsBalanced r f (err e) part h = record { at = λ rest open_. refl }
with_deferred-IsBalanced r f (ok a) part h = record {
  at = λ rest open_.
      ap (λ l. replay l (r ∷ open_)) (append_assoc part.1 (closed r ∷ []) rest)
      ∙ h.at (closed r ∷ rest) (r ∷ open_)
      ∙ rw (replay, close_last-same r open_) refl;
}

serve-IsBalanced : (calls : Calls) (cfg : Config) → IsBalanced (serve calls cfg)
unfolding serve replay
serve-IsBalanced calls cfg =
    let listened =
      call-IsBalanced (wrap "listen") (calls.listen cfg.grpc_address) (listening ∷ [])
        (λ _. (serve_end calls.serve, served ∷ [])) (λ _ _. refl)
        (λ _. record { at = λ _ _. refl }) in
    record { at = λ rest open_. listened.at rest open_ }

groups-IsBalanced : (calls : Calls) (cfg : Config) → IsBalanced (connect_groups calls cfg)
unfolding connect_groups
groups-IsBalanced calls cfg =
    with_deferred-IsBalanced groups (wrap "connect to groups") (calls.new_client cfg.groups_address)
      (serve calls cfg) (serve-IsBalanced calls cfg)

ziti-IsBalanced : (calls : Calls) (cfg : Config) → IsBalanced (connect_ziti_management calls cfg)
unfolding connect_ziti_management
ziti-IsBalanced calls cfg =
    with_deferred-IsBalanced ziti_management (wrap "connect to ziti management")
      (calls.new_client cfg.ziti_management_address) (connect_groups calls cfg)
      (groups-IsBalanced calls cfg)

identity-IsBalanced : (calls : Calls) (cfg : Config) → IsBalanced (connect_identity calls cfg)
unfolding connect_identity
identity-IsBalanced calls cfg =
    with_deferred-IsBalanced identity (wrap "connect to identity")
      (calls.new_client cfg.identity_address) (connect_ziti_management calls cfg)
      (ziti-IsBalanced calls cfg)

connect-IsBalanced : (calls : Calls) (cfg : Config) → IsBalanced (connect calls cfg)
unfolding connect
connect-IsBalanced calls cfg =
    with_deferred-IsBalanced authorization (wrap "connect to authorization")
      (calls.new_client cfg.authorization_address) (connect_identity calls cfg)
      (identity-IsBalanced calls cfg)

migrate-IsBalanced : (calls : Calls) (cfg : Config) → IsBalanced (migrate calls cfg)
unfolding migrate replay
migrate-IsBalanced calls cfg =
    call-IsBalanced (wrap "apply migrations") calls.apply_migrations (migrated ∷ [])
      (λ _. connect calls cfg) (λ _ _. refl) (λ _. connect-IsBalanced calls cfg)

open_pool-IsBalanced : (calls : Calls) (cfg : Config) → IsBalanced (open_pool calls cfg)
unfolding open_pool
open_pool-IsBalanced calls cfg =
    with_deferred-IsBalanced pool (wrap "create connection pool") calls.new_pool (migrate calls cfg)
      (migrate-IsBalanced calls cfg)

configure-IsBalanced : (calls : Calls) (cfg : Config) → IsBalanced (configure calls cfg)
unfolding configure replay
configure-IsBalanced calls cfg =
    call-IsBalanced (wrap "parse database url") (calls.parse_config cfg.database_url) []
      (λ _. open_pool calls cfg) (λ _ _. refl) (λ _. open_pool-IsBalanced calls cfg)

run-IsBalanced : (os : Os) (calls : Calls) → IsBalanced (run os calls)
unfolding run replay
run-IsBalanced os calls =
    with_deferred-IsBalanced signals (λ e. e) (ok tt)
      (call (λ e. e) (from_env os) [] (configure calls))
      (call-IsBalanced (λ e. e) (from_env os) [] (configure calls) (λ _ _. refl)
        (configure-IsBalanced calls))

-- Whichever call fails, or none, `run` closes all that it has opened, each time the one that was
-- opened last.
pub run-closes : (os : Os) (calls : Calls) → replay (run os calls).1 [] ≡ some []
unfolding replay
run-closes os calls =
    ap (λ l. replay l []) (sym (append-nil (run os calls).1)) ∙ (run-IsBalanced os calls).at [] []

-- The events of a run that ends without an error.
abbrev pub complete : List Event
complete =
    opened signals
    ∷ opened pool
    ∷ migrated
    ∷ opened authorization
    ∷ opened identity
    ∷ opened ziti_management
    ∷ opened groups
    ∷ consumer_started
    ∷ reconciliation_started
    ∷ polling_started
    ∷ listening
    ∷ served
    ∷ closed groups
    ∷ closed ziti_management
    ∷ closed identity
    ∷ closed authorization
    ∷ closed pool
    ∷ closed signals
    ∷ []

-- Where `run` returns nil, it has applied the migrations before it connected to another service, has
-- started the three loops before it listened, has served, and has then closed everything.
pub run-complete :
    (os : Os) (calls : Calls) → (run os calls).0 ≡ ok tt → (run os calls).1 ≡ complete
unfolding run call with_deferred configure open_pool migrate connect connect_identity
    connect_ziti_management connect_groups serve serve_end
run-complete os calls h = ground (arith, h)
