-- ===== src/Examples/ProcessExamples.antt =====
-- The theorems about the configuration, the migrations, the consumer and the process, at concrete
-- inputs.
use users.Prelude.{
  ◌≡◌, ◌≢◌, refl, ◌⊎◌, inl, ◌↔◌, true, false, none, some, List, [], ◌∷◌, ◌++◌, Bytes, codes,
  bytes_eq, bytes_eq_iff, All, if◌then◌else◌,
}
use users.Prelude.Int.{pos}
use users.Prelude.Tables.{sort_with}
use users.Errors.{Result, ok, err, Error, message}
use users.Server.Consumer.{Attempt, attempted, elapsed, cancelled, consuming, start, run}
use users.Server.Consumer.Runs.{IsSound, run-IsSound, run-retried}
use users.Migrate.{Entry, Files, Session, T, Postgres, apply_migrations}
use users.Migrate.Plan.{AllMissingRun}
use users.Migrate.Transaction.{apply_migrations-failed, apply_migrations-applied}
use users.Process.{Calls, finished, run as run_process}
use users.Process.Laws.{replay, complete, run-closes, run-complete}
use users.Config.{Os, Config, from_env}
use users.Config.Laws.{Accepts, ParsesDefaults, texts_of, from_env_iff}

abbrev down : Result (Unit {0})
down = err (message "no route")

abbrev no_broker : Attempt
no_broker = record { connect = down; jet_stream = down; subscribe = down }

abbrev no_stream : Attempt
no_stream = record { connect = ok tt; jet_stream = ok tt; subscribe = down }

abbrev all_up : Attempt
all_up = record { connect = ok tt; jet_stream = ok tt; subscribe = ok tt }

run-IsSound_example :
    IsSound (run (attempted no_stream ∷ elapsed ∷ attempted all_up ∷ cancelled down ∷ []) start)
run-IsSound_example =
    run-IsSound (attempted no_stream ∷ elapsed ∷ attempted all_up ∷ cancelled down ∷ [])

run-retried_example :
    run
      (attempted no_broker ∷ elapsed ∷ attempted no_stream ∷ elapsed ∷ attempted all_up ∷ [])
      start
    ≡ record { phase = consuming; retry_delay = 4; connections = 1 }
run-retried_example = run-retried (no_broker ∷ no_stream ∷ []) all_up (refl, (refl, tt)) refl

-- Only DATABASE_URL is set, and a duration is its number of letters.
abbrev small_os : Os
small_os = record {
  getenv = λ name. if bytes_eq name (codes "DATABASE_URL") then codes "db" else [];
  parse_duration = λ s. ok (pos 3);
}

small_os-ParsesDefaults : ParsesDefaults small_os
small_os-ParsesDefaults = record { minute = (pos 3, refl); half_minute = (pos 3, refl) }

from_env_iff_example :
    ((c : Config) × (from_env small_os ≡ ok c) × All (λ t. t ≢ []) (texts_of c)) ↔ (
      (small_os.getenv (codes "DATABASE_URL") ≢ [])
      × Accepts small_os (codes "GROUP_SYNC_RECONCILIATION_INTERVAL")
      × Accepts small_os (codes "DEVICE_LIVENESS_INTERVAL"))
from_env_iff_example = from_env_iff small_os small_os-ParsesDefaults

-- The tables are the scripts that ran, in their order; an empty script fails.
abbrev run_text : Bytes → List Bytes → Result (List Bytes)
run_text [] tables = err (message "syntax error")
run_text (c ∷ content) tables = ok (tables ++ (c ∷ content) ∷ [])

abbrev finish :
    Session (List Bytes)
    → Result (Unit {0}) × Session (List Bytes)
    → Result (Unit {0}) × Session (List Bytes)
finish before (ok u, later) = (ok u, later)
finish before (err e, later) = (err e, record later { schema = before.schema })

abbrev in_transaction : T (List Bytes) (Unit {0}) → T (List Bytes) (Unit {0})
in_transaction body s = finish s (body s)

finish-committed :
    (s : Session (List Bytes)) (r : Result (Unit {0}) × Session (List Bytes))
    → r.0 ≡ ok tt
    → (((finish s r).0 ≡ ok tt) × ((finish s r).1.schema ≡ r.1.schema))
      ⊎ ((e : Error) × ((finish s r).0 ≡ err e)
          × (((finish s r).1.schema ≡ s.schema) ⊎ ((finish s r).1.schema ≡ r.1.schema)))
finish-committed s (ok u, later) h = inl (refl, refl)
finish-committed s (err e, later) h = cc

finish-rolled_back :
    (s : Session (List Bytes)) (r : Result (Unit {0}) × Session (List Bytes)) (e : Error)
    → r.0 ≡ err e
    → (e' : Error) × ((finish s r).0 ≡ err e') × ((finish s r).1.schema ≡ s.schema)
finish-rolled_back s (ok u, later) e h = cc
finish-rolled_back s (err e', later) e h = (e', refl, refl)

abbrev postgres : Postgres (List Bytes)
postgres = record {
  exec_script = run_text;
  fault = λ clock. none;
  acquire = ok tt;
  begin_func = in_transaction;
  committed = λ body s h. finish-committed s (body s) h;
  rolled_back = λ body s e h. finish-rolled_back s (body s) e h;
}

abbrev two_entries : List Entry
two_entries =
    record { name = codes "b"; is_dir = false } ∷ record { name = codes "a"; is_dir = false } ∷ []

-- Each file holds its name.
abbrev two_files : Files
two_files = record { read_dir = ok two_entries; read_file = λ name. ok name }

-- The second file is empty.
abbrev broken_files : Files
broken_files = record {
  read_dir = ok two_entries;
  read_file = λ name. if bytes_eq name (codes "b") then ok [] else ok name;
}

abbrev new_database : Session (List Bytes)
new_database = record { schema = record { versions = none; tables = [] }; clock = 0 }

abbrev a_recorded : Session (List Bytes)
a_recorded = record {
  schema = record { versions = some (codes "a" ∷ []); tables = codes "a" ∷ [] };
  clock = 0;
}

b_apart_a : codes "b" ≢ codes "a"
unfolding bytes_eq
b_apart_a h = let same : false ≡ true = (bytes_eq_iff (codes "b") (codes "a")).1 h in cc (same)

apply_migrations-failed_example :
    ((apply_migrations postgres broken_files new_database).1.schema ≡ new_database.schema)
    ⊎ AllMissingRun postgres broken_files two_entries new_database.schema
        (apply_migrations postgres broken_files new_database).1.schema
unfolding apply_migrations sort_with
apply_migrations-failed_example =
    apply_migrations-failed postgres broken_files new_database two_entries _ refl
      ((b_apart_a, tt), (tt, tt)) refl

apply_migrations-applied_example :
    AllMissingRun postgres two_files two_entries a_recorded.schema
      (apply_migrations postgres two_files a_recorded).1.schema
unfolding apply_migrations sort_with
apply_migrations-applied_example =
    apply_migrations-applied postgres two_files a_recorded two_entries refl
      ((b_apart_a, tt), (tt, tt)) refl

abbrev working : Calls
working = record {
  parse_config = λ url. ok tt;
  new_pool = ok tt;
  apply_migrations = ok tt;
  new_client = λ address. ok tt;
  listen = λ address. ok tt;
  serve = finished;
}

run-closes_example : replay (run_process small_os working).1 [] ≡ some []
run-closes_example = run-closes small_os working

run-complete_example : (run_process small_os working).1 ≡ complete
unfolding run_process
run-complete_example = run-complete small_os working refl
