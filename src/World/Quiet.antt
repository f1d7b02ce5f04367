-- ===== src/World/Quiet.antt =====
-- An environment in which no statement fails and nobody else writes.
use users.Prelude.{ℕ, ◌+◌, ◌≡◌, refl, none}
use users.Errors.{Result}
use users.Store.Types.{UserId, Time, Database}
use users.World.{Environment, World, statement, run_statement}

pub record IsQuiet (env : Environment) : Type 0 where
  pub no_fault : (clock : ℕ) → env.fault clock ≡ none
  pub alone : (clock : ℕ) (db : Database) → env.before clock db ≡ db

-- There a statement is what it does to the tables.
pub statement-IsQuiet :
    {A : Type 0} (env : Environment)
    → IsQuiet env
    → (run : UserId → Time → Database → Result A × Database) (w : World)
    → statement env run w ≡ (
      (run (env.fresh_uuid w.clock) (env.now w.clock) w.db).0,
      record w {
        db = (run (env.fresh_uuid w.clock) (env.now w.clock) w.db).1;
        clock = w.clock + 1;
      },
    )
unfolding statement run_statement
statement-IsQuiet env quiet run w = rw (quiet.no_fault w.clock, quiet.alone w.clock w.db) refl
