-- ===== src/World/Keeps.antt =====
-- Invariants of actions, one rule for each way to build an action.
use users.Prelude.{ℕ, ◌≡◌, refl, Bool, true, false, Option, none, some, if◌then◌else◌}
use users.Errors.{Result, ok, err, Error}
use users.Store.Types.{UserId, Time, Database}
use users.World.{
  Environment, World, M, Call, pure, raise, lift, attempt, statement, run_statement, invoke, then_,
  ◌>>=◌, ◌>>◌, current_time,
}

-- Whatever the action returns, it keeps what holds of the database.
pub record Keeps {A : Type 0} (P : Database → Type 0) (m : M A) : Type 0 where
  pub at : (w : World) → P w.db → P (m w).1.db

-- What other sessions do keeps it too.
abbrev pub Stable : Environment → (Database → Type 0) → Type 0
Stable env P = (clock : ℕ) (db : Database) → P db → P (env.before clock db)

module _ {A : Type 0} {P : Database → Type 0} where
  pub Keeps-invoke : (c : Call) (answer : ℕ → Result A) → Keeps P (invoke c answer)
  unfolding invoke
  Keeps-invoke c answer = record { at = λ world kept. kept }

  pub Keeps-lift : (r : Result A) → Keeps P (lift r)
  unfolding lift
  Keeps-lift r = record { at = λ world kept. kept }

  pub Keeps-attempt : (m : M A) → Keeps P m → Keeps P (attempt m)
  unfolding attempt
  Keeps-attempt m k = record { at = λ w h. k.at w h }

  pub Keeps-raise : (e : Error) → Keeps P (raise {A = A} e)
  unfolding raise
  Keeps-raise e = record { at = λ world kept. kept }

  pub Keeps-pure : (a : A) → Keeps P (pure a)
  unfolding pure
  Keeps-pure a = record { at = λ world kept. kept }

  -- Both branches keep it, each where the test goes its way.
  pub Keeps-if :
      (test : Bool) (one other : M A)
      → (test ≡ true → Keeps P one)
      → (test ≡ false → Keeps P other)
      → Keeps P (if test then one else other)
  Keeps-if false one other on_one on_other = on_other refl
  Keeps-if true one other on_one on_other = on_one refl

  pub Keeps-statement :
      (env : Environment) (run : UserId → Time → Database → Result A × Database)
      → Stable env P
      → ((id : UserId) (now : Time) (db : Database) → P db → P (run id now db).1)
      → Keeps P (statement env run)
  unfolding statement
  Keeps-statement env run stable step = record {
    at = λ w h.
        go (env.fresh_uuid w.clock) (env.now w.clock) (env.fault w.clock)
          (record w { db = env.before w.clock w.db }) (stable w.clock w.db h);
  }
    where
      go :
          (id : UserId) (now : Time) (f : Option Error) (w : World)
          → P w.db
          → P (run_statement f (run id now) w).1.db
      go id now (some e) w h = h
      go id now none w h = step id now w.db h

module _ {A B : Type 0} {P : Database → Type 0} where
  pub Keeps-bind :
      (m : M A) (f : A → M B) → Keeps P m → ((a : A) → Keeps P (f a)) → Keeps P (m >>= f)
  unfolding ◌>>=◌
  Keeps-bind m f km kf = record { at = λ w h. go (m w).0 (m w).1 (km.at w h) }
    where
      go : (r : Result A) (w : World) → P w.db → P (then_ r f w).1.db
      go (ok a) w h = (kf a).at w h
      go (err e) w h = h

module _ {B : Type 0} {P : Database → Type 0} where
  pub Keeps-then : (m : M (Unit {0})) (k : M B) → Keeps P m → Keeps P k → Keeps P (m >> k)
  unfolding ◌>>◌
  Keeps-then m k km kk = Keeps-bind m (λ _. k) km (λ _. kk)

pub Keeps-current_time : {P : Database → Type 0} (env : Environment) → Keeps P (current_time env)
unfolding current_time
Keeps-current_time env = record { at = λ world kept. kept }

pub ruleset keeps_rules = (
  Keeps-pure, Keeps-raise, Keeps-lift, Keeps-attempt, Keeps-invoke, Keeps-if, Keeps-bind,
  Keeps-then, Keeps-current_time,
)
