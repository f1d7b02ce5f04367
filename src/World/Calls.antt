-- ===== src/World/Calls.antt =====
-- Actions that call no other service.
use users.Prelude.{◌≡◌, refl, Option, none, some}
use users.Errors.{Result, ok, err, Error}
use users.Store.Types.{UserId, Time, Database}
use users.World.{Environment, World, M, lift, statement, run_statement, then_, ◌>>=◌}

pub statement-calls :
    {A : Type 0} (env : Environment) (run : UserId → Time → Database → Result A × Database)
    (w : World)
    → (statement env run w).1.calls ≡ w.calls
unfolding statement
statement-calls {A} env run w =
    go (run (env.fresh_uuid w.clock) (env.now w.clock)) (env.fault w.clock)
      (record w { db = env.before w.clock w.db })
  where
    go :
        (run : Database → Result A × Database) (f : Option Error) (w : World)
        → (run_statement f run w).1.calls ≡ w.calls
    go run (some e) w = refl
    go run none w = refl

pub lift-calls :
    {A B : Type 0} (m : M A) (f : A → Result B) (w : World)
    → ((m >>= λ a. lift (f a)) w).1.calls ≡ (m w).1.calls
unfolding ◌>>=◌ lift
lift-calls {A} {B} m f w = go (m w).0 (m w).1
  where
    go : (r : Result A) (w : World) → (then_ {B = B} r (λ a. lift (f a)) w).1.calls ≡ w.calls
    go (ok a) w = refl
    go (err e) w = refl
