-- ===== src/World/Ends.antt =====
-- What holds of the tables behind an action, by how it ends: rules in the manner of Hoare, one for
-- each way to build an action.
use users.Prelude.{◌≡◌}
use users.Errors.{Result, ok, err, Error}
use users.Store.Types.{UserId, Time, Database}
use users.World.{Environment, World, M, pure, raise, lift, attempt, statement, then_, ◌>>=◌, ◌>>◌}
use users.World.Keeps.{Keeps}
use users.World.Quiet.{IsQuiet, statement-IsQuiet}

-- One predicate for a success, and one for a failure.
abbrev pub After :
    {A : Type 0} → (A → Database → Type 0) → (Database → Type 0) → Result A → Database → Type 0
After done failed (ok a) db = done a db
After done failed (err e) db = failed db

-- Where the tables satisfy `before`, they satisfy `done` behind a success, `failed` behind a failure.
pub record Ends {A : Type 0} (before : Database → Type 0) (done : A → Database → Type 0)
    (failed : Database → Type 0) (m : M A) : Type 0 where
  pub at : (w : World) → before w.db → After done failed (m w).0 (m w).1.db

module _ {A : Type 0} {before : Database → Type 0} {done : A → Database → Type 0}
    {failed : Database → Type 0} where
  pub Ends-pure :
      (a : A) → ((db : Database) → before db → done a db) → Ends before done failed (pure a)
  unfolding pure
  Ends-pure a k = record { at = λ w h. k w.db h }

  pub Ends-raise :
      (e : Error) → ((db : Database) → before db → failed db) → Ends before done failed (raise e)
  unfolding raise
  Ends-raise e k = record { at = λ w h. k w.db h }

  pub Ends-lift :
      (r : Result A)
      → ((db : Database) → before db → After done failed r db)
      → Ends before done failed (lift r)
  unfolding lift
  Ends-lift r k = record { at = λ w h. k w.db h }

  -- The failure becomes a value.
  pub Ends-attempt :
      {failed' : Database → Type 0} (m : M A)
      → Ends before done failed m
      → Ends before (After done failed) failed' (attempt m)
  unfolding attempt
  Ends-attempt m k = record { at = λ w h. k.at w h }

  pub Ends-statement :
      (env : Environment)
      → IsQuiet env
      → (run : UserId → Time → Database → Result A × Database)
      → ((id : UserId) (now : Time) (db : Database)
          → before db
          → After done failed (run id now db).0 (run id now db).1)
      → Ends before done failed (statement env run)
  Ends-statement env quiet run k = record {
    at = λ w h.
        rw (statement-IsQuiet env quiet run w)
          (k (env.fresh_uuid w.clock) (env.now w.clock) w.db h);
  }

-- What an action leaves alone holds behind it.
pub Ends-Keeps :
    {A : Type 0} {before : Database → Type 0} (m : M A)
    → Keeps before m
    → Ends before (λ _. before) before m
Ends-Keeps {A} {before} m k = record { at = λ w h. go (m w).0 (m w).1.db (k.at w h) }
  where
    go : (r : Result A) (db : Database) → before db → After (λ _. before) before r db
    go (ok a) db h = h
    go (err e) db h = h

module _ {A B : Type 0} {before : Database → Type 0} {middle : A → Database → Type 0}
    {done : B → Database → Type 0} {failed : Database → Type 0} where
  pub Ends-bind :
      (m : M A) (f : A → M B)
      → Ends before middle failed m
      → ((a : A) → Ends (middle a) done failed (f a))
      → Ends before done failed (m >>= f)
  unfolding ◌>>=◌
  Ends-bind m f km kf = record { at = λ w h. go (m w).0 (m w).1 (km.at w h) }
    where
      go :
          (r : Result A) (w : World)
          → After middle failed r w.db
          → After done failed (then_ r f w).0 (then_ r f w).1.db
      go (ok a) w h = (kf a).at w h
      go (err e) w h = h

module _ {B : Type 0} {before middle : Database → Type 0} {done : B → Database → Type 0}
    {failed : Database → Type 0} where
  pub Ends-then :
      (m : M (Unit {0})) (k : M B)
      → Ends before (λ _. middle) failed m
      → Ends middle done failed k
      → Ends before done failed (m >> k)
  unfolding ◌>>◌
  Ends-then m k km kk = Ends-bind m (λ _. k) km (λ _. kk)

-- A failure leaves what `failed` says.
pub Ends-failed :
    {A : Type 0} {before : Database → Type 0} {done : A → Database → Type 0}
    {failed : Database → Type 0} {m : M A}
    → Ends before done failed m
    → (w : World) → before w.db
    → (e : Error) → (m w).0 ≡ err e
    → failed (m w).1.db
Ends-failed {done} {failed} {m} k w h e same = rw same at (k.at w h)
