-- ===== src/Server/Status/Ends.antt =====
-- An error that is changed on the way out leaves the tables alone.
use users.Errors.{Result, ok, err, Error}
use users.World.{M, attempt, lift}
use users.World.Ends.{Ends, After, Ends-lift, Ends-attempt, Ends-bind}
use users.Store.Types.{Database}
use users.Server.Status.{or_error, or_fail}

pub Ends-or_fail :
    {A : Type 0} {before : Database → Type 0} {done : A → Database → Type 0}
    {failed : Database → Type 0} (f : Error → Error) (m : M A)
    → Ends before done failed m
    → Ends before done failed (or_fail f m)
unfolding or_fail
Ends-or_fail {A} {before} {done} {failed} f m k =
    Ends-bind (attempt m) (λ r. lift (or_error f r)) (Ends-attempt {failed' = failed} m k) lifted
  where
    lifted : (r : Result A) → Ends (After done failed r) done failed (lift (or_error f r))
    lifted (ok a) = Ends-lift (ok a) (λ db h. h)
    lifted (err e) = Ends-lift (err (f e)) (λ db h. h)
