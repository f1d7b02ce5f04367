-- ===== src/Server/Raises.antt =====
-- Which errors an action can return: rules for actions whose errors are all gRPC statuses.
pub mod Handlers
use users.Prelude.{ℕ, ◌≡◌, refl, Bool, true, false, Option, none, some, if◌then◌else◌}
use Prim.Native.String.{String}
use users.Errors.{
  Result, ok, err, Error, Code, status, status_from, not_found, already_exists, internal,
  as_not_found, as_already_exists, is_status, err-is_status,
}
use users.World.{
  Environment, World, M, pure, raise, lift, attempt, then_, ◌>>=◌, ◌>>◌, current_time,
}
use users.Server.Status.{or_error, or_fail, to_status_error}
use users.Server.Status.Laws.{to_status_error-is_status}
use users.Server.Users.{require, reject}

pub record Raises {A : Type 0} (m : M A) : Type 0 where
  pub error : (w : World) (e : Error) → (m w).0 ≡ err e → is_status e ≡ true

module _ {A : Type 0} where
  pub Raises-pure : (a : A) → Raises (pure a)
  unfolding pure
  Raises-pure a = record { error = λ w e h. absurd (cc) }

  pub Raises-raise : (c : Code) (s : String) → Raises (raise {A = A} (status c s))
  unfolding raise
  Raises-raise c s = record { error = λ w e h. err-is_status (status c s) e h refl }

  pub Raises-raise_from :
      (c : Code) (s : String) (e : Error) → Raises (raise {A = A} (status_from c s e))
  unfolding raise
  Raises-raise_from c s e = record { error = λ w d h. err-is_status (status_from c s e) d h refl }

  pub Raises-raise_store : (e : Error) → Raises (raise {A = A} (to_status_error e))
  unfolding raise
  Raises-raise_store e = record {
    error = λ w d h. err-is_status (to_status_error e) d h (to_status_error-is_status e);
  }

  pub Raises-attempt : (m : M A) → Raises (attempt m)
  unfolding attempt
  Raises-attempt m = record { error = λ w e h. absurd (cc) }

  pub Raises-if :
      (test : Bool) (m n : M A)
      → (test ≡ true → Raises m)
      → (test ≡ false → Raises n)
      → Raises (if test then m else n)
  Raises-if true m n km kn = km refl
  Raises-if false m n km kn = kn refl

  pub Raises-lift :
      (r : Result A) → ((e : Error) → r ≡ err e → is_status e ≡ true) → Raises (lift r)
  unfolding lift
  Raises-lift r h = record { error = λ w e same. h e same }

  pub Raises-lift_from :
      (c : Code) (s : String) (r : Result A) → Raises (lift (or_error (status_from c s) r))
  unfolding lift or_error
  Raises-lift_from c s (ok a) = record { error = λ w e h. absurd (cc) }
  Raises-lift_from c s (err d) = record {
    error = λ w e h. err-is_status (status_from c s d) e h refl;
  }

  -- A call whose error is made a status.
  Raises-or_fail :
      (f : Error → Error) (m : M A) → ((e : Error) → is_status (f e) ≡ true) → Raises (or_fail f m)
  unfolding or_fail attempt lift or_error ◌>>=◌ then_
  Raises-or_fail f m k = record { error = λ w e h. go (m w).0 (m w).1 e h }
    where
      go :
          (r : Result A) (w : World) (e : Error)
          → (lift (or_error f r) w).0 ≡ err e
          → is_status e ≡ true
      go (ok a) w e h = absurd (cc)
      go (err d) w e h = err-is_status (f d) e h (k d)

  pub Raises-or_fail_from : (c : Code) (s : String) (m : M A) → Raises (or_fail (status_from c s) m)
  Raises-or_fail_from c s m = Raises-or_fail (status_from c s) m (λ e. refl)

  pub Raises-or_fail_store : (m : M A) → Raises (or_fail to_status_error m)
  Raises-or_fail_store m = Raises-or_fail to_status_error m to_status_error-is_status

pub Raises-require : (b : Bool) (c : Code) (s : String) → Raises (require b (status c s))
unfolding require
Raises-require true c s = Raises-pure tt
Raises-require false c s = Raises-raise c s

pub Raises-reject : (o : Option Error) (c : Code) (s : String) → Raises (reject o (status_from c s))
unfolding reject
Raises-reject none c s = Raises-pure tt
Raises-reject (some e) c s = Raises-raise_from c s e

pub Raises-current_time : (env : Environment) → Raises (current_time env)
unfolding current_time
Raises-current_time env = record { error = λ w e h. absurd (cc) }

module _ {A B : Type 0} where
  pub Raises-bind : (m : M A) (f : A → M B) → Raises m → ((a : A) → Raises (f a)) → Raises (m >>= f)
  unfolding ◌>>=◌
  Raises-bind m f km kf = record { error = λ w e h. go (m w).0 (m w).1 (km.error w) e h }
    where
      go :
          (r : Result A) (w : World)
          → ((e : Error) → r ≡ err e → is_status e ≡ true)
          → (e : Error) → (then_ r f w).0 ≡ err e
          → is_status e ≡ true
      go (ok a) w k e h = (kf a).error w e h
      go (err d) w k e h = err-is_status d e h (k d refl)

pub Raises-then : {B : Type 0} (m : M (Unit {0})) (k : M B) → Raises m → Raises k → Raises (m >> k)
unfolding ◌>>◌
Raises-then m k km kk = Raises-bind m (λ _. k) km (λ _. kk)

pub ruleset raises_rules = (
  Raises-pure, Raises-raise, Raises-raise_from, Raises-raise_store, Raises-attempt, Raises-if,
  Raises-lift_from, Raises-or_fail_from, Raises-or_fail_store, Raises-require, Raises-reject,
  Raises-current_time, Raises-bind, Raises-then,
)
