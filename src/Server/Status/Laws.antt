-- ===== src/Server/Status/Laws.antt =====
-- How an action runs behind a call whose error is changed on the way out.
use users.Prelude.{◌≡◌, refl, true, arith}
use users.Errors.{Result, ok, err, Error, is_status}
use users.World.{World, M, then_, ◌>>=◌, attempt, lift}
use users.Server.Status.{or_error, or_fail, to_status_error, status_of, other_error}

module _ {A B : Type 0} (f : Error → Error) (m : M A) (rest : A → M B) (w w' : World) where
  pub or_fail-of_ok : {a : A} → m w ≡ (ok a, w') → (or_fail f m >>= rest) w ≡ rest a w'
  unfolding ◌>>=◌ then_ attempt or_fail lift or_error
  or_fail-of_ok h = rw h refl

  pub or_fail-of_err : {e : Error} → m w ≡ (err e, w') → (or_fail f m >>= rest) w ≡ (err (f e), w')
  unfolding ◌>>=◌ then_ attempt or_fail lift or_error
  or_fail-of_err h = rw h refl

module _ {A B : Type 0} (f : Error → Error) (m : M A) (rest : A → M B) (w : World) where
  -- Where the whole succeeds, the call did, and the rest ran behind it.
  pub or_fail-ok :
      {b : B}
      → ((or_fail f m >>= rest) w).0 ≡ ok b
      → (a : A) × ((m w).0 ≡ ok a) × ((or_fail f m >>= rest) w ≡ rest a (m w).1)
  unfolding ◌>>=◌ then_ attempt or_fail lift or_error
  or_fail-ok {b} h = go (m w).0 h
    where
      go :
          (r : Result A)
          → (then_ (or_error f r) rest (m w).1).0 ≡ ok b
          → (a : A) × (r ≡ ok a) × (then_ (or_error f r) rest (m w).1 ≡ rest a (m w).1)
      go (ok a) g = (a, refl, refl)
      go (err e) g = absurd (cc)

-- Where the changed result is a value, so is the result.
pub or_error-ok :
    {A : Type 0} (f : Error → Error) (r : Result A) {a : A} → or_error f r ≡ ok a → r ≡ ok a
unfolding or_error
or_error-ok f (ok b) h = h
or_error-ok f (err e) h = cc

pub to_status_error-is_status : (e : Error) → is_status (to_status_error e) ≡ true
unfolding to_status_error status_of other_error
to_status_error-is_status e = ground (arith)
