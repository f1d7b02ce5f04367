-- ===== src/World/Runs.antt =====
-- How a sequence of actions runs.
use users.Prelude.{◌≡◌, refl}
use users.Errors.{Result, ok, err}
use users.World.{World, M, then_, ◌>>=◌, attempt}

module _ {A B : Type 0} where
  -- Where a sequence succeeds, its first action did, and the rest ran behind it.
  pub bind-ok :
      (m : M A) (f : A → M B) (w : World) {b : B}
      → ((m >>= f) w).0 ≡ ok b
      → (a : A) × ((m w).0 ≡ ok a) × ((m >>= f) w ≡ f a (m w).1)
  unfolding ◌>>=◌
  bind-ok m f w {b} h = go (m w).0 (m w).1 h
    where
      go :
          (r : Result A) (w' : World)
          → (then_ r f w').0 ≡ ok b
          → (a : A) × (r ≡ ok a) × (then_ r f w' ≡ f a w')
      go (ok a) w' h = (a, refl, refl)
      go (err e) w' h = absurd (cc)

  pub bind-of_ok :
      (m : M A) (f : A → M B) (w w' : World) {a : A} → m w ≡ (ok a, w') → (m >>= f) w ≡ f a w'
  unfolding ◌>>=◌ then_
  bind-of_ok m f w w' h = rw h refl

  pub bind-of_attempt :
      (m : M A) (f : Result A → M B) (w w' : World) {r : Result A}
      → m w ≡ (r, w')
      → (attempt m >>= f) w ≡ f r w'
  unfolding ◌>>=◌ then_ attempt
  bind-of_attempt m f w w' h = rw h refl
