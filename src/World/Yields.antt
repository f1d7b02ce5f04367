-- ===== src/World/Yields.antt =====
-- What holds of every value that an action returns, by how the action is built.
use users.Prelude.{ℕ, ◌≡◌, refl, sym, Bool, true, false, if◌then◌else◌}
use users.Errors.{Result, ok, err, Error, ok-injective}
use users.World.{Environment, World, M, pure, raise, then_, ◌>>=◌, ◌>>◌, current_time}

-- Where the action succeeds, its value satisfies `Q`.
pub record Yields {A : Type 0} (Q : A → Type 0) (m : M A) : Type 0 where
  pub value : (w : World) (a : A) → (m w).0 ≡ ok a → Q a

module _ {A : Type 0} (Q : A → Type 0) where
  pub Yields-raise : (e : Error) → Yields Q (raise e)
  unfolding raise
  Yields-raise e = record { value = λ w a h. absurd (cc) }

  pub Yields-pure : (a : A) → Q a → Yields Q (pure a)
  unfolding pure
  Yields-pure a q = record { value = λ w b h. rw (← ok-injective h) q }

  pub Yields-if :
      (test : Bool) (m n : M A)
      → (test ≡ true → Yields Q m)
      → (test ≡ false → Yields Q n)
      → Yields Q (if test then m else n)
  Yields-if true m n km kn = km refl
  Yields-if false m n km kn = kn refl

module _ {A B : Type 0} (P : A → Type 0) (Q : B → Type 0) where
  pub Yields-bind :
      (m : M A) (f : A → M B) → Yields P m → ((a : A) → P a → Yields Q (f a)) → Yields Q (m >>= f)
  unfolding ◌>>=◌
  Yields-bind m f km kf = record { value = λ w b h. go (m w).0 (m w).1 (km.value w) b h }
    where
      go :
          (r : Result A) (w : World)
          → ((a : A) → r ≡ ok a → P a)
          → (b : B) → (then_ r f w).0 ≡ ok b
          → Q b
      go (ok a) w p b h = (kf a (p a refl)).value w b h
      go (err e) w p b h = absurd (cc)

module _ {A B : Type 0} (Q : B → Type 0) where
  -- Whatever the first action returns.
  pub Yields-last : (m : M A) (f : A → M B) → ((a : A) → Yields Q (f a)) → Yields Q (m >>= f)
  Yields-last m f kf =
      Yields-bind (λ _. Unit {0}) Q m f (record { value = λ w a h. tt }) (λ a _. kf a)

pub Yields-then :
    {B : Type 0} (Q : B → Type 0) (m : M (Unit {0})) (k : M B) → Yields Q k → Yields Q (m >> k)
unfolding ◌>>◌
Yields-then Q m k kk = Yields-last Q m (λ _. k) (λ _. kk)

-- A moment at which time.Now() is asked.
pub Yields-current_time :
    (env : Environment) → Yields (λ t. (clock : ℕ) × (t ≡ env.now clock)) (current_time env)
unfolding current_time
Yields-current_time env = record { value = λ w t h. (w.clock, sym (ok-injective h)) }
