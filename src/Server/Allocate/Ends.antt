-- ===== src/Server/Allocate/Ends.antt =====
-- What the loop over username candidates leaves behind, by what each attempt leaves.
use users.Prelude.{ℕ, zero, suc, Option, none, some, Bytes, Bool-cases, inl, inr}
use users.Errors.{Result, ok, err, status, status_from, internal, message}
use users.World.{M, attempt}
use users.World.Ends.{Ends, After, Ends-pure, Ends-raise, Ends-attempt, Ends-bind}
use users.Store.Types.{Database}
use users.Username.Candidates.{CandidateIterator, next}
use users.Server.Status.{is_already_exists, to_status_error}
use users.Server.Allocate.{allocate, after_next, after_attempt}

module _ {A : Type 0} {before : Database → Type 0} {done : A → Database → Type 0} where
  after_attempt-Ends :
      (again : M A) (r : Result A)
      → Ends before done before again
      → Ends (After done before r) done before (after_attempt again r)
  unfolding after_attempt
  after_attempt-Ends again (ok a) h = Ends-pure a (λ db k. k)
  after_attempt-Ends again (err e) h = elim (Bool-cases (is_already_exists e "username")) [
    | inl f ↦ rw (after_attempt, f) h
    | inr f ↦ rw (after_attempt, f) (Ends-raise (to_status_error e) (λ db k. k))
  ]

  module _ (create : Bytes → M A) (each : (c : Bytes) → Ends before done before (create c)) where
    after_next-Ends :
        (again : M A) (r : Result (Option Bytes))
        → Ends before done before again
        → Ends before done before (after_next again create r)
    unfolding after_next
    after_next-Ends again (err e) h =
        Ends-raise (status_from internal "derive username" e) (λ db k. k)
    after_next-Ends again (ok none) h = Ends-raise (status internal "allocate username") (λ db k. k)
    after_next-Ends again (ok (some c)) h =
        Ends-bind (attempt (create c)) (after_attempt again)
          (Ends-attempt {failed' = before} (create c) (each c)) (λ r. after_attempt-Ends again r h)

    -- Where an attempt that fails keeps what held before it, so does the loop.
    pub allocate-Ends :
        (fuel : ℕ) (iter : CandidateIterator) → Ends before done before (allocate fuel create iter)
    unfolding allocate
    allocate-Ends zero iter = Ends-raise (message "out of fuel") (λ db k. k)
    allocate-Ends (suc fuel) iter =
        after_next-Ends (allocate fuel create (next iter).0) (next iter).1
          (allocate-Ends fuel (next iter).0)
