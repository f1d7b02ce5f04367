-- ===== src/Server/Allocate.antt =====
-- The loop over username candidates that `ResolveOrCreateUser` and `CreateUser` of
-- internal/server/server.go share.
pub mod Rounds
pub mod Raises
pub mod Ends
use users.Prelude.{ℕ, zero, suc, Bool, true, false, Option, none, some, Bytes, if◌then◌else◌}
use users.Errors.{Result, ok, err, Error, message, status, status_from, internal}
use users.World.{M, pure, raise, attempt, ◌>>=◌}
use users.Username.Candidates.{CandidateIterator, next}
use users.Server.Status.{is_already_exists, to_status_error}

module _ {A : Type 0} where
  -- The answer of the store: `continue`, where the username is taken.
  after_attempt : M A → Result A → M A
  unfolding is_already_exists to_status_error
  after_attempt again (ok a) = pure a
  after_attempt again (err e) =
      if is_already_exists e "username" then again else raise (to_status_error e)

  after_next : M A → (Bytes → M A) → Result (Option Bytes) → M A
  unfolding after_attempt
  after_next again create (err e) = raise (status_from internal "derive username" e)
  after_next again create (ok none) = raise (status internal "allocate username")
  after_next again create (ok (some candidate)) = do
    created ← attempt (create candidate)
    after_attempt again created

  -- `for { candidate, ok, err := iterator.Next() … }`
  pub allocate : ℕ → (Bytes → M A) → CandidateIterator → M A
  unfolding after_next next
  allocate zero create iter = raise (message "out of fuel")
  allocate (suc fuel) create iter =
      after_next (allocate fuel create (next iter).0) create (next iter).1

-- The iterator offers 104 candidates, so its 105th answer ends the loop.
abbrev pub allocate_rounds : ℕ
allocate_rounds = 105
