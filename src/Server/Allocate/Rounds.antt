-- ===== src/Server/Allocate/Rounds.antt =====
-- The loop over the candidates ends within its fuel.

use users.Prelude.{ℕ, zero, suc, ◌+◌, ◌<◌, ◌≡◌, refl, ap, Option, none, some, Bytes, arith}
use users.Errors.{Result, ok, err}
use users.World.{M}
use users.Username.Candidates.{CandidateIterator, Entropy, new_candidate_iterator, next}
use users.Username.Candidates.Count.{remaining, next-remaining}
use users.Server.Allocate.{allocate, after_next, allocate_rounds}

module _ {A : Type 0} (create : Bytes → M A) where
  same_next :
      (again again' : M A) (r : Result (Option Bytes))
      → ((c : Bytes) → r ≡ ok (some c) → again ≡ again')
      → after_next again create r ≡ after_next again' create r
  unfolding after_next
  same_next again again' (err e) h = refl
  same_next again again' (ok none) h = refl
  same_next again again' (ok (some c)) h = ap (λ k. after_next k create (ok (some c))) (h c refl)

  more_fuel :
      (fuel extra : ℕ) (iter : CandidateIterator)
      → remaining iter < fuel
      → allocate fuel create iter ≡ allocate (fuel + extra) create iter
  unfolding allocate
  more_fuel zero extra iter h = absurd (omega arith)
  more_fuel (suc fuel) extra iter h =
      let e : suc fuel + extra ≡ suc (fuel + extra) = omega arith in
      rw e (
        same_next (allocate fuel create (next iter).0)
          (allocate (fuel + extra) create (next iter).0) (next iter).1
          (λ c e. more_fuel fuel extra (next iter).0 (omega (arith, next-remaining iter c e))))

  -- The loop over the candidates of a base ends within 105 rounds: with more fuel the action is the
  -- same, whatever the base, the random source and the store answer.
  pub allocate_rounds-enough :
      (extra : ℕ) (entropy : Entropy) (base : Bytes)
      → allocate allocate_rounds create (new_candidate_iterator entropy base)
        ≡ allocate (allocate_rounds + extra) create (new_candidate_iterator entropy base)
  allocate_rounds-enough extra entropy base =
      more_fuel allocate_rounds extra (new_candidate_iterator entropy base)
        (unfold new_candidate_iterator in omega arith)
