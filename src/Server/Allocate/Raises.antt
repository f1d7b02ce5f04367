-- ===== src/Server/Allocate/Raises.antt =====
-- The errors of the loop over username candidates.
use users.Prelude.{ℕ, zero, suc, ◌<◌, ◌≡◌, refl, Option, none, some, Bytes, arith}
use users.Errors.{Result, ok, err}
use users.World.{M, attempt}
use users.Username.Candidates.{CandidateIterator, Entropy, new_candidate_iterator, next}
use users.Username.Candidates.Count.{remaining, next-remaining}
use users.Server.Allocate.{allocate, after_next, after_attempt, allocate_rounds}
use users.Server.Raises.{Raises, raises_rules, Raises-bind, Raises-attempt}

module _ {A : Type 0} (create : Bytes → M A) where
  after : (again : M A) → Raises again → (r : Result A) → Raises (after_attempt again r)
  unfolding after_attempt
  after again h (ok a) = search raises_rules
  after again h (err e) = search (raises_rules, h)

  Raises-after_next :
      (again : M A) (r : Result (Option Bytes))
      → ((c : Bytes) → r ≡ ok (some c) → Raises again)
      → Raises (after_next again create r)
  unfolding after_next after_attempt
  Raises-after_next again (err e) h = search raises_rules
  Raises-after_next again (ok none) h = search raises_rules
  Raises-after_next again (ok (some c)) h =
      Raises-bind (attempt (create c)) (after_attempt again) (Raises-attempt (create c))
        (after again (h c refl))

  Raises-allocate_from :
      (fuel : ℕ) (iter : CandidateIterator)
      → remaining iter < fuel
      → Raises (allocate fuel create iter)
  unfolding allocate
  Raises-allocate_from zero iter h = absurd (omega arith)
  Raises-allocate_from (suc fuel) iter h =
      Raises-after_next (allocate fuel create (next iter).0) (next iter).1
        (λ c e. Raises-allocate_from fuel (next iter).0 (omega (arith, next-remaining iter c e)))

  -- The loop over the candidates never ends for want of fuel.
  pub Raises-allocate :
      (entropy : Entropy) (base : Bytes)
      → Raises (allocate allocate_rounds create (new_candidate_iterator entropy base))
  Raises-allocate entropy base =
      Raises-allocate_from allocate_rounds (new_candidate_iterator entropy base)
        (unfold new_candidate_iterator in omega arith)
