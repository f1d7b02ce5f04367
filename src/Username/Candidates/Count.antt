-- ===== src/Username/Candidates/Count.antt =====
-- How many candidates the iterator offers before it ends.
use mathlib.Core.Path.{subst}
use users.Prelude.{
  ℕ, zero, suc, ◌+◌, ◌-◌, ◌<◌, ◌≡◌, ◌≢◌, refl, true, false, Option, none, some, List, [], ◌∷◌,
  Bytes, length, All, ltb, ◌==◌, arith, Bool-cases, inl, inr, ap,
}
use users.Errors.{Result, ok, err, Error}
use users.Username.Rule.{IsUsername}
use users.Username.Candidates.{
  Entropy, CandidateIterator, new_candidate_iterator, next, after_random,
  username_random_suffix_len, username_numeric_suffix_max, username_random_suffix_tries,
}
use users.Username.Candidates.Valid.{
  IsSound, next-IsSound, next-IsUsername, new_candidate_iterator-IsSound, random_suffix-next,
}

-- The calls of `next` that still return a candidate.
abbrev pub remaining : CandidateIterator → ℕ
remaining iter =
    (username_numeric_suffix_max - iter.next_index)
    + (username_random_suffix_tries - iter.random_generated)

abbrev Counts : CandidateIterator → CandidateIterator × Result (Option Bytes) → Type 0
Counts iter (iter', ok (some c)) = remaining iter' + 1 ≡ remaining iter
Counts iter (iter', ok none) = remaining iter ≡ 0
Counts iter (iter', err e) = 0 < remaining iter

after_random-Counts :
    (iter : CandidateIterator) (r : Result Bytes)
    → (iter.next_index == 0) ≡ false
    → ltb iter.next_index username_numeric_suffix_max ≡ false
    → ltb iter.random_generated username_random_suffix_tries ≡ true
    → Counts iter (after_random iter r)
unfolding after_random
after_random-Counts iter (err e) p q s = ground arith
after_random-Counts iter (ok suffix) p q s = ground arith

next-Counts : (iter : CandidateIterator) → Counts iter (next iter)
unfolding next
next-Counts iter = elim (Bool-cases (iter.next_index == 0)) [
  | inl p ↦ rw p (ground arith)
  | inr p ↦ rw p (elim (Bool-cases (ltb iter.next_index username_numeric_suffix_max)) [
    | inl q ↦ rw q (ground arith)
    | inr q ↦ rw q (elim (Bool-cases (ltb iter.random_generated username_random_suffix_tries)) [
      | inl r ↦ rw r (after_random-Counts iter _ p q r)
      | inr r ↦ rw r (ground arith)
    ])
  ])
]

count_of :
    (iter : CandidateIterator) (r : Result (Option Bytes))
    → (next iter).1 ≡ r
    → Counts iter ((next iter).0, r)
count_of iter r e = subst (λ s. Counts iter ((next iter).0, s)) e (next-Counts iter)

-- The iterator offers these candidates, in this order, and then reports the end.
pub data Offers : CandidateIterator → List Bytes → Type 0 where
  end : (iter : CandidateIterator) → (next iter).1 ≡ ok none → Offers iter []
  offer :
      (iter : CandidateIterator) (c : Bytes) (cs : List Bytes)
      → (next iter).1 ≡ ok (some c)
      → Offers (next iter).0 cs
      → Offers iter (c ∷ cs)

-- Every request for random letters is answered.
abbrev pub AlwaysDraws : CandidateIterator → Type 0
AlwaysDraws iter =
    (call : ℕ) → (s : Bytes) × (iter.random_suffix call username_random_suffix_len ≡ ok s)

never_fails : (iter : CandidateIterator) → AlwaysDraws iter → (e : Error) → (next iter).1 ≢ err e
unfolding next after_random
never_fails iter d e h = let (s, p) = d iter.random_generated in ground (arith, p)

abbrev Outcome : CandidateIterator → ℕ → Type 0
Outcome iter n = (cs : List Bytes) × Offers iter cs × (length cs ≡ n) × All IsUsername cs

-- One call, with what the later calls offer.
offers_step :
    (n : ℕ) (iter : CandidateIterator)
    → IsSound iter
    → AlwaysDraws iter
    → ((m : ℕ) → n ≡ suc m → remaining (next iter).0 ≡ m → Outcome (next iter).0 m)
    → (r : Result (Option Bytes)) → (next iter).1 ≡ r
    → remaining iter ≡ n
    → Outcome iter n
offers_step n iter sound draws rest (err e) p count = absurd (never_fails iter draws e p)
offers_step n iter sound draws rest (ok none) p count =
    ([], end iter p, omega (arith, count_of iter (ok none) p), tt)
offers_step zero iter sound draws rest (ok (some c)) p count =
    absurd (omega (arith, count_of iter (ok (some c)) p))
offers_step (suc m) iter sound draws rest (ok (some c)) p count =
    let (cs, o, l, a) = rest m refl (omega (arith, count_of iter (ok (some c)) p)) in
    (c ∷ cs, offer iter c cs p o, ap suc l, (next-IsUsername iter sound c p, a))

offers_all :
    (n : ℕ) (iter : CandidateIterator)
    → IsSound iter
    → AlwaysDraws iter
    → remaining iter ≡ n
    → Outcome iter n
offers_all zero iter sound draws count =
    offers_step zero iter sound draws (λ m e. absurd (omega arith)) (next iter).1 refl count
offers_all (suc n) iter sound draws count =
    offers_step (suc n) iter sound draws
      (λ m e k. subst (Outcome (next iter).0) (omega arith) (
        offers_all n (next iter).0 (next-IsSound iter sound) (rw (random_suffix-next iter) draws)
          (omega arith)))
      (next iter).1 refl count

-- From a valid base, with an entropy source that answers, the iterator offers exactly 104
-- candidates, each a valid username, and then reports the end.
pub new_candidate_iterator-Offers :
    (entropy : Entropy) (base : Bytes)
    → IsUsername base
    → AlwaysDraws (new_candidate_iterator entropy base)
    → (cs : List Bytes) × Offers (new_candidate_iterator entropy base) cs
      × (length cs ≡ 104)
      × All IsUsername cs
new_candidate_iterator-Offers entropy base valid draws =
    offers_all 104 (new_candidate_iterator entropy base)
      (new_candidate_iterator-IsSound entropy base valid) draws
      (unfold new_candidate_iterator in refl)

-- A call that returns a candidate leaves an iterator with one candidate less to offer.
pub next-remaining :
    (iter : CandidateIterator) (c : Bytes)
    → (next iter).1 ≡ ok (some c)
    → remaining (next iter).0 + 1 ≡ remaining iter
next-remaining iter c e = count_of iter (ok (some c)) e
