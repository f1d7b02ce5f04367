-- ===== src/Username/Candidates/Valid.antt =====
-- Every candidate is a valid username.
use users.Prelude.{
  ℕ, zero, suc, ◌+◌, ◌-◌, ◌≤◌, ◌<◌, ◌≡◌, refl, Option, some, [], ◌∷◌, Bytes, length, length-append,
  byte_at, All-byte_at, length-take, take, All, All-append, All-take, All-map, ltb, ◌==◌, arith, ap,
  Bool-cases, inl, inr,
}
use users.Prelude.Decimal.{decimal, IsDigit, All-decimal, length-decimal_below_100}
use mathlib.Core.Path.{subst}
use users.Errors.{Result, ok, err, ◌>>=◌, ok-split, ok-injective}
use users.Username.Rule.{
  username_max_length, is_username_byte, all_username_bytes, all_username_bytes_iff, IsUsernameByte,
  IsUsername,
}
use users.Username.Unicode.{trim_right, trim_last}
use users.Username.Normalize.Valid.{All-trim_right}
use users.Username.Candidates.{
  Entropy, CandidateIterator, letters, random_letters, random_username_suffix, username_with_suffix,
  new_candidate_iterator, next, after_random, username_random_suffix_len,
  username_numeric_suffix_max, username_random_suffix_tries,
}

length-trim_last : (c x : ℕ) (s : Bytes) → length (trim_last c x s) ≤ suc (length s)
unfolding trim_last
length-trim_last c x [] = ground arith
length-trim_last c x (y ∷ s) = omega arith

length-trim_right : (c : ℕ) (s : Bytes) → length (trim_right c s) ≤ length s
unfolding trim_right
length-trim_right c [] = omega arith
length-trim_right c (x ∷ s) =
    omega (arith, length-trim_last c x (trim_right c s), length-trim_right c s)

-- What a suffix has to be.
pub record IsSuffix (suffix : Bytes) : Type 0 where
  pub not_empty : 0 < length suffix
  pub short : length suffix ≤ 5
  pub bytes : All IsUsernameByte suffix

-- A valid base with a suffix of one to five username bytes is a valid username.
pub with_suffix-IsUsername :
    (base suffix : Bytes)
    → IsUsername base
    → IsSuffix suffix
    → IsUsername (username_with_suffix base suffix)
unfolding username_with_suffix
with_suffix-IsUsername base suffix b s =
    let room = username_max_length - length suffix in
    let cut = trim_right b'-' (take room base) in
    elim (Bool-cases (ltb room (length base))) [
      | inl p ↦ rw p (record {
        not_empty = let h = s.not_empty in omega (arith, length-append cut suffix);
        fits =
            let h = s.short in
            omega (
              arith,
              length-append cut suffix,
              length-trim_right b'-' (take room base),
              length-take room base,
            );
        bytes =
            All-append IsUsernameByte cut suffix
              (All-trim_right IsUsernameByte b'-' (take room base)
                (All-take IsUsernameByte room base b.bytes))
              s.bytes;
      })
      | inr p ↦ rw p (record {
        not_empty = let h = s.not_empty in omega (arith, length-append base suffix);
        fits =
            let h = s.short in
            let q = b.fits in
            let k : length base ≤ room = ground arith in omega (arith, length-append base suffix);
        bytes = All-append IsUsernameByte base suffix b.bytes s.bytes;
      })
    ]

IsUsernameByte-digit : (c : ℕ) → IsDigit c → IsUsernameByte c
IsUsernameByte-digit c h = inr (inl h)

numeric-IsSuffix : (n : ℕ) → n < 100 → IsSuffix (b'-' ∷ decimal n)
numeric-IsSuffix n h = record {
  not_empty = omega arith;
  short = omega (arith, length-decimal_below_100 n h);
  bytes = (inr (inr (inr refl)), All-map (decimal n) IsUsernameByte-digit (All-decimal n));
}

-- What `next` keeps: the base is valid, and a random suffix is four letters or digits.
pub record IsSound (iter : CandidateIterator) : Type 0 where
  pub base : IsUsername iter.base
  pub random :
      (call : ℕ) (suffix : Bytes)
      → iter.random_suffix call username_random_suffix_len ≡ ok suffix
      → IsSuffix (b'-' ∷ suffix)

abbrev AnyCandidate : (Bytes → Type 0) → Result (Option Bytes) → Type 0
AnyCandidate P (ok (some c)) = P c
AnyCandidate P _ = Unit

base-next : (iter : CandidateIterator) → (next iter).0.base ≡ iter.base
unfolding next after_random
base-next iter = ground arith

pub random_suffix-next :
    (iter : CandidateIterator) → (next iter).0.random_suffix ≡ iter.random_suffix
unfolding next after_random
random_suffix-next iter = ground arith

module _ (iter : CandidateIterator) (h : IsSound iter) where
  -- The iterator that `next` leaves is sound too.
  pub next-IsSound : IsSound (next iter).0
  next-IsSound = record {
    base = rw (base-next iter) h.base;
    random = rw (random_suffix-next iter) h.random;
  }

  random_candidate :
      (r : Result Bytes)
      → iter.random_suffix iter.random_generated username_random_suffix_len ≡ r
      → AnyCandidate IsUsername (after_random iter r).1
  unfolding after_random
  random_candidate (err e) p = tt
  random_candidate (ok suffix) p =
      with_suffix-IsUsername iter.base (b'-' ∷ suffix) h.base
        (h.random iter.random_generated suffix p)

  next_candidate : AnyCandidate IsUsername (next iter).1
  unfolding next
  next_candidate = elim (Bool-cases (iter.next_index == 0)) [
    | inl p ↦ rw p h.base
    | inr p ↦ rw p (elim (Bool-cases (ltb iter.next_index username_numeric_suffix_max)) [
      | inl q ↦ rw q (
          with_suffix-IsUsername iter.base (b'-' ∷ decimal (iter.next_index + 1)) h.base
            (numeric-IsSuffix (iter.next_index + 1) (ground arith)))
      | inr q ↦ rw q (elim (Bool-cases (ltb iter.random_generated username_random_suffix_tries)) [
        | inl r ↦ rw r (random_candidate _ refl)
        | inr r ↦ rw r tt
      ])
    ])
  ]

  -- A candidate that an iterator offers is a valid username, if its base is one and its random suffixes
  -- with a dash before them are one to five username bytes.
  pub next-IsUsername : (c : Bytes) → (next iter).1 ≡ ok (some c) → IsUsername c
  next-IsUsername c e = subst (AnyCandidate IsUsername) e next_candidate

letters-IsUsernameByte : All IsUsernameByte letters
unfolding all_username_bytes is_username_byte
letters-IsUsernameByte = (all_username_bytes_iff letters).0 refl

module _ (entropy : Entropy) (call : ℕ) where
  random_letters_lem :
      (left i : ℕ) (s : Bytes)
      → random_letters entropy call left i ≡ ok s
      → (length s ≡ left) × All IsUsernameByte s
  unfolding random_letters
  random_letters_lem zero i s e = rw (← ok-injective e) (refl, tt)
  random_letters_lem (suc left) i s e =
      let (n, drawn, e') =
        ok-split (entropy.rand_int call i (length letters))
          (λ k. random_letters entropy call left (i + 1) >>= λ rest. ok (byte_at letters k ∷ rest))
          e in
      let (rest, more, e'') =
        ok-split (random_letters entropy call left (i + 1)) (λ r. ok (byte_at letters n ∷ r)) e' in
      let (l, a) = random_letters_lem left (i + 1) rest more in
      rw (← ok-injective e'') (
        ap suc l,
        (
          All-byte_at IsUsernameByte letters n letters-IsUsernameByte
              (entropy.in_range call i (length letters) n drawn),
          a,
        ),
      )

pub new_candidate_iterator-IsSound :
    (entropy : Entropy) (base : Bytes)
    → IsUsername base
    → IsSound (new_candidate_iterator entropy base)
unfolding new_candidate_iterator random_username_suffix
new_candidate_iterator-IsSound entropy base h = record {
  base = h;
  random = λ call suffix e.
      let (l, a) = random_letters_lem entropy call 4 0 suffix e in
      record { not_empty = omega arith; short = omega arith; bytes = (inr (inr (inr refl)), a) };
}
