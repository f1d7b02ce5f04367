-- ===== src/Username/Candidates.antt =====
-- `usernameCandidateIterator`, `usernameWithSuffix` and `randomUsernameSuffix` of
-- internal/server/username.go.
pub mod Valid
pub mod Count
use users.Prelude.{
  ℕ, zero, suc, ◌+◌, ◌-◌, ◌≤◌, ◌<◌, ◌≡◌, refl, Bool, true, false, Option, none, some, List, [], ◌∷◌,
  ◌++◌, Bytes, codes, length, take, ltb, ◌==◌, byte_at, if◌then◌else◌,
}
use users.Prelude.Decimal.{decimal}
use users.Errors.{Result, ok, err, Error, ◌>>=◌}
use users.Username.Rule.{username_max_length}
use users.Username.Unicode.{trim_right}

abbrev pub username_numeric_suffix_max : ℕ
username_numeric_suffix_max = 99

abbrev pub username_random_suffix_len : ℕ
username_random_suffix_len = 4

abbrev pub username_random_suffix_tries : ℕ
username_random_suffix_tries = 5

-- rand.Int(rand.Reader, max): the answer to the `draw`-th request of the `call`-th suffix.
pub record Entropy : Type 0 where
  pub rand_int : (call draw max : ℕ) → Result ℕ
  pub in_range : (call draw max n : ℕ) → rand_int call draw max ≡ ok n → n < max

pub record CandidateIterator : Type 0 where
  pub base : Bytes
  pub next_index : ℕ
  pub random_generated : ℕ
  -- iter.randomSuffix; the first argument tells the calls apart
  pub random_suffix : (call length : ℕ) → Result Bytes

abbrev pub letters : Bytes
letters = codes "abcdefghijklmnopqrstuvwxyz0123456789"

-- `for i := range b`, with the draws that are left and the index of the next one
unfoldable pub random_letters : Entropy → ℕ → ℕ → ℕ → Result Bytes
random_letters entropy call zero i = ok []
random_letters entropy call (suc left) i = do
  n ← entropy.rand_int call i (length letters)
  rest ← random_letters entropy call left (i + 1)
  ok (byte_at letters n ∷ rest)

unfoldable pub random_username_suffix : Entropy → ℕ → ℕ → Result Bytes
unfolding random_letters
random_username_suffix entropy call len = random_letters entropy call len 0

-- The suffixes of the program have at most five bytes, so the subtraction does not stop at 0.
pub username_with_suffix : Bytes → Bytes → Bytes
username_with_suffix base suffix =
    let max_base_length = username_max_length - length suffix in
    if ltb max_base_length (length base)
    then trim_right b'-' (take max_base_length base) ++ suffix
    else base ++ suffix

unfoldable pub new_candidate_iterator : Entropy → Bytes → CandidateIterator
new_candidate_iterator entropy base = record {
  base = base;
  next_index = 0;
  random_generated = 0;
  random_suffix = random_username_suffix entropy;
}

-- What `Next` does with the answer of iter.randomSuffix.
after_random : CandidateIterator → Result Bytes → CandidateIterator × Result (Option Bytes)
after_random iter (err e) = (iter, err e)
after_random iter (ok suffix) = (
  record iter { random_generated = iter.random_generated + 1 },
  ok (some (username_with_suffix iter.base (b'-' ∷ suffix))),
)

-- The result (candidate, true, nil) is `ok (some candidate)`, ("", false, nil) is `ok none`.
unfoldable pub next : CandidateIterator → CandidateIterator × Result (Option Bytes)
unfolding after_random
next iter =
    if iter.next_index == 0
    then (record iter { next_index = iter.next_index + 1 }, ok (some iter.base))
    else if ltb iter.next_index username_numeric_suffix_max
    then (
      record iter { next_index = iter.next_index + 1 },
      ok (some (username_with_suffix iter.base (b'-' ∷ decimal (iter.next_index + 1)))),
    )
    else if ltb iter.random_generated username_random_suffix_tries
    then after_random iter (iter.random_suffix iter.random_generated username_random_suffix_len)
    else (iter, ok none)
