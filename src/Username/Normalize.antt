-- ===== src/Username/Normalize.antt =====
-- `normalizeUsernameCandidate` of internal/server/username.go.
pub mod Valid
pub mod Dashes
use users.Prelude.{
  ℕ, ◌+◌, ◌≤◌, ◌≡◌, refl, ◌⊎◌, inl, inr, Bool, true, false, Option, none, List, [], ◌∷◌, ◌++◌,
  Bytes, codes, length, take, All, All-append, All-take, length-take, ◌==◌, bytes_eq, if◌then◌else◌,
  arith, ltb, leb, ◌&&◌, ◌||◌,
}
use users.Username.Rule.{
  username_max_length, is_username_byte, validate_username, IsUsernameByte, IsUsername,
  validate_username_iff,
}
use users.Username.Unicode.{lower_runes, trim_left, trim_right, trim}

-- isAllowed
is_allowed : ℕ → Bool
is_allowed r = leb b'a' r && leb r b'z' || leb b'0' r && leb r b'9' || r == b'_' || r == b'-'

-- One round of the loop, over the builder and `lastDash`.
write_rune : ℕ → Bytes × Bool → Bytes × Bool
unfolding is_allowed
write_rune r (out, last_dash) =
    if is_allowed r
    then if r == b'-'
      then if last_dash then (out, true) else (out ++ r ∷ [], true)
      else (out ++ r ∷ [], false)
    else if last_dash
    then (out, true)
    else (out ++ b'-' ∷ [], true)

write_runes : List ℕ → Bytes × Bool → Bytes × Bool
write_runes [] st = st
write_runes (r ∷ rs) st = write_runes rs (write_rune r st)

pub normalize : (ℕ → ℕ) → Bytes → Bytes
unfolding write_runes write_rune bytes_eq
normalize unicode_lower value =
    if bytes_eq value []
    then []
    else let normalized = trim b'-' (write_runes (lower_runes unicode_lower value) ([], false)).0 in
      if ltb username_max_length (length normalized)
      then take username_max_length normalized
      else normalized

test_spaces : normalize (λ r. r) (codes "Jane Doe") ≡ codes "jane-doe"
unfolding normalize lower_runes trim
test_spaces = refl

test_collapse : normalize (λ r. r) (codes "--Hello__World!!") ≡ codes "hello__world"
unfolding normalize lower_runes trim
test_collapse = refl
