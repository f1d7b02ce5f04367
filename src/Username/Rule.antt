-- ===== src/Username/Rule.antt =====
-- The username rule of internal/server/username.go: `validateUsername`, `validateUsernamePrefix`.
use users.Prelude.{
  ℕ, ◌≤◌, ◌<◌, ◌≡◌, refl, ◌↔◌, ◌⊎◌, Bool, true, false, not, ◌&&◌, ◌||◌, Option, none, some, [], ◌∷◌,
  Bytes, length, All, leb, ltb, ◌==◌, bytes_eq, if◌then◌else◌, arith, &&-eq_true,
}
use users.Errors.{Error, message}

abbrev pub username_max_length : ℕ
username_max_length = 32

abbrev pub username_search_default : ℕ
username_search_default = 10

abbrev pub username_search_max : ℕ
username_search_max = 20

-- [a-z0-9_-]
unfoldable pub is_username_byte : ℕ → Bool
is_username_byte c = leb b'a' c && leb c b'z' || leb b'0' c && leb c b'9' || c == b'_' || c == b'-'

unfoldable pub all_username_bytes : Bytes → Bool
all_username_bytes [] = true
all_username_bytes (c ∷ s) = is_username_byte c && all_username_bytes s

-- usernamePattern.MatchString(value), for ^[a-z0-9_-]+$
matches_pattern : Bytes → Bool
unfolding all_username_bytes
matches_pattern [] = false
matches_pattern (c ∷ s) = all_username_bytes (c ∷ s)

unfoldable pub validate_username : Bytes → Option Error
unfolding matches_pattern bytes_eq
validate_username value =
    if bytes_eq value []
    then some (message "value is required")
    else if ltb username_max_length (length value)
    then some (message "max length")
    else if not (matches_pattern value)
    then some (message "must match")
    else none

pub validate_username_prefix : Bytes → Option Error
unfolding matches_pattern bytes_eq
validate_username_prefix value =
    if bytes_eq value []
    then some (message "value is required")
    else if ltb username_max_length (length value)
    then some (message "max length")
    else if not (matches_pattern value)
    then some (message "must match")
    else none

-- A lower-case letter, a digit, an underscore or a dash.
abbrev pub IsUsernameByte : ℕ → Type 0
IsUsernameByte c =
    ((b'a' ≤ c) × (c ≤ b'z')) ⊎ (((b'0' ≤ c) × (c ≤ b'9')) ⊎ ((c ≡ b'_') ⊎ (c ≡ b'-')))

pub is_username_byte_iff : (c : ℕ) → (is_username_byte c ≡ true) ↔ IsUsernameByte c
unfolding is_username_byte
is_username_byte_iff c = (λ h. ground (arith, h), λ h. ground (arith, h))

-- One to 32 bytes, each a lower-case letter, a digit, an underscore or a dash.
pub record IsUsername (u : Bytes) : Type 0 where
  pub not_empty : 0 < length u
  pub fits : length u ≤ username_max_length
  pub bytes : All IsUsernameByte u

pub all_username_bytes_iff : (s : Bytes) → (all_username_bytes s ≡ true) ↔ All IsUsernameByte s
unfolding all_username_bytes
all_username_bytes_iff [] = (λ _. tt, λ _. refl)
all_username_bytes_iff (c ∷ s) = (
  λ h.
      let (hc, hs) = &&-eq_true (is_username_byte c) (all_username_bytes s) h in
      ((is_username_byte_iff c).0 hc, (all_username_bytes_iff s).0 hs),
  λ h. rw ((is_username_byte_iff c).1 h.0, (all_username_bytes_iff s).1 h.1),
)

-- A value is accepted exactly if it is one to 32 bytes of lower-case letters, digits, underscores
-- and dashes.
pub validate_username_iff : (u : Bytes) → (validate_username u ≡ none) ↔ IsUsername u
unfolding validate_username
validate_username_iff [] = (λ h. absurd (ground arith), λ h. absurd (omega (arith, h.not_empty)))
validate_username_iff (c ∷ s) = (
  λ h. record {
    not_empty = omega arith;
    fits = ground arith;
    bytes = (all_username_bytes_iff (c ∷ s)).0 (ground arith);
  },
  λ h. let p = h.fits in rw ((all_username_bytes_iff (c ∷ s)).1 h.bytes) (ground arith),
)

-- The rule of a search prefix is the rule of a username.
pub validate_username_prefix-eq : (u : Bytes) → validate_username_prefix u ≡ validate_username u
unfolding validate_username validate_username_prefix
validate_username_prefix-eq u = refl
