-- ===== src/Username/Derive.antt =====
-- `deriveUsernameBase`, `fallbackUsername` and `emailLocalPart` of internal/server/username.go.
use users.Prelude.{
  ℕ, ◌/◌, ◌%◌, ◌<◌, ◌≡◌, refl, ◌⊎◌, inl, inr, List, [], ◌∷◌, ◌++◌, Bytes, codes, length-take, take,
  All, All-append, All-take, ◌==◌, bytes_eq, if◌then◌else◌, arith,
}
use users.Prelude.Decimal.{hex_digit, hex_encode}
use users.Digest.{Digest}
use users.Username.Rule.{
  is_username_byte, all_username_bytes, all_username_bytes_iff, IsUsernameByte, IsUsername,
}
use users.Username.Normalize.{normalize}
use users.Username.Normalize.Valid.{normalize-IsUsername}

-- strings.SplitN(s, "@", 2)[0]
before_at : Bytes → Bytes
before_at [] = []
before_at (c ∷ s) = if c == b'@' then [] else c ∷ before_at s

email_local_part : Bytes → Bytes
unfolding before_at bytes_eq
email_local_part email = if bytes_eq email [] then [] else before_at email

fallback_username : Digest → Bytes → Bytes
fallback_username digest oidc_subject =
    codes "user-" ++ take 8 (hex_encode (digest.sum256 oidc_subject))

-- The loop over the candidates, with what stands behind the loop.
first_normalized : (ℕ → ℕ) → List Bytes → Bytes → Bytes
unfolding bytes_eq
first_normalized unicode_lower [] fallback = fallback
first_normalized unicode_lower (candidate ∷ rest) fallback =
    let normalized = normalize unicode_lower candidate in
    let others = first_normalized unicode_lower rest fallback in
    if bytes_eq normalized [] then others else normalized

unfoldable pub derive_username_base : (ℕ → ℕ) → Digest → Bytes → Bytes → Bytes → Bytes → Bytes
unfolding first_normalized email_local_part fallback_username
derive_username_base unicode_lower digest preferred_username email name oidc_subject =
    first_normalized unicode_lower (preferred_username ∷ email_local_part email ∷ name ∷ [])
      (fallback_username digest oidc_subject)

hex_digit-IsUsernameByte : (n : ℕ) → n < 16 → IsUsernameByte (hex_digit n)
unfolding hex_digit
hex_digit-IsUsernameByte n h = ground arith

hex_encode-IsUsernameByte : (s : Bytes) → All (λ b. b < 256) s → All IsUsernameByte (hex_encode s)
unfolding hex_encode
hex_encode-IsUsernameByte [] h = tt
hex_encode-IsUsernameByte (x ∷ s) h = (
  hex_digit-IsUsernameByte (x / 16) (let b = h.0 in omega arith),
  (hex_digit-IsUsernameByte (x % 16) (omega arith), hex_encode-IsUsernameByte s h.1),
)

fallback-IsUsername :
    (digest : Digest) (oidc_subject : Bytes) → IsUsername (fallback_username digest oidc_subject)
unfolding fallback_username all_username_bytes is_username_byte
fallback-IsUsername digest oidc_subject =
    let hex = hex_encode (digest.sum256 oidc_subject) in
    record {
      not_empty = omega arith;
      fits = omega (arith, length-take 8 hex);
      bytes =
          All-append IsUsernameByte (codes "user-") (take 8 hex)
            ((all_username_bytes_iff (codes "user-")).0 refl)
            (All-take IsUsernameByte 8 hex (
              hex_encode-IsUsernameByte (digest.sum256 oidc_subject)
                (digest.All-sum256 oidc_subject)));
    }

module _ (unicode_lower : ℕ → ℕ) where
  first_normalized-IsUsername :
      (candidates : List Bytes) (fallback : Bytes)
      → IsUsername fallback
      → IsUsername (first_normalized unicode_lower candidates fallback)
  unfolding first_normalized
  first_normalized-IsUsername [] fallback h = h
  first_normalized-IsUsername (c ∷ rest) fallback h =
      go (normalize unicode_lower c) (normalize-IsUsername unicode_lower c)
        (first_normalized-IsUsername rest fallback h)
    where
      go :
          (u : Bytes)
          → (u ≡ []) ⊎ IsUsername u
          → IsUsername (first_normalized unicode_lower rest fallback)
          → IsUsername (if bytes_eq u [] then first_normalized unicode_lower rest fallback else u)
      go [] _ r = r
      go (x ∷ u) (inl e) r = absurd (cc)
      go (x ∷ u) (inr v) r = v

  -- The base is a valid username, whatever the profile and the subject are.
  pub derive_username_base-IsUsername :
      (digest : Digest) (preferred_username email name oidc_subject : Bytes)
      → IsUsername
          (derive_username_base unicode_lower digest preferred_username email name oidc_subject)
  unfolding derive_username_base
  derive_username_base-IsUsername digest preferred_username email name oidc_subject =
      first_normalized-IsUsername (preferred_username ∷ email_local_part email ∷ name ∷ [])
        (fallback_username digest oidc_subject) (fallback-IsUsername digest oidc_subject)
