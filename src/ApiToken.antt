-- ===== src/ApiToken.antt =====
-- internal/apitoken/apitoken.go: how an API token is made.
pub mod Base62
pub mod Laws
use mathlib.Core.List.{reverse}
use users.Prelude.{
  ℕ, zero, suc, ◌+◌, ◌-◌, ◌*◌, ◌/◌, ◌%◌, Bool, [], ◌∷◌, ◌++◌, Bytes, codes, length, take, replicate,
  has_prefix, ltb, ◌==◌, byte_at, if◌then◌else◌,
}
use users.Prelude.Decimal.{hex_encode}
use users.Errors.{Result, ok, err, Error, message}
use users.Digest.{Digest}

abbrev pub token_prefix : Bytes
token_prefix = codes "agyn_"

abbrev pub token_random_chars : ℕ
token_random_chars = 44

abbrev pub base62_alphabet : Bytes
base62_alphabet = codes "0123456789ABCDEFGHIJKLMNOPQRSTUVWXYZabcdefghijklmnopqrstuvwxyz"

pub record GeneratedToken : Type 0 where
  pub plaintext : Bytes
  pub hash : Bytes
  pub token_prefix : Bytes

-- new(big.Int).SetBytes(input): big-endian
pub set_bytes : ℕ → Bytes → ℕ
set_bytes value [] = value
set_bytes value (b ∷ s) = set_bytes (value * 256 + b) s

-- `for value.Sign() > 0 { … }`, over `value` and `encoded`. The fuel is at least the value, so it
-- is not used up before the value is 0.
base62_loop : ℕ → ℕ → Bytes → Bytes
base62_loop zero value encoded = encoded
base62_loop (suc fuel) value encoded =
    let rest =
      base62_loop fuel (value / 62) (encoded ++ byte_at base62_alphabet (value % 62) ∷ []) in
    if value == 0 then encoded else rest

-- The loop that swaps the ends of `encoded` until they meet reverses it.
pub encode_base62 : Bytes → Bytes
unfolding base62_loop set_bytes
encode_base62 input =
    let value = set_bytes 0 input in
    if value == 0 then codes "0" else reverse (base62_loop value value [])

pub hash_of : Digest → Bytes → Bytes
hash_of digest plaintext = hex_encode (digest.sum256 plaintext)

-- HasPrefix
pub has_token_prefix : Bytes → Bool
has_token_prefix token = has_prefix token token_prefix

-- `Generate` from the encoded random number on: the length test, the padding, and the token.
finish_token : Digest → Bytes → Result GeneratedToken
unfolding hash_of
finish_token digest encoded =
    if ltb token_random_chars (length encoded)
    then err (message "token length exceeds")
    else let padded =
        if ltb (length encoded) token_random_chars
        then replicate (token_random_chars - length encoded) b'0' ++ encoded
        else encoded in
      let plaintext = token_prefix ++ padded in
      ok (record {
        plaintext = plaintext;
        hash = hash_of digest plaintext;
        token_prefix = take 8 plaintext;
      })

-- `read` is the answer of rand.Read for 32 bytes.
unfoldable pub generate : Digest → Result Bytes → Result GeneratedToken
unfolding finish_token encode_base62
generate digest (err e) = err e
generate digest (ok bytes) = finish_token digest (encode_base62 bytes)
