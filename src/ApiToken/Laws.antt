-- ===== src/ApiToken/Laws.antt =====
-- `Generate`: it fails only where the random source fails, and what a token is made of.

use users.Prelude.{
  ℕ, zero, suc, ◌-◌, ◌≤◌, ◌<◌, ◌≡◌, refl, sym, ap, ◌∙◌, true, false, ◌++◌, Bytes, length,
  length-append, length-replicate, replicate, take, drop, All, ltb, byte_at, has_prefix-append,
  arith, lt→ltb,
}
use users.Errors.{ok, ok-injective}
use users.Digest.{Digest}
use users.ApiToken.{
  GeneratedToken, token_prefix, token_random_chars, set_bytes, encode_base62, hash_of,
  has_token_prefix, finish_token, generate,
}
use users.ApiToken.Base62.{
  read_base62, read-encode_base62, length-encode_base62, set_bytes-injective,
}

-- The bytes that rand.Read fills.
pub record IsRandom (bytes : Bytes) : Type 0 where
  pub size : length bytes ≡ 32
  pub range : All (λ b. b < 256) bytes

read-replicate : (n : ℕ) (s : Bytes) → read_base62 0 (replicate n b'0' ++ s) ≡ read_base62 0 s
read-replicate zero s = refl
read-replicate (suc n) s = read-replicate n s

abbrev padded : Bytes → Bytes
padded encoded = replicate (token_random_chars - length encoded) b'0' ++ encoded

length-padded : (encoded : Bytes) → length encoded ≤ 43 → length (padded encoded) ≡ 44
length-padded encoded h = omega (
  arith,
  length-append (replicate (token_random_chars - length encoded) b'0') encoded,
  length-replicate {A = ℕ} (token_random_chars - length encoded) b'0',
)

first-padded : (encoded : Bytes) → length encoded ≤ 43 → byte_at (padded encoded) 0 ≡ b'0'
unfolding byte_at
first-padded encoded h =
    let e : token_random_chars - length encoded ≡ suc (43 - length encoded) = omega arith in
    rw e refl

abbrev token_of : Digest → Bytes → GeneratedToken
token_of digest encoded = record {
  plaintext = token_prefix ++ padded encoded;
  hash = hash_of digest (token_prefix ++ padded encoded);
  token_prefix = take 8 (token_prefix ++ padded encoded);
}

generate-ok :
    (digest : Digest) (bytes : Bytes)
    → IsRandom bytes
    → generate digest (ok bytes) ≡ ok (token_of digest (encode_base62 bytes))
unfolding generate finish_token
generate-ok digest bytes r =
    let short = length-encode_base62 bytes r.size r.range in
    rw (ltb_false short, lt→ltb (length (encode_base62 bytes)) token_random_chars (omega arith))
      refl
  where
    ltb_false : {n : ℕ} → n ≤ 43 → ltb token_random_chars n ≡ false
    ltb_false h = ground arith

-- The parts of a generated token.
pub record IsToken (digest : Digest) (bytes : Bytes) (t : GeneratedToken) : Type 0 where
  pub size : length t.plaintext ≡ 49
  pub prefixed : has_token_prefix t.plaintext ≡ true
  pub spells : read_base62 0 (drop 5 t.plaintext) ≡ set_bytes 0 bytes
  pub hashed : t.hash ≡ hash_of digest t.plaintext
  pub shown : t.token_prefix ≡ take 8 t.plaintext

-- For 32 random bytes `Generate` returns a token, so its length test never fails: 49 bytes, the
-- gateway's prefix and a text that reads in base 62 as the random number, with the hash and the first
-- eight bytes of the whole.
pub generate-IsToken :
    (digest : Digest) (bytes : Bytes)
    → IsRandom bytes
    → (t : GeneratedToken) × (generate digest (ok bytes) ≡ ok t) × IsToken digest bytes t
unfolding has_token_prefix
generate-IsToken digest bytes r =
    let encoded = encode_base62 bytes in
    let short = length-encode_base62 bytes r.size r.range in
    (
      token_of digest encoded,
      generate-ok digest bytes r,
      record {
        size = omega (arith, length-padded encoded short);
        prefixed = has_prefix-append token_prefix (padded encoded);
        spells =
            read-replicate (token_random_chars - length encoded) encoded ∙ read-encode_base62 bytes;
        hashed = refl;
        shown = refl;
      },
    )

IsToken-of-generate :
    (digest : Digest) (bytes : Bytes) (t : GeneratedToken)
    → IsRandom bytes
    → generate digest (ok bytes) ≡ ok t
    → IsToken digest bytes t
IsToken-of-generate digest bytes t r e =
    let (t', e', h) = generate-IsToken digest bytes r in rw (ok-injective (sym e ∙ e')) h

-- If `Generate` returns the same plaintext for two random inputs of 32 bytes, the inputs are the same.
pub generate-injective :
    (digest : Digest) (bytes bytes' : Bytes) (t t' : GeneratedToken)
    → IsRandom bytes
    → IsRandom bytes'
    → generate digest (ok bytes) ≡ ok t
    → generate digest (ok bytes') ≡ ok t'
    → t.plaintext ≡ t'.plaintext
    → bytes ≡ bytes'
generate-injective digest bytes bytes' t t' r r' e e' same =
    let h = IsToken-of-generate digest bytes t r e in
    let h' = IsToken-of-generate digest bytes' t' r' e' in
    (set_bytes-injective 0 0 bytes bytes' r.range r'.range (r.size ∙ sym r'.size)
      (sym h.spells ∙ ap (λ p. read_base62 0 (drop 5 p)) same ∙ h'.spells)).1

-- The character behind the prefix of a token made of 32 random bytes is always "0".
pub generate-first_char :
    (digest : Digest) (bytes : Bytes) (t : GeneratedToken)
    → IsRandom bytes
    → generate digest (ok bytes) ≡ ok t
    → byte_at t.plaintext 5 ≡ b'0'
unfolding byte_at
generate-first_char digest bytes t r e =
    rw (ok-injective (sym e ∙ generate-ok digest bytes r))
      (first-padded (encode_base62 bytes) (length-encode_base62 bytes r.size r.range))
