-- ===== src/Examples/TokenExamples.antt =====
-- The theorems about API tokens, at concrete inputs.
use users.Prelude.{ℕ, ◌≡◌, ◌<◌, refl, Bytes, replicate, length-replicate, All-replicate, arith}
use users.Errors.{ok}
use users.Digest.{constant_digest}
use users.ApiToken.{GeneratedToken, generate, encode_base62, set_bytes}
use users.ApiToken.Base62.{read_base62, read-encode_base62}
use users.ApiToken.Laws.{IsRandom, IsToken, generate-IsToken, generate-injective}

abbrev sevens : Bytes
sevens = replicate 32 7

sevens-IsRandom : IsRandom sevens
sevens-IsRandom = record {
  size = length-replicate {A = ℕ} 32 7;
  range = All-replicate (λ b. b < 256) 32 7 (omega arith);
}

read-encode_base62_example : read_base62 0 (encode_base62 sevens) ≡ set_bytes 0 sevens
read-encode_base62_example = read-encode_base62 sevens

generate-IsToken_example :
    (t : GeneratedToken) × (generate constant_digest (ok sevens) ≡ ok t)
    × IsToken constant_digest sevens t
generate-IsToken_example = generate-IsToken constant_digest sevens sevens-IsRandom

abbrev sevens_token : GeneratedToken
sevens_token = (generate-IsToken constant_digest sevens sevens-IsRandom).0

sevens_generated : generate constant_digest (ok sevens) ≡ ok sevens_token
sevens_generated = (generate-IsToken constant_digest sevens sevens-IsRandom).1

generate-injective_example : sevens ≡ sevens
generate-injective_example =
    generate-injective constant_digest sevens sevens sevens_token sevens_token sevens-IsRandom
      sevens-IsRandom sevens_generated sevens_generated refl
