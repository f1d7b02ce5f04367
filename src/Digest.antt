-- ===== src/Digest.antt =====
-- SHA-256 of crypto/sha256 is a parameter of the model: a function from texts to 32 bytes.
use users.Prelude.{
  ℕ, ◌<◌, ◌≡◌, Bytes, length, All, All-replicate, replicate, length-replicate, arith,
}

pub record Digest : Type 0 where
  -- sha256.Sum256
  pub sum256 : Bytes → Bytes
  pub length-sum256 : (s : Bytes) → length (sum256 s) ≡ 32
  pub All-sum256 : (s : Bytes) → All (λ b. b < 256) (sum256 s)

-- A value that the tests run with.
abbrev pub constant_digest : Digest
constant_digest = record {
  sum256 = λ _. replicate 32 171;
  length-sum256 = λ _. length-replicate {A = ℕ} 32 171;
  All-sum256 = λ _. All-replicate (λ b. b < 256) 32 171 (omega arith);
}
