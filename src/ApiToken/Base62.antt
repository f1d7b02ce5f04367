-- ===== src/ApiToken/Base62.antt =====
-- `encodeBase62` writes the big-endian number of its input in base 62.
use mathlib.Core.Path.{ap₂}
use mathlib.Core.List.{reverse, reverse-cons}
use native.Mathlib.Nat.{pow-suc}
use users.Prelude.{
  ℕ, zero, suc, ◌+◌, ◌-◌, ◌*◌, ◌/◌, ◌%◌, ◌^◌, ◌≤◌, ◌<◌, ◌≡◌, refl, sym, ap, ◌∙◌, Bool, true, false,
  ◌&&◌, [], ◌∷◌, ◌++◌, Bytes, length, length-append, All, append_assoc, leb, ◌==◌, byte_at,
  if◌then◌else◌, arith, Bool-cases, inl, inr, ==_iff, &&-eq_true,
}
use users.ApiToken.{base62_alphabet, base62_loop, encode_base62, set_bytes}

-- What a letter of the alphabet stands for.
abbrev pub base62_digit : ℕ → ℕ
base62_digit c = if leb b'a' c then c - 61 else if leb b'A' c then c - 55 else c - b'0'

-- The number that base-62 text spells behind `v`.
abbrev pub read_base62 : ℕ → Bytes → ℕ
read_base62 v [] = v
read_base62 v (c ∷ s) = read_base62 (v * 62 + base62_digit c) s

read-append : (v : ℕ) (s t : Bytes) → read_base62 v (s ++ t) ≡ read_base62 (read_base62 v s) t
read-append v [] t = refl
read-append v (c ∷ s) t = read-append (v * 62 + base62_digit c) s t

-- Every digit below the length of the alphabet is read back.
digits_match : ℕ → Bytes → Bool
digits_match i [] = true
digits_match i (c ∷ s) = base62_digit c == i && digits_match (i + 1) s

alphabet_matches : digits_match 0 base62_alphabet ≡ true
unfolding digits_match
alphabet_matches = refl

digit_of_match :
    (i d : ℕ) (s : Bytes)
    → digits_match i s ≡ true
    → d < length s
    → base62_digit (byte_at s d) ≡ i + d
unfolding digits_match byte_at
digit_of_match i d [] m h = absurd (omega arith)
digit_of_match i zero (c ∷ s) m h = (==_iff _ i).0 (&&-eq_true _ _ m).0 ∙ omega arith
digit_of_match i (suc d) (c ∷ s) m h =
    digit_of_match (i + 1) d s (&&-eq_true _ _ m).1 (omega arith) ∙ omega arith

base62_digit-alphabet : (d : ℕ) → d < 62 → base62_digit (byte_at base62_alphabet d) ≡ d
base62_digit-alphabet d h = digit_of_match 0 d base62_alphabet alphabet_matches h ∙ omega arith

-- Appending to the digits so far: the loop only ever adds behind them.
loop-append :
    (fuel value : ℕ) (s t : Bytes) → base62_loop fuel value (s ++ t) ≡ s ++ base62_loop fuel value t
unfolding base62_loop
loop-append zero value s t = refl
loop-append (suc fuel) value s t = elim (Bool-cases (value == 0)) [
  | inl p ↦ rw p
  | inr p ↦
      rw (p, append_assoc)
        (loop-append fuel (value / 62) s (t ++ byte_at base62_alphabet (value % 62) ∷ []))
]

loop_step :
    (fuel value : ℕ)
    → (value == 0) ≡ false
    → base62_loop (suc fuel) value []
      ≡ byte_at base62_alphabet (value % 62) ∷ base62_loop fuel (value / 62) []
unfolding base62_loop
loop_step fuel value p =
    rw p (loop-append fuel (value / 62) (byte_at base62_alphabet (value % 62) ∷ []) [])

loop_done : (fuel value : ℕ) → (value == 0) ≡ true → base62_loop fuel value [] ≡ []
unfolding base62_loop
loop_done zero value p = refl
loop_done (suc fuel) value p = rw p

-- The last digit, behind the digits of the rest of the number.
read-reverse-cons :
    (c : ℕ) (s : Bytes)
    → read_base62 0 (reverse (c ∷ s)) ≡ read_base62 0 (reverse s) * 62 + base62_digit c
read-reverse-cons c s = ap (read_base62 0) (reverse-cons c s) ∙ read-append 0 (reverse s) (c ∷ [])

read-reverse-loop :
    (fuel value : ℕ) → value ≤ fuel → read_base62 0 (reverse (base62_loop fuel value [])) ≡ value
read-reverse-loop zero value h = unfold base62_loop in omega arith
read-reverse-loop (suc fuel) value h = elim (Bool-cases (value == 0)) [
  | inl p ↦ rw (loop_done (suc fuel) value p) (sym ((==_iff value 0).0 p))
  | inr p ↦
      ap (λ s. read_base62 0 (reverse s)) (loop_step fuel value p)
      ∙ read-reverse-cons (byte_at base62_alphabet (value % 62)) (base62_loop fuel (value / 62) [])
      ∙ omega (
        arith,
        read-reverse-loop fuel (value / 62) (ground arith),
        base62_digit-alphabet (value % 62) (omega arith),
      )
]

-- A value below 62 ^ k takes at most k digits.
length-loop : (k fuel value : ℕ) → value < 62 ^ k → length (base62_loop fuel value []) ≤ k
length-loop zero fuel value h =
    rw (loop_done fuel value ((==_iff value 0).1 (omega arith))) (omega arith)
length-loop (suc k) zero value h = unfold base62_loop in omega arith
length-loop (suc k) (suc fuel) value h = elim (Bool-cases (value == 0)) [
  | inl p ↦ rw (loop_done (suc fuel) value p) (omega arith)
  | inr p ↦
      rw (loop_step fuel value p)
        (omega (arith, length-loop k fuel (value / 62) (omega (arith, pow-suc 62 k))))
]

length-reverse : (s : Bytes) → length (reverse s) ≡ length s
length-reverse [] = refl
length-reverse (c ∷ s) =
    ap (length {A = ℕ}) (reverse-cons c s)
    ∙ length-append (reverse s) (c ∷ [])
    ∙ omega (arith, length-reverse s)

-- The digits of an encoded input, read in base 62, give the number that the input spells in base 256.
pub read-encode_base62 : (input : Bytes) → read_base62 0 (encode_base62 input) ≡ set_bytes 0 input
unfolding encode_base62
read-encode_base62 input = elim (Bool-cases (set_bytes 0 input == 0)) [
  | inl p ↦ rw p (sym ((==_iff (set_bytes 0 input) 0).0 p))
  | inr p ↦ rw p (read-reverse-loop (set_bytes 0 input) (set_bytes 0 input) (omega arith))
]

mul_mono : (a b c : ℕ) → a ≤ b → a * c ≤ b * c
mul_mono a b c h = grind arith

set_bytes-lt : (v : ℕ) (s : Bytes) → All (λ b. b < 256) s → set_bytes v s < (v + 1) * 256 ^ length s
unfolding set_bytes
set_bytes-lt v [] h = omega arith
set_bytes-lt v (b ∷ s) h =
    let hb = h.0 in
    rw (pow-suc 256 (length s)) (
      omega (
        arith,
        set_bytes-lt (v * 256 + b) s h.1,
        mul_mono (v * 256 + b + 1) ((v + 1) * 256) (256 ^ length s) (omega arith),
      ))

-- Two inputs of one length with the same number are the same.
pub set_bytes-injective :
    (v w : ℕ) (s t : Bytes)
    → All (λ b. b < 256) s
    → All (λ b. b < 256) t
    → length s ≡ length t
    → set_bytes v s ≡ set_bytes w t
    → (v ≡ w) × (s ≡ t)
unfolding set_bytes
set_bytes-injective v w [] [] hs ht l e = (e, refl)
set_bytes-injective v w [] (c ∷ t) hs ht l e = absurd (omega arith)
set_bytes-injective v w (b ∷ s) [] hs ht l e = absurd (omega arith)
set_bytes-injective v w (b ∷ s) (c ∷ t) hs ht l e =
    let (heads, tails) =
      set_bytes-injective (v * 256 + b) (w * 256 + c) s t hs.1 ht.1 (omega arith) e in
    let hb = hs.0 in let hc = ht.0 in (omega arith, ap₂ (λ x r. x ∷ r) (omega arith) tails)

-- The encoding of an input of 32 bytes has at most 43 digits.
pub length-encode_base62 :
    (input : Bytes)
    → length input ≡ 32
    → All (λ b. b < 256) input
    → length (encode_base62 input) ≤ 43
unfolding encode_base62
length-encode_base62 input l h = elim (Bool-cases (set_bytes 0 input == 0)) [
  | inl p ↦ rw p (omega arith)
  | inr p ↦ rw p (rw length-reverse (length-loop 43 (set_bytes 0 input) (set_bytes 0 input) below))
]
  where
    below : set_bytes 0 input < 62 ^ 43
    below = omega (arith, set_bytes-lt 0 input h, ap (λ n. 256 ^ n) l)
