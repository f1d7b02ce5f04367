-- ===== src/Prelude/Decimal.antt =====
-- `%d` and `%x` of fmt and encoding/hex: how the service writes numbers as text.
use Prim.Native.Nat.{ℕ, zero, suc, ◌+◌, ◌-◌, ◌*◌, ◌/◌, ◌%◌, ◌≤◌, ◌<◌}
use mathlib.Core.Path.{◌≡◌, refl, ap, ◌∙◌}
use mathlib.Core.List.{[], ◌∷◌}
use mathlib.Core.Logic.{inl, inr}
use native.Mathlib.Omega.{arith}
use users.Prelude.Tests.{ltb, if◌then◌else◌, Bool-cases, lt→ltb}
use users.Prelude.Lists.{length, All}
use users.Prelude.Text.{Bytes, codes}

-- Digits in front of `acc`; the fuel is one more than the number, and a tenth is below it.
digits_from : ℕ → ℕ → Bytes → Bytes
digits_from zero n acc = acc
digits_from (suc fuel) n acc =
    let acc' = (b'0' + n % 10) ∷ acc in
    let rest = digits_from fuel (n / 10) acc' in if ltb n 10 then acc' else rest

-- fmt.Sprintf("%d", n)
pub decimal : ℕ → Bytes
unfolding digits_from
decimal n = digits_from (suc n) n []

-- The number that decimal digits spell behind `v`.
abbrev pub read_decimal : ℕ → Bytes → ℕ
read_decimal v [] = v
read_decimal v (d ∷ s) = read_decimal (v * 10 + (d - b'0')) s

read-digits_from :
    (fuel n : ℕ) (acc : Bytes)
    → n < fuel
    → read_decimal 0 (digits_from fuel n acc) ≡ read_decimal n acc
unfolding digits_from
read-digits_from zero n acc h = absurd (omega arith)
read-digits_from (suc fuel) n acc h = elim (Bool-cases (ltb n 10)) [
  | inl p ↦ rw p (ap (λ v. read_decimal v acc) (ground arith))
  | inr p ↦ rw p (
      read-digits_from fuel (n / 10) ((b'0' + n % 10) ∷ acc) (ground arith)
      ∙ ap (λ v. read_decimal v acc) (omega arith))
]

-- A printed number is read back, so two numbers that are printed alike are equal.
pub read-decimal : (n : ℕ) → read_decimal 0 (decimal n) ≡ n
unfolding decimal
read-decimal n = read-digits_from (suc n) n [] (omega arith)

abbrev pub IsDigit : ℕ → Type 0
IsDigit c = (b'0' ≤ c) × (c ≤ b'9')

All-digits_from :
    (fuel n : ℕ) (acc : Bytes) → All IsDigit acc → All IsDigit (digits_from fuel n acc)
unfolding digits_from
All-digits_from zero n acc h = h
All-digits_from (suc fuel) n acc h =
    let more : All IsDigit ((b'0' + n % 10) ∷ acc) = ((omega arith, omega arith), h) in
    elim (Bool-cases (ltb n 10)) [
      | inl p ↦ rw p more
      | inr p ↦ rw p (All-digits_from fuel (n / 10) ((b'0' + n % 10) ∷ acc) more)
    ]

pub All-decimal : (n : ℕ) → All IsDigit (decimal n)
unfolding decimal
All-decimal n = All-digits_from (suc n) n [] tt

pub length-decimal_below_100 : (n : ℕ) → n < 100 → length (decimal n) ≤ 2
unfolding decimal digits_from
length-decimal_below_100 zero h = omega arith
length-decimal_below_100 (suc n) h = elim (Bool-cases (ltb (suc n) 10)) [
  | inl p ↦ rw p (omega arith)
  | inr p ↦ rw p (rw (lt→ltb (suc n / 10) 10 (omega arith)) (omega arith))
]

-- One hexadecimal digit, in lower case.
unfoldable pub hex_digit : ℕ → ℕ
hex_digit n = if ltb n 10 then b'0' + n else b'a' + (n - 10)

-- hex.EncodeToString
unfoldable pub hex_encode : Bytes → Bytes
unfolding hex_digit
hex_encode [] = []
hex_encode (x ∷ s) = hex_digit (x / 16) ∷ hex_digit (x % 16) ∷ hex_encode s

decimal_99 : decimal 99 ≡ codes "99"
unfolding decimal
decimal_99 = refl
