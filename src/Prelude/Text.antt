-- ===== src/Prelude/Text.antt =====
-- Go strings and byte slices: sequences of bytes.
use Prim.Native.Nat.{ℕ, zero, suc, ◌<◌}
use Prim.Native.Char.{code}
use Prim.Native.String.{String}
use mathlib.Core.Path.{◌≡◌, refl, ap₂}
use mathlib.Core.Logic.{◌↔◌, ◌≢◌, inl, inr}
use mathlib.Core.Bool.{Bool, true, false, ◌&&◌, ◌||◌}
use mathlib.Core.List.{List, [], ◌∷◌, ◌++◌}
use native.Mathlib.Omega.{arith}
use users.Prelude.Lists.{length, All}
use users.Prelude.Tests.{◌==◌, ltb, ==_iff, &&-eq_true, Bool-cases}

abbrev pub Bytes : Type 0
Bytes = List ℕ

-- The code points of a text literal; these are its bytes, since all the literals are ASCII.
abbrev pub codes : String → Bytes
codes String.[] = []
codes (String.◌∷◌ c s) = code c ∷ codes s

-- s == t
unfoldable pub bytes_eq : Bytes → Bytes → Bool
bytes_eq [] [] = true
bytes_eq (x ∷ xs) (y ∷ ys) = x == y && bytes_eq xs ys
bytes_eq _ _ = false

-- s <= t: the order of strings, byte by byte.
unfoldable pub text_leb : Bytes → Bytes → Bool
text_leb [] t = true
text_leb (x ∷ s) [] = false
text_leb (x ∷ s) (y ∷ t) = ltb x y || x == y && text_leb s t

-- strings.HasPrefix(s, p)
unfoldable pub has_prefix : Bytes → Bytes → Bool
has_prefix s [] = true
has_prefix [] (y ∷ p) = false
has_prefix (x ∷ s) (y ∷ p) = x == y && has_prefix s p

-- s[i], for an index in range.
unfoldable pub byte_at : Bytes → ℕ → ℕ
byte_at [] i = 0
byte_at (c ∷ s) zero = c
byte_at (c ∷ s) (suc i) = byte_at s i

pub All-byte_at : (P : ℕ → Type 0) (s : Bytes) (i : ℕ) → All P s → i < length s → P (byte_at s i)
unfolding byte_at
All-byte_at P [] i h l = absurd (omega arith)
All-byte_at P (c ∷ s) zero h l = h.0
All-byte_at P (c ∷ s) (suc i) h l = All-byte_at P s i h.1 (omega arith)

pub bytes_eq_refl : (s : Bytes) → bytes_eq s s ≡ true
unfolding bytes_eq
bytes_eq_refl [] = refl
bytes_eq_refl (x ∷ s) = ground (arith, bytes_eq_refl s)

pub eq_of_bytes_eq : (s t : Bytes) → bytes_eq s t ≡ true → s ≡ t
unfolding bytes_eq
eq_of_bytes_eq [] [] h = refl
eq_of_bytes_eq (x ∷ s) (y ∷ t) h =
    let (hx, hs) = &&-eq_true (x == y) (bytes_eq s t) h in
    ap₂ (λ a r. a ∷ r) ((==_iff x y).0 hx) (eq_of_bytes_eq s t hs)
eq_of_bytes_eq [] (y ∷ t) h = ground arith
eq_of_bytes_eq (x ∷ s) [] h = ground arith

pub bytes_eq_iff : (s t : Bytes) → (bytes_eq s t ≡ true) ↔ (s ≡ t)
bytes_eq_iff s t = (eq_of_bytes_eq s t, λ e. rw e (bytes_eq_refl t))

-- A text that is appended to a prefix begins with it.
pub has_prefix-append : (p s : Bytes) → has_prefix (p ++ s) p ≡ true
unfolding has_prefix
has_prefix-append [] [] = refl
has_prefix-append [] (x ∷ s) = refl
has_prefix-append (y ∷ p) s = ground (arith, has_prefix-append p s)

pub bytes_eq-of_ne : (s t : Bytes) → s ≢ t → bytes_eq s t ≡ false
bytes_eq-of_ne s t h = elim (Bool-cases (bytes_eq s t)) [
  | inl e ↦ absurd (h ((bytes_eq_iff s t).0 e))
  | inr e ↦ e
]
