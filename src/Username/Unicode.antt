-- ===== src/Username/Unicode.antt =====
-- What internal/server/username.go takes from Go's language and `strings`: the runes of a string,
-- lower case, and trimming. `unicode.ToLower` above ASCII is a parameter.
use users.Prelude.{
  ℕ, zero, suc, ◌+◌, ◌-◌, ◌*◌, ◌≡◌, refl, Bool, ◌&&◌, ◌||◌, List, [], ◌∷◌, map, Bytes, leb, ltb,
  ◌==◌, if◌then◌else◌,
}

abbrev pub rune_error : ℕ
rune_error = 0xFFFD

-- a continuation byte in the given range
between : ℕ → ℕ → ℕ → Bool
between lo hi c = leb lo c && leb c hi

-- The first rune of a string and the number of bytes that it takes; a byte that begins no valid
-- UTF-8 sequence stands for `rune_error`.
decode_rune : Bytes → ℕ × ℕ
unfolding between
decode_rune (a ∷ b ∷ c ∷ d ∷ s) =
    if ltb a 0x80
    then (a, 1)
    else if between 0xC2 0xDF a && between 0x80 0xBF b
    then ((a - 0xC0) * 64 + (b - 0x80), 2)
    else if (a == 0xE0 && between 0xA0 0xBF b
          || between 0xE1 0xEC a && between 0x80 0xBF b
          || a == 0xED && between 0x80 0x9F b
          || between 0xEE 0xEF a && between 0x80 0xBF b)
        && between 0x80 0xBF c
    then ((a - 0xE0) * 4096 + (b - 0x80) * 64 + (c - 0x80), 3)
    else if (a == 0xF0 && between 0x90 0xBF b
          || between 0xF1 0xF3 a && between 0x80 0xBF b
          || a == 0xF4 && between 0x80 0x8F b)
        && between 0x80 0xBF c
        && between 0x80 0xBF d
    then ((a - 0xF0) * 262144 + (b - 0x80) * 4096 + (c - 0x80) * 64 + (d - 0x80), 4)
    else (rune_error, 1)
decode_rune (a ∷ b ∷ c ∷ []) =
    if ltb a 0x80
    then (a, 1)
    else if between 0xC2 0xDF a && between 0x80 0xBF b
    then ((a - 0xC0) * 64 + (b - 0x80), 2)
    else if (a == 0xE0 && between 0xA0 0xBF b
          || between 0xE1 0xEC a && between 0x80 0xBF b
          || a == 0xED && between 0x80 0x9F b
          || between 0xEE 0xEF a && between 0x80 0xBF b)
        && between 0x80 0xBF c
    then ((a - 0xE0) * 4096 + (b - 0x80) * 64 + (c - 0x80), 3)
    else (rune_error, 1)
decode_rune (a ∷ b ∷ []) =
    if ltb a 0x80
    then (a, 1)
    else if between 0xC2 0xDF a && between 0x80 0xBF b
    then ((a - 0xC0) * 64 + (b - 0x80), 2)
    else (rune_error, 1)
decode_rune (a ∷ []) = if ltb a 0x80 then (a, 1) else (rune_error, 1)
decode_rune [] = (rune_error, 0)

-- `for _, r := range s`; the first argument counts the bytes left of the rune that was read last.
runes_from : ℕ → Bytes → List ℕ
unfolding decode_rune
runes_from skip [] = []
runes_from (suc skip) (a ∷ s) = runes_from skip s
runes_from zero (a ∷ s) = let (r, width) = decode_rune (a ∷ s) in r ∷ runes_from (width - 1) s

runes : Bytes → List ℕ
unfolding runes_from
runes s = runes_from 0 s

-- unicode.ToLower
lower_rune : (ℕ → ℕ) → ℕ → ℕ
lower_rune unicode_lower r =
    if leb b'A' r && leb r b'Z' then r + 32 else if ltb r 0x80 then r else unicode_lower r

-- The runes of strings.ToLower(s).
unfoldable pub lower_runes : (ℕ → ℕ) → Bytes → List ℕ
unfolding lower_rune runes
lower_runes unicode_lower s = map (lower_rune unicode_lower) (runes s)

-- strings.TrimLeft(s, c) for a cutset of one byte
unfoldable pub trim_left : ℕ → Bytes → Bytes
trim_left c [] = []
trim_left c (x ∷ s) = let rest = trim_left c s in if x == c then rest else x ∷ s

-- what stands before a text that has been trimmed on the right
unfoldable pub trim_last : ℕ → ℕ → Bytes → Bytes
trim_last c x [] = if x == c then [] else x ∷ []
trim_last c x (y ∷ s) = x ∷ y ∷ s

-- strings.TrimRight(s, c)
unfoldable pub trim_right : ℕ → Bytes → Bytes
unfolding trim_last
trim_right c [] = []
trim_right c (x ∷ s) = trim_last c x (trim_right c s)

-- strings.Trim(s, c)
unfoldable pub trim : ℕ → Bytes → Bytes
unfolding trim_left trim_right
trim c s = trim_right c (trim_left c s)

runes_example :
    runes (0x41 ∷ 0xC3 ∷ 0xA9 ∷ 0xE2 ∷ 0x84 ∷ 0xAA ∷ 0xFF ∷ [])
    ≡ 0x41 ∷ 0xE9 ∷ 0x212A ∷ rune_error ∷ []
unfolding runes
runes_example = refl
