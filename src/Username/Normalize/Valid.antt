-- ===== src/Username/Normalize/Valid.antt =====
-- What `normalizeUsernameCandidate` returns, whatever text it is given.
use users.Prelude.{
  ℕ, ◌≤◌, ◌≡◌, refl, ◌⊎◌, inl, inr, Bool, true, false, List, [], ◌∷◌, Bytes, length, All,
  All-append, All-take, length-take, arith, ltb, Bool-cases,
}
use users.Username.Rule.{username_max_length, IsUsernameByte, IsUsername}
use users.Username.Unicode.{lower_runes, trim_left, trim_right, trim_last, trim}
use users.Username.Normalize.{is_allowed, write_rune, write_runes, normalize}

is_allowed-IsUsernameByte : (r : ℕ) → is_allowed r ≡ true → IsUsernameByte r
unfolding is_allowed
is_allowed-IsUsernameByte r h = ground (arith, h)

All-write_rune :
    (r : ℕ) (st : Bytes × Bool) → All IsUsernameByte st.0 → All IsUsernameByte (write_rune r st).0
unfolding write_rune
All-write_rune r (out, last_dash) h =
    let keep = λ (c : ℕ) (p : IsUsernameByte c). All-append IsUsernameByte out (c ∷ []) h (p, tt) in
    elim (Bool-cases (is_allowed r)) [
      | inl p ↦ rw p (ground (arith, h, keep r (is_allowed-IsUsernameByte r p)))
      | inr p ↦ rw p (ground (arith, h, keep b'-' (inr (inr (inr refl)))))
    ]

All-write_runes :
    (rs : List ℕ) (st : Bytes × Bool)
    → All IsUsernameByte st.0
    → All IsUsernameByte (write_runes rs st).0
unfolding write_runes
All-write_runes [] st h = h
All-write_runes (r ∷ rs) st h = All-write_runes rs (write_rune r st) (All-write_rune r st h)

module _ (P : ℕ → Type 0) (c : ℕ) where
  pub All-trim_left : (s : Bytes) → All P s → All P (trim_left c s)
  unfolding trim_left
  All-trim_left [] h = h
  All-trim_left (x ∷ s) h = ground (arith, h, All-trim_left s h.1)

  All-trim_last : (x : ℕ) (s : Bytes) → P x → All P s → All P (trim_last c x s)
  unfolding trim_last
  All-trim_last x [] p h = ground (arith, p)
  All-trim_last x (y ∷ s) p h = (p, h)

  pub All-trim_right : (s : Bytes) → All P s → All P (trim_right c s)
  unfolding trim_right
  All-trim_right [] h = h
  All-trim_right (x ∷ s) h = All-trim_last x (trim_right c s) h.0 (All-trim_right s h.1)

module _ (unicode_lower : ℕ → ℕ) where
  All-normalize : (value : Bytes) → All IsUsernameByte (normalize unicode_lower value)
  unfolding normalize trim
  All-normalize [] = tt
  All-normalize (c ∷ s) =
      let written = write_runes (lower_runes unicode_lower (c ∷ s)) ([], false) in
      let h = All-trim_right IsUsernameByte b'-' (trim_left b'-' written.0) (
        All-trim_left IsUsernameByte b'-' written.0
          (All-write_runes (lower_runes unicode_lower (c ∷ s)) ([], false) tt)) in
      elim (Bool-cases (ltb username_max_length (length (trim b'-' written.0)))) [
        | inl p ↦ rw p (All-take IsUsernameByte username_max_length (trim b'-' written.0) h)
        | inr p ↦ rw p h
      ]

  length-normalize : (value : Bytes) → length (normalize unicode_lower value) ≤ username_max_length
  unfolding normalize
  length-normalize [] = omega arith
  length-normalize (c ∷ s) =
      let normalized = trim b'-' (write_runes (lower_runes unicode_lower (c ∷ s)) ([], false)).0 in
      elim (Bool-cases (ltb username_max_length (length normalized))) [
        | inl p ↦ rw p (omega (arith, length-take username_max_length normalized))
        | inr p ↦ rw p (ground arith)
      ]

  -- Whatever the text and the Unicode tables, the result is empty or a valid username.
  pub normalize-IsUsername :
      (value : Bytes)
      → (normalize unicode_lower value ≡ []) ⊎ IsUsername (normalize unicode_lower value)
  normalize-IsUsername value =
      go (normalize unicode_lower value) (All-normalize value) (length-normalize value)
    where
      go :
          (u : Bytes)
          → All IsUsernameByte u
          → length u ≤ username_max_length
          → (u ≡ []) ⊎ IsUsername u
      go [] h l = inl refl
      go (c ∷ s) h l = inr (record { not_empty = omega arith; fits = l; bytes = h })
