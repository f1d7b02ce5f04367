-- ===== src/Username/Normalize/Dashes.antt =====
-- The dashes of a normalised name.
use users.Prelude.{
  ℕ, zero, suc, ◌≡◌, ◌≢◌, refl, inl, inr, Bool, true, false, List, [], ◌∷◌, ◌++◌, Bytes, length,
  take, ◌==◌, ==_iff, if◌then◌else◌, arith, ltb, Bool-cases, ◌∙◌,
}
use users.Username.Rule.{username_max_length}
use users.Username.Unicode.{lower_runes, trim_left, trim_right, trim_last, trim}
use users.Username.Normalize.{is_allowed, write_rune, write_runes, normalize}

-- The first byte of the text is not a dash.
abbrev pub NotDashFirst : Bytes → Type 0
NotDashFirst [] = Unit
NotDashFirst (x ∷ s) = x ≢ b'-'

abbrev pub Apart : ℕ → Bytes → Type 0
Apart x [] = Unit
Apart x (y ∷ s) = (x ≡ b'-') → (y ≢ b'-')

-- No two dashes stand side by side.
abbrev pub SingleDashes : Bytes → Type 0
SingleDashes [] = Unit
SingleDashes (x ∷ s) = Apart x s × SingleDashes s

-- `lastDash` says whether the builder ends in a dash.
abbrev ends_in_dash : Bytes → Bool
ends_in_dash [] = false
ends_in_dash (x ∷ []) = x == b'-'
ends_in_dash (x ∷ y ∷ s) = ends_in_dash (y ∷ s)

ends_in_dash-append : (s : Bytes) (r : ℕ) → ends_in_dash (s ++ r ∷ []) ≡ (r == b'-')
ends_in_dash-append [] r = refl
ends_in_dash-append (x ∷ []) r = refl
ends_in_dash-append (x ∷ y ∷ s) r = ends_in_dash-append (y ∷ s) r

Single-append :
    (s : Bytes) (r : ℕ)
    → SingleDashes s
    → (ends_in_dash s ≡ true → r ≢ b'-')
    → SingleDashes (s ++ r ∷ [])
Single-append [] r h k = (tt, tt)
Single-append (x ∷ []) r h k = ((λ e. k ((==_iff x b'-').1 e)), (tt, tt))
Single-append (x ∷ y ∷ s) r h k = (h.0, Single-append (y ∷ s) r h.1 k)

record DashState (st : Bytes × Bool) : Type 0 where
  single : SingleDashes st.0
  last : ends_in_dash st.0 ≡ st.1

append_other :
    (r : ℕ) (out : Bytes)
    → (r == b'-') ≡ false
    → SingleDashes out
    → DashState (out ++ r ∷ [], false)
append_other r out d h = record {
  single = Single-append out r h (λ _ e. ground (arith, e));
  last = ends_in_dash-append out r ∙ d;
}

append_dash :
    (out : Bytes) → ends_in_dash out ≡ false → SingleDashes out → DashState (out ++ b'-' ∷ [], true)
append_dash out l h = record {
  single = Single-append out b'-' h (λ e. cc);
  last = ends_in_dash-append out b'-';
}

DashState-write_rune : (r : ℕ) (st : Bytes × Bool) → DashState st → DashState (write_rune r st)
unfolding write_rune
DashState-write_rune r (out, last_dash) h = elim (Bool-cases (is_allowed r)) [
  | inl p ↦ rw p (elim (Bool-cases (r == b'-')) [
    | inl d ↦ rw d (rw ((==_iff r b'-').0 d) (finish last_dash h))
    | inr d ↦ rw d (append_other r out d h.single)
  ])
  | inr p ↦ rw p (finish last_dash h)
]
  where
    finish :
        (l : Bool)
        → DashState (out, l)
        → DashState (if l then (out, true) else (out ++ b'-' ∷ [], true))
    finish true k = k
    finish false k = append_dash out k.last k.single

DashState-write_runes :
    (rs : List ℕ) (st : Bytes × Bool) → DashState st → DashState (write_runes rs st)
unfolding write_runes
DashState-write_runes [] st h = h
DashState-write_runes (r ∷ rs) st h =
    DashState-write_runes rs (write_rune r st) (DashState-write_rune r st h)

module _ (c : ℕ) where
  Single-trim_left : (s : Bytes) → SingleDashes s → SingleDashes (trim_left c s)
  unfolding trim_left
  Single-trim_left [] h = h
  Single-trim_left (x ∷ s) h = ground (arith, h.0, h.1, Single-trim_left s h.1)

-- A part of a text from its start on: the same bytes, and perhaps fewer.
data Front : Bytes → Bytes → Type 0 where
  none_of : (s : Bytes) → Front [] s
  next_of : (x : ℕ) {s t : Bytes} → Front s t → Front (x ∷ s) (x ∷ t)

Front-trim_last : (c x : ℕ) {s t : Bytes} → Front t s → Front (trim_last c x t) (x ∷ s)
unfolding trim_last
Front-trim_last c x (none_of s) = elim (Bool-cases (x == c)) [
  | inl p ↦ rw p (none_of (x ∷ s))
  | inr p ↦ rw p (next_of x (none_of s))
]
Front-trim_last c x (next_of y f) = next_of x (next_of y f)

Front-trim_right : (c : ℕ) (s : Bytes) → Front (trim_right c s) s
unfolding trim_right
Front-trim_right c [] = none_of []
Front-trim_right c (x ∷ s) = Front-trim_last c x (Front-trim_right c s)

Front-take : (n : ℕ) (s : Bytes) → Front (take n s) s
Front-take zero s = none_of s
Front-take (suc n) [] = none_of []
Front-take (suc n) (x ∷ s) = next_of x (Front-take n s)

Single-Front : {s t : Bytes} → Front s t → SingleDashes t → SingleDashes s
Single-Front (none_of s) h = tt
Single-Front (next_of x (none_of s)) h = (tt, tt)
Single-Front (next_of x (next_of y f)) h = (h.0, Single-Front (next_of y f) h.1)

NotDashFirst-Front : {s t : Bytes} → Front s t → NotDashFirst t → NotDashFirst s
NotDashFirst-Front (none_of s) h = tt
NotDashFirst-Front (next_of x f) h = h

NotDashFirst-trim_left : (s : Bytes) → NotDashFirst (trim_left b'-' s)
unfolding trim_left
NotDashFirst-trim_left [] = tt
NotDashFirst-trim_left (x ∷ s) = ground (arith, NotDashFirst-trim_left s)

-- Whatever the text, the normalised name has no two dashes in a row and does not begin with one.
pub normalize-SingleDashes :
    (unicode_lower : ℕ → ℕ) (value : Bytes)
    → SingleDashes (normalize unicode_lower value) × NotDashFirst (normalize unicode_lower value)
unfolding normalize trim
normalize-SingleDashes unicode_lower [] = (tt, tt)
normalize-SingleDashes unicode_lower (c ∷ s) =
    let start = (write_runes (lower_runes unicode_lower (c ∷ s)) ([], false)).0 in
    let trimmed = trim_right b'-' (trim_left b'-' start) in
    let front = Front-trim_right b'-' (trim_left b'-' start) in
    let single = Single-Front front (
      Single-trim_left b'-' start
        (DashState-write_runes (lower_runes unicode_lower (c ∷ s)) ([], false)
          (record { single = tt; last = refl })).single) in
    let first = NotDashFirst-Front front (NotDashFirst-trim_left start) in
    elim (Bool-cases (ltb username_max_length (length trimmed))) [
      | inl p ↦ rw p (
        Single-Front (Front-take username_max_length trimmed) single,
        NotDashFirst-Front (Front-take username_max_length trimmed) first,
      )
      | inr p ↦ rw p (single, first)
    ]
