-- ===== src/Store/Search/Like.antt =====
-- An escaped prefix with a percent sign behind it matches exactly the texts that begin with it.
use users.Prelude.{
  ℕ, ◌≡◌, refl, Bool, false, ◌||◌, [], ◌∷◌, ◌++◌, Bytes, has_prefix, ◌==◌, arith, Bool-cases, inl,
  inr,
}
use users.Store.Search.{escape_like_pattern, match_head, like}

abbrev is_special : ℕ → Bool
is_special c = c == b'\\' || c == b'%' || c == b'_'

-- A byte with no meaning of its own stands for itself.
like-literal :
    (c : ℕ) (pattern' s : Bytes)
    → is_special c ≡ false
    → like (c ∷ pattern') s ≡ match_head c (like pattern') s
unfolding like
like-literal c [] s h = ground (arith, h)
like-literal c (d ∷ pattern') s h = ground (arith, h)

like-escaped :
    (c : ℕ) (pattern' s : Bytes) → like (b'\\' ∷ c ∷ pattern') s ≡ match_head c (like pattern') s
unfolding like
like-escaped c pattern' s = refl

match_head-has_prefix :
    (c : ℕ) (p s : Bytes) (f : Bytes → Bool)
    → ((t : Bytes) → f t ≡ has_prefix t p)
    → match_head c f s ≡ has_prefix s (c ∷ p)
unfolding match_head has_prefix
match_head-has_prefix c p [] f h = refl
match_head-has_prefix c p (x ∷ s) f h = rw (h s)

-- `username LIKE escapeLikePattern(prefix) + "%"` holds exactly of the texts that begin with the
-- prefix, whatever bytes the prefix has.
pub like-escape_like_pattern :
    (prefix s : Bytes) → like (escape_like_pattern prefix ++ b'%' ∷ []) s ≡ has_prefix s prefix
unfolding escape_like_pattern
like-escape_like_pattern [] s = unfold like has_prefix in refl
like-escape_like_pattern (c ∷ p) s = elim (Bool-cases (is_special c)) [
  | inl e ↦ rw (e, like-escaped) (match_head-has_prefix c p s _ (like-escape_like_pattern p))
  | inr e ↦
      rw (e, like-literal c (escape_like_pattern p ++ b'%' ∷ []) s e)
        (match_head-has_prefix c p s _ (like-escape_like_pattern p))
]
