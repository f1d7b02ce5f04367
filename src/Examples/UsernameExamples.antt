-- ===== src/Examples/UsernameExamples.antt =====
-- The theorems about usernames, at concrete inputs.
use users.Prelude.{
  ◌≡◌, refl, none, some, List, [], Bytes, codes, length, All, ◌⊎◌, ◌↔◌, arith, byte_at,
}
use users.Errors.{ok}
use users.Digest.{constant_digest}
use users.Samples.{zero_entropy}
use users.Username.Rule.{
  IsUsername, validate_username, validate_username_iff, is_username_byte, all_username_bytes,
  all_username_bytes_iff,
}
use users.Username.Normalize.{normalize}
use users.Username.Normalize.Valid.{normalize-IsUsername}
use users.Username.Derive.{derive_username_base, derive_username_base-IsUsername}
use users.Username.Candidates.{new_candidate_iterator, next, random_username_suffix, random_letters}
use users.Username.Candidates.Valid.{IsSuffix, next-IsUsername, new_candidate_iterator-IsSound}
use users.Username.Candidates.Count.{Offers, AlwaysDraws, new_candidate_iterator-Offers}

abbrev ada : Bytes
ada = codes "ada"

ada-IsUsername : IsUsername ada
unfolding is_username_byte all_username_bytes
ada-IsUsername = record {
  not_empty = omega arith;
  fits = omega arith;
  bytes = (all_username_bytes_iff (codes "ada")).0 refl;
}

validate_username_iff_example : (validate_username ada ≡ none) ↔ IsUsername ada
validate_username_iff_example = validate_username_iff ada

normalize-IsUsername_example :
    (normalize (λ c. c) (codes "Ada L.") ≡ []) ⊎ IsUsername (normalize (λ c. c) (codes "Ada L."))
normalize-IsUsername_example = normalize-IsUsername (λ c. c) (codes "Ada L.")

derive_username_base-IsUsername_example :
    IsUsername (derive_username_base (λ c. c) constant_digest [] (codes "ada@example.org") [] ada)
derive_username_base-IsUsername_example =
    derive_username_base-IsUsername (λ c. c) constant_digest [] (codes "ada@example.org") [] ada

dash_two-IsSuffix : IsSuffix (codes "-2")
unfolding is_username_byte all_username_bytes
dash_two-IsSuffix = record {
  not_empty = omega arith;
  short = omega arith;
  bytes = (all_username_bytes_iff (codes "-2")).0 refl;
}

ada_candidate : (next (new_candidate_iterator zero_entropy ada)).1 ≡ ok (some ada)
unfolding next new_candidate_iterator
ada_candidate = refl

next-IsUsername_example : IsUsername ada
next-IsUsername_example =
    next-IsUsername (new_candidate_iterator zero_entropy ada)
      (new_candidate_iterator-IsSound zero_entropy ada ada-IsUsername) ada ada_candidate

zero_entropy-AlwaysDraws : AlwaysDraws (new_candidate_iterator zero_entropy ada)
unfolding new_candidate_iterator random_username_suffix random_letters byte_at
zero_entropy-AlwaysDraws call = (codes "aaaa", refl)

new_candidate_iterator-Offers_example :
    (cs : List Bytes) × Offers (new_candidate_iterator zero_entropy ada) cs
    × (length cs ≡ 104)
    × All IsUsername cs
new_candidate_iterator-Offers_example =
    new_candidate_iterator-Offers zero_entropy ada ada-IsUsername zero_entropy-AlwaysDraws
