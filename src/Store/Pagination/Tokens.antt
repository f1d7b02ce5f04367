-- ===== src/Store/Pagination/Tokens.antt =====
-- Page sizes and page tokens.
use users.Prelude.{
  ℕ, ◌≤◌, ◌<◌, ◌≡◌, ◌≢◌, refl, false, [], Bytes, bytes_eq, bytes_eq_iff, arith, Bool-cases, inl,
  inr,
}
use users.Prelude.Int.{ℤ, pos, negsuc}
use users.Errors.{ok}
use users.World.{Uuids}
use users.Store.Types.{UserId}
use users.Store.Pagination.{
  default_list_page_size, max_list_page_size, normalize_page_size, Base64, encode_page_token,
  decode_page_token,
}

-- What a page size becomes.
pub record IsNormalized (size : ℤ) (n : ℕ) : Type 0 where
  pub positive : 0 < n
  pub bounded : n ≤ max_list_page_size
  pub kept : (k : ℕ) → size ≡ pos k → 0 < k → k ≤ max_list_page_size → n ≡ k
  pub cut : (k : ℕ) → size ≡ pos k → max_list_page_size < k → n ≡ max_list_page_size
  pub defaulted :
      (size ≡ pos 0 → n ≡ default_list_page_size)
      × ((k : ℕ) → size ≡ negsuc k → n ≡ default_list_page_size)

-- Every size is normalised into 1 to 100: a size in that range is kept, a larger one is cut to 100,
-- and zero or less is read as 50.
pub normalize_page_size-IsNormalized : (size : ℤ) → IsNormalized size (normalize_page_size size)
unfolding normalize_page_size
normalize_page_size-IsNormalized (negsuc m) = record {
  positive = omega arith;
  bounded = omega arith;
  kept = λ k e. absurd (cc);
  cut = λ k e. absurd (cc);
  defaulted = ((λ e. refl), (λ k e. refl));
}
normalize_page_size-IsNormalized (pos m) = record {
  positive = ground arith;
  bounded = ground arith;
  kept = λ k e l h. ground (arith, e, l, h);
  cut = λ k e h. ground (arith, e, h);
  defaulted = ((λ e. ground (arith, e)), (λ k e. absurd (cc)));
}

-- A page token is decoded to the id that it was made from.
pub decode-encode_page_token :
    (uuids : Uuids) (base64 : Base64) (id : UserId)
    → decode_page_token uuids base64 (encode_page_token uuids base64 id) ≡ ok id
unfolding decode_page_token encode_page_token
decode-encode_page_token uuids base64 id =
    rw
      (
        not_empty (base64.encode-ne-nil (uuids.to_string id) (uuids.to_string-ne-nil id)),
        base64.decode-encode,
        uuids.parse-to_string,
      )
      refl
  where
    not_empty : {s : Bytes} → s ≢ [] → bytes_eq s [] ≡ false
    not_empty {s} h = elim (Bool-cases (bytes_eq s [])) [
      | inl e ↦ absurd (h ((bytes_eq_iff s []).0 e))
      | inr e ↦ e
    ]
