-- ===== src/Store/Search/Results.antt =====
-- What a search returns.
use users.Prelude.{
  ℕ, zero, suc, ◌≤◌, ◌<◌, ◌≡◌, ◌≢◌, refl, sym, ◌∙◌, Bool, true, false, not, ◌&&◌, Option, none,
  some, List, [], ◌∷◌, ◌++◌, Bytes, bytes_eq, bytes_eq_iff, has_prefix, has_prefix-append,
  append-nil, length, length-take, take, All, All-map, All-take, arith, Bool-cases, inl, inr,
  &&-eq_true,
}
use users.Prelude.Tables.{
  where_, exists_where, insert_with, sort_with, All-where_true, All-sort_with,
}
use users.Prelude.Pairs.{exists-where_}
use users.Store.Types.{UserRow}
use users.Store.Rows.{text_of}
use users.Store.Statements.{has_username}
use users.Store.Search.{escape_like_pattern, like, is_hit, hit_le, search_rows}
use users.Store.Search.Like.{like-escape_like_pattern}

-- The row's username begins with the prefix and is not empty.
pub record IsMatch (prefix : Bytes) (row : UserRow) : Type 0 where
  pub username : Bytes
  pub named : row.username ≡ some username
  pub not_empty : username ≢ []
  pub prefixed : has_prefix username prefix ≡ true

abbrev percent : Bytes → Bytes
percent prefix = escape_like_pattern prefix ++ b'%' ∷ []

IsMatch-of :
    (prefix : Bytes) (row : UserRow) (name : Option Bytes)
    → row.username ≡ name
    → is_hit (percent prefix) row ≡ true
    → IsMatch prefix row
unfolding is_hit
IsMatch-of prefix row none e h = absurd (cc (rw (e, is_hit) at h))
IsMatch-of prefix row (some u) e h =
    let hit : (not (bytes_eq u []) && like (percent prefix) u) ≡ true = rw (e, is_hit) at h in
    let (full, liked) = &&-eq_true (not (bytes_eq u [])) (like (percent prefix) u) hit in
    record {
      username = u;
      named = e;
      not_empty = λ n. cc (rw n at full);
      prefixed = sym (like-escape_like_pattern prefix u) ∙ liked;
    }

has_prefix_self : (s : Bytes) → has_prefix s s ≡ true
has_prefix_self s = rw append-nil at (has_prefix-append s [])

not_nil : {s : Bytes} → s ≢ [] → bytes_eq s [] ≡ false
unfolding bytes_eq
not_nil {s} h = go s h
  where
    go : (t : Bytes) → t ≢ [] → bytes_eq t [] ≡ false
    go [] h = absurd (h refl)
    go (x ∷ t) h = refl

module _ (text_le : Bytes → Bytes → Bool) (prefix : Bytes) where
  -- At most `limit` rows are returned, and each has a username that begins with the prefix.
  pub search_rows-IsMatch :
      (limit : ℕ) (rows : List UserRow)
      → (length (search_rows text_le prefix limit rows) ≤ limit)
        × All (IsMatch prefix) (search_rows text_le prefix limit rows)
  unfolding search_rows
  search_rows-IsMatch limit rows =
      let hits = where_ (is_hit (percent prefix)) rows in
      let sorted = sort_with (hit_le text_le prefix) hits in
      (
        omega (arith, length-take limit sorted),
        All-take (IsMatch prefix) limit sorted (
            All-sort_with (IsMatch prefix) (hit_le text_le prefix) hits (
              All-map hits (λ row h. IsMatch-of prefix row row.username refl h)
                (All-where_true (is_hit (percent prefix)) rows))),
      )

  -- The first row has exactly the username that was asked for.
  abbrev pub ExactFirst : List UserRow → Type 0
  ExactFirst [] = ⊥
  ExactFirst (x ∷ xs) = has_username prefix x ≡ true

  exact_text :
      (x : UserRow) → has_username prefix x ≡ true → bytes_eq (text_of x.username) prefix ≡ true
  unfolding has_username
  exact_text x h = go x.username h
    where
      go :
          (o : Option Bytes)
          → elim o [ none ↦ false | some u ↦ bytes_eq u prefix ] ≡ true
          → bytes_eq (text_of o) prefix ≡ true
      go none h = absurd (cc)
      go (some u) h = h

  text_exact :
      (x : UserRow)
      → IsMatch prefix x
      → bytes_eq (text_of x.username) prefix ≡ true
      → has_username prefix x ≡ true
  unfolding has_username
  text_exact x m h = rw (m.named, has_username) (rw m.named at h)

  insert_exact :
      (x : UserRow) (ys : List UserRow)
      → has_username prefix x ≡ true
      → ExactFirst (insert_with (hit_le text_le prefix) x ys)
  unfolding insert_with hit_le
  insert_exact x [] h = h
  insert_exact x (y ∷ ys) h = rw (exact_text x h) h

  insert_behind :
      (x : UserRow) (ys : List UserRow)
      → IsMatch prefix x
      → ExactFirst ys
      → ExactFirst (insert_with (hit_le text_le prefix) x ys)
  unfolding insert_with hit_le
  insert_behind x [] m h = absurd h
  insert_behind x (y ∷ ys) m h = elim (Bool-cases (bytes_eq (text_of x.username) prefix)) [
    | inl e ↦ rw e (text_exact x m e)
    | inr e ↦ rw (e, exact_text y h) h
  ]

  sort_exact :
      (xs : List UserRow)
      → All (IsMatch prefix) xs
      → exists_where (has_username prefix) xs ≡ true
      → ExactFirst (sort_with (hit_le text_le prefix) xs)
  unfolding sort_with exists_where
  sort_exact [] m h = cc
  sort_exact (x ∷ xs) m h = elim (Bool-cases (has_username prefix x)) [
    | inl e ↦ insert_exact x (sort_with (hit_le text_le prefix) xs) e
    | inr e ↦
        insert_behind x (sort_with (hit_le text_le prefix) xs) m.0 (sort_exact xs m.1 (rw e at h))
  ]

  exact_hit :
      prefix ≢ [] → (x : UserRow) → has_username prefix x ≡ true → is_hit (percent prefix) x ≡ true
  unfolding has_username is_hit
  exact_hit full x h = go x.username h
    where
      go :
          (o : Option Bytes)
          → elim o [ none ↦ false | some u ↦ bytes_eq u prefix ] ≡ true
          → elim o [ none ↦ false | some u ↦ not (bytes_eq u []) && like (percent prefix) u ] ≡ true
      go none h = absurd (cc)
      go (some u) h =
          let e : u ≡ prefix = (bytes_eq_iff u prefix).0 h in
          rw (e, not_nil full, like-escape_like_pattern) (has_prefix_self prefix)

  take_exact :
      (limit : ℕ) (xs : List UserRow) → 0 < limit → ExactFirst xs → ExactFirst (take limit xs)
  take_exact zero xs l h = absurd (omega arith)
  take_exact (suc n) [] l h = h
  take_exact (suc n) (x ∷ xs) l h = h

  -- Where the prefix is not empty, the limit is positive and some user has exactly that username, the
  -- first result is such a user, whatever the collation.
  pub search_rows-ExactFirst :
      (limit : ℕ) (rows : List UserRow)
      → prefix ≢ []
      → 0 < limit
      → exists_where (has_username prefix) rows ≡ true
      → ExactFirst (search_rows text_le prefix limit rows)
  unfolding search_rows
  search_rows-ExactFirst limit rows full room h =
      let hits = where_ (is_hit (percent prefix)) rows in
      take_exact limit (sort_with (hit_le text_le prefix) hits) room (
        sort_exact hits
          (All-map hits (λ row k. IsMatch-of prefix row row.username refl k)
            (All-where_true (is_hit (percent prefix)) rows))
          (exists-where_ (has_username prefix) (is_hit (percent prefix)) rows (exact_hit full) h))
