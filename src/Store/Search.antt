-- ===== src/Store/Search.antt =====
-- `SearchUsers` and `escapeLikePattern` of internal/store/store.go, with what PostgreSQL's LIKE means.
pub mod Like
pub mod Results
use users.Prelude.{
  ℕ, Bool, true, false, not, ◌&&◌, ◌||◌, Option, none, some, List, [], ◌∷◌, ◌++◌, Bytes, codes,
  bytes_eq, take, ◌==◌, if◌then◌else◌, ◌≡◌, refl,
}
use users.Prelude.Tables.{where_, sort_with}
use users.Errors.{Result, ok, err, Error}
use users.World.{Environment, M, lift, statement, ◌>>=◌}
use users.Store.Types.{UserRow, UserDirectoryEntry, Database}
use users.Store.Rows.{scan_user_directory_entry, text_of}
use users.Store.Users.{scan_all}

-- strings.NewReplacer(`\`, `\\`, `%`, `\%`, `_`, `\_`).Replace(value)
pub escape_like_pattern : Bytes → Bytes
escape_like_pattern [] = []
escape_like_pattern (c ∷ s) =
    let rest = escape_like_pattern s in
    if c == b'\\' || c == b'%' || c == b'_' then b'\\' ∷ c ∷ rest else c ∷ rest

-- A text whose first byte is `c`, with a rest that matches.
match_head : ℕ → (Bytes → Bool) → Bytes → Bool
match_head c matches [] = false
match_head c matches (x ∷ s) = x == c && matches s

skip_head : (Bytes → Bool) → Bytes → Bool
skip_head matches [] = false
skip_head matches (x ∷ s) = matches s

some_suffix : (Bytes → Bool) → Bytes → Bool
some_suffix matches [] = matches []
some_suffix matches (x ∷ s) = matches (x ∷ s) || some_suffix matches s

-- The last byte of a pattern.
like_last : ℕ → Bytes → Bool
unfolding bytes_eq skip_head match_head
like_last c s =
    if c == b'%'
    then true
    else if c == b'\\'
    then false
    else if c == b'_'
    then skip_head (λ rest. bytes_eq rest []) s
    else match_head c (λ rest. bytes_eq rest []) s

-- `s LIKE pattern` over bytes: % is any text, _ is one byte, and \ takes the next byte literally.
pub like : Bytes → Bytes → Bool
unfolding like_last some_suffix match_head skip_head bytes_eq
like [] s = bytes_eq s []
like (c ∷ []) s = like_last c s
like (c ∷ d ∷ pattern') s =
    let after_one = like (d ∷ pattern') in
    let after_two = like pattern' in
    if c == b'%'
    then some_suffix after_one s
    else if c == b'\\'
    then match_head d after_two s
    else if c == b'_'
    then skip_head after_one s
    else match_head c after_one s

-- username IS NOT NULL AND username <> '' AND username LIKE $1
is_hit : Bytes → UserRow → Bool
unfolding like bytes_eq
is_hit pattern' row = elim row.username [
  | none ↦ false
  | some u ↦ not (bytes_eq u []) && like pattern' u
]

-- ORDER BY (username = $2) DESC, username ASC
hit_le : (Bytes → Bytes → Bool) → Bytes → UserRow → UserRow → Bool
unfolding bytes_eq
hit_le text_le prefix x y =
    if bytes_eq (text_of x.username) prefix
    then true
    else if bytes_eq (text_of y.username) prefix
    then false
    else text_le (text_of x.username) (text_of y.username)

pub search_rows : (Bytes → Bytes → Bool) → Bytes → ℕ → List UserRow → List UserRow
unfolding is_hit hit_le where_ sort_with escape_like_pattern
search_rows text_le prefix limit rows = take limit (
    sort_with (hit_le text_le prefix)
      (where_ (is_hit (escape_like_pattern prefix ++ b'%' ∷ [])) rows))

unfoldable pub search_users : Environment → Bytes → ℕ → M (List UserDirectoryEntry)
unfolding search_rows scan_all scan_user_directory_entry
search_users env prefix limit = do
  rows ← statement env (λ _ _ db. (ok (search_rows env.text_le prefix limit db.users), db))
  lift (scan_all scan_user_directory_entry rows)

escape_example : escape_like_pattern (codes "a_b%") ≡ codes "a\\_b\\%"
unfolding escape_like_pattern
escape_example = refl

like_example : like (codes "a\\_%") (codes "a_bc") ≡ true
unfolding like
like_example = refl
