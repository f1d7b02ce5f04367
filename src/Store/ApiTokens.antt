-- ===== src/Store/ApiTokens.antt =====
-- The API tokens of internal/store/store.go.
pub mod Consistent
pub mod Ownership
pub mod RoundTrip
use users.Prelude.{ℕ, Bool, Option, none, some, List, Bytes, ◌==◌, if◌then◌else◌}
use users.Errors.{Result, ok, err, not_found, is_no_rows, Error}
use users.World.{Environment, M, raise, lift, pure, attempt, statement, ◌>>=◌}
use users.Store.Types.{UserId, ApiToken, ApiTokenRow, CreateApiTokenInput, Database}
use users.Store.Rows.{scan_api_token}
use users.Store.Users.{scan_all}
use users.Store.Statements.{
  insert_api_token, select_api_tokens, delete_api_token_rows, touch_api_token, select_api_token,
}

unfoldable pub create_api_token : Environment → CreateApiTokenInput → M ApiToken
create_api_token env input = do
  row ← statement env (λ id now db. insert_api_token id now input db)
  lift (scan_api_token row)

pub list_api_tokens : Environment → UserId → M (List ApiToken)
unfolding scan_all
list_api_tokens env identity_id = do
  rows ← statement env (λ _ _ db. (ok (select_api_tokens identity_id db), db))
  lift (scan_all scan_api_token rows)

after_revoke : ℕ → M (Unit {0})
after_revoke affected = if affected == 0 then raise (not_found "api token") else pure tt

pub revoke_api_token : Environment → UserId → UserId → M (Unit {0})
unfolding after_revoke
revoke_api_token env identity_id token_id = do
  affected ← statement env (λ _ _ db. (
    ok (delete_api_token_rows token_id identity_id db).0,
    (delete_api_token_rows token_id identity_id db).1,
  ))
  after_revoke affected

-- The second statement of `ResolveAPIToken`, for an expired or unknown token.
after_select : Result ApiToken → M ApiToken
unfolding is_no_rows
after_select (ok token) = pure token
after_select (err e) = raise (if is_no_rows e then not_found "api token" else e)

query_token : Environment → Bytes → M ApiToken
query_token env token_hash = do
  row ← statement env (λ _ _ db. (select_api_token token_hash db, db))
  lift (scan_api_token row)

after_touch : Environment → Bytes → Result ApiToken → M ApiToken
unfolding is_no_rows after_select query_token
after_touch env token_hash (ok token) = pure token
after_touch env token_hash (err e) =
    if is_no_rows e
    then (do found ← attempt (query_token env token_hash); after_select found)
    else raise e

touch_and_scan : Environment → Bytes → M ApiToken
touch_and_scan env token_hash = do
  row ← statement env (λ _ now db. touch_api_token now token_hash db)
  lift (scan_api_token row)

unfoldable pub resolve_api_token : Environment → Bytes → M ApiToken
unfolding after_touch touch_and_scan
resolve_api_token env token_hash = do
  touched ← attempt (touch_and_scan env token_hash)
  after_touch env token_hash touched
