-- ===== src/Store/ApiTokens/Consistent.antt =====
-- The operations on API tokens keep the constraints of the tables.
use users.Prelude.{ℕ, Bytes}
use users.Errors.{Result, ok, err}
use users.World.{Environment}
use users.World.Keeps.{Keeps, Stable, Keeps-statement, Keeps-bind, Keeps-lift, keeps_rules}
use users.Prelude.Tables.{first_where}
use users.Store.Types.{UserId, ApiToken, CreateApiTokenInput}
use users.Store.Rows.{scan_api_token}
use users.Store.Statements.{touch_api_token, usable}
use users.Store.Consistent.{
  IsConsistent, insert_api_token-IsConsistent, delete_api_token_rows-IsConsistent,
  touch_found-IsConsistent,
}
use users.Store.Users.Consistent.{reads}
use users.Store.ApiTokens.{
  create_api_token, list_api_tokens, after_revoke, revoke_api_token, after_select, query_token,
  after_touch, touch_and_scan, resolve_api_token,
}

module _ (env : Environment) (stable : Stable env IsConsistent) where
  pub create_api_token-Keeps :
      (input : CreateApiTokenInput) → Keeps IsConsistent (create_api_token env input)
  unfolding create_api_token
  create_api_token-Keeps input =
      Keeps-bind _ _
        (Keeps-statement env _ stable
          (λ id now db h. insert_api_token-IsConsistent id now input db h))
        (λ row. Keeps-lift (scan_api_token row))

  pub list_api_tokens-Keeps : (id : UserId) → Keeps IsConsistent (list_api_tokens env id)
  unfolding list_api_tokens
  list_api_tokens-Keeps id = search (keeps_rules, reads env stable)

  after_revoke-Keeps : (n : ℕ) → Keeps IsConsistent (after_revoke n)
  unfolding after_revoke
  after_revoke-Keeps n = search keeps_rules

  pub revoke_api_token-Keeps :
      (id token_id : UserId) → Keeps IsConsistent (revoke_api_token env id token_id)
  unfolding revoke_api_token
  revoke_api_token-Keeps id token_id =
      Keeps-bind _ _
        (Keeps-statement env _ stable
          (λ _ _ db h. delete_api_token_rows-IsConsistent token_id id db h))
        after_revoke-Keeps

  after_select-Keeps : (r : Result ApiToken) → Keeps IsConsistent (after_select r)
  unfolding after_select
  after_select-Keeps (ok token) = search keeps_rules
  after_select-Keeps (err e) = search keeps_rules

  query_token-Keeps : (hash : Bytes) → Keeps IsConsistent (query_token env hash)
  unfolding query_token
  query_token-Keeps hash = search (keeps_rules, reads env stable)

  after_touch-Keeps :
      (hash : Bytes) (r : Result ApiToken) → Keeps IsConsistent (after_touch env hash r)
  unfolding after_touch
  after_touch-Keeps hash (ok token) = search keeps_rules
  after_touch-Keeps hash (err e) = search (keeps_rules, query_token-Keeps, after_select-Keeps)

  touch-Keeps : (hash : Bytes) → Keeps IsConsistent (touch_and_scan env hash)
  unfolding touch_and_scan touch_api_token
  touch-Keeps hash =
      Keeps-bind _ _
        (Keeps-statement env _ stable (λ _ now db h.
          touch_found-IsConsistent db h now (usable now hash)
            (first_where (usable now hash) db.api_tokens)))
        (λ row. Keeps-lift (scan_api_token row))

  pub resolve_api_token-Keeps : (hash : Bytes) → Keeps IsConsistent (resolve_api_token env hash)
  unfolding resolve_api_token
  resolve_api_token-Keeps hash = search (keeps_rules, touch-Keeps, after_touch-Keeps)
