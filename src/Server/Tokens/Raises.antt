-- ===== src/Server/Tokens/Raises.antt =====
-- The errors of the handlers for API tokens.
use users.Prelude.{Option, none, some, Bytes}
use users.Errors.{Result}
use users.World.{Environment}
use users.Store.Types.{Time, ApiToken}
use users.Server.Auth.{Metadata}
use users.Server.Auth.Raises.{Raises-require_identity}
use users.Server.Tokens.{
  in_future, check_expiry, create_api_token, list_api_tokens, revoke_api_token, unexpired,
  resolve_api_token,
}
use users.Server.Raises.{Raises, raises_rules}

module _ (env : Environment) where
  Raises-in_future : (value now : Time) → Raises (in_future value now)
  unfolding in_future
  Raises-in_future value now = search raises_rules

  Raises-check_expiry : (expires_at : Option (Result Time)) → Raises (check_expiry env expires_at)
  unfolding check_expiry
  Raises-check_expiry none = search raises_rules
  Raises-check_expiry (some timestamp) = search (raises_rules, Raises-in_future)

  pub Raises-create_api_token :
      (metadata : Metadata) (name : Bytes) (expires_at : Option (Result Time))
      → Raises (create_api_token env metadata name expires_at)
  unfolding create_api_token
  Raises-create_api_token metadata name expires_at =
      search (raises_rules, Raises-require_identity, Raises-check_expiry) depth 12

  pub Raises-list_api_tokens : (metadata : Metadata) → Raises (list_api_tokens env metadata)
  unfolding list_api_tokens
  Raises-list_api_tokens metadata = search (raises_rules, Raises-require_identity)

  pub Raises-revoke_api_token :
      (metadata : Metadata) (id : Bytes) → Raises (revoke_api_token env metadata id)
  unfolding revoke_api_token
  Raises-revoke_api_token metadata id = search (raises_rules, Raises-require_identity)

  Raises-unexpired : (token : ApiToken) (now : Time) → Raises (unexpired env token now)
  unfolding unexpired
  Raises-unexpired token now = search raises_rules

  pub Raises-resolve_api_token : (hash : Bytes) → Raises (resolve_api_token env hash)
  unfolding resolve_api_token
  Raises-resolve_api_token hash = search (raises_rules, Raises-unexpired) depth 9
