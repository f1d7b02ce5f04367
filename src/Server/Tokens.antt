-- ===== src/Server/Tokens.antt =====
-- The handlers of internal/server/server.go for API tokens.
pub mod Expiry
pub mod Raises
use users.Prelude.{
  ℕ, Bool, true, false, not, Option, none, some, List, [], ◌∷◌, map, Bytes, bytes_eq, ltb,
  if◌then◌else◌,
}
use users.Errors.{
  Result, ok, err, Error, status, status_from, invalid_argument, internal, unauthenticated,
}
use users.World.{Environment, M, pure, raise, lift, current_time, ◌>>=◌, ◌>>◌}
use users.ApiToken.{GeneratedToken, generate}
use users.Store.Types.{UserId, Time, ApiToken}
use users.Store.ApiTokens
use users.Server.Status.{or_error, or_fail, to_status_error, parse_uuid}
use users.Server.Auth.{Metadata, require_identity}
use users.Server.Users.{require}
use users.Server.Proto.{ProtoApiToken, to_proto_api_token}

in_future : Time → Time → M (Option Time)
in_future value now =
    if ltb now value
    then pure (some value)
    else raise (status invalid_argument "expires_at must be in the future")

-- `req.ExpiresAt`, with the answer of CheckValid and AsTime.
check_expiry : Environment → Option (Result Time) → M (Option Time)
unfolding or_error in_future
check_expiry env none = pure none
check_expiry env (some timestamp) = do
  value ← lift (or_error (status_from invalid_argument "expires_at") timestamp)
  now ← current_time env
  in_future value now

-- apitoken.Generate()
generate_token : Environment → M GeneratedToken
unfolding generate
generate_token env w = (generate env.digest (env.random_bytes w.clock), w)

unfoldable pub create_api_token :
    Environment → Metadata → Bytes → Option (Result Time) → M (ProtoApiToken × Bytes)
unfolding require_identity require check_expiry generate_token or_fail bytes_eq
create_api_token env metadata name expires_at = do
  id ← require_identity env metadata
  require (not (bytes_eq name [])) (status invalid_argument "name must be provided")
  expiry ← check_expiry env expires_at
  generated ← or_fail (status_from internal "generate token") (generate_token env)
  token ← or_fail to_status_error (
      ApiTokens.create_api_token env (record {
        identity_id = id;
        name = name;
        token_hash = generated.hash;
        token_prefix = generated.token_prefix;
        expires_at = expiry;
      }))
  pure (to_proto_api_token env.uuids token, generated.plaintext)

unfoldable pub list_api_tokens : Environment → Metadata → M (List ProtoApiToken)
unfolding require_identity or_fail
list_api_tokens env metadata = do
  id ← require_identity env metadata
  tokens ← or_fail to_status_error (ApiTokens.list_api_tokens env id)
  pure (map (to_proto_api_token env.uuids) tokens)

unfoldable pub revoke_api_token : Environment → Metadata → Bytes → M (Unit {0})
unfolding require_identity or_fail or_error parse_uuid
revoke_api_token env metadata token_id = do
  id ← require_identity env metadata
  token ← lift (or_error (status_from invalid_argument "token_id") (parse_uuid env.uuids token_id))
  or_fail to_status_error (ApiTokens.revoke_api_token env id token)

-- token.ExpiresAt != nil && !token.ExpiresAt.After(now)
pub is_expired : Time → Option Time → Bool
is_expired now none = false
is_expired now (some t) = not (ltb now t)

unexpired : Environment → ApiToken → Time → M (Bytes × ProtoApiToken)
unfolding is_expired to_proto_api_token
unexpired env token now =
    if is_expired now token.expires_at
    then raise (status unauthenticated "api token expired")
    else pure (env.uuids.to_string token.identity_id, to_proto_api_token env.uuids token)

unfoldable pub resolve_api_token : Environment → Bytes → M (Bytes × ProtoApiToken)
unfolding require or_fail unexpired bytes_eq
resolve_api_token env token_hash = do
  require (not (bytes_eq token_hash [])) (status invalid_argument "token_hash must be provided")
  token ← or_fail to_status_error (ApiTokens.resolve_api_token env token_hash)
  now ← current_time env
  unexpired env token now
