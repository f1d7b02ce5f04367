-- ===== src/Server/Raises/Handlers.antt =====
-- Every error that the service answers with is a gRPC status.
use users.Prelude.{ℕ, ◌≡◌, true, Option, List, Bytes}
use users.Prelude.Int.{ℤ}
use users.Errors.{Result, err, Error, is_status}
use users.World.{Environment, World, M, pure, ◌>>=◌}
use users.Store.Types.{Time}
use users.Store.Pagination.{Base64}
use users.Server.Auth.{Metadata}
use users.Server.Users
use users.Server.Users.{ResolveOrCreateUserRequest}
use users.Server.Users.Raises.{
  Raises-resolve_or_create_user, Raises-get_user_by_oidc_subject, Raises-batch_get_users,
  Raises-get_me, Raises-update_me, Raises-search_directory,
}
use users.Server.Tokens
use users.Server.Tokens.Raises.{
  Raises-create_api_token, Raises-list_api_tokens, Raises-revoke_api_token,
  Raises-resolve_api_token,
}
use users.Server.Devices
use users.Server.Devices.Raises.{Raises-create_device, Raises-list_devices, Raises-delete_device}
use users.Server.Admin.{AdminRequest, handle}
use users.Server.Admin.Raises.{Raises-handle}
use users.Server.Raises.{Raises, raises_rules}

-- The requests of users.v1.UsersService.
pub data Request : Type 0 where
  administer : AdminRequest → Request
  resolve_or_create_user : ResolveOrCreateUserRequest → Request
  get_user_by_oidc_subject : (oidc_subject : Bytes) → Request
  batch_get_users : (identity_ids : List Bytes) → Request
  get_me : Request
  update_me : (name username : Option Bytes) → Request
  search_users : (prefix : Bytes) (limit : ℤ) → Request
  create_api_token : (name : Bytes) (expires_at : Option (Result Time)) → Request
  list_api_tokens : Request
  revoke_api_token : (token_id : Bytes) → Request
  resolve_api_token : (token_hash : Bytes) → Request
  create_device : (name : Bytes) → Request
  list_devices : (page_size : ℤ) (page_token : Bytes) → Request
  delete_device : (id : Bytes) → Request

-- The handler that RegisterUsersServiceServer registers for the request, without its response.
answered : {A : Type 0} → M A → M (Unit {0})
answered m = m >>= λ _. pure tt

unfoldable pub serve_request : Environment → Base64 → ℕ → Metadata → Request → M (Unit {0})
unfolding answered handle Users.resolve_or_create_user Users.get_user_by_oidc_subject
    Users.batch_get_users Users.get_me Users.update_me Users.search_directory
    Tokens.create_api_token Tokens.list_api_tokens Tokens.revoke_api_token Tokens.resolve_api_token
    Devices.create_device Devices.list_devices Devices.delete_device
serve_request env base64 fuel metadata (administer req) = answered (handle env base64 metadata req)
serve_request env base64 fuel metadata (resolve_or_create_user req) =
    answered (Users.resolve_or_create_user env req)
serve_request env base64 fuel metadata (get_user_by_oidc_subject s) =
    answered (Users.get_user_by_oidc_subject env s)
serve_request env base64 fuel metadata (batch_get_users ids) =
    answered (Users.batch_get_users env ids)
serve_request env base64 fuel metadata get_me = answered (Users.get_me env metadata)
serve_request env base64 fuel metadata (update_me name username) =
    answered (Users.update_me env metadata name username)
serve_request env base64 fuel metadata (search_users prefix limit) =
    answered (Users.search_directory env metadata prefix limit)
serve_request env base64 fuel metadata (create_api_token name expires_at) =
    answered (Tokens.create_api_token env metadata name expires_at)
serve_request env base64 fuel metadata list_api_tokens =
    answered (Tokens.list_api_tokens env metadata)
serve_request env base64 fuel metadata (revoke_api_token id) =
    answered (Tokens.revoke_api_token env metadata id)
serve_request env base64 fuel metadata (resolve_api_token hash) =
    answered (Tokens.resolve_api_token env hash)
serve_request env base64 fuel metadata (create_device name) =
    answered (Devices.create_device env fuel metadata name)
serve_request env base64 fuel metadata (list_devices page_size page_token) =
    answered (Devices.list_devices env base64 metadata page_size page_token)
serve_request env base64 fuel metadata (delete_device id) =
    answered (Devices.delete_device env metadata id)

Raises-answered : {A : Type 0} (m : M A) → Raises m → Raises (answered m)
unfolding answered
Raises-answered m h = search (raises_rules, h)

Raises-serve_request :
    (env : Environment) (base64 : Base64) (fuel : ℕ) (metadata : Metadata) (req : Request)
    → Raises (serve_request env base64 fuel metadata req)
unfolding serve_request
Raises-serve_request env base64 fuel metadata (administer req) =
    Raises-answered (handle env base64 metadata req) (Raises-handle env base64 metadata req)
Raises-serve_request env base64 fuel metadata (resolve_or_create_user req) =
    Raises-answered (Users.resolve_or_create_user env req) (Raises-resolve_or_create_user env req)
Raises-serve_request env base64 fuel metadata (get_user_by_oidc_subject s) =
    Raises-answered (Users.get_user_by_oidc_subject env s) (Raises-get_user_by_oidc_subject env s)
Raises-serve_request env base64 fuel metadata (batch_get_users ids) =
    Raises-answered (Users.batch_get_users env ids) (Raises-batch_get_users env ids)
Raises-serve_request env base64 fuel metadata get_me =
    Raises-answered (Users.get_me env metadata) (Raises-get_me env metadata)
Raises-serve_request env base64 fuel metadata (update_me name username) =
    Raises-answered (Users.update_me env metadata name username)
      (Raises-update_me env metadata name username)
Raises-serve_request env base64 fuel metadata (search_users prefix limit) =
    Raises-answered (Users.search_directory env metadata prefix limit)
      (Raises-search_directory env metadata prefix limit)
Raises-serve_request env base64 fuel metadata (create_api_token name expires_at) =
    Raises-answered (Tokens.create_api_token env metadata name expires_at)
      (Raises-create_api_token env metadata name expires_at)
Raises-serve_request env base64 fuel metadata list_api_tokens =
    Raises-answered (Tokens.list_api_tokens env metadata) (Raises-list_api_tokens env metadata)
Raises-serve_request env base64 fuel metadata (revoke_api_token id) =
    Raises-answered (Tokens.revoke_api_token env metadata id)
      (Raises-revoke_api_token env metadata id)
Raises-serve_request env base64 fuel metadata (resolve_api_token hash) =
    Raises-answered (Tokens.resolve_api_token env hash) (Raises-resolve_api_token env hash)
Raises-serve_request env base64 fuel metadata (create_device name) =
    Raises-answered (Devices.create_device env fuel metadata name)
      (Raises-create_device env fuel metadata name)
Raises-serve_request env base64 fuel metadata (list_devices page_size page_token) =
    Raises-answered (Devices.list_devices env base64 metadata page_size page_token)
      (Raises-list_devices env base64 metadata page_size page_token)
Raises-serve_request env base64 fuel metadata (delete_device id) =
    Raises-answered (Devices.delete_device env metadata id) (Raises-delete_device env metadata id)

-- Whatever the request, the caller, the tables and the answers of the other services, an error of the
-- handler is a gRPC status: no other error reaches the caller, no conversion panics, and the loop over
-- username candidates does not run out of fuel.
pub serve_request-is_status :
    (env : Environment) (base64 : Base64) (fuel : ℕ) (metadata : Metadata) (req : Request)
    (w : World) (e : Error)
    → (serve_request env base64 fuel metadata req w).0 ≡ err e
    → is_status e ≡ true
serve_request-is_status env base64 fuel metadata req w e h =
    (Raises-serve_request env base64 fuel metadata req).error w e h
