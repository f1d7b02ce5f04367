-- ===== src/Server/Users.antt =====
-- The handlers of internal/server/server.go for user accounts that no administrator has to call.
pub mod Raises
use users.Prelude.{
  ℕ, Bool, true, false, not, ◌||◌, Option, none, some, List, [], ◌∷◌, map, Bytes, bytes_eq, length,
  ltb, ◌==◌, if◌then◌else◌,
}
use users.Prelude.Int.{ℤ, pos, negsuc}
use users.Errors.{
  Result, ok, err, Error, Code, status, status_from, invalid_argument, internal, already_exists,
  status_code,
}
use users.World.{
  Environment, M, Uuids, register_identity, pure, raise, lift, attempt, invoke, ◌>>=◌, ◌>>◌,
}
use users.Username.Rule.{
  validate_username, validate_username_prefix, username_search_default, username_search_max,
}
use users.Username.Derive.{derive_username_base}
use users.Username.Candidates.{new_candidate_iterator}
use users.Store.Types.{UserId, User, UserInput, UserUpdate, UserDirectoryEntry}
use users.Store.Users
use users.Store.Update.{update_user}
use users.Store.Search.{search_users}
use users.Server.Status.{or_fail, to_status_error, parse_uuid, ClusterRole}
use users.Server.Auth.{Metadata, require_identity, resolve_cluster_role}
use users.Server.Proto.{ProtoUser, to_proto_user}
use users.Server.Allocate.{allocate, allocate_rounds}

pub record ResolveOrCreateUserRequest : Type 0 where
  pub oidc_subject : Bytes
  pub preferred_username : Bytes
  pub email : Bytes
  pub name : Bytes
  pub photo_url : Bytes

-- A guard that turns a validation error into the handler's error.
unfoldable pub reject : Option Error → (Error → Error) → M (Unit {0})
reject none f = pure tt
reject (some e) f = raise (f e)

unfoldable pub require : Bool → Error → M (Unit {0})
require true e = pure tt
require false e = raise e

unfoldable pub register : Environment → UserId → M (Unit {0})
register env id =
    let identity_id = env.uuids.to_string id in
    invoke (register_identity identity_id) (λ clock. env.register_identity clock identity_id)

is_code_already_exists : Code → Bool
is_code_already_exists already_exists = true
is_code_already_exists _ = false

-- `_ = s.store.DeleteUser(…)` and the error that is returned
unfoldable pub undo_create : {A : Type 0} → Environment → UserId → Error → M A
undo_create env id e = do _ ← attempt (Users.delete_user env id); raise e

-- What `ResolveOrCreateUser` does with an error of RegisterIdentity.
register_failed : Environment → User → Bool → Error → M (Unit {0})
unfolding undo_create
register_failed env user true e =
    undo_create env user.meta.id (status_from internal "register identity" e)
register_failed env user false e = pure tt

after_register : Environment → User → Bool → Result (Unit {0}) → M (Unit {0})
unfolding register_failed is_code_already_exists status_code
after_register env user created (ok _) = pure tt
after_register env user created (err e) =
    if is_code_already_exists (status_code e) then pure tt else register_failed env user created e

resolve_input : ResolveOrCreateUserRequest → Bytes → UserInput
resolve_input req candidate = record {
  oidc_subject = req.oidc_subject;
  name = req.name;
  email = req.email;
  nickname = [];
  username = candidate;
  photo_url = req.photo_url;
}

unfoldable pub resolve_or_create_user :
    Environment → ResolveOrCreateUserRequest → M (ProtoUser × Bool)
unfolding require register after_register resolve_input bytes_eq derive_username_base
resolve_or_create_user env req = do
  require (not (bytes_eq req.oidc_subject []))
      (status invalid_argument "oidc_subject must be provided")
  let base =
      derive_username_base env.unicode_lower env.digest req.preferred_username req.email req.name
        req.oidc_subject
  (user, created) ←
      allocate allocate_rounds (λ c. Users.resolve_or_create_user env (resolve_input req c))
        (new_candidate_iterator env.entropy base)
  registered ← attempt (register env user.meta.id)
  after_register env user created registered
  pure (to_proto_user env.uuids user, created)

unfoldable pub get_user_by_oidc_subject : Environment → Bytes → M ProtoUser
unfolding require or_fail bytes_eq
get_user_by_oidc_subject env oidc_subject = do
  require (not (bytes_eq oidc_subject [])) (status invalid_argument "oidc_subject must be provided")
  user ← or_fail to_status_error (Users.get_user_by_oidc_subject env oidc_subject)
  pure (to_proto_user env.uuids user)

-- The loop over the ids: the first one that is not a UUID is reported.
parse_all : Uuids → List Bytes → Result (List UserId)
unfolding parse_uuid
parse_all uuids [] = ok []
parse_all uuids (s ∷ ss) =
    let rest = parse_all uuids ss in
    elim (parse_uuid uuids s) [
      | err e ↦ err (status_from invalid_argument "identity_ids" e)
      | ok id ↦ elim rest [ err e ↦ err e | ok ids ↦ ok (id ∷ ids) ]
    ]

get_batch : Environment → List Bytes → M (List ProtoUser)
unfolding require or_fail parse_all
get_batch env identity_ids = do
  require (not (ltb 100 (length identity_ids)))
      (status invalid_argument "batch size exceeds maximum of 100")
  ids ← lift (parse_all env.uuids identity_ids)
  users ← or_fail to_status_error (Users.batch_get_users env ids)
  pure (map (to_proto_user env.uuids) users)

unfoldable pub batch_get_users : Environment → List Bytes → M (List ProtoUser)
unfolding get_batch
batch_get_users env [] = pure []
batch_get_users env (s ∷ ss) = get_batch env (s ∷ ss)

unfoldable pub get_me : Environment → Metadata → M (ProtoUser × ClusterRole)
unfolding require_identity or_fail resolve_cluster_role
get_me env metadata = do
  id ← require_identity env metadata
  user ← or_fail to_status_error (Users.get_user env id)
  role ← or_fail (status_from internal "authorization check") (resolve_cluster_role env id)
  pure (to_proto_user env.uuids user, role)

-- The validation of an optional username.
unfoldable pub check_username : Option Bytes → M (Unit {0})
unfolding reject validate_username
check_username none = pure tt
check_username (some value) =
    reject (validate_username value) (status_from invalid_argument "username")

abbrev pub given {ℓ} : {A : Type ℓ} → Option A → Bool
given none = false
given (some a) = true

unfoldable pub update_me :
    Environment → Metadata → (name username : Option Bytes) → M (ProtoUser × ClusterRole)
unfolding require_identity require check_username or_fail resolve_cluster_role
update_me env metadata name username = do
  id ← require_identity env metadata
  require (given name || given username)
      (status invalid_argument "at least one field must be provided")
  check_username username
  let update : UserUpdate = record {
    name = name;
    email = none;
    nickname = none;
    username = username;
    photo_url = none;
  }
  user ← or_fail to_status_error (update_user env id update)
  role ← or_fail (status_from internal "authorization check") (resolve_cluster_role env id)
  pure (to_proto_user env.uuids user, role)

-- The limit of a search: 0 stands for the default.
search_limit : ℤ → Result ℕ
search_limit (negsuc n) = err (status invalid_argument "limit must be positive")
search_limit (pos n) =
    let limit = if n == 0 then username_search_default else n in
    if ltb username_search_max limit
    then err (status invalid_argument "limit must be <= 20")
    else ok limit

unfoldable pub search_directory :
    Environment → Metadata → Bytes → ℤ → M (List (Bytes × Bytes × Bytes × Bytes))
unfolding require_identity reject or_fail search_limit
search_directory env metadata prefix limit = do
  _ ← require_identity env metadata
  reject (validate_username_prefix prefix) (status_from invalid_argument "prefix")
  n ← lift (search_limit limit)
  entries ← or_fail to_status_error (search_users env prefix n)
  pure (
      map
        (λ (entry : UserDirectoryEntry).
          (env.uuids.to_string entry.identity_id, entry.username, entry.name, entry.photo_url))
        entries)
