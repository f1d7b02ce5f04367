-- ===== src/Server/Admin.antt =====
-- The handlers of internal/server/server.go that only a cluster administrator may call.
pub mod Guard
pub mod Raises
pub mod Undo
use users.Prelude.{
  ℕ, Bool, true, false, not, ◌&&◌, ◌||◌, Option, none, some, List, [], ◌∷◌, ◌++◌, map, Bytes, codes,
  bytes_eq, if◌then◌else◌,
}
use users.Prelude.Int.{ℤ}
use users.Errors.{Result, ok, err, Error, status, status_from, invalid_argument, internal}
use users.World.{
  Environment, M, TupleKey, Uuids, Call, list_objects, pure, raise, lift, attempt, invoke, ◌>>=◌,
  ◌>>◌,
}
use users.Username.Rule.{validate_username}
use users.Username.Derive.{derive_username_base}
use users.Username.Candidates.{new_candidate_iterator}
use users.Store.Types.{UserId, User, UserInput, UserUpdate, PageCursor, UserListResult}
use users.Store.Users
use users.Store.Update
use users.Store.Pagination
use users.Store.Pagination.{Base64, encode_page_token}
use users.Server.Status.{
  or_error, or_fail, to_status_error, parse_uuid, decode_page_cursor, ClusterRole, admin,
  unspecified, other, validate_cluster_role,
}
use users.Server.Auth.{
  Metadata, require_cluster_admin, resolve_cluster_role, sync_cluster_role, write_tuples,
  identity_object_prefix,
}
use users.Server.Proto.{ProtoUser, to_proto_user}
use users.Server.Allocate.{allocate, allocate_rounds}
use users.Server.Users.{reject, require, register, undo_create, check_username, given}

pub record UpdateUserRequest : Type 0 where
  pub identity_id : Bytes
  pub name : Option Bytes
  pub email : Option Bytes
  pub nickname : Option Bytes
  pub username : Option Bytes
  pub photo_url : Option Bytes
  pub cluster_role : Option ClusterRole

pub record CreateUserRequest : Type 0 where
  pub oidc_subject : Bytes
  pub name : Bytes
  pub nickname : Bytes
  pub photo_url : Bytes
  pub username : Option Bytes
  pub cluster_role : ClusterRole

parse_id : Environment → Bytes → M UserId
unfolding or_error parse_uuid
parse_id env identity_id =
    lift (or_error (status_from invalid_argument "identity_id") (parse_uuid env.uuids identity_id))

-- Each handler from requireClusterAdmin on.
fetch_user : Environment → Bytes → M (ProtoUser × ClusterRole)
unfolding parse_id or_fail resolve_cluster_role
fetch_user env identity_id = do
  id ← parse_id env identity_id
  user ← or_fail to_status_error (Users.get_user env id)
  role ← or_fail (status_from internal "authorization check") (resolve_cluster_role env id)
  pure (to_proto_user env.uuids user, role)

check_role : Option ClusterRole → M (Unit {0})
unfolding reject validate_cluster_role
check_role none = pure tt
check_role (some role) =
    reject (validate_cluster_role role) (status_from invalid_argument "cluster_role")

sync_given : Environment → UserId → Option ClusterRole → M (Unit {0})
unfolding or_fail sync_cluster_role
sync_given env id none = pure tt
sync_given env id (some role) =
    or_fail (status_from internal "sync cluster role") (sync_cluster_role env id role)

-- updateUser
abbrev changes_user : UpdateUserRequest → Bool
changes_user req =
    given req.name
    || given req.email
    || given req.nickname
    || given req.photo_url
    || given req.username

change_user : Environment → UpdateUserRequest → M ProtoUser
unfolding parse_id require check_role check_username sync_given or_fail
change_user env req = do
  id ← parse_id env req.identity_id
  check_role req.cluster_role
  require (changes_user req || given req.cluster_role)
      (status invalid_argument "at least one field must be provided")
  check_username req.username
  let update : UserUpdate = record {
    name = req.name;
    email = req.email;
    nickname = req.nickname;
    username = req.username;
    photo_url = req.photo_url;
  }
  user ←
      or_fail to_status_error
        (if changes_user req then Update.update_user env id update else Users.get_user env id)
  sync_given env id req.cluster_role
  pure (to_proto_user env.uuids user)

next_token : Uuids → Base64 → Option PageCursor → Bytes
unfolding encode_page_token
next_token uuids base64 none = []
next_token uuids base64 (some cursor) = encode_page_token uuids base64 cursor.after_id

-- mapListResult
unfoldable pub map_list_result :
    {T P : Type 0} → Uuids → Base64 → List T → Option PageCursor → (T → P) → List P × Bytes
unfolding next_token
map_list_result uuids base64 items next_cursor convert =
    (map convert items, next_token uuids base64 next_cursor)

page_users : Environment → Base64 → ℤ → Bytes → M (List ProtoUser × Bytes)
unfolding or_error or_fail decode_page_cursor map_list_result
page_users env base64 page_size page_token = do
  cursor ← lift (
      or_error (status_from invalid_argument "invalid page_token")
        (decode_page_cursor env.uuids base64 page_token))
  result ← or_fail to_status_error (Pagination.list_users env page_size cursor)
  pure (map_list_result env.uuids base64 result.users result.next_cursor (to_proto_user env.uuids))

create_input : CreateUserRequest → Bytes → UserInput
create_input req username = record {
  oidc_subject = req.oidc_subject;
  name = req.name;
  email = [];
  nickname = req.nickname;
  username = username;
  photo_url = req.photo_url;
}

-- The given username, or the first candidate that is free.
create_row : Environment → CreateUserRequest → Option Bytes → M User
unfolding reject or_fail create_input derive_username_base validate_username
create_row env req (some value) = do
  reject (validate_username value) (status_from invalid_argument "username")
  or_fail to_status_error (Users.create_user env (create_input req value))
create_row env req none =
    allocate allocate_rounds (λ c. Users.create_user env (create_input req c))
      (new_candidate_iterator env.entropy
        (derive_username_base env.unicode_lower env.digest [] [] req.name req.oidc_subject))

-- An error of a call after the row was made.
or_undo : Environment → UserId → (Error → Error) → Result (Unit {0}) → M (Unit {0})
unfolding undo_create
or_undo env id f (ok u) = pure tt
or_undo env id f (err e) = undo_create env id (f e)

grant : Environment → UserId → ClusterRole → M (Unit {0})
unfolding or_undo sync_cluster_role
grant env id admin = do
  synced ← attempt (sync_cluster_role env id admin)
  or_undo env id (status_from internal "sync cluster role") synced
grant env id _ = pure tt

add_user : Environment → CreateUserRequest → M ProtoUser
unfolding require reject validate_cluster_role create_row register or_undo grant bytes_eq
add_user env req = do
  require (not (bytes_eq req.oidc_subject []))
      (status invalid_argument "oidc_subject must be provided")
  reject (validate_cluster_role req.cluster_role) (status_from invalid_argument "cluster_role")
  user ← create_row env req req.username
  registered ← attempt (register env user.meta.id)
  or_undo env user.meta.id (status_from internal "register identity") registered
  grant env user.meta.id req.cluster_role
  pure (to_proto_user env.uuids user)

memberships_of : Bytes → List Bytes → List TupleKey
memberships_of user objects =
    map (λ object. record { user = user; relation = codes "member"; object = object }) objects

remove_memberships : Environment → Bytes → List Bytes → M (Unit {0})
unfolding or_fail write_tuples memberships_of
remove_memberships env user [] = pure tt
remove_memberships env user (o ∷ os) =
    or_fail (status_from internal "remove organization memberships")
      (write_tuples env [] (memberships_of user (o ∷ os)))

remove_user : Environment → Bytes → M (Unit {0})
unfolding parse_id or_fail sync_cluster_role remove_memberships
remove_user env identity_id = do
  id ← parse_id env identity_id
  let user = identity_object_prefix ++ env.uuids.to_string id
  or_fail (status_from internal "sync cluster role") (sync_cluster_role env id unspecified)
  objects ← or_fail (status_from internal "list organization memberships") (
      invoke (list_objects (codes "organization") (codes "member") user)
        (λ clock. env.list_objects clock (codes "organization") (codes "member") user))
  remove_memberships env user objects
  or_fail to_status_error (Users.delete_user env id)

-- The requests that only an administrator may make.
pub data AdminRequest : Type 0 where
  get_user delete_user : (identity_id : Bytes) → AdminRequest
  update_user : UpdateUserRequest → AdminRequest
  list_users : (page_size : ℤ) (page_token : Bytes) → AdminRequest
  create_user : CreateUserRequest → AdminRequest

pub data AdminResponse : Type 0 where
  got : ProtoUser → ClusterRole → AdminResponse
  updated created : ProtoUser → AdminResponse
  listed : List ProtoUser → Bytes → AdminResponse
  deleted : AdminResponse

pub serve : Environment → Base64 → AdminRequest → M AdminResponse
unfolding fetch_user change_user page_users add_user remove_user
serve env base64 (get_user identity_id) = do
  (user, role) ← fetch_user env identity_id
  pure (got user role)
serve env base64 (update_user req) = do user ← change_user env req; pure (updated user)
serve env base64 (list_users page_size page_token) = do
  (users, token) ← page_users env base64 page_size page_token
  pure (listed users token)
serve env base64 (create_user req) = do user ← add_user env req; pure (created user)
serve env base64 (delete_user identity_id) = do _ ← remove_user env identity_id; pure deleted

unfoldable pub handle : Environment → Base64 → Metadata → AdminRequest → M AdminResponse
unfolding serve require_cluster_admin
handle env base64 metadata req = do _ ← require_cluster_admin env metadata; serve env base64 req
