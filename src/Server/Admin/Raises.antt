-- ===== src/Server/Admin/Raises.antt =====
-- The errors of the handlers for administrators.
use users.Prelude.{Option, none, some, List, [], ◌∷◌, Bytes}
use users.Prelude.Int.{ℤ}
use Prim.Native.String.{String}
use users.Errors.{Result, ok, err, Code, status_from}
use users.World.{Environment}
use users.Store.Types.{UserId}
use users.Store.Pagination.{Base64}
use users.Server.Status.{ClusterRole, admin, unspecified, other}
use users.Server.Auth.{Metadata}
use users.Server.Auth.Raises.{Raises-require_cluster_admin}
use users.Server.Allocate.Raises.{Raises-allocate}
use users.Server.Users.Raises.{Raises-check_username, Raises-undo_create}
use users.Server.Admin.{
  UpdateUserRequest, CreateUserRequest, AdminRequest, get_user, update_user, list_users,
  create_user, delete_user, parse_id, fetch_user, check_role, sync_given, change_user, page_users,
  create_row, or_undo, grant, add_user, remove_memberships, remove_user, serve, handle,
}
use users.Server.Raises.{Raises, raises_rules}

module _ (env : Environment) where
  Raises-parse_id : (s : Bytes) → Raises (parse_id env s)
  unfolding parse_id
  Raises-parse_id s = search raises_rules

  Raises-fetch_user : (s : Bytes) → Raises (fetch_user env s)
  unfolding fetch_user
  Raises-fetch_user s = search (raises_rules, Raises-parse_id) depth 9

  Raises-check_role : (role : Option ClusterRole) → Raises (check_role role)
  unfolding check_role
  Raises-check_role none = search raises_rules
  Raises-check_role (some role) = search raises_rules

  Raises-sync_given : (id : UserId) (role : Option ClusterRole) → Raises (sync_given env id role)
  unfolding sync_given
  Raises-sync_given id none = search raises_rules
  Raises-sync_given id (some role) = search raises_rules

  Raises-change_user : (req : UpdateUserRequest) → Raises (change_user env req)
  unfolding change_user
  Raises-change_user req =
      search
        (raises_rules, Raises-parse_id, Raises-check_role, Raises-check_username, Raises-sync_given)
        depth 12

  Raises-page_users :
      (base64 : Base64) (page_size : ℤ) (token : Bytes)
      → Raises (page_users env base64 page_size token)
  unfolding page_users
  Raises-page_users base64 page_size token = search raises_rules

  Raises-create_row :
      (req : CreateUserRequest) (username : Option Bytes) → Raises (create_row env req username)
  unfolding create_row
  Raises-create_row req none = search Raises-allocate
  Raises-create_row req (some value) = search raises_rules

  Raises-or_undo :
      (id : UserId) (c : Code) (s : String) (r : Result (Unit {0}))
      → Raises (or_undo env id (status_from c s) r)
  unfolding or_undo
  Raises-or_undo id c s (ok u) = search raises_rules
  Raises-or_undo id c s (err e) = search Raises-undo_create

  Raises-grant : (id : UserId) (role : ClusterRole) → Raises (grant env id role)
  unfolding grant
  Raises-grant id admin = search (raises_rules, Raises-or_undo)
  Raises-grant id unspecified = search raises_rules
  Raises-grant id (other n) = search raises_rules

  Raises-add_user : (req : CreateUserRequest) → Raises (add_user env req)
  unfolding add_user
  Raises-add_user req =
      search (raises_rules, Raises-create_row, Raises-or_undo, Raises-grant) depth 12

  Raises-remove_memberships :
      (user : Bytes) (objects : List Bytes) → Raises (remove_memberships env user objects)
  unfolding remove_memberships
  Raises-remove_memberships user [] = search raises_rules
  Raises-remove_memberships user (o ∷ os) = search raises_rules

  Raises-remove_user : (s : Bytes) → Raises (remove_user env s)
  unfolding remove_user
  Raises-remove_user s = search (raises_rules, Raises-parse_id, Raises-remove_memberships) depth 9

  Raises-serve : (base64 : Base64) (req : AdminRequest) → Raises (serve env base64 req)
  unfolding serve
  Raises-serve base64 (get_user s) = search (raises_rules, Raises-fetch_user)
  Raises-serve base64 (update_user req) = search (raises_rules, Raises-change_user)
  Raises-serve base64 (list_users n token) = search (raises_rules, Raises-page_users)
  Raises-serve base64 (create_user req) = search (raises_rules, Raises-add_user)
  Raises-serve base64 (delete_user s) = search (raises_rules, Raises-remove_user)

  pub Raises-handle :
      (base64 : Base64) (metadata : Metadata) (req : AdminRequest)
      → Raises (handle env base64 metadata req)
  unfolding handle
  Raises-handle base64 metadata req =
      search (raises_rules, Raises-require_cluster_admin, Raises-serve)
