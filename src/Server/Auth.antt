-- ===== src/Server/Auth.antt =====
-- `identityIDFromContext`, `checkClusterAdmin`, `requireClusterAdmin`, `resolveClusterRole` and
-- `syncClusterRole` of internal/server/server.go.
pub mod Laws
pub mod Raises
pub mod Keeps
use users.Prelude.{
  ℕ, Bool, true, false, Option, none, some, List, [], ◌∷◌, ◌++◌, Bytes, codes, bytes_eq,
  if◌then◌else◌,
}
use users.Errors.{
  Result, ok, err, Error, Code, message, status, status_from, unauthenticated, internal,
  permission_denied, already_exists, not_found, status_code,
}
use users.World.{
  Environment, M, TupleKey, Uuids, Call, check, write, pure, raise, lift, attempt, invoke, ◌>>=◌,
  ◌>>◌,
}
use users.Store.Types.{UserId}
use users.Server.Status.{or_error, or_fail, ClusterRole, unspecified, admin, other}

abbrev pub identity_object_prefix : Bytes
identity_object_prefix = codes "identity:"

abbrev pub cluster_object : Bytes
cluster_object = codes "cluster:global"

abbrev pub admin_relation : Bytes
admin_relation = codes "admin"

-- The values of the metadata key x-identity-id, where the call has metadata.
abbrev pub Metadata : Type 0
Metadata = Option (List Bytes)

pub identity_id_from_context : Uuids → Metadata → Result UserId
unfolding bytes_eq
identity_id_from_context uuids none = err (message "no metadata in context")
identity_id_from_context uuids (some []) = err (message "x-identity-id not found in metadata")
identity_id_from_context uuids (some (value ∷ _)) =
    if bytes_eq value []
    then err (message "x-identity-id not found in metadata")
    else uuids.parse value

abbrev pub admin_tuple : Uuids → UserId → TupleKey
admin_tuple uuids id = record {
  user = identity_object_prefix ++ uuids.to_string id;
  relation = admin_relation;
  object = cluster_object;
}

check_cluster_admin : Environment → UserId → M Bool
check_cluster_admin env id =
    let tuple = admin_tuple env.uuids id in invoke (check tuple) (λ clock. env.check clock tuple)

unfoldable pub require_identity : Environment → Metadata → M UserId
unfolding or_error identity_id_from_context
require_identity env metadata = lift (
    or_error (status_from unauthenticated "identity not available")
      (identity_id_from_context env.uuids metadata))

admit : UserId → Bool → M UserId
admit id allowed =
    if allowed then pure id else raise (status permission_denied "cluster admin required")

unfoldable pub require_cluster_admin : Environment → Metadata → M UserId
unfolding or_fail require_identity check_cluster_admin admit
require_cluster_admin env metadata = do
  id ← require_identity env metadata
  allowed ← or_fail (status_from internal "authorization check") (check_cluster_admin env id)
  admit id allowed

unfoldable pub resolve_cluster_role : Environment → UserId → M ClusterRole
unfolding check_cluster_admin
resolve_cluster_role env id = do
  allowed ← check_cluster_admin env id
  pure (if allowed then admin else unspecified)

converged : Error → Code → M (Unit {0})
converged e already_exists = pure tt
converged e not_found = pure tt
converged e _ = raise e

-- The switch on status.Code(err).
after_write : Result (Unit {0}) → M (Unit {0})
unfolding converged status_code
after_write (ok u) = pure tt
after_write (err e) = converged e (status_code e)

unfoldable pub write_tuples : Environment → List TupleKey → List TupleKey → M (Unit {0})
write_tuples env writes deletes =
    invoke (write writes deletes) (λ clock. env.write clock writes deletes)

unfoldable pub sync_cluster_role : Environment → UserId → ClusterRole → M (Unit {0})
unfolding after_write write_tuples
sync_cluster_role env id admin = do
  written ← attempt (write_tuples env (admin_tuple env.uuids id ∷ []) [])
  after_write written
sync_cluster_role env id unspecified = do
  written ← attempt (write_tuples env [] (admin_tuple env.uuids id ∷ []))
  after_write written
sync_cluster_role env id (other n) = raise (message "unsupported cluster role")
