-- ===== src/Server/Auth/Keeps.antt =====
-- What the guards and the calls to the authorization service leave alone.

use users.Errors.{
  Result, ok, err, Error, Code, canceled, unknown, invalid_argument, deadline_exceeded, not_found,
  already_exists, permission_denied, resource_exhausted, failed_precondition, aborted, out_of_range,
  unimplemented, internal, unavailable, data_loss, unauthenticated,
}
use users.World.{Environment}
use users.World.Keeps.{Keeps, keeps_rules}
use users.Store.Types.{UserId, Database}
use users.Server.Status.{ClusterRole, unspecified, admin, other, or_fail}
use users.Server.Auth.{
  Metadata, admit, require_identity, require_cluster_admin, check_cluster_admin, converged,
  after_write, write_tuples, sync_cluster_role,
}

module _ (P : Database → Type 0) where
  converged-Keeps : (e : Error) (c : Code) → Keeps P (converged e c)
  unfolding converged
  converged-Keeps e canceled = search keeps_rules
  converged-Keeps e unknown = search keeps_rules
  converged-Keeps e invalid_argument = search keeps_rules
  converged-Keeps e deadline_exceeded = search keeps_rules
  converged-Keeps e not_found = search keeps_rules
  converged-Keeps e already_exists = search keeps_rules
  converged-Keeps e permission_denied = search keeps_rules
  converged-Keeps e resource_exhausted = search keeps_rules
  converged-Keeps e failed_precondition = search keeps_rules
  converged-Keeps e aborted = search keeps_rules
  converged-Keeps e out_of_range = search keeps_rules
  converged-Keeps e unimplemented = search keeps_rules
  converged-Keeps e internal = search keeps_rules
  converged-Keeps e unavailable = search keeps_rules
  converged-Keeps e data_loss = search keeps_rules
  converged-Keeps e unauthenticated = search keeps_rules

  after_write-Keeps : (r : Result (Unit {0})) → Keeps P (after_write r)
  unfolding after_write
  after_write-Keeps (ok u) = search keeps_rules
  after_write-Keeps (err e) = search (keeps_rules, converged-Keeps)

  pub sync_cluster_role-Keeps :
      (env : Environment) (id : UserId) (role : ClusterRole)
      → Keeps P (sync_cluster_role env id role)
  unfolding sync_cluster_role write_tuples
  sync_cluster_role-Keeps env id admin = search (keeps_rules, after_write-Keeps)
  sync_cluster_role-Keeps env id unspecified = search (keeps_rules, after_write-Keeps)
  sync_cluster_role-Keeps env id (other n) = search keeps_rules

  pub require_cluster_admin-Keeps :
      (env : Environment) (metadata : Metadata) → Keeps P (require_cluster_admin env metadata)
  unfolding require_cluster_admin require_identity check_cluster_admin admit or_fail
  require_cluster_admin-Keeps env metadata = search keeps_rules
