-- ===== src/Server/Admin/Undo.antt =====
-- A `CreateUser` that fails leaves no user behind.
use users.Prelude.{◌≡◌, refl, Bool, true, false, Option, none, some, Bytes}
use users.Errors.{Result, ok, err, Error, status_from, invalid_argument, internal}
use users.World.{Environment, World, M, pure, raise, attempt, ◌>>=◌, ◌>>◌}
use users.World.Keeps.{Keeps, keeps_rules}
use users.World.Quiet.{IsQuiet}
use users.World.Ends.{
  Ends, After, Ends-pure, Ends-raise, Ends-attempt, Ends-bind, Ends-then, Ends-Keeps, Ends-failed,
}
use users.Store.Types.{UserId, User, Database}
use users.Store.Pagination.{Base64}
use users.Store.Consistent.{IsConsistent}
use users.Store.Users
use users.Store.Users.Inserted.{Inserted, Same, create_user-Inserted, delete_user-Inserted}
use users.Server.Status.{ClusterRole, admin, unspecified, other, or_fail, to_status_error}
use users.Server.Auth.{Metadata, require_cluster_admin, sync_cluster_role}
use users.Server.Users.{require, reject, register, undo_create}
use users.Server.Auth.Keeps.{sync_cluster_role-Keeps, require_cluster_admin-Keeps}
use users.Server.Status.Ends.{Ends-or_fail}
use users.Server.Proto.{ProtoUser, to_proto_user}
use users.Username.Rule.{validate_username}
use users.Server.Allocate.Ends.{allocate-Ends}
use users.Server.Admin.{
  CreateUserRequest, create_user, create_row, create_input, or_undo, grant, add_user, serve, handle,
}

require-Keeps : (P : Database → Type 0) (b : Bool) (e : Error) → Keeps P (require b e)
unfolding require
require-Keeps P true e = search keeps_rules
require-Keeps P false e = search keeps_rules

reject-Keeps : (P : Database → Type 0) (o : Option Error) (f : Error → Error) → Keeps P (reject o f)
unfolding reject
reject-Keeps P none f = search keeps_rules
reject-Keeps P (some e) f = search keeps_rules

register-Keeps :
    (env : Environment) (P : Database → Type 0) (id : UserId) → Keeps P (register env id)
unfolding register
register-Keeps env P id = search keeps_rules

module _ (env : Environment) (quiet : IsQuiet env) (start : Database)
    (consistent : IsConsistent start) where
  undo_create-Same :
      {A : Type 0} {done : A → Database → Type 0} (id : UserId) (e : Error)
      → Ends (Inserted start id) done (Same start) (undo_create {A = A} env id e)
  unfolding undo_create
  undo_create-Same {A} {done} id e =
      Ends-bind (attempt (Users.delete_user env id)) (λ _. raise e)
        (Ends-attempt {failed' = Same start} (Users.delete_user env id)
          (delete_user-Inserted env quiet start id consistent))
        ended
    where
      ended :
          (r : Result (Unit {0}))
          → Ends (After (λ _. Same start) (Same start) r) done (Same start) (raise e)
      ended (ok u) = Ends-raise e (λ db h. h)
      ended (err d) = Ends-raise e (λ db h. h)

  or_undo-Inserted :
      (id : UserId) (f : Error → Error) (r : Result (Unit {0}))
      → Ends
          (After (λ _. Inserted start id) (Inserted start id) r)
          (λ _. Inserted start id)
          (Same start)
          (or_undo env id f r)
  unfolding or_undo
  or_undo-Inserted id f (ok u) = Ends-pure tt (λ db h. h)
  or_undo-Inserted id f (err e) = undo_create-Same id (f e)

  -- A call behind which the row is kept or removed.
  attempted :
      (id : UserId) (f : Error → Error) (m : M (Unit {0}))
      → Keeps (Inserted start id) m
      → Ends
          (Inserted start id)
          (λ _. Inserted start id)
          (Same start)
          (attempt m >>= or_undo env id f)
  attempted id f m k =
      Ends-bind (attempt m) (or_undo env id f)
        (Ends-attempt {failed' = Same start} m (Ends-Keeps m k)) (or_undo-Inserted id f)

  grant-Inserted :
      (id : UserId) (role : ClusterRole)
      → Ends (Inserted start id) (λ _. Inserted start id) (Same start) (grant env id role)
  unfolding grant sync_cluster_role
  grant-Inserted id admin =
      attempted id _ (sync_cluster_role env id admin)
        (sync_cluster_role-Keeps (Inserted start id) env id admin)
  grant-Inserted id unspecified = Ends-pure tt (λ db h. h)
  grant-Inserted id (other n) = Ends-pure tt (λ db h. h)

  create_row-Inserted :
      (req : CreateUserRequest) (username : Option Bytes)
      → Ends
          (Same start)
          (λ (user : User). Inserted start user.meta.id)
          (Same start)
          (create_row env req username)
  unfolding create_row
  create_row-Inserted req none =
      allocate-Ends (λ c. Users.create_user env (create_input req c))
        (λ c. create_user-Inserted env quiet start (create_input req c)) _ _
  create_row-Inserted req (some value) =
      Ends-then (reject (validate_username value) (status_from invalid_argument "username"))
        (or_fail to_status_error (Users.create_user env (create_input req value)))
        (Ends-Keeps _ (reject-Keeps (Same start) (validate_username value) _))
        (Ends-or_fail to_status_error (Users.create_user env (create_input req value))
          (create_user-Inserted env quiet start (create_input req value)))

  -- The row that a successful CreateUser leaves.
  abbrev Created : ProtoUser → Database → Type 0
  Created proto db =
      (user : User) × (proto ≡ to_proto_user env.uuids user) × Inserted start user.meta.id db

  registered :
      (req : CreateUserRequest) (user : User) (r : Result (Unit {0}))
      → Ends
          (After (λ _. Inserted start user.meta.id) (Inserted start user.meta.id) r)
          Created
          (Same start)
          (or_undo env user.meta.id (status_from internal "register identity") r
            >> (grant env user.meta.id req.cluster_role >> pure (to_proto_user env.uuids user)))
  registered req user r =
      let id = user.meta.id in
      Ends-then (or_undo env id (status_from internal "register identity") r)
        (grant env id req.cluster_role >> pure (to_proto_user env.uuids user))
        (or_undo-Inserted id (status_from internal "register identity") r)
        (Ends-then (grant env id req.cluster_role) (pure (to_proto_user env.uuids user))
          (grant-Inserted id req.cluster_role)
          (Ends-pure (to_proto_user env.uuids user) (λ db h. (user, refl, h))))

  add_user-Created :
      (req : CreateUserRequest) → Ends (Same start) Created (Same start) (add_user env req)
  unfolding add_user
  add_user-Created req = Ends-then _ _ (Ends-Keeps _ (require-Keeps (Same start) _ _)) (
      Ends-then _ _ (Ends-Keeps _ (reject-Keeps (Same start) _ _)) (
        Ends-bind (create_row env req req.username) _ (create_row-Inserted req req.username)
          (λ user.
            Ends-bind (attempt (register env user.meta.id)) _
              (Ends-attempt {failed' = Same start} (register env user.meta.id)
                (Ends-Keeps _ (register-Keeps env (Inserted start user.meta.id) user.meta.id)))
              (registered req user))))

  serve-Created :
      (base64 : Base64) (metadata : Metadata) (req : CreateUserRequest)
      → Ends
          (Same start)
          (λ _ db. (user : User) × Inserted start user.meta.id db)
          (Same start)
          (handle env base64 metadata (create_user req))
  unfolding handle serve
  serve-Created base64 metadata req =
      Ends-bind (require_cluster_admin env metadata) _
        (Ends-Keeps _ (require_cluster_admin-Keeps (Same start) env metadata))
        (λ _.
          Ends-bind (add_user env req) _ (add_user-Created req)
            (λ proto. Ends-pure _ (λ db h. (h.0, h.2))))

-- In an environment where no statement fails and nobody else writes, over tables that keep their
-- constraints, a CreateUser that fails, be it in the guard, the validation, the insert, the
-- registration of the identity or the grant of the role, leaves the tables as they were.
pub create_user-undone :
    (env : Environment)
    → IsQuiet env
    → (base64 : Base64) (metadata : Metadata) (req : CreateUserRequest) (w : World)
    → IsConsistent w.db
    → (e : Error) → (handle env base64 metadata (create_user req) w).0 ≡ err e
    → (handle env base64 metadata (create_user req) w).1.db ≡ w.db
create_user-undone env quiet base64 metadata req w consistent e h =
    Ends-failed (serve-Created env quiet w.db consistent base64 metadata req) w refl e h
