-- ===== src/Server/Admin/Guard.antt =====
-- Who may call the handlers for administrators.
use users.Prelude.{◌≡◌, refl, ◌⊎◌, inl, inr, Bool, true, false, [], ◌∷◌, ◌++◌}
use users.Errors.{Result, ok, err, Error}
use users.World.{Environment, World, check}
use users.Store.Types.{UserId}
use users.Store.Pagination.{Base64}
use users.Server.Auth.{Metadata, identity_id_from_context, admin_tuple}
use users.Server.Auth.Laws.{
  IsAdmin, checked, guard-unnamed, guard-failed, guard-denied, guard-allowed,
}
use users.Server.Admin.{AdminRequest, AdminResponse, serve, handle}

-- The call fails, the tables are as before, and no service was called but, at most, the check.
pub record IsRefused (env : Environment) (w : World) (run : Result AdminResponse × World)
    : Type 0 where
  pub error : Error
  pub failed : run.0 ≡ err error
  pub same_db : run.1.db ≡ w.db
  pub only_check :
      (run.1.calls ≡ w.calls)
      ⊎ ((id : UserId) × (run.1.calls ≡ w.calls ++ check (admin_tuple env.uuids id) ∷ []))

module _ (env : Environment) (base64 : Base64) (metadata : Metadata) (req : AdminRequest)
    (w : World) where
  IsRefused-check :
      (id : UserId) (e : Error) (run : Result AdminResponse × World)
      → run ≡ (err e, checked env id w)
      → IsRefused env w run
  IsRefused-check id e run h =
      rw h (record { error = e; failed = refl; same_db = refl; only_check = inr (id, refl) })

  by_check :
      (id : UserId)
      → identity_id_from_context env.uuids metadata ≡ ok id
      → (answer : Result Bool) → env.check w.clock (admin_tuple env.uuids id) ≡ answer
      → ((id' : UserId) → ¬ IsAdmin env metadata w.clock id')
      → IsRefused env w (handle env base64 metadata req w)
  unfolding handle
  by_check id named (err e) h refuse =
      IsRefused-check id _ _ (guard-failed env metadata (λ _. serve env base64 req) w id named e h)
  by_check id named (ok true) h refuse = absurd (refuse id (record { named = named; allowed = h }))
  by_check id named (ok false) h refuse =
      IsRefused-check id _ _ (guard-denied env metadata (λ _. serve env base64 req) w id named h)

  by_identity :
      (r : Result UserId)
      → identity_id_from_context env.uuids metadata ≡ r
      → ((id' : UserId) → ¬ IsAdmin env metadata w.clock id')
      → IsRefused env w (handle env base64 metadata req w)
  unfolding handle
  by_identity (err e) named refuse =
      rw (guard-unnamed env metadata (λ _. serve env base64 req) w e named)
        (record { error = _; failed = refl; same_db = refl; only_check = inl refl })
  by_identity (ok id) named refuse = by_check id named _ refl refuse

  -- GetUser, UpdateUser, ListUsers, CreateUser and DeleteUser, called by anyone whom the
  -- authorization service does not allow the relation `admin` on the cluster, return an error, leave
  -- the tables as they were and call no other service but, at most, that check.
  pub handle-IsRefused :
      ((id : UserId) → ¬ IsAdmin env metadata w.clock id)
      → IsRefused env w (handle env base64 metadata req w)
  handle-IsRefused refuse = by_identity _ refl refuse

  -- Called by an administrator, each of the five handlers runs behind the check.
  pub handle-admin :
      (id : UserId)
      → IsAdmin env metadata w.clock id
      → handle env base64 metadata req w ≡ serve env base64 req (checked env id w)
  unfolding handle
  handle-admin id a = guard-allowed env metadata (λ _. serve env base64 req) w id a.named a.allowed
