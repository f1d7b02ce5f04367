-- ===== src/Store/Interface.antt =====
-- The operations of the interface `userStore` of internal/server/server.go, which `Store` implements, as data:
-- whatever sequence of them runs, the tables keep their constraints.
use users.Prelude.{ℕ, List, [], ◌∷◌, Bytes, Option}
use users.Prelude.Int.{ℤ}
use users.World.{Environment, World, M, pure, attempt, ◌>>=◌}
use users.World.Keeps.{Keeps, Stable, Keeps-attempt, Keeps-bind, Keeps-pure, keeps_rules}
use users.Store.Types.{
  UserId, UserInput, UserUpdate, PageCursor, CreateApiTokenInput, CreateDeviceInput,
  UpdateDeviceLivenessInput,
}
use users.Store.Consistent.{IsConsistent}
use users.Store.Users
use users.Store.Users.Consistent.{
  reads, resolve_or_create_user-Keeps, create_user-Keeps, get_user-Keeps,
  get_user_by_oidc_subject-Keeps, batch_get_users-Keeps, delete_user-Keeps,
}
use users.Store.Update
use users.Store.Update.Consistent.{update_user-Keeps}
use users.Store.ApiTokens
use users.Store.ApiTokens.Consistent.{
  create_api_token-Keeps, list_api_tokens-Keeps, revoke_api_token-Keeps, resolve_api_token-Keeps,
}
use users.Store.Devices
use users.Store.Devices.Consistent.{
  create_device-Keeps, update_device_liveness-Keeps, delete_device-Keeps,
}
use users.Store.Pagination
use users.Store.Search
use users.Store.Pagination.Keeps.{list_users-Keeps, list_devices-Keeps}

pub data Operation : Type 0 where
  resolve_or_create_user create_user : UserInput → Operation
  get_user delete_user : UserId → Operation
  get_user_by_oidc_subject : Bytes → Operation
  batch_get_users : List UserId → Operation
  update_user : UserId → UserUpdate → Operation
  list_users : ℤ → Option PageCursor → Operation
  search_users : Bytes → ℕ → Operation
  create_api_token : CreateApiTokenInput → Operation
  list_api_tokens : UserId → Operation
  revoke_api_token : UserId → UserId → Operation
  resolve_api_token : Bytes → Operation
  create_device : CreateDeviceInput → Operation
  list_devices : UserId → ℤ → Option PageCursor → Operation
  delete_device : UserId → UserId → Operation
  update_device_liveness : UpdateDeviceLivenessInput → Operation

done : {A : Type 0} → M A → M (Unit {0})
done m = do _ ← attempt m; pure tt

-- One call of the interface; its result and its error go to the caller, who may do anything next.
perform : Environment → Operation → M (Unit {0})
unfolding done
perform env (resolve_or_create_user input) = done (Users.resolve_or_create_user env input)
perform env (create_user input) = done (Users.create_user env input)
perform env (get_user id) = done (Users.get_user env id)
perform env (delete_user id) = done (Users.delete_user env id)
perform env (get_user_by_oidc_subject subject) = done (Users.get_user_by_oidc_subject env subject)
perform env (batch_get_users ids) = done (Users.batch_get_users env ids)
perform env (update_user id update) = done (Update.update_user env id update)
perform env (list_users size cursor) = done (Pagination.list_users env size cursor)
perform env (search_users prefix limit) = done (Search.search_users env prefix limit)
perform env (create_api_token input) = done (ApiTokens.create_api_token env input)
perform env (list_api_tokens id) = done (ApiTokens.list_api_tokens env id)
perform env (revoke_api_token id token_id) = done (ApiTokens.revoke_api_token env id token_id)
perform env (resolve_api_token hash) = done (ApiTokens.resolve_api_token env hash)
perform env (create_device input) = done (Devices.create_device env input)
perform env (list_devices id size cursor) = done (Pagination.list_devices env id size cursor)
perform env (delete_device id device_id) = done (Devices.delete_device env id device_id)
perform env (update_device_liveness input) = done (Devices.update_device_liveness env input)

pub perform_all : Environment → List Operation → M (Unit {0})
unfolding perform
perform_all env [] = pure tt
perform_all env (op ∷ ops) = do _ ← perform env op; perform_all env ops

module _ (env : Environment) (stable : Stable env IsConsistent) where
  done-Keeps : {A : Type 0} (m : M A) → Keeps IsConsistent m → Keeps IsConsistent (done m)
  unfolding done
  done-Keeps m k = Keeps-bind _ _ (Keeps-attempt m k) (λ _. Keeps-pure tt)

  search-Keeps :
      (prefix : Bytes) (limit : ℕ) → Keeps IsConsistent (Search.search_users env prefix limit)
  unfolding Search.search_users
  search-Keeps prefix limit = search (keeps_rules, reads env stable)

  perform-Keeps : (op : Operation) → Keeps IsConsistent (perform env op)
  unfolding perform
  perform-Keeps (resolve_or_create_user input) =
      done-Keeps _ (resolve_or_create_user-Keeps env stable input)
  perform-Keeps (create_user input) = done-Keeps _ (create_user-Keeps env stable input)
  perform-Keeps (get_user id) = done-Keeps _ (get_user-Keeps env stable id)
  perform-Keeps (delete_user id) = done-Keeps _ (delete_user-Keeps env stable id)
  perform-Keeps (get_user_by_oidc_subject s) =
      done-Keeps _ (get_user_by_oidc_subject-Keeps env stable s)
  perform-Keeps (batch_get_users ids) = done-Keeps _ (batch_get_users-Keeps env stable ids)
  perform-Keeps (update_user id update) = done-Keeps _ (update_user-Keeps env stable id update)
  perform-Keeps (list_users size cursor) = done-Keeps _ (list_users-Keeps env stable size cursor)
  perform-Keeps (search_users prefix limit) = done-Keeps _ (search-Keeps prefix limit)
  perform-Keeps (create_api_token input) = done-Keeps _ (create_api_token-Keeps env stable input)
  perform-Keeps (list_api_tokens id) = done-Keeps _ (list_api_tokens-Keeps env stable id)
  perform-Keeps (revoke_api_token id t) = done-Keeps _ (revoke_api_token-Keeps env stable id t)
  perform-Keeps (resolve_api_token hash) = done-Keeps _ (resolve_api_token-Keeps env stable hash)
  perform-Keeps (create_device input) = done-Keeps _ (create_device-Keeps env stable input)
  perform-Keeps (list_devices id size c) = done-Keeps _ (list_devices-Keeps env stable id size c)
  perform-Keeps (delete_device id d) = done-Keeps _ (delete_device-Keeps env stable id d)
  perform-Keeps (update_device_liveness input) =
      done-Keeps _ (update_device_liveness-Keeps env stable input)

  perform_all-Keeps : (ops : List Operation) → Keeps IsConsistent (perform_all env ops)
  unfolding perform_all
  perform_all-Keeps [] = search keeps_rules
  perform_all-Keeps (op ∷ ops) = Keeps-bind _ _ (perform-Keeps op) (λ _. perform_all-Keeps ops)

  -- Whatever sequence of store operations runs, whichever of their statements fail, and whatever
  -- other sessions do in between that keeps the constraints, the tables keep them: ids, subjects,
  -- usernames and token hashes are unique, and every token and device has its owner among the users.
  pub perform_all-IsConsistent :
      (ops : List Operation) (w : World)
      → IsConsistent w.db
      → IsConsistent (perform_all env ops w).1.db
  perform_all-IsConsistent ops w h = (perform_all-Keeps ops).at w h
