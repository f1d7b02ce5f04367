-- ===== src/Server/Users/Raises.antt =====
-- The errors of the handlers that no administrator has to call.
use users.Prelude.{◌≡◌, Bool, true, false, Option, none, some, List, [], ◌∷◌, Bytes, arith, refl}
use users.Prelude.Int.{ℤ, pos, negsuc}
use Prim.Native.String.{String}
use users.Errors.{
  Result, ok, err, Error, Code, status, status_from, invalid_argument, is_status, err-is_status,
}
use users.World.{Environment, lift}
use users.Store.Types.{UserId, User}
use users.Server.Status.{parse_uuid}
use users.Server.Auth.{Metadata}
use users.Server.Auth.Raises.{Raises-require_identity}
use users.Server.Allocate.Raises.{Raises-allocate}
use users.Server.Users.{
  ResolveOrCreateUserRequest, undo_create, register_failed, after_register, resolve_or_create_user,
  get_user_by_oidc_subject, parse_all, get_batch, batch_get_users, get_me, check_username,
  update_me, search_limit, search_directory,
}
use users.Server.Raises.{Raises, raises_rules, Raises-lift}

pub Raises-check_username : (username : Option Bytes) → Raises (check_username username)
unfolding check_username
Raises-check_username none = search raises_rules
Raises-check_username (some value) = search raises_rules

pub Raises-undo_create :
    {A : Type 0} (env : Environment) (id : UserId) (c : Code) (s : String) (e : Error)
    → Raises (undo_create {A = A} env id (status_from c s e))
unfolding undo_create
Raises-undo_create env id c s e = search raises_rules

module _ (env : Environment) where
  Raises-after_register :
      (user : User) (created : Bool) (r : Result (Unit {0}))
      → Raises (after_register env user created r)
  unfolding after_register register_failed
  Raises-after_register user created (ok u) = search raises_rules
  Raises-after_register user true (err e) = search (raises_rules, Raises-undo_create)
  Raises-after_register user false (err e) = search raises_rules

  pub Raises-resolve_or_create_user :
      (req : ResolveOrCreateUserRequest) → Raises (resolve_or_create_user env req)
  unfolding resolve_or_create_user
  Raises-resolve_or_create_user req = search (raises_rules, Raises-allocate, Raises-after_register)

  pub Raises-get_user_by_oidc_subject : (s : Bytes) → Raises (get_user_by_oidc_subject env s)
  unfolding get_user_by_oidc_subject
  Raises-get_user_by_oidc_subject s = search raises_rules

  parse_all-is_status :
      (ids : List Bytes) (e : Error) → parse_all env.uuids ids ≡ err e → is_status e ≡ true
  unfolding parse_all
  parse_all-is_status [] e h = absurd (cc)
  parse_all-is_status (s ∷ ss) e h =
      go (parse_uuid env.uuids s) (parse_all env.uuids ss) (parse_all-is_status ss) e h
    where
      go :
          (r : Result UserId) (rest : Result (List UserId))
          → ((e : Error) → rest ≡ err e → is_status e ≡ true)
          → (e : Error)
          → ◌≡◌ {A = Result (List UserId)}
              (elim r [
                | err e ↦ err (status_from invalid_argument "identity_ids" e)
                | ok id ↦ elim rest [ err e ↦ err e | ok ids ↦ ok (id ∷ ids) ]
              ])
              (err e)
          → is_status e ≡ true
      go (err d) rest k e h = err-is_status (status_from invalid_argument "identity_ids" d) e h refl
      go (ok id) (err d) k e h = err-is_status d e h (k d refl)
      go (ok id) (ok ids) k e h = absurd (cc)

  Raises-parse_all : (ids : List Bytes) → Raises (lift (parse_all env.uuids ids))
  Raises-parse_all ids = Raises-lift (parse_all env.uuids ids) (parse_all-is_status ids)

  pub Raises-batch_get_users : (ids : List Bytes) → Raises (batch_get_users env ids)
  unfolding batch_get_users get_batch
  Raises-batch_get_users [] = search raises_rules
  Raises-batch_get_users (s ∷ ss) = search (raises_rules, Raises-parse_all)

  pub Raises-get_me : (metadata : Metadata) → Raises (get_me env metadata)
  unfolding get_me
  Raises-get_me metadata = search (raises_rules, Raises-require_identity)

  pub Raises-update_me :
      (metadata : Metadata) (name username : Option Bytes)
      → Raises (update_me env metadata name username)
  unfolding update_me
  Raises-update_me metadata name username =
      search (raises_rules, Raises-require_identity, Raises-check_username) depth 9

  search_limit-is_status : (limit : ℤ) (e : Error) → search_limit limit ≡ err e → is_status e ≡ true
  unfolding search_limit
  search_limit-is_status (negsuc n) e h =
      err-is_status (status invalid_argument "limit must be positive") e h refl
  search_limit-is_status (pos n) e h = ground (arith, h)

  Raises-search_limit : (limit : ℤ) → Raises (lift (search_limit limit))
  Raises-search_limit limit = Raises-lift (search_limit limit) (search_limit-is_status limit)

  pub Raises-search_directory :
      (metadata : Metadata) (prefix : Bytes) (limit : ℤ)
      → Raises (search_directory env metadata prefix limit)
  unfolding search_directory
  Raises-search_directory metadata prefix limit =
      search (raises_rules, Raises-require_identity, Raises-search_limit)
