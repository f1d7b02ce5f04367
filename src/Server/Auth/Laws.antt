-- ===== src/Server/Auth/Laws.antt =====
-- What `requireClusterAdmin` asks for.
use users.Prelude.{ℕ, ◌+◌, ◌≡◌, refl, true, false, [], ◌∷◌, ◌++◌}
use users.Errors.{ok, err, Error, status, status_from, unauthenticated, internal, permission_denied}
use users.World.{Environment, World, check, M, pure, raise, lift, attempt, invoke, then_, ◌>>=◌}
use users.Store.Types.{UserId}
use users.Server.Status.{or_error, or_fail}
use users.Server.Auth.{
  Metadata, identity_id_from_context, admin_tuple, check_cluster_admin, require_identity, admit,
  require_cluster_admin,
}

-- The caller names an identity, and the authorization service allows it the relation `admin`.
pub record IsAdmin (env : Environment) (metadata : Metadata) (clock : ℕ) (id : UserId)
    : Type 0 where
  pub named : identity_id_from_context env.uuids metadata ≡ ok id
  pub allowed : env.check clock (admin_tuple env.uuids id) ≡ ok true

-- The world behind the check.
abbrev pub checked : Environment → UserId → World → World
checked env id w = record w {
  clock = w.clock + 1;
  calls = w.calls ++ check (admin_tuple env.uuids id) ∷ [];
}

module _ {A : Type 0} (env : Environment) (metadata : Metadata) (f : UserId → M A) (w : World) where
  -- The guard with what follows it, by what it meets.
  pub guard-unnamed :
      (e : Error)
      → identity_id_from_context env.uuids metadata ≡ err e
      → (require_cluster_admin env metadata >>= f) w
        ≡ (err (status_from unauthenticated "identity not available" e), w)
  unfolding require_cluster_admin require_identity lift ◌>>=◌ then_ or_error
  guard-unnamed e h = rw h refl

  module _ (id : UserId) (named : identity_id_from_context env.uuids metadata ≡ ok id) where
    pub guard-failed :
        (e : Error)
        → env.check w.clock (admin_tuple env.uuids id) ≡ err e
        → (require_cluster_admin env metadata >>= f) w
          ≡ (err (status_from internal "authorization check" e), checked env id w)
    unfolding require_cluster_admin require_identity check_cluster_admin lift attempt invoke ◌>>=◌
        then_ or_error or_fail
    guard-failed e h = rw (named, h) refl

    pub guard-denied :
        env.check w.clock (admin_tuple env.uuids id) ≡ ok false
        → (require_cluster_admin env metadata >>= f) w
          ≡ (err (status permission_denied "cluster admin required"), checked env id w)
    unfolding require_cluster_admin require_identity check_cluster_admin lift attempt invoke ◌>>=◌
        then_ or_error or_fail admit raise
    guard-denied h = rw (named, h) refl

    pub guard-allowed :
        env.check w.clock (admin_tuple env.uuids id) ≡ ok true
        → (require_cluster_admin env metadata >>= f) w ≡ f id (checked env id w)
    unfolding require_cluster_admin require_identity check_cluster_admin lift attempt invoke ◌>>=◌
        then_ or_error or_fail admit pure
    guard-allowed h = rw (named, h) refl
