-- ===== src/Server/Auth/Raises.antt =====
-- The errors of the guards.
use users.Prelude.{Bool}
use users.World.{Environment}
use users.Store.Types.{UserId}
use users.Server.Auth.{Metadata, require_identity, require_cluster_admin, admit}
use users.Server.Raises.{Raises, raises_rules}

pub Raises-require_identity :
    (env : Environment) (metadata : Metadata) → Raises (require_identity env metadata)
unfolding require_identity
Raises-require_identity env metadata = search raises_rules

Raises-admit : (id : UserId) (allowed : Bool) → Raises (admit id allowed)
unfolding admit
Raises-admit id allowed = search raises_rules

pub Raises-require_cluster_admin :
    (env : Environment) (metadata : Metadata) → Raises (require_cluster_admin env metadata)
unfolding require_cluster_admin
Raises-require_cluster_admin env metadata =
    search (raises_rules, Raises-require_identity, Raises-admit)
