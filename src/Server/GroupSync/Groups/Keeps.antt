-- ===== src/Server/GroupSync/Groups/Keeps.antt =====
-- What listing the groups leaves alone.
use users.Prelude.{ℕ, zero, suc, List, [], ◌∷◌, Bytes}
use users.World.{Environment}
use users.World.Keeps.{Keeps, keeps_rules}
use users.Store.Types.{UserId, Database}
use users.Server.Status.{or_fail}
use users.Server.GroupSync.Groups.{
  list_user_organization_ids, member_groups, group_pages, groups_in, list_user_groups,
  known_role_attributes, user_group_role_attributes,
}

module _ (env : Environment) (P : Database → Type 0) where
  organizations-Keeps : (id : UserId) → Keeps P (list_user_organization_ids env id)
  unfolding list_user_organization_ids or_fail
  organizations-Keeps id = search keeps_rules

  member_groups-Keeps : (m o t : Bytes) → Keeps P (member_groups env m o t)
  unfolding member_groups or_fail
  member_groups-Keeps m o t = search keeps_rules

  group_pages-Keeps :
      (fuel : ℕ) (m o t : Bytes) (groups : List Bytes) → Keeps P (group_pages env fuel m o t groups)
  unfolding group_pages
  group_pages-Keeps zero m o t groups = search keeps_rules
  group_pages-Keeps (suc fuel) m o t groups =
      search (keeps_rules, member_groups-Keeps, group_pages-Keeps fuel)

  groups_in-Keeps :
      (fuel : ℕ) (m : Bytes) (ids : List UserId) (groups : List Bytes)
      → Keeps P (groups_in env fuel m ids groups)
  unfolding groups_in
  groups_in-Keeps fuel m [] groups = search keeps_rules
  groups_in-Keeps fuel m (id ∷ ids) groups =
      search (keeps_rules, group_pages-Keeps, groups_in-Keeps fuel m ids)

  list_user_groups-Keeps : (fuel : ℕ) (id : UserId) → Keeps P (list_user_groups env fuel id)
  unfolding list_user_groups
  list_user_groups-Keeps fuel id = search (keeps_rules, organizations-Keeps, groups_in-Keeps)

  pub role_attributes-Keeps :
      (fuel : ℕ) (id : UserId) → Keeps P (user_group_role_attributes env fuel id)
  unfolding user_group_role_attributes known_role_attributes
  role_attributes-Keeps fuel id = search (keeps_rules, list_user_groups-Keeps)
