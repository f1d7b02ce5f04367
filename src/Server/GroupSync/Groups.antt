-- ===== src/Server/GroupSync/Groups.antt =====
-- The groups of a user: `listUserOrganizationIDs`, `listUserGroups` and `userGroupRoleAttributes` of
-- internal/server/group_sync.go.
pub mod Keeps
pub mod Paging
use users.Prelude.{
  ℕ, zero, suc, Option, none, some, List, [], ◌∷◌, ◌++◌, Bytes, codes, bytes_eq, ◌==◌,
  if◌then◌else◌,
}
use users.Errors.{Result, ok, err, message, wrap}
use users.World.{
  Environment, M, Uuids, Call, GroupsPage, list_objects, list_member_groups, pure, raise, lift,
  invoke, ◌>>=◌,
}
use users.Store.Types.{UserId}
use users.Server.Status.{or_fail}
use users.Server.Auth.{identity_object_prefix}
use users.Server.GroupSync.{role_attributes}

abbrev organization_object_prefix : Bytes
organization_object_prefix = codes "organization:"

abbrev organization_type : Bytes
organization_type = codes "organization"

abbrev organization_member_relation : Bytes
organization_member_relation = codes "member"

-- strings.CutPrefix(s, prefix)
cut_prefix : Bytes → Bytes → Option Bytes
cut_prefix s [] = some s
cut_prefix [] (y ∷ prefix) = none
cut_prefix (x ∷ s) (y ∷ prefix) = let rest = cut_prefix s prefix in if x == y then rest else none

parse_organization : Uuids → Option Bytes → Result UserId
parse_organization uuids none = err (message "authorization returned invalid organization object")
parse_organization uuids (some value) = elim (uuids.parse value) [
  | err e ↦ err (wrap "parse organization object" e)
  | ok id ↦ ok id
]

-- The loop over the objects; an organization id is a UUID as the id of a user is.
organizations_of : Uuids → List Bytes → Result (List UserId)
unfolding parse_organization cut_prefix
organizations_of uuids [] = ok []
organizations_of uuids (object ∷ objects) =
    let rest = organizations_of uuids objects in
    elim (parse_organization uuids (cut_prefix object organization_object_prefix)) [
      | err e ↦ err e
      | ok id ↦ elim rest [ err e ↦ err e | ok ids ↦ ok (id ∷ ids) ]
    ]

list_user_organization_ids : Environment → UserId → M (List UserId)
unfolding or_fail organizations_of
list_user_organization_ids env user_id = do
  let user = identity_object_prefix ++ env.uuids.to_string user_id
  objects ← or_fail (wrap "list organization memberships") (
      invoke (list_objects organization_type organization_member_relation user)
        (λ clock. env.list_objects clock organization_type organization_member_relation user))
  lift (organizations_of env.uuids objects)

member_groups : Environment → (member_id organization_id page_token : Bytes) → M GroupsPage
unfolding or_fail
member_groups env member_id organization_id page_token = or_fail (wrap "list member groups") (
    invoke (list_member_groups member_id organization_id page_token)
      (λ clock. env.list_member_groups clock member_id organization_id page_token))

-- The loop over the pages of one organization.
group_pages :
    Environment → ℕ → (member_id organization_id page_token : Bytes) → List Bytes → M (List Bytes)
unfolding member_groups bytes_eq
group_pages env zero member_id organization_id page_token groups = raise (message "out of fuel")
group_pages env (suc fuel) member_id organization_id page_token groups = do
  response ← member_groups env member_id organization_id page_token
  let groups = groups ++ response.group_ids
  let next_page = group_pages env fuel member_id organization_id response.next_page_token groups
  if bytes_eq response.next_page_token [] then pure groups else next_page

-- The loop over the organizations.
groups_in : Environment → ℕ → Bytes → List UserId → List Bytes → M (List Bytes)
unfolding group_pages
groups_in env fuel member_id [] groups = pure groups
groups_in env fuel member_id (organization_id ∷ organization_ids) groups = do
  groups ← group_pages env fuel member_id (env.uuids.to_string organization_id) [] groups
  groups_in env fuel member_id organization_ids groups

-- The ids of the groups. The outgoing metadata of the calls name the member as the caller.
list_user_groups : Environment → ℕ → UserId → M (List Bytes)
unfolding list_user_organization_ids groups_in
list_user_groups env fuel user_id = do
  organization_ids ← list_user_organization_ids env user_id
  groups_in env fuel (env.uuids.to_string user_id) organization_ids []

known_role_attributes : Environment → ℕ → UserId → M (List Bytes)
unfolding list_user_groups role_attributes
known_role_attributes env fuel user_id = do
  groups ← list_user_groups env fuel user_id
  lift (role_attributes groups)

unfoldable pub user_group_role_attributes : Environment → ℕ → UserId → M (List Bytes)
unfolding known_role_attributes
user_group_role_attributes env fuel user_id =
    if env.has_groups_client then known_role_attributes env fuel user_id else pure []
