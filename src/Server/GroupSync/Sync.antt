-- ===== src/Server/GroupSync/Sync.antt =====
-- Which devices get the role attributes of a user's groups, and when: the event handler and the
-- reconciliation of internal/server/group_sync.go.
pub mod Walk
pub mod Patched
pub mod Keeps
pub mod Reached
pub mod Users
use users.Prelude.{
  ℕ, zero, suc, Bool, Option, none, some, List, [], ◌∷◌, ◌++◌, Bytes, codes, bytes_eq,
  if◌then◌else◌,
}
use users.Prelude.Int.{pos}
use users.Errors.{Result, ok, err, message, wrap}
use users.World.{Environment, M, pure, raise, lift, ◌>>=◌, ◌>>◌}
use users.Store.Types.{UserId, User, Device, PageCursor}
use users.Store.Pagination.{max_list_page_size, list_users, list_devices}
use users.Server.Status.{or_error, or_fail}
use users.Server.GroupSync.{group_role_attribute, stale_candidate_attributes, patch_devices}
use users.Server.GroupSync.Groups.{user_group_role_attributes}

-- The loop over the pages of a user's devices.
device_pages : Environment → ℕ → UserId → Option PageCursor → List Device → M (List Device)
unfolding or_fail
device_pages env zero user_id page_cursor devices = raise (message "out of fuel")
device_pages env (suc fuel) user_id page_cursor devices = do
  result ←
      or_fail (wrap "list devices") (list_devices env user_id (pos max_list_page_size) page_cursor)
  let devices = devices ++ result.devices
  elim result.next_cursor [
    | none ↦ pure devices
    | some cursor ↦ device_pages env fuel user_id (some cursor) devices
  ]

unfoldable pub list_all_user_devices : Environment → ℕ → UserId → M (List Device)
unfolding device_pages
list_all_user_devices env fuel user_id = device_pages env fuel user_id none []

unfoldable pub sync_user_device_group_roles : Environment → ℕ → UserId → List Bytes → M (Unit {0})
unfolding user_group_role_attributes list_all_user_devices patch_devices
sync_user_device_group_roles env fuel user_id candidate_remove_attributes = do
  desired_attributes ← user_group_role_attributes env fuel user_id
  let remove_attributes = stale_candidate_attributes desired_attributes candidate_remove_attributes
  devices ← list_all_user_devices env fuel user_id
  patch_devices env desired_attributes remove_attributes devices

-- groups.v1.GroupMemberType; `other` stands for the values that no case names.
pub data MemberType : Type 0 where
  member_type_user : MemberType
  other : ℕ → MemberType

-- groups.v1.GroupMembershipAddedEvent and GroupMembershipRemovedEvent
pub record MembershipEvent : Type 0 where
  pub member_type : MemberType
  pub member_id : Bytes
  pub group_id : Bytes

-- proto.Unmarshal into each of the two events
pub record EventCodec : Type 0 where
  pub unmarshal_added : Bytes → Result MembershipEvent
  pub unmarshal_removed : Bytes → Result MembershipEvent

candidate_attributes : Bytes → List Bytes
unfolding bytes_eq group_role_attribute
candidate_attributes group_id =
    if bytes_eq group_id [] then [] else group_role_attribute group_id ∷ []

user_membership_change : Environment → ℕ → (member_id group_id : Bytes) → M (Unit {0})
unfolding or_error candidate_attributes sync_user_device_group_roles
user_membership_change env fuel member_id group_id = do
  user_id ← lift (or_error (wrap "parse group membership member id") (env.uuids.parse member_id))
  sync_user_device_group_roles env fuel user_id (candidate_attributes group_id)

handle_user_membership_change :
    Environment → ℕ → MemberType → (member_id group_id : Bytes) → M (Unit {0})
unfolding user_membership_change
handle_user_membership_change env fuel member_type_user member_id group_id =
    user_membership_change env fuel member_id group_id
handle_user_membership_change env fuel (other n) member_id group_id = pure tt

abbrev group_membership_added_subject : Bytes
group_membership_added_subject = codes "agyn.groups.membership.added"

abbrev group_membership_removed_subject : Bytes
group_membership_removed_subject = codes "agyn.groups.membership.removed"

-- What follows proto.Unmarshal.
handle_event : Environment → ℕ → Result MembershipEvent → M (Unit {0})
unfolding handle_user_membership_change
handle_event env fuel unmarshaled = do
  event ← lift unmarshaled
  handle_user_membership_change env fuel event.member_type event.member_id event.group_id

unfoldable pub handle_group_membership_event :
    Environment → EventCodec → ℕ → (subject payload : Bytes) → M (Unit {0})
unfolding or_error handle_event bytes_eq
handle_group_membership_event env codec fuel subject payload =
    if bytes_eq subject group_membership_added_subject
    then handle_event env fuel
        (or_error (wrap "unmarshal group membership added event") (codec.unmarshal_added payload))
    else if bytes_eq subject group_membership_removed_subject
    then handle_event env fuel (
        or_error (wrap "unmarshal group membership removed event")
          (codec.unmarshal_removed payload))
    else pure tt

-- The loop over the users of a page: the first error ends it.
unfoldable pub sync_users : Environment → ℕ → List User → M (Unit {0})
unfolding sync_user_device_group_roles
sync_users env fuel [] = pure tt
sync_users env fuel (user ∷ users) = do
  sync_user_device_group_roles env fuel user.meta.id []
  sync_users env fuel users

-- The loop over the pages of users, which the reconciliation and the poll of the devices share.
unfoldable pub user_pages :
    Environment → ℕ → (List User → M (Unit {0})) → Option PageCursor → M (Unit {0})
unfolding or_fail
user_pages env zero visit page_token = raise (message "out of fuel")
user_pages env (suc fuel) visit page_token = do
  result ← or_fail (wrap "list users") (list_users env (pos max_list_page_size) page_token)
  visit result.users
  elim result.next_cursor [ none ↦ pure tt | some cursor ↦ user_pages env fuel visit (some cursor) ]

unfoldable pub reconcile_all_user_device_group_roles : Environment → ℕ → M (Unit {0})
unfolding user_pages sync_users
reconcile_all_user_device_group_roles env fuel = user_pages env fuel (sync_users env fuel) none
