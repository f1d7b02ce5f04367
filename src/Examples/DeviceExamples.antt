-- ===== src/Examples/DeviceExamples.antt =====
-- The theorems about devices, groups and all requests, at concrete inputs.
use users.Prelude.{
  Bytes, ◌≡◌, ◌≢◌, refl, none, List, [], ◌∷◌, ◌++◌, map, Bytes, codes, bytes_eq, All, arith, true,
}
use users.Prelude.Tables.{order_by}
use users.Prelude.Pairs.{Pairs}
use users.Errors.{ok, is_status, status_from, unauthenticated, message}
use users.Samples.{adam_row, ada_row, quiet, empty_world, plain_base64}
use users.World.{
  Environment, World, GroupsPage, ZitiIdentity, delete_device_identity, ◌>>=◌, attempt, lift,
  invoke, pure, raise, statement, ◌>>◌,
}
use users.World.Quiet.{IsQuiet}
use users.Store.Types.{UserRow, DeviceRow, device_status_pending, device_connectivity_offline}
use users.Store.Devices.{create_device}
use users.Store.Statements.{insert_device}
use users.Store.Rows.{is_device_status, is_device_connectivity}
use users.Store.Pagination.{owned_devices, list_devices, list_users}
use users.Server.GroupSync.Groups.{user_group_role_attributes}
use users.Server.GroupSync.Sync.{
  list_all_user_devices, sync_user_device_group_roles, reconcile_all_user_device_group_roles,
}
use users.Store.Users.SignIn.{user_of}
use users.Server.GroupSync.Sync.Reached.{Reached, user_row_id}
use users.Server.GroupSync.Sync.Users.{sync_user, reconcile-Reached}
use users.Server.GroupSync.Sync.Walk.{
  IsReadable, device_of, device_row_id, list_all_user_devices_complete,
}
use users.Server.GroupSync.Sync.Patched.{patch_of, sync-Patched}
use users.Server.GroupSync.{stale_candidate_attributes}
use users.Server.GroupSync.Attributes.{IsAnswer}
use users.Server.GroupSync.Groups.Paging.{
  Memberships, last, more, object_of, user_group_role_attributes_complete,
}
use users.World.{enrolled}
use users.Server.Liveness.Enrollment.{AllDated}
use users.Server.Liveness.Poll.{poll_user, poll_device_liveness}
use users.Server.Liveness.Poll.Laws.{poll_device_liveness-AllDated, poll_device_liveness-Reached}
use users.Server.Devices.{store_device}
use users.Server.Raises.Handlers.{get_me, serve_request, serve_request-is_status}
use users.Server.Devices.Undo.{store_device-undone}

abbrev phone : DeviceRow
phone = record {
  id = 4;
  identity_id = 1;
  name = codes "phone";
  open_ziti_identity_id = codes "z4";
  enrollment_jwt = none;
  status = device_status_pending;
  connectivity = device_connectivity_offline;
  enrolled_at = none;
  last_seen_at = none;
  created_at = 2;
}

abbrev laptop : DeviceRow
laptop = record phone { id = 3; open_ziti_identity_id = codes "z3" }

abbrev two_devices : World
two_devices = record {
  db = record { users = []; api_tokens = []; devices = phone ∷ laptop ∷ [] };
  clock = 0;
  calls = [];
}

-- The user is in one organization, and there in one group.
abbrev grouped : Environment
grouped = record quiet {
  list_objects = λ clock type relation user. ok ((codes "organization:" ++ 7 ∷ []) ∷ []);
  list_member_groups = λ clock member organization token.
      ok (record { group_ids = codes "g" ∷ []; next_page_token = [] });
}

grouped-IsQuiet : IsQuiet grouped
grouped-IsQuiet = record { no_fault = λ clock. refl; alone = λ clock db. refl }

two_devices-apart : Pairs (λ (x y : DeviceRow). x.id ≢ y.id) two_devices.db.devices
two_devices-apart = ((λ e. omega (arith, e), tt), (tt, tt))

two_devices-IsReadable : All IsReadable two_devices.db.devices
unfolding is_device_status is_device_connectivity bytes_eq
two_devices-IsReadable = ((refl, refl), ((refl, refl), tt))

list_all_user_devices_complete_example :
    ((list_all_user_devices grouped 3 1 two_devices).0
      ≡ ok (map device_of (order_by device_row_id (owned_devices 1 two_devices.db))))
    × ((list_all_user_devices grouped 3 1 two_devices).1.db ≡ two_devices.db)
    × ((list_all_user_devices grouped 3 1 two_devices).1.calls ≡ [])
unfolding owned_devices
list_all_user_devices_complete_example =
    list_all_user_devices_complete grouped grouped-IsQuiet 3 1 two_devices two_devices-apart
      two_devices-IsReadable (omega arith)

sync-Patched_example :
    (desired : List Bytes) × ((user_group_role_attributes grouped 3 1 two_devices).0 ≡ ok desired)
    × ((sync_user_device_group_roles grouped 3 1 (codes "group-h" ∷ []) two_devices).1.calls
        ≡ (user_group_role_attributes grouped 3 1 two_devices).1.calls
          ++ map
              (patch_of desired (stale_candidate_attributes desired (codes "group-h" ∷ [])))
              (map device_of (order_by device_row_id (owned_devices 1 two_devices.db))))
unfolding sync_user_device_group_roles owned_devices ◌>>=◌ attempt lift invoke pure list_devices
    statement ◌>>◌
sync-Patched_example =
    sync-Patched grouped grouped-IsQuiet 3 1 (codes "group-h" ∷ []) two_devices two_devices-apart
      two_devices-IsReadable (omega arith) refl

abbrev ziti : ZitiIdentity
ziti = record { ziti_identity_id = codes "z"; enrollment_jwt = codes "jwt" }

-- There is no user 1, so the device is not stored.
store_device-undone_example :
    (store_device quiet 1 (codes "phone") ziti empty_world).1.calls
    ≡ delete_device_identity (codes "z") ∷ []
unfolding store_device ◌>>=◌ attempt lift invoke pure statement ◌>>◌ create_device insert_device
    raise
store_device-undone_example = store_device-undone quiet 1 (codes "phone") ziti empty_world

-- A caller without metadata.
serve_request-is_status_example :
    is_status
      (status_from unauthenticated "identity not available" (message "no metadata in context"))
    ≡ true
unfolding serve_request ◌>>=◌ lift pure
serve_request-is_status_example =
    serve_request-is_status quiet plain_base64 0 none get_me empty_world
      (status_from unauthenticated "identity not available" (message "no metadata in context")) refl

-- Two pages of groups in every organization.
abbrev page_of : Bytes → GroupsPage
page_of [] = record { group_ids = codes "g" ∷ []; next_page_token = codes "p" }
page_of (x ∷ token) = record { group_ids = codes "h" ∷ []; next_page_token = [] }

page_of-next : (page_of []).next_page_token ≢ []
page_of-next e = cc

abbrev two_pages : Environment
two_pages = record quiet {
  list_objects = λ clock type relation user. ok (map (object_of quiet.uuids) (7 ∷ 8 ∷ []));
  list_member_groups = λ clock member organization token. ok (page_of token);
}

abbrev two_pages-Memberships : Memberships two_pages 1 2
two_pages-Memberships = record {
  organizations = 7 ∷ 8 ∷ [];
  groups = λ organization. codes "g" ∷ codes "h" ∷ [];
  answer = λ organization. page_of;
  pages = λ organization. 2;
  listed = λ clock. refl;
  answers = λ clock organization token. refl;
  paged = λ organization. more page_of-next (last refl);
  bounded = λ organization. omega arith;
}

user_group_role_attributes_complete_example :
    IsAnswer
      (codes "g" ∷ codes "h" ∷ codes "g" ∷ codes "h" ∷ [])
      (user_group_role_attributes two_pages 2 1 two_devices).0
user_group_role_attributes_complete_example =
    user_group_role_attributes_complete two_pages 1 2 two_pages-Memberships two_devices refl

abbrev two_users : World
two_users = record {
  db = record { users = adam_row ∷ ada_row ∷ []; api_tokens = []; devices = phone ∷ [] };
  clock = 0;
  calls = [];
}

two_users-apart : Pairs (λ (x y : UserRow). x.identity_id ≢ y.identity_id) two_users.db.users
two_users-apart = ((λ e. absurd (omega arith), tt), (tt, tt))

reconcile-Reached_example :
    Reached
      (sync_user grouped 3)
      (map user_of (order_by user_row_id two_users.db.users))
      two_users
      (reconcile_all_user_device_group_roles grouped 3 two_users).1
unfolding reconcile_all_user_device_group_roles ◌>>=◌ attempt lift invoke pure ◌>>◌ statement
    list_devices list_users
reconcile-Reached_example =
    reconcile-Reached grouped grouped-IsQuiet 3 two_users two_users-apart (omega arith) refl

-- Every identity is enrolled and connected.
abbrev connected : Environment
connected = record quiet {
  get_liveness =
      λ clock id. ok (record { enrollment_state = enrolled; has_edge_router_connection = true });
}

two_users-AllDated : AllDated two_users.db
unfolding bytes_eq
two_users-AllDated = ((λ e. absurd (cc)), tt)

poll_device_liveness-AllDated_example : AllDated (poll_device_liveness connected 3 two_users).1.db
poll_device_liveness-AllDated_example =
    poll_device_liveness-AllDated connected (λ clock db h. h) 3 two_users two_users-AllDated

connected-IsQuiet : IsQuiet connected
connected-IsQuiet = record { no_fault = λ clock. refl; alone = λ clock db. refl }

poll_device_liveness-Reached_example :
    ((poll_device_liveness connected 3 two_users).0 ≡ ok tt)
    × Reached
        (poll_user connected 3)
        (map user_of (order_by user_row_id two_users.db.users))
        two_users
        (poll_device_liveness connected 3 two_users).1
poll_device_liveness-Reached_example =
    poll_device_liveness-Reached connected connected-IsQuiet 3 two_users two_users-apart
      (omega arith)
