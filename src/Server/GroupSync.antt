-- ===== src/Server/GroupSync.antt =====
-- internal/server/group_sync.go: which role attributes the devices of a user get, from the groups of
-- the user; Groups has the calls that list the groups, and Sync what is done with them.
pub mod Stale
pub mod Attributes
pub mod Groups
pub mod Sync
use users.Prelude.{
  ℕ, text_leb, zero, suc, ◌+◌, ◌*◌, Bool, true, false, not, ◌&&◌, ◌||◌, Option, none, some, List,
  [], ◌∷◌, ◌++◌, Bytes, codes, bytes_eq, ltb, ◌==◌, if◌then◌else◌,
}
use users.Prelude.Tables.{sort_with}
use users.Errors.{Result, ok, err, Error, message, wrap}
use users.World.{
  Environment, M, Call, patch_role_attributes, pure, raise, lift, invoke, ◌>>=◌, ◌>>◌,
}
use users.Store.Types.{UserId, Device}
use users.Server.Status.{or_fail}

abbrev pub group_role_attribute_prefix : Bytes
group_role_attribute_prefix = codes "group-"

group_role_attribute : Bytes → Bytes
group_role_attribute group_id = group_role_attribute_prefix ++ group_id

-- A set of strings: `_, ok := set[attr]`.
pub in_set : Bytes → List Bytes → Bool
unfolding bytes_eq
in_set attr [] = false
in_set attr (x ∷ xs) = bytes_eq x attr || in_set attr xs

-- The loop of `userGroupRoleAttributes`, with the attributes that were seen.
attributes_of : List Bytes → List Bytes → Result (List Bytes)
unfolding in_set group_role_attribute bytes_eq
attributes_of seen [] = ok []
attributes_of seen (group_id ∷ groups) =
    let attribute = group_role_attribute group_id in
    let skipped = attributes_of seen groups in
    let kept = attributes_of (attribute ∷ seen) groups in
    if bytes_eq group_id []
    then err (message "groups list returned group without id")
    else if in_set attribute seen
    then skipped
    else elim kept [ err e ↦ err e | ok attributes ↦ ok (attribute ∷ attributes) ]

sort_result : Result (List Bytes) → Result (List Bytes)
unfolding text_leb sort_with
sort_result (err e) = err e
sort_result (ok attributes) = ok (sort_with text_leb attributes)

-- `userGroupRoleAttributes` behind listUserGroups: the ids of the groups that it returned.
unfoldable pub role_attributes : List Bytes → Result (List Bytes)
unfolding attributes_of sort_result
role_attributes groups = sort_result (attributes_of [] groups)

-- The loop of `staleCandidateAttributes`.
stale_from : List Bytes → List Bytes → List Bytes → List Bytes
unfolding in_set bytes_eq
stale_from desired seen [] = []
stale_from desired seen (attr ∷ candidates) =
    let skipped = stale_from desired seen candidates in
    let kept = stale_from desired (attr ∷ seen) candidates in
    if bytes_eq attr [] || (in_set attr desired || in_set attr seen) then skipped else attr ∷ kept

pub stale_candidate_attributes : List Bytes → List Bytes → List Bytes
unfolding stale_from text_leb sort_with
stale_candidate_attributes desired candidates =
    sort_with text_leb (stale_from desired [] candidates)

-- The loop over the devices of a user.
unfoldable patch_devices : Environment → List Bytes → List Bytes → List Device → M (Unit {0})
unfolding or_fail
patch_devices env desired remove [] = pure tt
patch_devices env desired remove (device ∷ devices) = do
  let id = device.open_ziti_identity_id
  or_fail (wrap "patch device role attributes") (
      invoke (patch_role_attributes id desired remove)
        (λ clock. env.patch_role_attributes clock id desired remove))
  patch_devices env desired remove devices
