-- ===== src/Server/GroupSync/Groups/Paging.antt =====
-- The loops over the pages and the organizations list all the groups of a user.
use users.Prelude.{
  ℕ, zero, suc, ◌≤◌, ◌+◌, ◌≡◌, ◌≢◌, refl, sym, ◌∙◌, ap, true, false, List, [], ◌∷◌, ◌++◌, map,
  append-nil, append_assoc, Bytes, bytes_eq, bytes_eq_iff, bytes_eq-of_ne, if◌then◌else◌, arith,
}
use users.Errors.{ok, wrap}
use users.World.{
  Environment, World, Uuids, GroupsPage, list_member_groups, list_objects, pure, lift, invoke,
}
use users.World.Runs.{bind-of_ok}
use users.Store.Types.{UserId}
use users.Server.Status.Laws.{or_fail-of_ok}
use users.Server.Auth.{identity_object_prefix}
use users.Server.GroupSync.{role_attributes}
use users.Server.GroupSync.Attributes.{IsAnswer, role_attributes-IsAnswer}
use users.Server.GroupSync.Groups.{
  cut_prefix, parse_organization, organizations_of, organization_object_prefix, organization_type,
  organization_member_relation, list_user_organization_ids, member_groups, group_pages, groups_in,
  list_user_groups, known_role_attributes, user_group_role_attributes,
}

-- The groups on the pages from a token on, as the service answers, and the number of these pages.
pub data Pages (answer : Bytes → GroupsPage) : Bytes → List Bytes → ℕ → Type 0 where
  last :
      {token : Bytes}
      → (answer token).next_page_token ≡ []
      → Pages answer token (answer token).group_ids 1
  more :
      {token : Bytes} {groups : List Bytes} {n : ℕ}
      → (answer token).next_page_token ≢ []
      → Pages answer (answer token).next_page_token groups n
      → Pages answer token ((answer token).group_ids ++ groups) (suc n)

module _ (env : Environment) (member organization : Bytes) (answer : Bytes → GroupsPage)
    (answers : (clock : ℕ) (token : Bytes)
      → env.list_member_groups clock member organization token ≡ ok (answer token)) where
  member_groups-run :
      (token : Bytes) (w : World)
      → (w' : World) × (invoke
            (list_member_groups member organization token)
            (λ clock. env.list_member_groups clock member organization token)
            w
          ≡ (ok (answer token), w'))
  unfolding invoke
  member_groups-run token w =
      let c = list_member_groups member organization token in
      (record w { clock = w.clock + 1; calls = w.calls ++ c ∷ [] }, rw (answers w.clock token) refl)

  group_pages_lem :
      (fuel : ℕ) (before : List Bytes) (w : World) {token : Bytes} {groups : List Bytes} {n : ℕ}
      → Pages answer token groups n
      → n ≤ fuel
      → (group_pages env fuel member organization token before w).0 ≡ ok (before ++ groups)
  unfolding group_pages member_groups
  group_pages_lem zero before w (last h) l = absurd (omega arith)
  group_pages_lem zero before w (more h pages) l = absurd (omega arith)
  group_pages_lem (suc fuel) before w {token} (last h) l =
      let (w', run) = member_groups-run token w in
      let e : bytes_eq (answer token).next_page_token [] ≡ true =
        (bytes_eq_iff (answer token).next_page_token []).1 h in
      rw (or_fail-of_ok (wrap "list member groups") _ _ w w' run, e) (unfold pure in refl)
  group_pages_lem (suc fuel) before w {token} (more {groups} h pages) l =
      let (w', run) = member_groups-run token w in
      let e : bytes_eq (answer token).next_page_token [] ≡ false =
        bytes_eq-of_ne (answer token).next_page_token [] h in
      rw (or_fail-of_ok (wrap "list member groups") _ _ w w' run, e)
        (group_pages_lem fuel (before ++ (answer token).group_ids) w' pages (omega (arith, l))
          ∙ ap ok (append_assoc before (answer token).group_ids groups))

-- The object of an organization, as the authorization service names it.
abbrev pub object_of : Uuids → UserId → Bytes
object_of uuids id = organization_object_prefix ++ uuids.to_string id

organizations_of-object_of :
    (uuids : Uuids) (ids : List UserId)
    → organizations_of uuids (map (object_of uuids) ids) ≡ ok ids
unfolding organizations_of parse_organization cut_prefix
organizations_of-object_of uuids [] = refl
organizations_of-object_of uuids (id ∷ ids) =
    rw (uuids.parse-to_string id, organizations_of-object_of uuids ids) refl

abbrev pub concat_map : (UserId → List Bytes) → List UserId → List Bytes
concat_map f [] = []
concat_map f (x ∷ xs) = f x ++ concat_map f xs

-- What the authorization service and the groups service answer about a user, at any time.
pub record Memberships (env : Environment) (user_id : UserId) (fuel : ℕ) : Type 0 where
  pub organizations : List UserId
  pub groups : UserId → List Bytes
  pub answer : UserId → Bytes → GroupsPage
  pub pages : UserId → ℕ
  pub listed :
      (clock : ℕ)
      → env.list_objects clock organization_type organization_member_relation
          (identity_object_prefix ++ env.uuids.to_string user_id)
        ≡ ok (map (object_of env.uuids) organizations)
  pub answers :
      (clock : ℕ) (organization : UserId) (token : Bytes)
      → env.list_member_groups clock
          (env.uuids.to_string user_id)
          (env.uuids.to_string organization)
          token
        ≡ ok (answer organization token)
  pub paged :
      (organization : UserId)
      → Pages (answer organization) [] (groups organization) (pages organization)
  pub bounded : (organization : UserId) → pages organization ≤ fuel

module _ (env : Environment) (user_id : UserId) (fuel : ℕ) (m : Memberships env user_id fuel) where
  groups_in_lem :
      (ids : List UserId) (before : List Bytes) (w : World)
      → (groups_in env fuel (env.uuids.to_string user_id) ids before w).0
        ≡ ok (before ++ concat_map m.groups ids)
  unfolding groups_in
  groups_in_lem [] before w = unfold pure in ap ok (sym (append-nil before))
  groups_in_lem (id ∷ ids) before w =
      let member = env.uuids.to_string user_id in
      let organization = env.uuids.to_string id in
      let listed =
        group_pages_lem env member organization (m.answer id)
          (λ clock token. m.answers clock id token) fuel before w (m.paged id) (m.bounded id) in
      let run = group_pages env fuel member organization [] before w in
      rw
        (bind-of_ok (group_pages env fuel member organization [] before) _ w run.1
          (ap (λ r. (r, run.1)) listed))
        (groups_in_lem ids (before ++ m.groups id) run.1
          ∙ ap ok (append_assoc before (m.groups id) (concat_map m.groups ids)))

  organizations_lem :
      (w : World)
      → (w' : World) × (list_user_organization_ids env user_id w ≡ (ok m.organizations, w'))
  unfolding list_user_organization_ids invoke lift
  organizations_lem w =
      let user = identity_object_prefix ++ env.uuids.to_string user_id in
      let c = list_objects organization_type organization_member_relation user in
      let w' : World = record w { clock = w.clock + 1; calls = w.calls ++ c ∷ [] } in
      let call =
        invoke c
          (λ clock. env.list_objects clock organization_type organization_member_relation user) in
      let called : call w ≡ (ok (map (object_of env.uuids) m.organizations), w') =
        ap (λ r. (r, w')) (m.listed w.clock) in
      (
        w',
        or_fail-of_ok (wrap "list organization memberships") call
              (λ objects. lift (organizations_of env.uuids objects)) w w' called
            ∙ ap (λ r. (r, w')) (organizations_of-object_of env.uuids m.organizations),
      )

  list_user_groups_lem :
      (w : World)
      → (list_user_groups env fuel user_id w).0 ≡ ok (concat_map m.groups m.organizations)
  unfolding list_user_groups
  list_user_groups_lem w =
      let (w', run) = organizations_lem w in
      rw (bind-of_ok (list_user_organization_ids env user_id) _ w w' run)
        (groups_in_lem m.organizations [] w')

user_group_role_attributes-run :
    (env : Environment) (user_id : UserId) (fuel : ℕ) (m : Memberships env user_id fuel) (w : World)
    → env.has_groups_client ≡ true
    → (user_group_role_attributes env fuel user_id w).0
      ≡ role_attributes (concat_map m.groups m.organizations)
unfolding user_group_role_attributes known_role_attributes lift
user_group_role_attributes-run env user_id fuel m w client =
    let w' = (list_user_groups env fuel user_id w).1 in
    let listed : list_user_groups env fuel user_id w
        ≡ (ok (concat_map m.groups m.organizations), w') =
      ap (λ r. (r, w')) (list_user_groups_lem env user_id fuel m w) in
    let known = known_role_attributes env fuel user_id in
    ap (λ b. ((if b then known else pure []) w).0) client
    ∙ ap (λ r. r.0)
        (bind-of_ok (list_user_groups env fuel user_id) (λ groups. lift (role_attributes groups)) w
          w' listed)

-- Where the server has a client of the groups service, the authorization service names the
-- organizations of the user, and the groups service lists the groups in each on pages that end within
-- the fuel, the role attributes of the user are "group-" with the id of a group, for exactly the
-- groups on all the pages of all the organizations, each once and in the order of texts; they are an
-- error exactly where one of these groups has no id.
pub user_group_role_attributes_complete :
    (env : Environment) (user_id : UserId) (fuel : ℕ) (m : Memberships env user_id fuel) (w : World)
    → env.has_groups_client ≡ true
    → IsAnswer
        (concat_map m.groups m.organizations)
        (user_group_role_attributes env fuel user_id w).0
user_group_role_attributes_complete env user_id fuel m w client =
    rw (user_group_role_attributes-run env user_id fuel m w client)
      (role_attributes-IsAnswer (concat_map m.groups m.organizations))
