-- ===== src/Server/GroupSync/Attributes.antt =====
-- What `userGroupRoleAttributes` makes of the ids of the groups.
use users.Prelude.{
  ◌≡◌, ◌≢◌, refl, sym, subst, ◌⊎◌, inl, inr, true, false, List, [], ◌∷◌, ◌++◌, Bytes, codes,
  text_leb, bytes_eq, bytes_eq_iff, bytes_eq-of_ne, All, All-map, Bool-cases, arith,
}
use users.Prelude.Tables.{Member, here, there, sort_with, All-sort_with}
use users.Prelude.Pairs.{Pairs}
use users.Prelude.Listing.{
  Lists, Before, Before-chain, text_leb-Before, text_leb-Behind, Member-sort_with, Pairs-sort_with,
}
use users.Errors.{Result, ok, err, Error, message}
use users.Server.GroupSync.{
  group_role_attribute, in_set, attributes_of, sort_result, role_attributes,
}

-- The attribute of one of the groups: its id behind "group-".
abbrev pub IsAttribute : List Bytes → Bytes → Type 0
IsAttribute groups attribute =
    (group : Bytes) × Member group groups × (attribute ≡ codes "group-" ++ group)

-- The attributes of all the groups, each once, in the order of texts; or an error, where a group has
-- no id.
abbrev pub IsAnswer : List Bytes → Result (List Bytes) → Type 0
IsAnswer groups answer =
    (All (λ group. group ≢ []) groups
      × ((attributes : List Bytes) × (answer ≡ ok attributes)
          × Lists Before (IsAttribute groups) attributes))
    ⊎ (Member [] groups × ((e : Error) × (answer ≡ err e)))

-- What the loop returns behind the attributes that it has seen.
record Found (seen groups attributes : List Bytes) : Type 0 where
  distinct : Pairs (λ x y. x ≢ y) attributes
  fresh : All (λ x. in_set x seen ≡ false) attributes
  sound : All (IsAttribute groups) attributes
  complete :
      (group : Bytes)
      → Member group groups
      → in_set (group_role_attribute group) seen ≡ false
      → Member (group_role_attribute group) attributes

named_or_nameless : (groups : List Bytes) → All (λ group. group ≢ []) groups ⊎ Member [] groups
named_or_nameless [] = inl tt
named_or_nameless (group ∷ groups) = elim (Bool-cases (bytes_eq group [])) [
  | inl e ↦ inr (subst (λ g. Member g (group ∷ groups)) ((bytes_eq_iff group []).0 e) (here groups))
  | inr e ↦ elim (named_or_nameless groups) [
    | inl h ↦ inl ((λ q. absurd (cc ((bytes_eq_iff group []).1 q, e))), h)
    | inr m ↦ inr (there group m)
  ]
]

attributes_of-nameless :
    (seen groups : List Bytes)
    → attributes_of seen ([] ∷ groups) ≡ err (message "groups list returned group without id")
unfolding attributes_of bytes_eq
attributes_of-nameless seen groups = refl

attributes_of-err :
    (seen groups : List Bytes)
    → Member [] groups
    → (e : Error) × (attributes_of seen groups ≡ err e)
unfolding attributes_of
attributes_of-err seen [] m = elim m [ ]
attributes_of-err seen (_ ∷ groups) (here _) =
    (message "groups list returned group without id", attributes_of-nameless seen groups)
attributes_of-err seen (group ∷ groups) (there _ m) =
    let attribute = group_role_attribute group in
    let (e, skipped) = attributes_of-err seen groups m in
    let (e', kept) = attributes_of-err (attribute ∷ seen) groups m in
    elim (Bool-cases (bytes_eq group [])) [
      | inl p ↦ (message "groups list returned group without id", rw p refl)
      | inr p ↦ elim (Bool-cases (in_set attribute seen)) [
        | inl q ↦ (e, rw (p, q) skipped)
        | inr q ↦ (e', rw (p, q, kept) refl)
      ]
    ]

more_groups :
    (group : Bytes) (groups : List Bytes) (x : Bytes)
    → IsAttribute groups x
    → IsAttribute (group ∷ groups) x
more_groups group groups x (g, m, e) = (g, there group m, e)

skip-Found :
    (seen groups attributes : List Bytes) (group : Bytes)
    → in_set (group_role_attribute group) seen ≡ true
    → Found seen groups attributes
    → Found seen (group ∷ groups) attributes
skip-Found seen groups attributes group q f = record {
  distinct = f.distinct;
  fresh = f.fresh;
  sound = All-map attributes (more_groups group groups) f.sound;
  complete = go;
}
  where
    go :
        (g : Bytes)
        → Member g (group ∷ groups)
        → in_set (group_role_attribute g) seen ≡ false
        → Member (group_role_attribute g) attributes
    go g (here _) k = absurd (cc)
    go g (there _ m) k = f.complete g m k

-- An attribute that is not in a set with one more is not that one, and not in the set.
apart :
    (a x : Bytes) (seen : List Bytes)
    → in_set x (a ∷ seen) ≡ false
    → (a ≢ x) × (in_set x seen ≡ false)
unfolding in_set
apart a x seen h = ((λ q. ground (arith, (bytes_eq_iff a x).1 q, h)), ground (arith, h))

keep-Found :
    (seen groups attributes : List Bytes) (group : Bytes)
    → in_set (group_role_attribute group) seen ≡ false
    → Found (group_role_attribute group ∷ seen) groups attributes
    → Found seen (group ∷ groups) (group_role_attribute group ∷ attributes)
unfolding in_set group_role_attribute
keep-Found seen groups attributes group q f =
    let a = group_role_attribute group in
    record {
      distinct = (All-map attributes (λ x h. (apart a x seen h).0) f.fresh, f.distinct);
      fresh = (q, All-map attributes (λ x h. (apart a x seen h).1) f.fresh);
      sound = ((group, here groups, refl), All-map attributes (more_groups group groups) f.sound);
      complete = go;
    }
  where
    go :
        (g : Bytes)
        → Member g (group ∷ groups)
        → in_set (group_role_attribute g) seen ≡ false
        → Member (group_role_attribute g) (group_role_attribute group ∷ attributes)
    go g (here _) k = here attributes
    go g (there _ m) k =
        elim (Bool-cases (bytes_eq (group_role_attribute group) (group_role_attribute g))) [
          | inl e ↦
              subst (λ x. Member x (group_role_attribute group ∷ attributes))
                ((bytes_eq_iff (group_role_attribute group) (group_role_attribute g)).0 e)
                (here attributes)
          | inr e ↦ there (group_role_attribute group) (f.complete g m (ground (arith, e, k)))
        ]

attributes_of-Found :
    (seen groups : List Bytes)
    → All (λ group. group ≢ []) groups
    → (attributes : List Bytes) × (attributes_of seen groups ≡ ok attributes)
      × Found seen groups attributes
unfolding attributes_of
attributes_of-Found seen [] h =
    ([], refl, record { distinct = tt; fresh = tt; sound = tt; complete = λ g m k. elim m [ ] })
attributes_of-Found seen (group ∷ groups) h =
    let a = group_role_attribute group in
    let p = bytes_eq-of_ne group [] h.0 in
    elim (Bool-cases (in_set a seen)) [
      | inl q ↦
          let (attributes, run, f) = attributes_of-Found seen groups h.1 in
          (attributes, rw (p, q) run, skip-Found seen groups attributes group q f)
      | inr q ↦
          let (attributes, run, f) = attributes_of-Found (a ∷ seen) groups h.1 in
          (a ∷ attributes, rw (p, q, run) refl, keep-Found seen groups attributes group q f)
    ]

pub role_attributes-IsAnswer : (groups : List Bytes) → IsAnswer groups (role_attributes groups)
unfolding role_attributes sort_result group_role_attribute in_set
role_attributes-IsAnswer groups = elim (named_or_nameless groups) [
  | inr m ↦ let (e, run) = attributes_of-err [] groups m in inr (m, (e, rw run refl))
  | inl h ↦
      let (attributes, run, f) = attributes_of-Found [] groups h in
      inl (
        h,
        (
          sort_with text_leb attributes,
          rw run refl,
          record {
            ordered =
                Pairs-sort_with (λ x y. x ≢ y) Before text_leb text_leb-Before text_leb-Behind
                  (λ x y z. Before-chain) attributes f.distinct;
            sound = All-sort_with (IsAttribute groups) text_leb attributes f.sound;
            complete = λ x (g, m, e).
                subst (λ y. Member y (sort_with text_leb attributes)) (sym e)
                  (Member-sort_with text_leb (f.complete g m refl));
          },
        ),
      )
]
