-- ===== src/Store/Consistent.antt =====
-- The constraints of the migrations, as an invariant of the tables, and every statement keeps them.
use users.Prelude.{
  ◌≡◌, ◌≢◌, refl, Bool, true, false, not, Option, none, some, List, Bytes, bytes_eq, bytes_eq_refl,
  ◌==◌, All, All-map, All-both, arith, Bool-cases, inl, inr, ap,
}
use users.Prelude.Tables.{where_, exists_where, All-where, All-where_true, All-of_exists_false}
use users.Prelude.Pairs.{
  Pairs, Pairs-where, Pairs-update, All-update_where, exists-where_, exists-cons,
}
use users.Store.Types.{
  UserId, Time, UserRow, ApiTokenRow, DeviceRow, Database, UserInput, CreateApiTokenInput,
  CreateDeviceInput, UpdateDeviceLivenessInput,
}
use users.Store.Statements.{
  has_id, has_subject, has_username, has_hash, insert_user, delete_user_rows, insert_api_token,
  delete_api_token_rows, insert_device, delete_device_rows, has_device_id, user_row, touch,
  touch_found, with_liveness, device_found,
}

-- Two users differ in their id, their subject and, where both have one, their username.
pub record Apart (x y : UserRow) : Type 0 where
  pub ids : x.identity_id ≢ y.identity_id
  pub subjects : x.oidc_subject ≢ y.oidc_subject
  pub usernames : (u : Bytes) → x.username ≡ some u → y.username ≢ some u

pub record ApartTokens (x y : ApiTokenRow) : Type 0 where
  pub ids : x.id ≢ y.id
  pub hashes : x.token_hash ≢ y.token_hash

abbrev pub ApartDevices : DeviceRow → DeviceRow → Type 0
ApartDevices x y = x.id ≢ y.id

-- The owner of a token or device is a user.
abbrev pub HasOwner : List UserRow → UserId → Type 0
HasOwner users id = exists_where (has_id id) users ≡ true

pub record IsConsistent (db : Database) : Type 0 where
  pub users : Pairs Apart db.users
  pub api_tokens : Pairs ApartTokens db.api_tokens
  pub devices : Pairs ApartDevices db.devices
  pub token_owners : All (λ t. HasOwner db.users t.identity_id) db.api_tokens
  pub device_owners : All (λ d. HasOwner db.users d.identity_id) db.devices

bytes_ne : (s t : Bytes) → bytes_eq s t ≡ false → t ≢ s
bytes_ne s t h e = cc (bytes_eq_refl s, ap (bytes_eq s) e)

pub not_username :
    (u v : Bytes) (y : UserRow) → has_username u y ≡ false → u ≡ v → y.username ≢ some v
unfolding has_username
not_username u v y h e e' = bytes_ne v u (rw (e', has_username) at h) e

-- A user that the three unique indexes let in.
Apart-of :
    (x y : UserRow) {u : Bytes}
    → x.username ≡ some u
    → has_id x.identity_id y ≡ false
    → (has_subject x.oidc_subject y ≡ false) × (has_username u y ≡ false)
    → Apart x y
unfolding has_id has_subject
Apart-of x y {u} named p h = record {
  ids = λ e. ground (arith, p, e);
  subjects = bytes_ne y.oidc_subject x.oidc_subject h.0;
  usernames = λ v e. not_username u v y h.1 (cc (named, e));
}

owner_kept :
    (id owner : UserId) (users : List UserRow)
    → not (owner == id) ≡ true
    → HasOwner users owner
    → HasOwner (where_ (λ row. not (has_id id row)) users) owner
unfolding has_id
owner_kept id owner users other h =
    exists-where_ (has_id owner) (λ row. not (has_id id row)) users
      (λ x e. ground (arith, e, other)) h

pub insert_user-IsConsistent :
    (id : UserId) (now : Time) (input : UserInput) (db : Database)
    → IsConsistent db
    → IsConsistent (insert_user id now input db).1
unfolding insert_user
insert_user-IsConsistent id now input db c = elim (Bool-cases (exists_where (has_id id) db.users)) [
  | inl p ↦ rw p c
  | inr p ↦ rw p (elim (Bool-cases (exists_where (has_subject input.oidc_subject) db.users)) [
    | inl q ↦ rw q c
    | inr q ↦ rw q (elim (Bool-cases (exists_where (has_username input.username) db.users)) [
      | inl r ↦ rw r c
      | inr r ↦ rw r (record {
        users = (fresh p q r, c.users);
        api_tokens = c.api_tokens;
        devices = c.devices;
        token_owners =
            All-map db.api_tokens
              (λ t. exists-cons (has_id t.identity_id) (user_row id now input) db.users)
              c.token_owners;
        device_owners =
            All-map db.devices
              (λ d. exists-cons (has_id d.identity_id) (user_row id now input) db.users)
              c.device_owners;
      })
    ])
  ])
]
  where
    fresh :
        exists_where (has_id id) db.users ≡ false
        → exists_where (has_subject input.oidc_subject) db.users ≡ false
        → exists_where (has_username input.username) db.users ≡ false
        → All (Apart (user_row id now input)) db.users
    fresh p q r =
        All-map db.users (λ y h. Apart-of (user_row id now input) y refl h.0 h.1)
          (All-both _ _ db.users (All-of_exists_false (has_id id) db.users p) (
            All-both _ _ db.users (All-of_exists_false (has_subject input.oidc_subject) db.users q)
              (All-of_exists_false (has_username input.username) db.users r)))

pub delete_user_rows-IsConsistent :
    (id : UserId) (db : Database) → IsConsistent db → IsConsistent (delete_user_rows id db).1
unfolding delete_user_rows
delete_user_rows-IsConsistent id db c = record {
  users = Pairs-where Apart _ db.users c.users;
  api_tokens = Pairs-where ApartTokens _ db.api_tokens c.api_tokens;
  devices = Pairs-where ApartDevices _ db.devices c.devices;
  token_owners =
      All-map (where_ (λ (t : ApiTokenRow). not (t.identity_id == id)) db.api_tokens)
        (λ t h. owner_kept id t.identity_id db.users h.0 h.1)
        (All-both _ _ (where_ (λ (t : ApiTokenRow). not (t.identity_id == id)) db.api_tokens)
          (All-where_true (λ (t : ApiTokenRow). not (t.identity_id == id)) db.api_tokens)
          (All-where (λ t. HasOwner db.users t.identity_id)
            (λ (t : ApiTokenRow). not (t.identity_id == id)) db.api_tokens c.token_owners));
  device_owners =
      All-map (where_ (λ (d : DeviceRow). not (d.identity_id == id)) db.devices)
        (λ d h. owner_kept id d.identity_id db.users h.0 h.1)
        (All-both _ _ (where_ (λ (d : DeviceRow). not (d.identity_id == id)) db.devices)
          (All-where_true (λ (d : DeviceRow). not (d.identity_id == id)) db.devices)
          (All-where (λ d. HasOwner db.users d.identity_id)
            (λ (d : DeviceRow). not (d.identity_id == id)) db.devices c.device_owners));
}

pub insert_api_token-IsConsistent :
    (id : UserId) (now : Time) (input : CreateApiTokenInput) (db : Database)
    → IsConsistent db
    → IsConsistent (insert_api_token id now input db).1
unfolding insert_api_token
insert_api_token-IsConsistent id now input db c =
    elim (Bool-cases (exists_where (λ (row : ApiTokenRow). row.id == id) db.api_tokens)) [
      | inl p ↦ rw p c
      | inr p ↦ rw p (elim (Bool-cases (exists_where (has_hash input.token_hash) db.api_tokens)) [
        | inl q ↦ rw q c
        | inr q ↦ rw q (elim (Bool-cases (exists_where (has_id input.identity_id) db.users)) [
          | inl r ↦ rw r (record {
            users = c.users;
            api_tokens = (
              All-map db.api_tokens
                  (λ y h.
                    unfold has_hash in
                    record {
                      ids = λ e. ground (arith, h.0, e);
                      hashes = bytes_ne y.token_hash input.token_hash h.1;
                    })
                  (All-both _ _ db.api_tokens
                    (All-of_exists_false (λ (row : ApiTokenRow). row.id == id) db.api_tokens p)
                    (All-of_exists_false (has_hash input.token_hash) db.api_tokens q)),
              c.api_tokens,
            );
            devices = c.devices;
            token_owners = (r, c.token_owners);
            device_owners = c.device_owners;
          })
          | inr r ↦ rw r c
        ])
      ])
    ]

pub delete_api_token_rows-IsConsistent :
    (id identity_id : UserId) (db : Database)
    → IsConsistent db
    → IsConsistent (delete_api_token_rows id identity_id db).1
unfolding delete_api_token_rows
delete_api_token_rows-IsConsistent id identity_id db c = record {
  users = c.users;
  api_tokens = Pairs-where ApartTokens _ db.api_tokens c.api_tokens;
  devices = c.devices;
  token_owners = All-where (λ t. HasOwner db.users t.identity_id) _ db.api_tokens c.token_owners;
  device_owners = c.device_owners;
}

module _ (db : Database) (c : IsConsistent db) where
  pub touch_found-IsConsistent :
      (now : Time) (used : ApiTokenRow → Bool) (found : Option ApiTokenRow)
      → IsConsistent (touch_found now used found db).1
  unfolding touch_found
  touch_found-IsConsistent now used none = c
  touch_found-IsConsistent now used (some row) = record {
    users = c.users;
    api_tokens =
        Pairs-update ApartTokens used (touch now) db.api_tokens
          (λ x y h. record { ids = h.ids; hashes = h.hashes })
          (λ x y h. record { ids = h.ids; hashes = h.hashes }) c.api_tokens;
    devices = c.devices;
    token_owners =
        All-update_where (λ t. HasOwner db.users t.identity_id) used (touch now) db.api_tokens
          (λ t h. h) c.token_owners;
    device_owners = c.device_owners;
  }

  pub device_found-IsConsistent :
      (input : UpdateDeviceLivenessInput) (found : Option DeviceRow)
      → IsConsistent (device_found input found db).1
  unfolding device_found
  device_found-IsConsistent input none = c
  device_found-IsConsistent input (some row) = record {
    users = c.users;
    api_tokens = c.api_tokens;
    devices =
        Pairs-update ApartDevices (has_device_id input.id) (with_liveness input) db.devices
          (λ x y h. h) (λ x y h. h) c.devices;
    token_owners = c.token_owners;
    device_owners =
        All-update_where (λ d. HasOwner db.users d.identity_id) (has_device_id input.id)
          (with_liveness input) db.devices (λ d h. h) c.device_owners;
  }

  pub delete_device_rows-IsConsistent :
      (id identity_id : UserId) → IsConsistent (delete_device_rows id identity_id db).1
  unfolding delete_device_rows
  delete_device_rows-IsConsistent id identity_id = record {
    users = c.users;
    api_tokens = c.api_tokens;
    devices = Pairs-where ApartDevices _ db.devices c.devices;
    token_owners = c.token_owners;
    device_owners = All-where (λ d. HasOwner db.users d.identity_id) _ db.devices c.device_owners;
  }

  pub insert_device-IsConsistent :
      (id : UserId) (now : Time) (input : CreateDeviceInput)
      → IsConsistent (insert_device id now input db).1
  unfolding insert_device
  insert_device-IsConsistent id now input =
      elim (Bool-cases (exists_where (λ (row : DeviceRow). row.id == id) db.devices)) [
        | inl p ↦ rw p c
        | inr p ↦ rw p (elim (Bool-cases (exists_where (has_id input.identity_id) db.users)) [
          | inl r ↦ rw r (record {
            users = c.users;
            api_tokens = c.api_tokens;
            devices = (
              All-map db.devices (λ y h e. ground (arith, h, e))
                  (All-of_exists_false (λ (row : DeviceRow). row.id == id) db.devices p),
              c.devices,
            );
            token_owners = c.token_owners;
            device_owners = (r, c.device_owners);
          })
          | inr r ↦ rw r c
        ])
      ]
