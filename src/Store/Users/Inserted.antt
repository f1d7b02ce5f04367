-- ===== src/Store/Users/Inserted.antt =====
-- A user that was created, and then deleted, leaves the tables as they were.
use users.Prelude.{
  ℕ, ◌≡◌, refl, sym, ◌∙◌, ap, Bool, true, false, not, List, [], ◌∷◌, ◌==◌, All, All-map, arith,
  Bool-cases, inl, inr,
}
use users.Prelude.Tables.{where_, exists_where, All-of_exists_false}
use users.Errors.{Result, ok, err, not_found, as_unique_violation}
use users.World.{Environment, attempt}
use users.World.Quiet.{IsQuiet}
use users.World.Ends.{
  Ends, After, Ends-pure, Ends-raise, Ends-lift, Ends-attempt, Ends-statement, Ends-bind,
}
use users.Store.Types.{UserId, Time, User, UserRow, UserInput, ApiTokenRow, DeviceRow, Database}
use users.Store.Rows.{scan_user}
use users.Store.Statements.{
  has_id, has_subject, has_username, insert_user, delete_user_rows, user_row,
}
use users.Store.Consistent.{IsConsistent, HasOwner}
use users.Store.Users.{
  insert_and_scan, create_error, after_create, create_user, after_delete, delete_user,
}

-- The tables are those from before, with a new row for an id that no user had.
pub record Inserted (start : Database) (id : UserId) (db : Database) : Type 0 where
  pub row : UserRow
  pub same_id : row.identity_id ≡ id
  pub added : db ≡ record start { users = row ∷ start.users }
  pub fresh : exists_where (has_id id) start.users ≡ false

abbrev pub Same : Database → Database → Type 0
Same start db = db ≡ start

insert_user-Inserted :
    (start : Database) (input : UserInput) (id : UserId) (now : Time) (db : Database)
    → Same start db
    → After
        (λ (row : UserRow). Inserted start row.identity_id)
        (Same start)
        (insert_user id now input db).0
        (insert_user id now input db).1
unfolding insert_user
insert_user-Inserted start input id now db same =
    elim (Bool-cases (exists_where (has_id id) db.users)) [
      | inl e ↦ rw (insert_user, e) same
      | inr e ↦ elim (Bool-cases (exists_where (has_subject input.oidc_subject) db.users)) [
        | inl f ↦ rw (insert_user, e, f) same
        | inr f ↦ elim (Bool-cases (exists_where (has_username input.username) db.users)) [
          | inl g ↦ rw (insert_user, e, f, g) same
          | inr g ↦
              rw (insert_user, e, f, g)
                (record {
                  row = user_row id now input;
                  same_id = refl;
                  added =
                      ap (λ (db : Database). record db { users = user_row id now input ∷ db.users })
                        same;
                  fresh = rw (sym same) e;
                })
        ]
      ]
    ]

where_-every :
    {A : Type 0} (p : A → Bool) (xs : List A) → All (λ x. p x ≡ true) xs → where_ p xs ≡ xs
unfolding where_
where_-every p [] h = refl
where_-every p (x ∷ xs) h = rw h.0 (ap (λ r. x ∷ r) (where_-every p xs h.1))

-- Nobody owns anything under an id that no user has.
not_owner :
    (users : List UserRow) (id owner : UserId)
    → exists_where (has_id id) users ≡ false
    → HasOwner users owner
    → not (owner == id) ≡ true
not_owner users id owner none_has h = elim (Bool-cases (owner == id)) [
  | inl e ↦
      let same : owner ≡ id = ground (arith, e) in
      absurd (cc (none_has, h, ap (λ (i : UserId). exists_where (has_id i) users) same))
  | inr e ↦ rw e refl
]

same_database :
    {start : Database} {users : List UserRow} {tokens : List ApiTokenRow} {devices : List DeviceRow}
    → users ≡ start.users
    → tokens ≡ start.api_tokens
    → devices ≡ start.devices
    → ◌≡◌ {A = Database} (record { users = users; api_tokens = tokens; devices = devices }) start
same_database h h' h'' = rw (h, h', h'') refl

delete_user_rows-Inserted :
    (start db : Database) (id : UserId)
    → IsConsistent start
    → Inserted start id db
    → (delete_user_rows id db).1 ≡ start
unfolding delete_user_rows has_id
delete_user_rows-Inserted start db id consistent inserted =
    let others = All-of_exists_false (has_id id) start.users inserted.fresh in
    let same = inserted.same_id in
    let own : has_id id inserted.row ≡ true = ground (arith, same) in
    let users : where_ (λ row. not (has_id id row)) (inserted.row ∷ start.users) ≡ start.users =
      unfold where_ in
      rw own (
        where_-every (λ row. not (has_id id row)) start.users
          (All-map start.users (λ row e. rw e refl) others)) in
    let owned = λ (owner : UserId) (h : HasOwner start.users owner).
      not_owner start.users id owner inserted.fresh h in
    let tokens : where_ (λ row. not (row.identity_id == id)) start.api_tokens ≡ start.api_tokens =
      where_-every (λ (row : ApiTokenRow). not (row.identity_id == id)) start.api_tokens
        (All-map start.api_tokens (λ row h. owned row.identity_id h) consistent.token_owners) in
    let devices : where_ (λ row. not (row.identity_id == id)) start.devices ≡ start.devices =
      where_-every (λ (row : DeviceRow). not (row.identity_id == id)) start.devices
        (All-map start.devices (λ row h. owned row.identity_id h) consistent.device_owners) in
    ap (λ (db : Database). (delete_user_rows id db).1) inserted.added
    ∙ same_database users tokens devices

module _ (env : Environment) (quiet : IsQuiet env) (start : Database) where
  insert_and_scan-Inserted :
      (input : UserInput)
      → Ends
          (Same start)
          (λ (user : User). Inserted start user.meta.id)
          (Same start)
          (insert_and_scan env input)
  unfolding insert_and_scan scan_user
  insert_and_scan-Inserted input =
      Ends-bind {middle = λ (row : UserRow). Inserted start row.identity_id} _ _
        (Ends-statement env quiet (λ id now db. insert_user id now input db)
          (insert_user-Inserted start input))
        (λ row. Ends-lift (scan_user row) (λ db h. h))

  after_create-Inserted :
      (r : Result User)
      → Ends
          (After (λ (user : User). Inserted start user.meta.id) (Same start) r)
          (λ (user : User). Inserted start user.meta.id)
          (Same start)
          (after_create r)
  unfolding after_create
  after_create-Inserted (ok user) = Ends-pure user (λ db h. h)
  after_create-Inserted (err e) = Ends-raise (create_error e (as_unique_violation e)) (λ db h. h)

  pub create_user-Inserted :
      (input : UserInput)
      → Ends
          (Same start)
          (λ (user : User). Inserted start user.meta.id)
          (Same start)
          (create_user env input)
  unfolding create_user
  create_user-Inserted input =
      Ends-bind (attempt (insert_and_scan env input)) after_create
        (Ends-attempt {failed' = Same start} (insert_and_scan env input)
          (insert_and_scan-Inserted input))
        after_create-Inserted

  after_delete-Same : (n : ℕ) → Ends (Same start) (λ _. Same start) (Same start) (after_delete n)
  unfolding after_delete
  after_delete-Same n = elim (Bool-cases (n == 0)) [
    | inl e ↦ rw (after_delete, e) (Ends-raise (not_found "user") (λ db h. h))
    | inr e ↦ rw (after_delete, e) (Ends-pure tt (λ db h. h))
  ]

  -- The compensation.
  pub delete_user-Inserted :
      (id : UserId)
      → IsConsistent start
      → Ends (Inserted start id) (λ _. Same start) (Same start) (delete_user env id)
  unfolding delete_user
  delete_user-Inserted id consistent =
      Ends-bind {middle = λ (n : ℕ). Same start} _ after_delete
        (Ends-statement env quiet
          (λ _ _ db. (ok (delete_user_rows id db).0, (delete_user_rows id db).1))
          (λ _ now db h. delete_user_rows-Inserted start db id consistent h))
        after_delete-Same
