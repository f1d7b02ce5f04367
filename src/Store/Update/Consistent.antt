-- ===== src/Store/Update/Consistent.antt =====
-- The UPDATE of a user keeps the constraints of the tables.
use users.Store.Rows.{scan_user}
use users.World.Keeps.{Keeps, Stable, Keeps-bind, Keeps-statement, Keeps-lift, keeps_rules}
use users.World.{Environment}
use text.Mathlib.Text.{◌==◌ as str_eq}
use Prim.Native.String.{String}
use users.Prelude.{
  ◌≡◌, refl, sym, ◌∙◌, true, false, ◌&&◌, Option, none, some, List, [], ◌∷◌, Bytes, All-map,
  All-both, and_then-eq-some, arith, Bool-cases, inl, inr,
}
use users.Prelude.Tables.{
  first_where, exists_where, update_where, All-of_exists_false, first_where-true,
}
use users.Prelude.Pairs.{Pairs-replace, Pairs-first, exists-update_where}
use users.Errors.{Result, ok, err}
use users.Store.Types.{UserId, Time, UserRow, Database, User, UserUpdate}
use users.Store.Statements.{has_id, has_username}
use users.Store.Consistent.{Apart, IsConsistent, HasOwner, not_username}
use users.Store.Query.{Arg, bytes, uuid, SetClause, assign, updated_at_now, UpdateQuery}
use users.Store.Update.{
  arg_at, set_field, apply_clause, apply_clauses, username_taken, store_updated, run_update,
  set_arg, username_clash, update_found, update_by_id, after_update, update_user, run_and_scan,
}

-- What no update of a user changes.
pub record SameUser (x y : UserRow) : Type 0 where
  pub id : y.identity_id ≡ x.identity_id
  pub subject : y.oidc_subject ≡ x.oidc_subject
  pub created : y.created_at ≡ x.created_at

set_field-SameUser :
    (field : String) (v : Bytes) (row row' : UserRow)
    → set_field field v row ≡ some row'
    → SameUser row row'
unfolding set_field
set_field-SameUser field v row row' h = ground arith

SameUser-trans : (x y z : UserRow) → SameUser x y → SameUser y z → SameUser x z
SameUser-trans x y z h k = record {
  id = k.id ∙ h.id;
  subject = k.subject ∙ h.subject;
  created = k.created ∙ h.created;
}

set_arg-SameUser :
    (field : String) (row row' : UserRow) (a : Arg)
    → set_arg field row a ≡ some row'
    → SameUser row row'
unfolding set_arg
set_arg-SameUser field row row' (bytes v) h = set_field-SameUser field v row row' h
set_arg-SameUser field row row' (uuid id) h = absurd (cc)

module _ (now : Time) (args : List Arg) where
  apply_clause-SameUser :
      (c : SetClause) (row row' : UserRow)
      → apply_clause now args c row ≡ some row'
      → SameUser row row'
  unfolding apply_clause
  apply_clause-SameUser updated_at_now row row' h = ground arith
  apply_clause-SameUser (assign field placeholder) row row' h =
      let (a, _, e) = and_then-eq-some (arg_at args placeholder) (set_arg field row) h in
      set_arg-SameUser field row row' a e

  pub apply_clauses-SameUser :
      (cs : List SetClause) (row row' : UserRow)
      → apply_clauses now args cs row ≡ some row'
      → SameUser row row'
  unfolding apply_clauses
  apply_clauses-SameUser [] row row' h = ground arith
  apply_clauses-SameUser (c ∷ cs) row row' h =
      let (next, first, rest) =
        and_then-eq-some (apply_clause now args c row) (apply_clauses now args cs) h in
      SameUser-trans row next row' (apply_clause-SameUser c row next first)
        (apply_clauses-SameUser cs next row' rest)

Apart-flip : (x y : UserRow) → Apart x y → Apart y x
Apart-flip x y h = record {
  ids = λ e. h.ids (sym e);
  subjects = λ e. h.subjects (sym e);
  usernames = λ u e e'. h.usernames u e' e;
}

same_id : (id : UserId) (x y : UserRow) → Apart x y → has_id id x ≡ true → has_id id y ≡ true → ⊥
unfolding has_id
same_id id x y h p q = h.ids (ground (arith, p, q))

not_taken :
    (row y : UserRow) (u : Bytes)
    → username_clash row y ≡ false
    → has_id row.identity_id y ≡ false
    → row.username ≡ some u
    → has_username u y ≡ false
unfolding username_clash
not_taken row y u free other named = rw other at (rw (named, username_clash) at free)

-- A row of an update whose username no other user has, beside the other users.
Apart-updated :
    (id : UserId) (old row y : UserRow)
    → row.identity_id ≡ id
    → SameUser old row
    → username_clash row y ≡ false
    → (has_id id y ≡ false → Apart old y)
    → has_id id y ≡ false
    → Apart row y
Apart-updated id old row y own same free apart other =
    let h = apart other in
    record {
      ids = λ e. h.ids (sym same.id ∙ e);
      subjects = λ e. h.subjects (sym same.subject ∙ e);
      usernames = λ u named. not_username u u y (not_taken row y u free (rw own other) named) refl;
    }

has_id-eq : (id : UserId) (row : UserRow) → has_id id row ≡ true → row.identity_id ≡ id
unfolding has_id
has_id-eq id row h = ground arith

owner_stays :
    (id owner : UserId) (x row : UserRow)
    → row.identity_id ≡ id
    → has_id id x ≡ true
    → has_id owner x ≡ true
    → has_id owner row ≡ true
unfolding has_id
owner_stays id owner x row own h k = ground (arith, h, k)

module _ (db : Database) (c : IsConsistent db) where
  store_updated-IsConsistent :
      (id : UserId) (old : UserRow) (new : Option UserRow)
      → first_where (has_id id) db.users ≡ some old
      → ((row : UserRow) → new ≡ some row → SameUser old row)
      → IsConsistent (store_updated id new db).1
  unfolding store_updated username_taken
  store_updated-IsConsistent id old none found same = c
  store_updated-IsConsistent id old (some row) found same =
      let k = same row refl in
      let own : row.identity_id ≡ id =
        k.id ∙ has_id-eq id old (first_where-true (has_id id) db.users old found) in
      elim (Bool-cases (exists_where (username_clash row) db.users)) [
        | inl e ↦ rw e c
        | inr e ↦ rw e (record {
          users =
              let others =
                All-map db.users (λ y h. Apart-updated id old row y own k h.0 h.1)
                  (All-both _ _ db.users (All-of_exists_false (username_clash row) db.users e)
                    (Pairs-first Apart (has_id id) Apart-flip db.users old found c.users)) in
              Pairs-replace Apart (has_id id) (same_id id) row db.users others
                (All-map db.users (λ y h o. Apart-flip row y (h o)) others) c.users;
          api_tokens = c.api_tokens;
          devices = c.devices;
          token_owners = All-map db.api_tokens (λ t. owner_after t.identity_id own) c.token_owners;
          device_owners = All-map db.devices (λ d. owner_after d.identity_id own) c.device_owners;
        })
      ]
    where
      owner_after :
          (owner : UserId)
          → row.identity_id ≡ id
          → HasOwner db.users owner
          → HasOwner (update_where (has_id id) (λ _. row) db.users) owner
      owner_after owner own h =
          exists-update_where (has_id owner) (has_id id) (λ _. row) db.users
            (λ x p q. owner_stays id owner x row own p q) h

  update_found-IsConsistent :
      (now : Time) (q : UpdateQuery) (id : UserId) (found : Option UserRow)
      → first_where (has_id id) db.users ≡ found
      → IsConsistent (update_found now q id found db).1
  unfolding update_found
  update_found-IsConsistent now q id none e = c
  update_found-IsConsistent now q id (some old) e =
      store_updated-IsConsistent id old (apply_clauses now q.args q.set_clauses old) e
        (apply_clauses-SameUser now q.args q.set_clauses old)

  update_by_id-IsConsistent :
      (now : Time) (q : UpdateQuery) (a : Option Arg) → IsConsistent (update_by_id now q a db).1
  unfolding update_by_id
  update_by_id-IsConsistent now q none = c
  update_by_id-IsConsistent now q (some (bytes v)) = c
  update_by_id-IsConsistent now q (some (uuid id)) = update_found-IsConsistent now q id _ refl

  pub run_update-IsConsistent :
      (now : Time) (q : UpdateQuery) → IsConsistent (run_update now q db).1
  unfolding run_update
  run_update-IsConsistent now q =
      elim (Bool-cases (str_eq q.table "users" && str_eq q.id_column "identity_id")) [
        | inl e ↦ rw e (update_by_id-IsConsistent now q (arg_at q.args q.id_placeholder))
        | inr e ↦ rw e c
      ]

after_update-Keeps : {P : Database → Type 0} (r : Result User) → Keeps P (after_update r)
unfolding after_update
after_update-Keeps (ok user) = search keeps_rules
after_update-Keeps (err e) = search keeps_rules

module _ (env : Environment) (stable : Stable env IsConsistent) where
  run_and_scan-Keeps : (query : UpdateQuery) → Keeps IsConsistent (run_and_scan env query)
  unfolding run_and_scan
  run_and_scan-Keeps query =
      Keeps-bind _ _
        (Keeps-statement env _ stable (λ _ now db h. run_update-IsConsistent db h now query))
        (λ row. Keeps-lift (scan_user row))

  pub update_user-Keeps :
      (id : UserId) (update : UserUpdate) → Keeps IsConsistent (update_user env id update)
  unfolding update_user
  update_user-Keeps id update = search (keeps_rules, run_and_scan-Keeps, after_update-Keeps)
