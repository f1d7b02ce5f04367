-- ===== src/Server/GroupSync/Sync/Reached.antt =====
-- The loop over the pages of users reaches every user.
use users.Prelude.{
  ℕ, zero, suc, ◌+◌, ◌<◌, ◌≡◌, ◌≢◌, refl, sym, ◌∙◌, ap, subst, Bool-cases, inl, inr, Option, none,
  some, List, [], ◌∷◌, ◌++◌, map, map-append, length, take, ltb, arith, if◌then◌else◌,
}
use users.Prelude.Int.{pos}
use users.Prelude.Tables.{order_by}
use users.Prelude.Pairs.{Pairs}
use users.Errors.{ok, wrap}
use users.World.{Environment, World, M, pure, ◌>>◌}
use users.World.Quiet.{IsQuiet}
use users.World.Keeps.{Keeps}
use users.World.Runs.{bind-ok, bind-of_ok}
use users.Store.Types.{UserId, User, UserRow, PageCursor}
use users.Store.Rows.{scan_user}
use users.Store.Users.SignIn.{user_of}
use users.Store.Pagination.{normalize_page_size, max_list_page_size, behind, list_users}
use users.Store.Pagination.Pages.{last_of, list_entities-Known, All-every}
use users.Store.Pagination.Walk.{behind-next}
use users.Store.Pagination.Complete.{behind-none, last_page, behind-shorter, length-order_by}
use users.Server.Status.Laws.{or_fail-of_ok}
use users.Server.GroupSync.Sync.{user_pages}

-- From one world to another, the action succeeded for each of the users, in their order; the only
-- other steps are statements that read.
pub data Reached (one : User → M (Unit {0})) : List User → World → World → Type 0 where
  done : {w : World} → Reached one [] w w
  wait :
      {users : List User} {w w' : World}
      → Reached one users (record w { clock = w.clock + 1 }) w'
      → Reached one users w w'
  visit :
      {user : User} {users : List User} {w w' : World}
      → (one user w).0 ≡ ok tt
      → Reached one users (one user w).1 w'
      → Reached one (user ∷ users) w w'

Reached-append :
    {one : User → M (Unit {0})} {users more : List User} {w w' w'' : World}
    → Reached one users w w'
    → Reached one more w' w''
    → Reached one (users ++ more) w w''
Reached-append done later = later
Reached-append (wait first) later = wait (Reached-append first later)
Reached-append (visit h first) later = visit h (Reached-append first later)

abbrev pub user_row_id : UserRow → UserId
user_row_id row = row.identity_id

abbrev user_id : User → UserId
user_id user = user.meta.id

scan_user-user_of : (row : UserRow) → scan_user row ≡ ok (user_of row)
unfolding scan_user
scan_user-user_of row = refl

module _ (env : Environment) (quiet : IsQuiet env) (rows : List UserRow) where
  abbrev cursor_behind : Option PageCursor → PageCursor
  cursor_behind cursor = record {
    after_id = last_of user_id user_of 0 (take max_list_page_size (behind user_row_id cursor rows));
  }

  abbrev page_of : Option PageCursor → List User
  page_of cursor = map user_of (take max_list_page_size (behind user_row_id cursor rows))

  list_users-run :
      (cursor : Option PageCursor) (w : World)
      → w.db.users ≡ rows
      → list_users env (pos max_list_page_size) cursor w ≡ (
        ok (record {
          users = page_of cursor;
          next_cursor =
              if ltb max_list_page_size (length (behind user_row_id cursor rows))
              then some (cursor_behind cursor)
              else none;
        }),
        record w { clock = w.clock + 1 },
      )
  unfolding list_users normalize_page_size
  list_users-run cursor w same =
      bind-of_ok _ _ w (record w { clock = w.clock + 1 })
        (list_entities-Known scan_user user_id user_of env quiet (λ db. db.users) user_row_id cursor
          (pos max_list_page_size) w
          (All-every (λ row. scan_user row ≡ ok (user_of row))
            (behind user_row_id cursor w.db.users) scan_user-user_of))
      ∙ (unfold pure in rw same refl)

  module _ (one : User → M (Unit {0})) (visits : List User → M (Unit {0}))
      (reach : (users : List User) (w : World)
        → (visits users w).0 ≡ ok tt
        → Reached one users w (visits users w).1)
      (keeps : (users : List User) → Keeps (λ db. db.users ≡ rows) (visits users))
      (distinct : Pairs (λ (x y : UserRow). x.identity_id ≢ y.identity_id) rows) where
    abbrev next_page : ℕ → Option PageCursor → M (Unit {0})
    next_page fuel next = elim next [
      | none ↦ pure tt
      | some cursor ↦ user_pages env fuel visits (some cursor)
    ]

    -- Where the visits of all pages succeed, so does the loop.
    user_pages-ok :
        ((users : List User) (w : World) → (visits users w).0 ≡ ok tt)
        → (fuel : ℕ) (cursor : Option PageCursor) (w : World) → w.db.users ≡ rows
        → length (behind user_row_id cursor rows) < fuel
        → (user_pages env fuel visits cursor w).0 ≡ ok tt
    unfolding user_pages ◌>>◌
    user_pages-ok never zero cursor w same l = absurd (omega arith)
    user_pages-ok never (suc fuel) cursor w same l =
        let all = behind user_row_id cursor rows in
        let w' : World = record w { clock = w.clock + 1 } in
        let w'' = (visits (page_of cursor) w').1 in
        let ran : user_pages env (suc fuel) visits cursor w
            ≡ next_page fuel
                (if ltb max_list_page_size (length all) then some (cursor_behind cursor) else none)
                w'' =
          or_fail-of_ok (wrap "list users") (list_users env (pos max_list_page_size) cursor) _ w w'
            (list_users-run cursor w same)
          ∙ bind-of_ok (visits (page_of cursor)) _ w' w''
              (ap (λ r. (r, w'')) (never (page_of cursor) w')) in
        elim (Bool-cases (ltb max_list_page_size (length all))) [
          | inr e ↦ ap (λ r. r.0) ran ∙ (unfold pure in rw e refl)
          | inl e ↦
              let shorter =
                behind-shorter user_id user_of cursor max_list_page_size rows distinct (omega arith)
                  e in
              let c = cursor_behind cursor in
              ap (λ r. r.0) ran
              ∙ (rw e (
                  user_pages-ok never fuel (some c) w'' ((keeps (page_of cursor)).at w' same)
                    (omega (arith, shorter, l))))
        ]

    user_pages-Reached :
        (fuel : ℕ) (cursor : Option PageCursor) (w : World)
        → w.db.users ≡ rows
        → length (behind user_row_id cursor rows) < fuel
        → (user_pages env fuel visits cursor w).0 ≡ ok tt
        → Reached one
            (map user_of (behind user_row_id cursor rows))
            w
            (user_pages env fuel visits cursor w).1
    unfolding user_pages ◌>>◌
    user_pages-Reached zero cursor w same l h = absurd (omega arith)
    user_pages-Reached (suc fuel) cursor w same l h =
        let all = behind user_row_id cursor rows in
        let w' : World = record w { clock = w.clock + 1 } in
        let w'' = (visits (page_of cursor) w').1 in
        let listed =
          or_fail-of_ok (wrap "list users") (list_users env (pos max_list_page_size) cursor) _ w w'
            (list_users-run cursor w same) in
        let (u, visited, run) =
          bind-ok (visits (page_of cursor)) _ w' (ap (λ r. r.0) (sym listed) ∙ h) in
        let ran : user_pages env (suc fuel) visits cursor w
            ≡ next_page fuel
                (if ltb max_list_page_size (length all) then some (cursor_behind cursor) else none)
                w'' =
          listed ∙ run in
        let reached = reach (page_of cursor) w' visited in
        elim (Bool-cases (ltb max_list_page_size (length all))) [
          | inr e ↦
              let end : user_pages env (suc fuel) visits cursor w ≡ (ok tt, w'') =
                ran ∙ (unfold pure in rw e refl) in
              let here : Reached one (map user_of all) w' w'' =
                subst (λ rs. Reached one (map user_of rs) w' w'')
                  (last_page user_row_id cursor max_list_page_size rows e) reached in
              rw end (wait here)
          | inl e ↦
              let c = cursor_behind cursor in
              let end : user_pages env (suc fuel) visits cursor w
                  ≡ user_pages env fuel visits (some c) w'' =
                ran ∙ (rw e refl) in
              let shorter =
                behind-shorter user_id user_of cursor max_list_page_size rows distinct (omega arith)
                  e in
              let later =
                user_pages-Reached fuel (some c) w'' ((keeps (page_of cursor)).at w' same)
                  (omega (arith, shorter, l)) (ap (λ r. r.0) (sym end) ∙ h) in
              let more : max_list_page_size < length all = ground (arith, e) in
              let split =
                ap (map user_of) (
                  behind-next user_id user_of cursor max_list_page_size rows distinct (omega arith)
                    more)
                ∙ map-append user_of (take max_list_page_size all)
                    (behind user_row_id (some c) rows) in
              rw (end, split) (wait (Reached-append reached later))
        ]

    -- From the first page on, on fuel for more than the users.
    pub all_pages-Reached :
        (fuel : ℕ) (w : World)
        → w.db.users ≡ rows
        → length rows < fuel
        → (user_pages env fuel visits none w).0 ≡ ok tt
        → Reached one
            (map user_of (order_by user_row_id rows))
            w
            (user_pages env fuel visits none w).1
    all_pages-Reached fuel w same l h =
        let first = behind-none user_row_id rows in
        let end = (user_pages env fuel visits none w).1 in
        subst (λ rs. Reached one (map user_of rs) w end) first
          (user_pages-Reached fuel none w same
            (rw first (omega (arith, length-order_by user_row_id rows, l))) h)

    pub all_pages-ok :
        ((users : List User) (w : World) → (visits users w).0 ≡ ok tt)
        → (fuel : ℕ) (w : World) → w.db.users ≡ rows
        → length rows < fuel
        → (user_pages env fuel visits none w).0 ≡ ok tt
    all_pages-ok never fuel w same l =
        user_pages-ok never fuel none w same
          (rw (behind-none user_row_id rows) (omega (arith, length-order_by user_row_id rows, l)))
