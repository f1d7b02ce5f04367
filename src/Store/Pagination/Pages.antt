-- ===== src/Store/Pagination/Pages.antt =====
-- What one page holds.
use users.Prelude.{
  ℕ, zero, suc, ◌+◌, ◌≡◌, refl, ◌∙◌, ap, true, false, Option, none, some, List, [], ◌∷◌, ◌++◌, map,
  length, take, All, ltb, ◌==◌, if◌then◌else◌, arith, append-nil, append_assoc, length-append,
}
use users.Errors.{Result, ok}
use users.Prelude.Int.{ℤ}
use users.World.{Environment, World, ◌>>=◌, lift, pure}
use users.World.Runs.{bind-of_ok}
use users.World.Quiet.{IsQuiet, statement-IsQuiet}
use users.Store.Types.{UserId, PageCursor, Database}
use users.Store.Pagination.{
  Page, read_rows, first_page, list_entities, list_rows, behind, normalize_page_size, page_result,
}

module _ {Row T : Type 0} (id_of : T → UserId) (value : Row → T) where
  -- The id of the last row, or what it was before.
  unfoldable pub last_of : UserId → List Row → UserId
  last_of id [] = id
  last_of id (row ∷ rows) = last_of (id_of (value row)) rows

module _ {Row T : Type 0} (scan : Row → Result T) (id_of : T → UserId) (value : Row → T) where
  after : ℕ → List Row → Page T → Page T
  after room rows page = record {
    items = page.items ++ map value (take room rows);
    last_id = last_of id_of value page.last_id (take room rows);
    has_more = ltb room (length rows);
  }

  after-nil : (room : ℕ) (page : Page T) → page.has_more ≡ false → page ≡ after room [] page
  unfolding after last_of
  after-nil zero page h = rw append-nil (ap (λ b. record page { has_more = b }) h)
  after-nil (suc room) page h =
      let none_left : ltb (suc room) 0 ≡ false = ground arith in
      rw (append-nil, none_left) (ap (λ b. record page { has_more = b }) h)

  after-cons :
      (room : ℕ) (row : Row) (rows : List Row) (page : Page T)
      → after room rows
          (record page { items = page.items ++ value row ∷ []; last_id = id_of (value row) })
        ≡ after (suc room) (row ∷ rows) page
  unfolding after last_of
  after-cons room row rows page =
      let more : ltb room (length rows) ≡ ltb (suc room) (suc (length rows)) = ground arith in
      rw (append_assoc, more) refl

  -- The rows that are read without an error.
  abbrev pub Known : List Row → Type 0
  Known rows = All (λ row. scan row ≡ ok (value row)) rows

  -- The loop with room for more rows on the page.
  read_rows-room :
      (limit room : ℕ) (rows : List Row) (page : Page T)
      → Known rows
      → page.has_more ≡ false
      → limit ≡ length page.items + room
      → read_rows scan id_of limit rows page ≡ ok (after room rows page)
  unfolding read_rows
  read_rows-room limit room [] page known h l = ap ok (after-nil room page h)
  read_rows-room limit zero (row ∷ rows) page known h l =
      let full : (length page.items == limit) ≡ true = ground arith in
      let more : ltb 0 (suc (length rows)) ≡ true = ground arith in
      rw full (unfold after last_of in rw (append-nil, more) refl)
  read_rows-room limit (suc room) (row ∷ rows) page known h l =
      let open_ : (length page.items == limit) ≡ false = ground arith in
      rw (open_, known.0)
        (read_rows-room limit room rows
            (record page { items = page.items ++ value row ∷ []; last_id = id_of (value row) })
            known.1 h (omega (arith, length-append page.items (value row ∷ [])))
          ∙ ap ok (after-cons room row rows page))

  -- The first page.
  read_rows-first :
      (limit : ℕ) (rows : List Row)
      → Known rows
      → read_rows scan id_of limit rows first_page ≡ ok (after limit rows first_page)
  read_rows-first limit rows known =
      read_rows-room limit limit rows first_page known refl (omega arith)

All-take : {A : Type 0} (P : A → Type 0) (n : ℕ) (xs : List A) → All P xs → All P (take n xs)
All-take P zero xs h = tt
All-take P (suc n) [] h = tt
All-take P (suc n) (x ∷ xs) h = (h.0, All-take P n xs h.1)

pub All-every : {A : Type 0} (P : A → Type 0) (xs : List A) → ((x : A) → P x) → All P xs
All-every P [] h = tt
All-every P (x ∷ xs) h = (h x, All-every P xs h)

take-take : {A : Type 0} (n : ℕ) (xs : List A) → take n (take (suc n) xs) ≡ take n xs
take-take zero xs = refl
take-take (suc n) [] = refl
take-take (suc n) (x ∷ xs) = ap (λ r. x ∷ r) (take-take n xs)

ltb-take : {A : Type 0} (n : ℕ) (xs : List A) → ltb n (length (take (suc n) xs)) ≡ ltb n (length xs)
ltb-take n [] = refl
ltb-take zero (x ∷ xs) = ground arith
ltb-take (suc n) (x ∷ xs) = ground (arith, ltb-take n xs)

module _ {Row T : Type 0} (scan : Row → Result T) (id_of : T → UserId) (value : Row → T) where
  list_entities-run :
      (env : Environment)
      → IsQuiet env
      → (select : Database → List Row) (row_id : Row → UserId) (cursor : Option PageCursor)
        (size : ℤ) (w : World)
      → Known scan id_of value (behind row_id cursor (select w.db))
      → let n = normalize_page_size size in
        list_entities env select row_id cursor size scan id_of w ≡ (
          ok (
              page_result scan id_of
                (after scan id_of value n (list_rows row_id cursor n (select w.db)) first_page)),
          record w { clock = w.clock + 1 },
        )
  unfolding list_entities list_rows
  list_entities-run env quiet select row_id cursor size w known =
      let n = normalize_page_size size in
      let rows = behind row_id cursor (select w.db) in
      let seen = All-take (λ row. scan row ≡ ok (value row)) (n + 1) rows known in
      bind-of_ok _ _ w (record w { clock = w.clock + 1 })
        (statement-IsQuiet env quiet (λ _ _ db. (ok (list_rows row_id cursor n (select db)), db)) w)
      ∙ (unfold ◌>>=◌ lift pure in
          rw (read_rows-first scan id_of value n (take (n + 1) rows) seen) refl)

  -- The page and the tables behind it, where the rows behind the cursor are read without an error.
  pub list_entities-Known :
      (env : Environment)
      → IsQuiet env
      → (select : Database → List Row) (row_id : Row → UserId) (cursor : Option PageCursor)
        (size : ℤ) (w : World)
      → Known scan id_of value (behind row_id cursor (select w.db))
      → let n = normalize_page_size size in
        let rows = behind row_id cursor (select w.db) in
        list_entities env select row_id cursor size scan id_of w ≡ (
          ok (
            map value (take n rows),
            if ltb n (length rows)
                then some (record { after_id = last_of id_of value 0 (take n rows) })
                else none,
          ),
          record w { clock = w.clock + 1 },
        )
  unfolding list_entities list_rows
  list_entities-Known env quiet select row_id cursor size w known =
      let n = normalize_page_size size in
      let more : n + 1 ≡ suc n = omega arith in
      rw (list_entities-run env quiet select row_id cursor size w known)
        (unfold after list_rows in rw (more, take-take, ltb-take) refl)
