-- ===== src/Store/Pagination/Complete.antt =====
-- Pages, one after the other, are all the rows: what a loop over the pages of a listing relies on.
use users.Prelude.{
  ℕ, zero, suc, ◌+◌, ◌<◌, ◌≡◌, ◌≢◌, refl, ap, true, false, Option, none, some, List, [], ◌∷◌,
  length, length-append, length-take, take, ltb, All, arith,
}
use users.Prelude.Tables.{where_, insert_by, order_by, All-where}
use users.Prelude.Pairs.{Pairs}
use users.Store.Types.{UserId, PageCursor}
use users.Store.Pagination.{behind, after_cursor}
use users.Store.Pagination.Pages.{last_of}
use users.Store.Pagination.Walk.{behind-next, where_-All, All-order_by}

take-all : {A : Type 0} (n : ℕ) (xs : List A) → ltb n (length xs) ≡ false → take n xs ≡ xs
take-all zero [] h = refl
take-all zero (x ∷ xs) h = absurd (ground (arith, h))
take-all (suc n) [] h = refl
take-all (suc n) (x ∷ xs) h = ap (λ r. x ∷ r) (take-all n xs (ground (arith, h)))

module _ {Row : Type 0} (row_id : Row → UserId) where
  pub All-behind :
      (P : Row → Type 0) (cursor : Option PageCursor) (rows : List Row)
      → All P rows
      → All P (behind row_id cursor rows)
  All-behind P cursor rows h =
      let p = λ (row : Row). after_cursor cursor (row_id row) in
      All-order_by row_id P (where_ p rows) (All-where P p rows h)

  All-true : (rows : List Row) → All (λ row. after_cursor none (row_id row) ≡ true) rows
  unfolding after_cursor
  All-true [] = tt
  All-true (row ∷ rows) = (refl, All-true rows)

  length-insert_by : (x : Row) (ys : List Row) → length (insert_by row_id x ys) ≡ length ys + 1
  unfolding insert_by
  length-insert_by x [] = refl
  length-insert_by x (y ∷ ys) = ground (arith, length-insert_by x ys)

  pub length-order_by : (rows : List Row) → length (order_by row_id rows) ≡ length rows
  unfolding order_by
  length-order_by [] = refl
  length-order_by (x ∷ rows) =
      omega (arith, length-insert_by x (order_by row_id rows), length-order_by rows)

  -- Before the first page stand no rows.
  pub behind-none : (rows : List Row) → behind row_id none rows ≡ order_by row_id rows
  behind-none rows =
      ap (order_by row_id)
        (where_-All row_id (λ row. after_cursor none (row_id row)) rows (All-true rows))

  -- A page that no other follows holds all the rows behind the cursor.
  pub last_page :
      (cursor : Option PageCursor) (n : ℕ) (rows : List Row)
      → ltb n (length (behind row_id cursor rows)) ≡ false
      → take n (behind row_id cursor rows) ≡ behind row_id cursor rows
  last_page cursor n rows h = take-all n (behind row_id cursor rows) h

module _ {Row T : Type 0} (id_of : T → UserId) (value : Row → T) where
  abbrev key : Row → UserId
  key row = id_of (value row)

  -- Behind a page there are fewer rows than before it.
  pub behind-shorter :
      (cursor : Option PageCursor) (n : ℕ) (rows : List Row)
      → Pairs (λ x y. key x ≢ key y) rows
      → 0 < n
      → ltb n (length (behind key cursor rows)) ≡ true
      → length (
          behind key
            (some (record { after_id = last_of id_of value 0 (take n (behind key cursor rows)) }))
            rows)
        < length (behind key cursor rows)
  behind-shorter cursor n rows distinct l h =
      let all = behind key cursor rows in
      let more : n < length all = ground (arith, h) in
      let next =
        behind key (some (record { after_id = last_of id_of value 0 (take n all) })) rows in
      let split = ap length (behind-next id_of value cursor n rows distinct l more) in
      omega (arith, split, length-append (take n all) next, length-take n all, l, more)
