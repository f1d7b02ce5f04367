-- ===== src/Store/Pagination/Listed.antt =====
-- What a page holds, told from the rows of the table.
use users.Prelude.{
  ◌<◌, ◌≡◌, ◌≢◌, refl, ap, true, Option, none, some, List, map, length, take, ltb, leb, All,
  All-map, arith, if◌then◌else◌,
}
use users.Prelude.Int.{ℤ}
use users.Prelude.Tables.{where_, Member, All-where, All-where_true, All-sort_with}
use users.Prelude.Pairs.{Pairs, Pairs-where}
use users.Prelude.Listing.{
  Lists, All-Member, All-both, Member-where, Member-sort_with, Pairs-sort_with, order_by-sort_with,
}
use users.Errors.{Result, ok}
use users.World.{Environment, World}
use users.World.Quiet.{IsQuiet}
use users.Store.Types.{UserId, PageCursor, Database}
use users.Store.Pagination.{after_cursor, behind, list_entities, normalize_page_size}
use users.Store.Pagination.Pages.{last_of, list_entities-Known}
use users.Store.Pagination.Complete.{All-behind}

-- The id is greater than that of the cursor, where there is one.
abbrev pub IsBehind : Option PageCursor → UserId → Type 0
IsBehind none id = Unit
IsBehind (some cursor) id = cursor.after_id < id

after_cursor-IsBehind :
    (cursor : Option PageCursor) (id : UserId) → after_cursor cursor id ≡ true → IsBehind cursor id
unfolding after_cursor
after_cursor-IsBehind none id h = tt
after_cursor-IsBehind (some cursor) id h = ground (arith, h)

after_cursor-of_IsBehind :
    (cursor : Option PageCursor) (id : UserId) → IsBehind cursor id → after_cursor cursor id ≡ true
unfolding after_cursor
after_cursor-of_IsBehind none id h = refl
after_cursor-of_IsBehind (some cursor) id h = ground (arith, h)

module _ {Row : Type 0} (row_id : Row → UserId) (cursor : Option PageCursor) (rows : List Row) where
  -- The rows of the table with an id behind the cursor, in the order of their ids.
  abbrev pub IsRest : List Row → Type 0
  IsRest =
      Lists (λ x y. row_id x < row_id y) (λ row. Member row rows × IsBehind cursor (row_id row))

  behind-IsRest : Pairs (λ x y. row_id x ≢ row_id y) rows → IsRest (behind row_id cursor rows)
  behind-IsRest distinct =
      let p = λ (row : Row). after_cursor cursor (row_id row) in
      let le = λ (x y : Row). leb (row_id x) (row_id y) in
      let found = where_ p rows in
      rw (order_by-sort_with row_id found) (record {
        ordered =
            Pairs-sort_with (λ x y. row_id x ≢ row_id y) (λ x y. row_id x < row_id y) le
              (λ x y apart h. ground (arith, apart, h)) (λ x y apart h. ground (arith, h))
              (λ x y z h k. omega (arith, h, k)) found
              (Pairs-where (λ x y. row_id x ≢ row_id y) p rows distinct);
        sound =
            All-sort_with (λ row. Member row rows × IsBehind cursor (row_id row)) le found
              (All-both (λ row. Member row rows) (λ row. IsBehind cursor (row_id row)) found
                (All-where (λ row. Member row rows) p rows (All-Member rows))
                (All-map found (λ row h. after_cursor-IsBehind cursor (row_id row) h)
                  (All-where_true p rows)));
        complete = λ row (m, h).
            Member-sort_with le (Member-where p m (after_cursor-of_IsBehind cursor (row_id row) h));
      })

-- In an environment where nothing fails and nobody else writes, where the ids of the rows of a table
-- differ and every one of these rows can be read, a page holds the first of the rows whose id is
-- greater than that of the cursor, in the order of their ids, as many as the normalised page size; the
-- next cursor stands at the last of them, and is given exactly if there are more such rows; the tables
-- are unchanged.
pub list_entities-page :
    {Row T : Type 0} (scan : Row → Result T) (id_of : T → UserId) (value : Row → T)
    (env : Environment)
    → IsQuiet env
    → (select : Database → List Row) (row_id : Row → UserId) (cursor : Option PageCursor) (size : ℤ)
      (w : World)
    → Pairs (λ x y. row_id x ≢ row_id y) (select w.db)
    → All (λ row. scan row ≡ ok (value row)) (select w.db)
    → let n = normalize_page_size size in
      (rest : List Row) × IsRest row_id cursor (select w.db) rest
      × ((list_entities env select row_id cursor size scan id_of w).0
          ≡ ok (
            map value (take n rest),
            if ltb n (length rest)
                then some (record { after_id = last_of id_of value 0 (take n rest) })
                else none,
          ))
      × ((list_entities env select row_id cursor size scan id_of w).1.db ≡ w.db)
list_entities-page scan id_of value env quiet select row_id cursor size w distinct known =
    let run =
      list_entities-Known scan id_of value env quiet select row_id cursor size w
        (All-behind row_id (λ row. scan row ≡ ok (value row)) cursor (select w.db) known) in
    (
      behind row_id cursor (select w.db),
      behind-IsRest row_id cursor (select w.db) distinct,
      ap (λ r. r.0) run,
      ap (λ r. r.1.db) run,
    )
