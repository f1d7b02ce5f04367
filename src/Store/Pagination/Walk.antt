-- ===== src/Store/Pagination/Walk.antt =====
-- The next page goes on where a page ended.

use users.Prelude.{
  ℕ, zero, suc, ◌≤◌, ◌<◌, ◌≡◌, ◌≢◌, refl, sym, ◌∙◌, ap, Bool, true, false, Option, none, some, List,
  [], ◌∷◌, ◌++◌, length, take, drop, take-append-drop, All, All-map, ltb, leb, if◌then◌else◌, arith,
  Bool-cases, inl, inr,
}
use users.Prelude.Tables.{where_, insert_by, order_by, All-where_true}
use users.Prelude.Pairs.{Pairs, Pairs-where}
use users.Store.Types.{UserId, PageCursor}
use users.Store.Pagination.{after_cursor, behind}
use users.Store.Pagination.Pages.{last_of}

module _ {Row : Type 0} (key : Row → ℕ) where
  -- Selection before ordering is selection after it, for rows from some key on.
  where_-insert_by :
      (p : Row → Bool) (x : Row) (ys : List Row)
      → ((a b : Row) → key a ≤ key b → p a ≡ true → p b ≡ true)
      → where_ p (insert_by key x ys) ≡ (if p x then insert_by key x (where_ p ys) else where_ p ys)
  unfolding where_ insert_by
  where_-insert_by p x [] up = ground arith
  where_-insert_by p x (y ∷ ys) up = elim (Bool-cases (leb (key x) (key y))) [
    | inl e ↦ elim (Bool-cases (p x)) [
      | inl f ↦ let g = up x y (ground arith) f in rw (e, f, g, e) refl
      | inr f ↦ rw (e, f) refl
    ]
    | inr e ↦ elim (Bool-cases (p x)) [
      | inl f ↦ elim (Bool-cases (p y)) [
        | inl g ↦ rw (e, g, f, e) (ap (λ r. y ∷ r) (where_-insert_by p x ys up ∙ rw f refl))
        | inr g ↦ rw (e, g, f) (where_-insert_by p x ys up ∙ rw f refl)
      ]
      | inr f ↦ elim (Bool-cases (p y)) [
        | inl g ↦ rw (e, g, f) (ap (λ r. y ∷ r) (where_-insert_by p x ys up ∙ rw f refl))
        | inr g ↦ rw (e, g, f) (where_-insert_by p x ys up ∙ rw f refl)
      ]
    ]
  ]

  where_-order_by :
      (p : Row → Bool) (xs : List Row)
      → ((a b : Row) → key a ≤ key b → p a ≡ true → p b ≡ true)
      → where_ p (order_by key xs) ≡ order_by key (where_ p xs)
  unfolding where_ order_by
  where_-order_by p [] up = refl
  where_-order_by p (x ∷ xs) up = elim (Bool-cases (p x)) [
    | inl f ↦
        where_-insert_by p x (order_by key xs) up
        ∙ rw f (ap (insert_by key x) (where_-order_by p xs up))
    | inr f ↦ where_-insert_by p x (order_by key xs) up ∙ rw f (where_-order_by p xs up)
  ]

  -- Each key is less than all that follow.
  abbrev pub Ascending : List Row → Type 0
  Ascending [] = Unit
  Ascending (x ∷ xs) = All (λ y. key x < key y) xs × Ascending xs

  All-insert_by :
      (P : Row → Type 0) (x : Row) (ys : List Row) → P x → All P ys → All P (insert_by key x ys)
  unfolding insert_by
  All-insert_by P x [] h hs = (h, tt)
  All-insert_by P x (y ∷ ys) h hs = elim (Bool-cases (leb (key x) (key y))) [
    | inl e ↦ rw e (h, hs)
    | inr e ↦ rw e (hs.0, All-insert_by P x ys h hs.1)
  ]

  pub All-order_by : (P : Row → Type 0) (xs : List Row) → All P xs → All P (order_by key xs)
  unfolding order_by
  All-order_by P [] h = tt
  All-order_by P (x ∷ xs) h = All-insert_by P x (order_by key xs) h.0 (All-order_by P xs h.1)

  insert_by-Ascending :
      (x : Row) (ys : List Row)
      → All (λ y. key x ≢ key y) ys
      → Ascending ys
      → Ascending (insert_by key x ys)
  unfolding insert_by
  insert_by-Ascending x [] d a = (tt, tt)
  insert_by-Ascending x (y ∷ ys) d a = elim (Bool-cases (leb (key x) (key y))) [
    | inl e ↦
        let first : key x < key y = let ne = d.0 in ground (arith, e, ne) in
        rw e ((first, All-map ys (λ z l. omega (arith, first, l)) a.0), a)
    | inr e ↦
        let first : key y < key x = ground (arith, e) in
        rw e (All-insert_by (λ z. key y < key z) x ys first a.0, insert_by-Ascending x ys d.1 a.1)
  ]

  order_by-Ascending :
      (xs : List Row) → Pairs (λ x y. key x ≢ key y) xs → Ascending (order_by key xs)
  unfolding order_by
  order_by-Ascending [] d = tt
  order_by-Ascending (x ∷ xs) d =
      insert_by-Ascending x (order_by key xs) (All-order_by (λ y. key x ≢ key y) xs d.0)
        (order_by-Ascending xs d.1)

  pub where_-All : (p : Row → Bool) (xs : List Row) → All (λ x. p x ≡ true) xs → where_ p xs ≡ xs
  unfolding where_
  where_-All p [] h = refl
  where_-All p (x ∷ xs) h = rw h.0 (ap (λ r. x ∷ r) (where_-All p xs h.1))

  -- A stricter selection of a selection.
  where_-narrow :
      (p q : Row → Bool) (xs : List Row)
      → ((x : Row) → q x ≡ true → p x ≡ true)
      → where_ q (where_ p xs) ≡ where_ q xs
  unfolding where_
  where_-narrow p q [] h = refl
  where_-narrow p q (x ∷ xs) h = elim (Bool-cases (p x)) [
    | inl e ↦ ground (arith, e, where_-narrow p q xs h)
    | inr e ↦ elim (Bool-cases (q x)) [
      | inl f ↦ absurd (cc (h x f, e))
      | inr f ↦ rw (e, f) (where_-narrow p q xs h)
    ]
  ]

module _ {Row T : Type 0} (id_of : T → UserId) (value : Row → T) where
  abbrev key : Row → UserId
  key row = id_of (value row)

  last_of-above :
      (k : UserId) (n : ℕ) (ys : List Row)
      → All (λ y. k < key y) ys
      → Ascending key ys
      → k ≤ last_of id_of value k (take n ys)
  unfolding last_of
  last_of-above k zero ys l a = omega arith
  last_of-above k (suc n) [] l a = omega arith
  last_of-above k (suc n) (y ∷ ys) l a =
      let first = l.0 in omega (arith, last_of-above (key y) n ys a.0 a.1, first)

  -- The rows behind the last of the first `n` are the others.
  where_-last_of :
      (k : UserId) (n : ℕ) (ys : List Row)
      → All (λ y. k < key y) ys
      → Ascending key ys
      → where_ (λ y. ltb (last_of id_of value k (take n ys)) (key y)) ys ≡ drop n ys
  unfolding where_ last_of
  where_-last_of k zero ys l a =
      where_-All key (λ y. ltb k (key y)) ys (All-map ys (λ y h. ground (arith, h)) l)
  where_-last_of k (suc n) [] l a = refl
  where_-last_of k (suc n) (y ∷ ys) l a =
      let above = last_of-above (key y) n ys a.0 a.1 in
      let dropped : ltb (last_of id_of value (key y) (take n ys)) (key y) ≡ false =
        ground (arith, above) in
      rw dropped (where_-last_of (key y) n ys a.0 a.1)

  after_cursor-up :
      (cursor : Option PageCursor) (i j : UserId)
      → i ≤ j
      → after_cursor cursor i ≡ true
      → after_cursor cursor j ≡ true
  unfolding after_cursor
  after_cursor-up none i j l h = refl
  after_cursor-up (some c) i j l h = ground (arith, l, h)

  -- Behind the last row of a page stand the rows that the page did not hold.
  behind-last_of :
      (cursor : Option PageCursor) (n : ℕ) (rows : List Row) (x : Row) (xs : List Row)
      → behind key cursor rows ≡ x ∷ xs
      → Ascending key (x ∷ xs)
      → after_cursor cursor (key x) ≡ true
      → behind key (some (record { after_id = last_of id_of value (key x) (take n xs) })) rows
        ≡ drop n xs
  unfolding after_cursor
  behind-last_of cursor n rows x xs e a s =
      let c = last_of id_of value (key x) (take n xs) in
      let above : key x ≤ c = last_of-above (key x) n xs a.0 a.1 in
      let p = λ (row : Row). after_cursor cursor (key row) in
      let q = λ (row : Row). ltb c (key row) in
      let narrow =
        where_-narrow key p q rows
          (λ y h. after_cursor-up cursor (key x) (key y) (ground (arith, above, h)) s) in
      let out : ltb c (key x) ≡ false = ground (arith, above) in
      ap (order_by key) (sym narrow)
      ∙ sym (where_-order_by key q (where_ p rows) (λ i j l h. ground (arith, l, h)))
      ∙ ap (where_ q) e
      ∙ (unfold where_ in rw out (where_-last_of (key x) n xs a.0 a.1))

  split_page :
      (cursor : Option PageCursor) (n : ℕ) (rows : List Row)
      → (all : List Row) → behind key cursor rows ≡ all
      → Ascending key all
      → All (λ row. after_cursor cursor (key row) ≡ true) all
      → 0 < n
      → n < length all
      → all
        ≡ take n all
          ++ behind key (some (record { after_id = last_of id_of value 0 (take n all) })) rows
  unfolding last_of
  split_page cursor n rows [] e a s l m = absurd (omega arith)
  split_page cursor zero rows (x ∷ xs) e a s l m = absurd (omega arith)
  split_page cursor (suc n) rows (x ∷ xs) e a s l m =
      ap (λ r. x ∷ r)
        (sym (take-append-drop n xs)
          ∙ ap (λ r. take n xs ++ r) (sym (behind-last_of cursor n rows x xs e a s.0)))

  -- Where the ids are distinct, the page has room for a row and there are more rows behind a cursor
  -- than it holds, the rows behind the cursor are those of the page, followed by the rows behind the
  -- next cursor.
  pub behind-next :
      (cursor : Option PageCursor) (n : ℕ) (rows : List Row)
      → Pairs (λ x y. key x ≢ key y) rows
      → 0 < n
      → n < length (behind key cursor rows)
      → behind key cursor rows
        ≡ take n (behind key cursor rows)
          ++ behind key
              (some (record { after_id = last_of id_of value 0 (take n (behind key cursor rows)) }))
              rows
  behind-next cursor n rows distinct l m =
      let p = λ (row : Row). after_cursor cursor (key row) in
      split_page cursor n rows (behind key cursor rows) refl
        (order_by-Ascending key (where_ p rows)
          (Pairs-where (λ x y. key x ≢ key y) p rows distinct))
        (All-order_by key (λ row. p row ≡ true) (where_ p rows) (All-where_true p rows)) l m
