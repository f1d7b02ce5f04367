-- ===== src/Prelude/Tables.antt =====
-- Lists as the rows of a table: selection, deletion, update and order by a number.
use Prim.Native.Nat.{ℕ}
use mathlib.Core.Path.{◌≡◌}
use mathlib.Core.Logic.{inl, inr}
use mathlib.Core.Bool.{Bool, true, false}
use mathlib.Core.Option.{Option, none, some}
use mathlib.Core.List.{List, [], ◌∷◌}
use native.Mathlib.Omega.{arith}
use users.Prelude.Tests.{leb, if◌then◌else◌, Bool-cases}
use users.Prelude.Lists.{All}

module _ {ℓ} {A : Type ℓ} where
  -- WHERE p
  unfoldable pub where_ : (A → Bool) → List A → List A
  where_ p [] = []
  where_ p (x ∷ xs) = let rest = where_ p xs in if p x then x ∷ rest else rest

  -- The first row that satisfies `p`.
  unfoldable pub first_where : (A → Bool) → List A → Option A
  first_where p [] = none
  first_where p (x ∷ xs) = let rest = first_where p xs in if p x then some x else rest

  unfoldable pub exists_where : (A → Bool) → List A → Bool
  exists_where p [] = false
  exists_where p (x ∷ xs) = let rest = exists_where p xs in if p x then true else rest

  -- UPDATE … WHERE p
  unfoldable pub update_where : (A → Bool) → (A → A) → List A → List A
  update_where p f [] = []
  update_where p f (x ∷ xs) = (if p x then f x else x) ∷ update_where p f xs

  -- One row into rows that are in the order of `key`.
  unfoldable pub insert_by : (A → ℕ) → A → List A → List A
  insert_by key x [] = x ∷ []
  insert_by key x (y ∷ ys) =
      let rest = insert_by key x ys in if leb (key x) (key y) then x ∷ y ∷ ys else y ∷ rest

  -- ORDER BY key ASC
  unfoldable pub order_by : (A → ℕ) → List A → List A
  unfolding insert_by
  order_by key [] = []
  order_by key (x ∷ xs) = insert_by key x (order_by key xs)

  -- ORDER BY an order of the rows that `le` decides.
  unfoldable pub insert_with : (A → A → Bool) → A → List A → List A
  insert_with le x [] = x ∷ []
  insert_with le x (y ∷ ys) =
      let rest = insert_with le x ys in if le x y then x ∷ y ∷ ys else y ∷ rest

  unfoldable pub sort_with : (A → A → Bool) → List A → List A
  unfolding insert_with
  sort_with le [] = []
  sort_with le (x ∷ xs) = insert_with le x (sort_with le xs)

  -- `x` stands among the rows.
  pub data Member (x : A) : List A → Type ℓ where
    here : (xs : List A) → Member x (x ∷ xs)
    there : (y : A) {xs : List A} → Member x xs → Member x (y ∷ xs)

  pub All-where {κ} : (P : A → Type κ) (p : A → Bool) (xs : List A) → All P xs → All P (where_ p xs)
  unfolding where_
  All-where P p [] h = tt
  All-where P p (x ∷ xs) h = elim (Bool-cases (p x)) [
    | inl e ↦ rw e (h.0, All-where P p xs h.1)
    | inr e ↦ rw e (All-where P p xs h.1)
  ]

  pub All-where_true : (p : A → Bool) (xs : List A) → All (λ x. p x ≡ true) (where_ p xs)
  unfolding where_
  All-where_true p [] = tt
  All-where_true p (x ∷ xs) = elim (Bool-cases (p x)) [
    | inl e ↦ rw e (e, All-where_true p xs)
    | inr e ↦ rw e (All-where_true p xs)
  ]

  pub All-of_exists_false :
      (p : A → Bool) (xs : List A) → exists_where p xs ≡ false → All (λ x. p x ≡ false) xs
  unfolding exists_where
  All-of_exists_false p [] h = tt
  All-of_exists_false p (x ∷ xs) h = elim (Bool-cases (p x)) [
    | inl e ↦ absurd (ground (arith, e, h))
    | inr e ↦ (e, All-of_exists_false p xs (rw e at h))
  ]

  pub first_where-true :
      (p : A → Bool) (xs : List A) (x : A) → first_where p xs ≡ some x → p x ≡ true
  unfolding first_where
  first_where-true p [] x h = cc
  first_where-true p (y ∷ ys) x h = elim (Bool-cases (p y)) [
    | inl e ↦ ground (arith, e, h)
    | inr e ↦ first_where-true p ys x (rw e at h)
  ]

  pub first_where-All {κ} :
      (P : A → Type κ) (p : A → Bool) (xs : List A) (x : A)
      → All P xs
      → first_where p xs ≡ some x
      → P x
  unfolding first_where
  first_where-All P p [] x a h = cc
  first_where-All P p (y ∷ ys) x a h = elim (Bool-cases (p y)) [
    | inl e ↦ let q : y ≡ x = ground (arith, e, h) in rw (← q) a.0
    | inr e ↦ first_where-All P p ys x a.1 (rw e at h)
  ]

module _ {ℓ κ} {A : Type ℓ} (P : A → Type κ) where
  pub All-insert_with :
      (le : A → A → Bool) (x : A) (xs : List A) → P x → All P xs → All P (insert_with le x xs)
  unfolding insert_with
  All-insert_with le x [] p h = (p, tt)
  All-insert_with le x (y ∷ ys) p h = elim (Bool-cases (le x y)) [
    | inl e ↦ rw e (p, h)
    | inr e ↦ rw e (h.0, All-insert_with le x ys p h.1)
  ]

  pub All-sort_with : (le : A → A → Bool) (xs : List A) → All P xs → All P (sort_with le xs)
  unfolding sort_with
  All-sort_with le [] h = tt
  All-sort_with le (x ∷ xs) h = All-insert_with le x (sort_with le xs) h.0 (All-sort_with le xs h.1)
