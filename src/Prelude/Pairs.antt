-- ===== src/Prelude/Pairs.antt =====
-- Constraints between the rows of a table, and how statements keep them.

use mathlib.Core.Path.{◌≡◌, refl}
use mathlib.Core.Logic.{inl, inr}
use mathlib.Core.Bool.{Bool, true, false}
use mathlib.Core.List.{List, [], ◌∷◌}
use mathlib.Core.Option.{some}
use native.Mathlib.Omega.{arith}
use users.Prelude.Tests.{Bool-cases}
use users.Prelude.Lists.{All, All-map}
use users.Prelude.Tables.{
  where_, first_where, exists_where, update_where, All-where, All-of_exists_false, first_where-All,
}

module _ {ℓ κ} {A : Type ℓ} (R : A → A → Type κ) where
  -- Every row stands in `R` to every row behind it.
  abbrev pub Pairs : List A → Type (ℓ ⊔ κ)
  Pairs [] = Unit
  Pairs (x ∷ xs) = All (R x) xs × Pairs xs

module _ {A : Type 0} (R : A → A → Type 0) where
  pub Pairs-where : (p : A → Bool) (xs : List A) → Pairs R xs → Pairs R (where_ p xs)
  unfolding where_
  Pairs-where p [] h = tt
  Pairs-where p (x ∷ xs) h = elim (Bool-cases (p x)) [
    | inl e ↦ rw e (All-where (R x) p xs h.0, Pairs-where p xs h.1)
    | inr e ↦ rw e (Pairs-where p xs h.1)
  ]

  -- A row that a unique index lets in.
  pub Pairs-insert :
      (p : A → Bool) (x : A) (xs : List A)
      → ((y : A) → p y ≡ false → R x y)
      → exists_where p xs ≡ false
      → Pairs R xs
      → Pairs R (x ∷ xs)
  Pairs-insert p x xs new absent h = (All-map xs new (All-of_exists_false p xs absent), h)

  All-update :
      (p : A → Bool) (f : A → A) (P : A → Type 0) (xs : List A)
      → ((x : A) → P x → P (f x))
      → All P xs
      → All P (update_where p f xs)
  unfolding update_where
  All-update p f P [] k h = tt
  All-update p f P (x ∷ xs) k h = elim (Bool-cases (p x)) [
    | inl e ↦ rw e (k x h.0, All-update p f P xs k h.1)
    | inr e ↦ rw e (h.0, All-update p f P xs k h.1)
  ]

  -- An update that changes nothing that `R` looks at.
  pub Pairs-update :
      (p : A → Bool) (f : A → A) (xs : List A)
      → ((x y : A) → R x y → R (f x) y)
      → ((x y : A) → R x y → R x (f y))
      → Pairs R xs
      → Pairs R (update_where p f xs)
  unfolding update_where
  Pairs-update p f [] left right h = tt
  Pairs-update p f (x ∷ xs) left right h =
      let rest = Pairs-update p f xs left right h.1 in
      let row = All-update p f (R x) xs (right x) h.0 in
      elim (Bool-cases (p x)) [
        | inl e ↦ rw e (All-map (update_where p f xs) (left x) row, rest)
        | inr e ↦ rw e (row, rest)
      ]

module _ {A : Type 0} (R : A → A → Type 0) (p : A → Bool) where
  module _ (one : (x y : A) → R x y → p x ≡ true → p y ≡ true → ⊥) (row : A) where
    replaced_first :
        (x : A) (xs : List A)
        → p x ≡ true
        → All (R x) xs
        → All (λ y. p y ≡ false → R row y) xs
        → All (R row) (update_where p (λ _. row) xs)
    unfolding update_where
    replaced_first x [] e h left = tt
    replaced_first x (y ∷ ys) e h left = elim (Bool-cases (p y)) [
      | inl d ↦ absurd (one x y h.0 e d)
      | inr d ↦ rw d (left.0 d, replaced_first x ys e h.1 left.1)
    ]

    replaced_later :
        (x : A) (xs : List A) → R x row → All (R x) xs → All (R x) (update_where p (λ _. row) xs)
    unfolding update_where
    replaced_later x [] k h = tt
    replaced_later x (y ∷ ys) k h = elim (Bool-cases (p y)) [
      | inl d ↦ rw d (k, replaced_later x ys k h.1)
      | inr d ↦ rw d (h.0, replaced_later x ys k h.1)
    ]

    -- One row is replaced: `p` picks at most one, and the new row stands in `R` to the others.
    pub Pairs-replace :
        (xs : List A)
        → All (λ y. p y ≡ false → R row y) xs
        → All (λ y. p y ≡ false → R y row) xs
        → Pairs R xs
        → Pairs R (update_where p (λ _. row) xs)
    unfolding update_where
    Pairs-replace [] left right h = tt
    Pairs-replace (x ∷ xs) left right h =
        let rest = Pairs-replace xs left.1 right.1 h.1 in
        elim (Bool-cases (p x)) [
          | inl e ↦ rw e (replaced_first x xs e h.0 left.1, rest)
          | inr e ↦ rw e (replaced_later x xs (right.0 e) h.0, rest)
        ]

  -- The row that a query finds, beside every other one.
  pub Pairs-first :
      ((x y : A) → R x y → R y x)
      → (xs : List A) (found : A) → first_where p xs ≡ some found
      → Pairs R xs
      → All (λ y. p y ≡ false → R found y) xs
  unfolding first_where
  Pairs-first flip [] found e h = tt
  Pairs-first flip (x ∷ xs) found e h = elim (Bool-cases (p x)) [
    | inl d ↦
        let hit : some x ≡ some found = rw d at e in
        let same : x ≡ found = cc in
        ((λ n. absurd (ground (arith, d, n))), All-map xs (λ y r n. rw (← same) r) h.0)
    | inr d ↦
        let later : first_where p xs ≡ some found = rw d at e in
        (
          (λ n. flip x found (first_where-All (R x) p xs found h.0 later)),
          Pairs-first flip xs found later h.1,
        )
  ]

module _ {A : Type 0} (P : A → Type 0) where
  pub All-update_where :
      (p : A → Bool) (f : A → A) (xs : List A)
      → ((x : A) → P x → P (f x))
      → All P xs
      → All P (update_where p f xs)
  All-update_where p f xs k h = All-update (λ _ _. Unit {0}) p f P xs k h

module _ {A : Type 0} (q : A → Bool) where
  -- A row that the deletion keeps is still there.
  pub exists-where_ :
      (p : A → Bool) (xs : List A)
      → ((x : A) → q x ≡ true → p x ≡ true)
      → exists_where q xs ≡ true
      → exists_where q (where_ p xs) ≡ true
  unfolding where_ exists_where
  exists-where_ p [] k h = h
  exists-where_ p (x ∷ xs) k h = elim (Bool-cases (q x)) [
    | inl e ↦ rw (k x e, e) refl
    | inr e ↦ elim (Bool-cases (p x)) [
      | inl d ↦ rw (d, e) (exists-where_ p xs k (rw e at h))
      | inr d ↦ rw d (exists-where_ p xs k (rw e at h))
    ]
  ]

  pub exists-update_where :
      (p : A → Bool) (f : A → A) (xs : List A)
      → ((x : A) → p x ≡ true → q x ≡ true → q (f x) ≡ true)
      → exists_where q xs ≡ true
      → exists_where q (update_where p f xs) ≡ true
  unfolding update_where exists_where
  exists-update_where p f [] k h = h
  exists-update_where p f (x ∷ xs) k h = elim (Bool-cases (p x)) [
    | inl d ↦ rw d (elim (Bool-cases (q x)) [
      | inl e ↦ rw (k x d e) refl
      | inr e ↦ elim (Bool-cases (q (f x))) [
        | inl c ↦ rw c refl
        | inr c ↦ rw c (exists-update_where p f xs k (rw e at h))
      ]
    ])
    | inr d ↦ rw d (elim (Bool-cases (q x)) [
      | inl e ↦ rw e refl
      | inr e ↦ rw e (exists-update_where p f xs k (rw e at h))
    ])
  ]

  pub exists-cons :
      (x : A) (xs : List A) → exists_where q xs ≡ true → exists_where q (x ∷ xs) ≡ true
  unfolding exists_where
  exists-cons x xs h = elim (Bool-cases (q x)) [ inl e ↦ rw e refl | inr e ↦ rw e h ]
