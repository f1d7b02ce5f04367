-- ===== src/Prelude/Listing.antt =====
-- What a list holds and in which order: the specification of code that selects and sorts.
use Prim.Native.Nat.{ℕ, ◌<◌}
use mathlib.Core.Path.{◌≡◌, refl, sym, ap, ap₂, subst, ◌∙◌}
use mathlib.Core.Logic.{◌≢◌, inl, inr}
use mathlib.Core.Bool.{Bool, true, false}
use mathlib.Core.List.{List, [], ◌∷◌, map}
use native.Mathlib.Omega.{arith}
use users.Prelude.Tests.{leb, ltb, ◌==◌, ==_iff, Bool-cases, if◌then◌else◌}
use users.Prelude.Lists.{All, All-map}
use users.Prelude.Tables.{
  where_, insert_by, order_by, insert_with, sort_with, Member, here, there, All-insert_with,
  All-sort_with,
}
use users.Prelude.Text.{Bytes, text_leb}
use users.Prelude.Pairs.{Pairs}

-- The list holds exactly what satisfies `P`, each before, in `R`, all that follow it.
pub record Lists {A : Type 0} (R : A → A → Type 0) (P : A → Type 0) (xs : List A) : Type 0 where
  pub ordered : Pairs R xs
  pub sound : All P xs
  pub complete : (x : A) → P x → Member x xs

module _ {A : Type 0} where
  pub All-Member : (xs : List A) → All (λ x. Member x xs) xs
  All-Member [] = tt
  All-Member (x ∷ xs) = (here xs, All-map xs (λ y m. there x m) (All-Member xs))

  pub Member-All : (P : A → Type 0) {x : A} {xs : List A} → All P xs → Member x xs → P x
  Member-All P h (here xs) = h.0
  Member-All P h (there y m) = Member-All P h.1 m

  pub All-both : (P Q : A → Type 0) (xs : List A) → All P xs → All Q xs → All (λ x. P x × Q x) xs
  All-both P Q [] h k = tt
  All-both P Q (x ∷ xs) h k = ((h.0, k.0), All-both P Q xs h.1 k.1)

  pub Member-where :
      (p : A → Bool) {x : A} {xs : List A} → Member x xs → p x ≡ true → Member x (where_ p xs)
  unfolding where_
  Member-where p {x} (here xs) e = rw e (here (where_ p xs))
  Member-where p (there y {xs} m) e = elim (Bool-cases (p y)) [
    | inl f ↦ rw f (there y (Member-where p m e))
    | inr f ↦ rw f (Member-where p m e)
  ]

  insert_with-here : (le : A → A → Bool) (x : A) (ys : List A) → Member x (insert_with le x ys)
  unfolding insert_with
  insert_with-here le x [] = here []
  insert_with-here le x (y ∷ ys) = elim (Bool-cases (le x y)) [
    | inl e ↦ rw e (here (y ∷ ys))
    | inr e ↦ rw e (there y (insert_with-here le x ys))
  ]

  insert_with-there :
      (le : A → A → Bool) (x : A) {z : A} (ys : List A)
      → Member z ys
      → Member z (insert_with le x ys)
  unfolding insert_with
  insert_with-there le x [] m = elim m [ ]
  insert_with-there le x (y ∷ ys) (here _) = elim (Bool-cases (le x y)) [
    | inl e ↦ rw e (there x (here ys))
    | inr e ↦ rw e (here (insert_with le x ys))
  ]
  insert_with-there le x (y ∷ ys) (there _ m) = elim (Bool-cases (le x y)) [
    | inl e ↦ rw e (there x (there y m))
    | inr e ↦ rw e (there y (insert_with-there le x ys m))
  ]

  pub Member-sort_with :
      (le : A → A → Bool) {z : A} {xs : List A} → Member z xs → Member z (sort_with le xs)
  unfolding sort_with
  Member-sort_with le {z} (here xs) = insert_with-here le z (sort_with le xs)
  Member-sort_with le (there y {xs} m) =
      insert_with-there le y (sort_with le xs) (Member-sort_with le m)

module _ {A B : Type 0} (f : A → B) where
  pub Member-map : {x : A} {xs : List A} → Member x xs → Member (f x) (map f xs)
  Member-map (here xs) = here (map f xs)
  Member-map (there y m) = there (f y) (Member-map m)

  pub All-of_map : (P : B → Type 0) (xs : List A) → All (λ x. P (f x)) xs → All P (map f xs)
  All-of_map P [] h = tt
  All-of_map P (x ∷ xs) h = (h.0, All-of_map P xs h.1)

  pub Pairs-of_map :
      (R : B → B → Type 0) (xs : List A) → Pairs (λ x y. R (f x) (f y)) xs → Pairs R (map f xs)
  Pairs-of_map R [] h = tt
  Pairs-of_map R (x ∷ xs) h = (All-of_map (R (f x)) xs h.0, Pairs-of_map R xs h.1)

-- Sorting puts rows that `D` keeps apart into the order that `le` decides.
module _ {A : Type 0} (D R : A → A → Type 0) (le : A → A → Bool)
    (first : (x y : A) → D x y → le x y ≡ true → R x y)
    (later : (x y : A) → D x y → le x y ≡ false → R y x)
    (chain : (x y z : A) → R x y → R y z → R x z) where
  Pairs-insert_with :
      (x : A) (ys : List A) → All (D x) ys → Pairs R ys → Pairs R (insert_with le x ys)
  unfolding insert_with
  Pairs-insert_with x [] h hs = (tt, tt)
  Pairs-insert_with x (y ∷ ys) h hs = elim (Bool-cases (le x y)) [
    | inl e ↦ let r = first x y h.0 e in rw e ((r, All-map ys (λ z s. chain x y z r s) hs.0), hs)
    | inr e ↦
        rw e (All-insert_with (R y) le x ys (later x y h.0 e) hs.0, Pairs-insert_with x ys h.1 hs.1)
  ]

  pub Pairs-sort_with : (xs : List A) → Pairs D xs → Pairs R (sort_with le xs)
  unfolding sort_with
  Pairs-sort_with [] h = tt
  Pairs-sort_with (x ∷ xs) h =
      Pairs-insert_with x (sort_with le xs) (All-sort_with (D x) le xs h.0) (Pairs-sort_with xs h.1)

-- The order by a number is a sort.
pub order_by-sort_with :
    {A : Type 0} (key : A → ℕ) (xs : List A)
    → order_by key xs ≡ sort_with (λ a b. leb (key a) (key b)) xs
unfolding order_by sort_with
order_by-sort_with {A} key [] = refl
order_by-sort_with {A} key (x ∷ xs) =
    inserted x (order_by key xs)
    ∙ ap (insert_with (λ a b. leb (key a) (key b)) x) (order_by-sort_with key xs)
  where
    inserted :
        (x : A) (ys : List A) → insert_by key x ys ≡ insert_with (λ a b. leb (key a) (key b)) x ys
    inserted x [] = refl
    inserted x (y ∷ ys) =
        ap (λ r. if leb (key x) (key y) then x ∷ y ∷ ys else y ∷ r) (inserted x ys)

-- The strict order of texts, byte by byte; a text comes before what it begins.
pub data Before : Bytes → Bytes → Type 0 where
  shorter : (y : ℕ) (t : Bytes) → Before [] (y ∷ t)
  at_byte : {x y : ℕ} (s t : Bytes) → x < y → Before (x ∷ s) (y ∷ t)
  behind_byte : (x : ℕ) {s t : Bytes} → Before s t → Before (x ∷ s) (x ∷ t)

pub Before-chain : {s t u : Bytes} → Before s t → Before t u → Before s u
Before-chain (shorter _ _) (at_byte {y} s u l) = shorter y u
Before-chain (shorter _ _) (behind_byte y {t} k) = shorter y t
Before-chain (at_byte s t l) (at_byte _ u m) = at_byte s u (omega (arith, l, m))
Before-chain (at_byte s t l) (behind_byte y {t = u} k) = at_byte s _ l
Before-chain (behind_byte x {s} h) (at_byte _ u m) = at_byte s u m
Before-chain (behind_byte x h) (behind_byte _ k) = behind_byte x (Before-chain h k)

behind-of_eq : {x y : ℕ} {s t : Bytes} → x ≡ y → Before s t → Before (x ∷ s) (y ∷ t)
behind-of_eq {x} {y} {s} {t} e h = subst (λ z. Before (x ∷ s) (z ∷ t)) e (behind_byte x h)

pub text_leb-Before : (s t : Bytes) → s ≢ t → text_leb s t ≡ true → Before s t
unfolding text_leb
text_leb-Before [] [] d h = absurd (d refl)
text_leb-Before [] (y ∷ t) d h = shorter y t
text_leb-Before (x ∷ s) [] d h = absurd (cc)
text_leb-Before (x ∷ s) (y ∷ t) d h = elim (Bool-cases (ltb x y)) [
  | inl e ↦ at_byte s t (ground (arith, e))
  | inr e ↦ elim (Bool-cases (x == y)) [
    | inl f ↦
        let q = (==_iff x y).0 f in
        behind-of_eq q
          (text_leb-Before s t (λ r. d (ap₂ (λ a b. a ∷ b) q r)) (ground (arith, e, f, h)))
    | inr f ↦ absurd (ground (arith, e, f, h))
  ]
]

pub text_leb-Behind : (s t : Bytes) → s ≢ t → text_leb s t ≡ false → Before t s
unfolding text_leb
text_leb-Behind [] t d h = absurd (cc)
text_leb-Behind (x ∷ s) [] d h = shorter x s
text_leb-Behind (x ∷ s) (y ∷ t) d h = elim (Bool-cases (x == y)) [
  | inl f ↦
      let q = (==_iff x y).0 f in
      behind-of_eq (sym q)
        (text_leb-Behind s t (λ r. d (ap₂ (λ a b. a ∷ b) q r)) (ground (arith, f, h)))
  | inr f ↦ at_byte t s (ground (arith, f, h))
]
