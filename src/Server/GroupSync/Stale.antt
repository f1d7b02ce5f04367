-- ===== src/Server/GroupSync/Stale.antt =====
-- What `staleCandidateAttributes` returns, as a set.
use users.Prelude.{
  ℕ, text_leb, ◌+◌, ◌≡◌, refl, ◌∙◌, ap, Bool, not, ◌&&◌, ◌||◌, List, [], ◌∷◌, Bytes, bytes_eq,
  bytes_eq_iff, bytes_eq_refl, if◌then◌else◌, arith, Bool-cases, inl, inr,
}
use users.Prelude.Tables.{insert_with, sort_with}
use users.Server.GroupSync.{in_set, stale_from, stale_candidate_attributes}

-- How often an attribute stands in a list.
pub count : Bytes → List Bytes → ℕ
unfolding bytes_eq
count attr [] = 0
count attr (x ∷ xs) = let rest = count attr xs in if bytes_eq x attr then rest + 1 else rest

count-insert_with :
    (attr x : Bytes) (le : Bytes → Bytes → Bool) (ys : List Bytes)
    → count attr (insert_with le x ys) ≡ count attr (x ∷ ys)
unfolding count insert_with
count-insert_with attr x le [] = refl
count-insert_with attr x le (y ∷ ys) = ground (arith, count-insert_with attr x le ys)

count-sort_with :
    (attr : Bytes) (le : Bytes → Bytes → Bool) (xs : List Bytes)
    → count attr (sort_with le xs) ≡ count attr xs
unfolding count sort_with
count-sort_with attr le [] = refl
count-sort_with attr le (x ∷ xs) =
    count-insert_with attr x le (sort_with le xs)
    ∙ ap (λ n. if bytes_eq x attr then n + 1 else n) (count-sort_with attr le xs)

-- An attribute to be removed: it has a name, and is not desired.
abbrev pub is_stale : Bytes → List Bytes → Bool
is_stale attr desired = not (bytes_eq attr [] || in_set attr desired)

one_if : Bool → ℕ
one_if b = if b then 1 else 0

count-stale_from :
    (attr : Bytes) (desired seen candidates : List Bytes)
    → count attr (stale_from desired seen candidates)
      ≡ one_if (is_stale attr desired && not (in_set attr seen) && in_set attr candidates)
unfolding count stale_from in_set one_if
count-stale_from attr desired seen [] = ground arith
count-stale_from attr desired seen (x ∷ candidates) = elim (Bool-cases (bytes_eq x attr)) [
  | inl e ↦
      let same : x ≡ attr = (bytes_eq_iff x attr).0 e in
      rw (same, bytes_eq_refl)
        (ground (
          arith,
          count-stale_from attr desired seen candidates,
          count-stale_from attr desired (attr ∷ seen) candidates,
          bytes_eq_refl attr,
        ))
  | inr e ↦ ground (
    arith,
    e,
    count-stale_from attr desired seen candidates,
    count-stale_from attr desired (x ∷ seen) candidates,
  )
]

-- An attribute is removed from the devices exactly if it is a candidate that has a name and is not
-- desired, and then it is listed once.
pub count-stale_candidate_attributes :
    (attr : Bytes) (desired candidates : List Bytes)
    → count attr (stale_candidate_attributes desired candidates)
      ≡ (if not (bytes_eq attr [] || in_set attr desired) && in_set attr candidates then 1 else 0)
unfolding stale_candidate_attributes
count-stale_candidate_attributes attr desired candidates =
    count-sort_with attr text_leb (stale_from desired [] candidates)
    ∙ (unfold one_if in_set in ground (arith, count-stale_from attr desired [] candidates))
