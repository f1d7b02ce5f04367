-- ===== src/Store/Ownership.antt =====
-- The rows of everyone but one user, behind the DELETE statements of internal/store/store.go.
use users.Prelude.{
  ◌≡◌, refl, Bool, true, false, not, ◌&&◌, List, [], ◌∷◌, ◌==◌, arith, Bool-cases, inl, inr,
}
use users.Prelude.Tables.{where_}
use users.Store.Types.{UserId, ApiTokenRow, DeviceRow, Database}
use users.Store.Statements.{delete_api_token_rows, delete_device_rows}

-- Rows that no deletion concerns are left, in their order.
where_-where_ :
    {A : Type 0} (q doomed : A → Bool) (xs : List A)
    → ((x : A) → q x ≡ true → doomed x ≡ false)
    → where_ q (where_ (λ x. not (doomed x)) xs) ≡ where_ q xs
unfolding where_
where_-where_ q doomed [] h = refl
where_-where_ q doomed (x ∷ xs) h = elim (Bool-cases (doomed x)) [
  | inr e ↦ ground (arith, e, where_-where_ q doomed xs h)
  | inl e ↦ elim (Bool-cases (q x)) [
    | inl f ↦ absurd (cc (h x f, e))
    | inr f ↦ rw (e, f) (where_-where_ q doomed xs h)
  ]
]

-- The tokens and the devices of everyone but one user.
abbrev pub others_tokens : UserId → Database → List ApiTokenRow
others_tokens id db = where_ (λ (row : ApiTokenRow). not (row.identity_id == id)) db.api_tokens

abbrev pub others_devices : UserId → Database → List DeviceRow
others_devices id db = where_ (λ (row : DeviceRow). not (row.identity_id == id)) db.devices

pub delete_api_token_rows-others :
    (token_id id : UserId) (db : Database)
    → others_tokens id (delete_api_token_rows token_id id db).1 ≡ others_tokens id db
unfolding delete_api_token_rows
delete_api_token_rows-others token_id id db =
    where_-where_ (λ (row : ApiTokenRow). not (row.identity_id == id))
      (λ row. row.id == token_id && row.identity_id == id) db.api_tokens (λ x h. ground (arith, h))

pub delete_device_rows-others :
    (device_id id : UserId) (db : Database)
    → others_devices id (delete_device_rows device_id id db).1 ≡ others_devices id db
unfolding delete_device_rows
delete_device_rows-others device_id id db =
    where_-where_ (λ (row : DeviceRow). not (row.identity_id == id))
      (λ row. row.id == device_id && row.identity_id == id) db.devices (λ x h. ground (arith, h))
