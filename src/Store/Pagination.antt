-- ===== src/Store/Pagination.antt =====
-- internal/store/pagination.go, with `ListUsers` and `ListDevices` of internal/store/store.go.
pub mod Keeps
pub mod Listed
pub mod Pages
pub mod Walk
pub mod Tokens
pub mod Complete
pub mod Scanned
use users.Prelude.{
  ℕ, zero, suc, ◌+◌, ◌≡◌, ◌≢◌, Bool, true, false, ◌&&◌, Option, none, some, List, [], ◌∷◌, ◌++◌,
  Bytes, bytes_eq, length, take, ltb, ◌==◌, if◌then◌else◌,
}
use users.Prelude.Int.{ℤ, pos, negsuc}
use users.Prelude.Tables.{where_, order_by}
use users.Errors.{Result, ok, err, message, wrap, Error}
use users.World.{Environment, Uuids, M, lift, pure, statement, ◌>>=◌}
use users.Store.Types.{
  UserId, User, UserRow, Device, DeviceRow, PageCursor, UserListResult, DeviceListResult, Database,
}
use users.Store.Rows.{scan_user, scan_device}

abbrev pub default_list_page_size : ℕ
default_list_page_size = 50

abbrev pub max_list_page_size : ℕ
max_list_page_size = 100

-- The result is positive, so it is a natural number here.
unfoldable pub normalize_page_size : ℤ → ℕ
normalize_page_size (negsuc n) = default_list_page_size
normalize_page_size (pos n) =
    if n == 0
    then default_list_page_size
    else if ltb max_list_page_size n
    then max_list_page_size
    else n

-- base64.RawURLEncoding, of the standard library: what is encoded is decoded, and nothing but the
-- empty text is written as the empty text.
pub record Base64 : Type 0 where
  pub encode : Bytes → Bytes
  pub decode : Bytes → Result Bytes
  pub decode-encode : (s : Bytes) → decode (encode s) ≡ ok s
  pub encode-ne-nil : (s : Bytes) → s ≢ [] → encode s ≢ []

unfoldable pub encode_page_token : Uuids → Base64 → UserId → Bytes
encode_page_token uuids base64 id = base64.encode (uuids.to_string id)

unfoldable pub decode_page_token : Uuids → Base64 → Bytes → Result UserId
unfolding bytes_eq
decode_page_token uuids base64 token =
    if bytes_eq token [] then err (message "empty token") else elim (base64.decode token) [
      | err e ↦ err (wrap "decode token" e)
      | ok decoded ↦ elim (uuids.parse decoded) [
        | err e ↦ err (wrap "parse token" e)
        | ok id ↦ ok id
      ]
    ]

-- The loop over the rows: the items so far, the id of the last one, and `hasMore`.
pub record Page {ℓ} (T : Type ℓ) : Type ℓ where
  pub items : List T
  pub last_id : UserId
  pub has_more : Bool

module _ {ℓ κ} {Row : Type ℓ} {T : Type κ} (scan : Row → Result T) (id_of : T → UserId) where
  read_rows : ℕ → List Row → Page T → Result (Page T)
  read_rows limit [] page = ok page
  read_rows limit (row ∷ rows) page =
      let rest = λ (item : T).
        read_rows limit rows
          (record page { items = page.items ++ item ∷ []; last_id = id_of item }) in
      if length page.items == limit
      then ok (record page { has_more = true })
      else elim (scan row) [ err e ↦ err e | ok item ↦ rest item ]

  abbrev page_result : Page T → List T × Option PageCursor
  page_result page =
      (page.items, if page.has_more then some (record { after_id = page.last_id }) else none)

-- cursorColumn > $n
unfoldable pub after_cursor : Option PageCursor → ℕ → Bool
after_cursor none id = true
after_cursor (some cursor) id = ltb cursor.after_id id

abbrev first_page {ℓ} : {T : Type ℓ} → Page T
first_page = record { items = []; last_id = 0; has_more = false }

-- WHERE cursorColumn > $n ORDER BY cursorColumn ASC
abbrev pub behind : {Row : Type 0} → (Row → UserId) → Option PageCursor → List Row → List Row
behind row_id cursor rows = order_by row_id (where_ (λ row. after_cursor cursor (row_id row)) rows)

-- The query of `listEntities`: the rows behind the cursor, in the order of their ids, one more than
-- the page holds.
list_rows : {Row : Type 0} → (Row → UserId) → Option PageCursor → ℕ → List Row → List Row
unfolding where_ order_by after_cursor
list_rows row_id cursor limit rows = take (limit + 1) (behind row_id cursor rows)

pub list_entities :
    {Row T : Type 0}
    → Environment
    → (Database → List Row)
    → (Row → UserId)
    → Option PageCursor
    → ℤ
    → (Row → Result T)
    → (T → UserId)
    → M (List T × Option PageCursor)
unfolding list_rows read_rows normalize_page_size
list_entities env select row_id cursor page_size scan id_of = do
  let limit = normalize_page_size page_size
  rows ← statement env (λ _ _ db. (ok (list_rows row_id cursor limit (select db)), db))
  page ← lift (read_rows scan id_of limit rows first_page)
  pure (page_result scan id_of page)

unfoldable pub list_users : Environment → ℤ → Option PageCursor → M UserListResult
unfolding scan_user list_entities
list_users env page_size cursor = do
  (users, next) ←
      list_entities env (λ db. db.users) (λ (row : UserRow). row.identity_id) cursor page_size
        scan_user (λ (user : User). user.meta.id)
  pure (record { users = users; next_cursor = next })

-- The rows of one user.
unfoldable pub owned_devices : UserId → Database → List DeviceRow
unfolding where_
owned_devices identity_id db =
    where_ (λ (row : DeviceRow). row.identity_id == identity_id) db.devices

unfoldable pub list_devices : Environment → UserId → ℤ → Option PageCursor → M DeviceListResult
unfolding scan_device list_entities owned_devices
list_devices env identity_id page_size cursor = do
  (devices, next) ←
      list_entities env (owned_devices identity_id) (λ (row : DeviceRow). row.id) cursor page_size
        scan_device (λ (device : Device). device.id)
  pure (record { devices = devices; next_cursor = next })
