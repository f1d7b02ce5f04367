-- ===== src/Store/Pagination/Scanned.antt =====
-- Every device of a page was read from a row.
use users.Prelude.{
  ℕ, ◌≡◌, Option, List, [], ◌∷◌, ◌++◌, All, All-append, length, ◌==◌, Bool-cases, inl, inr,
}
use users.Prelude.Int.{ℤ}
use users.Errors.{ok, ok-injective, Result-cases}
use users.World.{Environment, lift, pure}
use users.World.Yields.{Yields, Yields-pure, Yields-bind, Yields-last}
use users.Store.Types.{UserId, Device, DeviceRow, PageCursor, DeviceListResult}
use users.Store.Rows.{scan_device}
use users.Store.Pagination.{
  Page, read_rows, first_page, list_entities, list_devices, page_result, normalize_page_size,
}

-- The device was read from a row.
abbrev pub Scanned : Device → Type 0
Scanned device = (row : DeviceRow) × (scan_device row ≡ ok device)

abbrev id_of : Device → UserId
id_of device = device.id

read_rows-Scanned :
    (limit : ℕ) (rows : List DeviceRow) (page found : Page Device)
    → All Scanned page.items
    → read_rows scan_device id_of limit rows page ≡ ok found
    → All Scanned found.items
unfolding read_rows
read_rows-Scanned limit [] page found h same = rw (← ok-injective same) h
read_rows-Scanned limit (row ∷ rows) page found h same =
    elim (Bool-cases (length page.items == limit)) [
      | inl e ↦ rw (← ok-injective (rw (read_rows, e) at same)) h
      | inr e ↦ elim (Result-cases (scan_device row)) [
        | inl (d, f) ↦ absurd (cc (rw (read_rows, e, f) at same))
        | inr (device, f) ↦
            read_rows-Scanned limit rows
              (record page { items = page.items ++ device ∷ []; last_id = device.id }) found
              (All-append Scanned page.items (device ∷ []) h ((row, f), tt))
              (rw (read_rows, e, f) at same)
      ]
    ]

Yields-read_rows :
    (limit : ℕ) (rows : List DeviceRow)
    → Yields
        (λ (page : Page Device). All Scanned page.items)
        (lift (read_rows scan_device id_of limit rows first_page))
unfolding lift
Yields-read_rows limit rows = record {
  value = λ w page h. read_rows-Scanned limit rows first_page page tt h;
}

abbrev Listed : List Device × Option PageCursor → Type 0
Listed page = All Scanned page.0

pub list_devices-Scanned :
    (env : Environment) (user_id : UserId) (size : ℤ) (cursor : Option PageCursor)
    → Yields
        (λ (r : DeviceListResult). All Scanned r.devices)
        (list_devices env user_id size cursor)
unfolding list_devices list_entities
list_devices-Scanned env user_id size cursor =
    let limit = normalize_page_size size in
    Yields-bind Listed (λ (r : DeviceListResult). All Scanned r.devices) _
      (λ page. pure (record { devices = page.0; next_cursor = page.1 }))
      (Yields-last Listed _ _ λ rows.
        Yields-bind (λ (page : Page Device). All Scanned page.items) Listed
          (lift (read_rows scan_device id_of limit rows first_page))
          (λ page. pure (page_result scan_device id_of page)) (Yields-read_rows limit rows)
          (λ page h. Yields-pure Listed (page_result scan_device id_of page) h))
      (λ page h.
        Yields-pure (λ (r : DeviceListResult). All Scanned r.devices)
          (record { devices = page.0; next_cursor = page.1 }) h)
