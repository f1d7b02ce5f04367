-- ===== src/Server/GroupSync/Sync/Walk.antt =====
-- The loop over the pages of a user's devices returns every one of them.
use users.Prelude.{
  true, ℕ, zero, suc, ◌+◌, ◌<◌, ◌≡◌, ◌≢◌, refl, sym, ◌∙◌, ap, Bool-cases, inl, inr, Option, none,
  some, List, [], ◌++◌, map, map-append, append_assoc, length, take, ltb, ◌==◌, All, All-map,
  if◌then◌else◌, arith,
}
use users.Prelude.Int.{pos}
use users.Prelude.Tables.{where_, order_by, All-where}
use users.Prelude.Pairs.{Pairs, Pairs-where}
use users.Errors.{ok, wrap}
use users.World.{Environment, World, pure}
use users.World.Quiet.{IsQuiet}
use users.World.Runs.{bind-of_ok}
use users.Store.Types.{UserId, Device, DeviceRow, PageCursor, Database}
use users.Store.Rows.{scan_device, is_device_status, is_device_connectivity}
use users.Store.Pagination.{
  normalize_page_size, max_list_page_size, behind, owned_devices, list_devices,
}
use users.Store.Pagination.Pages.{last_of, list_entities-Known}
use users.Store.Pagination.Walk.{behind-next}
use users.Store.Pagination.Complete.{
  All-behind, behind-none, last_page, behind-shorter, length-order_by,
}
use users.Server.Status.Laws.{or_fail-of_ok}
use users.Server.GroupSync.Sync.{device_pages, list_all_user_devices}

-- The device of a row that the store can read.
abbrev pub device_of : DeviceRow → Device
device_of row = record {
  id = row.id;
  identity_id = row.identity_id;
  name = row.name;
  open_ziti_identity_id = row.open_ziti_identity_id;
  enrollment_jwt = row.enrollment_jwt;
  status = row.status;
  connectivity = row.connectivity;
  enrolled_at = row.enrolled_at;
  last_seen_at = row.last_seen_at;
  created_at = row.created_at;
}

-- A status and a connectivity that the store knows.
abbrev pub IsReadable : DeviceRow → Type 0
IsReadable row =
    (is_device_status row.status ≡ true) × (is_device_connectivity row.connectivity ≡ true)

scan_device-IsReadable : (row : DeviceRow) → IsReadable row → scan_device row ≡ ok (device_of row)
unfolding scan_device
scan_device-IsReadable row h = rw (h.0, h.1) refl

abbrev pub device_row_id : DeviceRow → UserId
device_row_id row = row.id

module _ (env : Environment) (quiet : IsQuiet env) (user_id : UserId) where
  -- The rows of the user behind a cursor.
  abbrev rest_of : Option PageCursor → Database → List DeviceRow
  rest_of cursor db = behind device_row_id cursor (owned_devices user_id db)

  abbrev cursor_behind : List DeviceRow → PageCursor
  cursor_behind rows = record {
    after_id = last_of (λ (device : Device). device.id) device_of 0 (take max_list_page_size rows);
  }

  list_devices-run :
      (cursor : Option PageCursor) (w : World)
      → All IsReadable (owned_devices user_id w.db)
      → list_devices env user_id (pos max_list_page_size) cursor w ≡ (
        ok (record {
          devices = map device_of (take max_list_page_size (rest_of cursor w.db));
          next_cursor =
              if ltb max_list_page_size (length (rest_of cursor w.db))
              then some (cursor_behind (rest_of cursor w.db))
              else none;
        }),
        record w { clock = w.clock + 1 },
      )
  unfolding list_devices normalize_page_size
  list_devices-run cursor w readable =
      bind-of_ok _ _ w (record w { clock = w.clock + 1 })
        (list_entities-Known scan_device (λ (device : Device). device.id) device_of env quiet
          (owned_devices user_id) device_row_id cursor (pos max_list_page_size) w
          (All-behind device_row_id (λ row. scan_device row ≡ ok (device_of row)) cursor
            (owned_devices user_id w.db)
            (All-map (owned_devices user_id w.db) scan_device-IsReadable readable)))
      ∙ (unfold pure in refl)

  device_pages_complete :
      (fuel : ℕ) (cursor : Option PageCursor) (devices : List Device) (w : World)
      → Pairs (λ (x y : DeviceRow). x.id ≢ y.id) (owned_devices user_id w.db)
      → All IsReadable (owned_devices user_id w.db)
      → length (rest_of cursor w.db) < fuel
      → ((device_pages env fuel user_id cursor devices w).0
          ≡ ok (devices ++ map device_of (rest_of cursor w.db)))
        × ((device_pages env fuel user_id cursor devices w).1.db ≡ w.db)
        × ((device_pages env fuel user_id cursor devices w).1.calls ≡ w.calls)
  unfolding device_pages
  device_pages_complete zero cursor devices w distinct readable l = absurd (omega arith)
  device_pages_complete (suc fuel) cursor devices w distinct readable l =
      let w' : World = record w { clock = w.clock + 1 } in
      let rows = owned_devices user_id w.db in
      let id_of = λ (device : Device). device.id in
      rw
        (or_fail-of_ok (wrap "list devices")
          (list_devices env user_id (pos max_list_page_size) cursor) _ w w'
          (list_devices-run cursor w readable))
        (elim (Bool-cases (ltb max_list_page_size (length (rest_of cursor w.db)))) [
          | inr e ↦
              rw (e, last_page device_row_id cursor max_list_page_size rows e)
                (unfold pure in (refl, refl, refl))
          | inl e ↦
              let c = cursor_behind (rest_of cursor w.db) in
              let shorter =
                behind-shorter id_of device_of cursor max_list_page_size rows distinct (omega arith)
                  e in
              let later =
                device_pages_complete fuel (some c)
                  (devices ++ map device_of (take max_list_page_size (rest_of cursor w.db))) w'
                  distinct readable (omega (arith, shorter, l)) in
              let page_devices = map device_of (take max_list_page_size (rest_of cursor w.db)) in
              let next_devices = map device_of (rest_of (some c) w.db) in
              let more : max_list_page_size < length (rest_of cursor w.db) = ground (arith, e) in
              let all =
                ap (map device_of) (
                  behind-next id_of device_of cursor max_list_page_size rows distinct (omega arith)
                    more)
                ∙ map-append device_of (take max_list_page_size (rest_of cursor w.db))
                    (rest_of (some c) w.db) in
              rw e (
                later.0
                    ∙ ap ok (
                        append_assoc devices page_devices next_devices
                        ∙ ap (λ r. devices ++ r) (sym all)),
                later.1,
                later.2,
              )
        ])

-- In an environment where nothing fails and nobody else writes, where the ids of the user's devices
-- are distinct and their rows carry a known status and connectivity, the loop over the pages, on fuel
-- for more than their number, returns all the devices of the user in the order of their ids, and
-- leaves the tables and the calls to other services unchanged.
pub list_all_user_devices_complete :
    (env : Environment)
    → IsQuiet env
    → (fuel : ℕ) (user_id : UserId) (w : World)
    → Pairs (λ (x y : DeviceRow). x.id ≢ y.id) w.db.devices
    → All IsReadable w.db.devices
    → length (owned_devices user_id w.db) < fuel
    → ((list_all_user_devices env fuel user_id w).0
        ≡ ok (map device_of (order_by device_row_id (owned_devices user_id w.db))))
      × ((list_all_user_devices env fuel user_id w).1.db ≡ w.db)
      × ((list_all_user_devices env fuel user_id w).1.calls ≡ w.calls)
unfolding list_all_user_devices owned_devices
list_all_user_devices_complete env quiet fuel user_id w distinct readable l =
    let owned = λ (row : DeviceRow). row.identity_id == user_id in
    let rows = where_ owned w.db.devices in
    let first = behind-none device_row_id rows in
    let all =
      device_pages_complete env quiet user_id fuel none [] w
        (Pairs-where (λ (x y : DeviceRow). x.id ≢ y.id) owned w.db.devices distinct)
        (All-where IsReadable owned w.db.devices readable)
        (rw first (omega (arith, length-order_by device_row_id rows, l))) in
    (all.0 ∙ ap (λ r. ok (map device_of r)) first, all.1, all.2)
