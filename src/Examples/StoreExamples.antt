-- ===== src/Examples/StoreExamples.antt =====
-- The theorems about the store, at concrete inputs.
use users.Store.Rows.{scan_user}
use users.World.{◌>>=◌, statement, attempt, lift, pure, World}
use users.Prelude.Pairs.{Pairs}
use users.Errors.{no_rows, err}
use users.Store.Pagination.Pages.{last_of}
use users.Store.Pagination.Listed.{IsRest, list_entities-page}
use users.Prelude.Tables.{first_where, update_where}
use users.Store.Types.{UserRow, UserUpdate, Database, User}
use users.Store.Statements.{has_id, insert_user, select_user_by_subject}
use users.Store.Users.{resolve_or_create_user}
use users.Store.Users.SignIn.{resolve_or_create_user-again, user_of}
use users.Store.Query.{build}
use users.Store.Update.{user_columns, update_builder, run_update, username_taken}
use users.Store.Update.Meaning.{updated_row, run_update-build}
use users.Store.Ownership.{others_tokens, others_devices}
use users.Store.ApiTokens.{revoke_api_token}
use users.Store.ApiTokens.Ownership.{revoke_api_token-others}
use users.Store.Devices.{delete_device}
use users.Store.Devices.Ownership.{delete_device-others}
use users.Prelude.{
  ◌≡◌, ◌≤◌, refl, true, [], ◌∷◌, ◌++◌, codes, has_prefix, length, All, bytes_eq, arith, false, some,
  none, map, take, ltb, if◌then◌else◌, List, ◌≢◌,
}
use users.Prelude.Int.{pos}
use users.Prelude.Tables.{exists_where}
use users.Errors.{ok}
use users.Samples.{
  empty-IsConsistent, ada_user, quiet-IsQuiet, quiet, short_uuids, plain_base64, empty_world, ada,
  ada_row, adam_row, first_byte_le,
}
use users.Store.Statements.{has_username}
use users.Store.Search.{escape_like_pattern, like, search_rows}
use users.Store.Search.Like.{like-escape_like_pattern}
use users.Store.Search.Results.{IsMatch, ExactFirst, search_rows-IsMatch, search_rows-ExactFirst}
use users.Store.Pagination.{
  normalize_page_size, encode_page_token, decode_page_token, list_entities,
}
use users.Store.Pagination.Tokens.{
  IsNormalized, normalize_page_size-IsNormalized, decode-encode_page_token,
}
use users.Store.Consistent.{IsConsistent}
use users.Store.Interface.{create_user, delete_user, perform_all, perform_all-IsConsistent}

perform_all-IsConsistent_example :
    IsConsistent (perform_all quiet (create_user ada ∷ delete_user 0 ∷ []) empty_world).1.db
perform_all-IsConsistent_example =
    perform_all-IsConsistent quiet (λ clock db h. h) (create_user ada ∷ delete_user 0 ∷ [])
      empty_world empty-IsConsistent

like-escape_like_pattern_example :
    like (escape_like_pattern (codes "a_") ++ b'%' ∷ []) (codes "ab")
    ≡ has_prefix (codes "ab") (codes "a_")
like-escape_like_pattern_example = like-escape_like_pattern (codes "a_") (codes "ab")

search_rows-IsMatch_example :
    (length (search_rows first_byte_le (codes "ada") 5 (adam_row ∷ ada_row ∷ [])) ≤ 5)
    × All
        (IsMatch (codes "ada"))
        (search_rows first_byte_le (codes "ada") 5 (adam_row ∷ ada_row ∷ []))
search_rows-IsMatch_example =
    search_rows-IsMatch first_byte_le (codes "ada") 5 (adam_row ∷ ada_row ∷ [])

ada_exists : exists_where (has_username (codes "ada")) (adam_row ∷ ada_row ∷ []) ≡ true
unfolding has_username exists_where bytes_eq
ada_exists = refl

search_rows-ExactFirst_example :
    ExactFirst first_byte_le
      (codes "ada")
      (search_rows first_byte_le (codes "ada") 5 (adam_row ∷ ada_row ∷ []))
search_rows-ExactFirst_example =
    search_rows-ExactFirst first_byte_le (codes "ada") 5 (adam_row ∷ ada_row ∷ []) (λ e. cc)
      (omega arith) ada_exists

normalize_page_size-IsNormalized_example : IsNormalized (pos 500) (normalize_page_size (pos 500))
normalize_page_size-IsNormalized_example = normalize_page_size-IsNormalized (pos 500)

decode-encode_page_token_example :
    decode_page_token short_uuids plain_base64 (encode_page_token short_uuids plain_base64 7) ≡ ok 7
decode-encode_page_token_example = decode-encode_page_token short_uuids plain_base64 7

ada_created : (resolve_or_create_user quiet ada empty_world).0 ≡ ok (ada_user, true)
unfolding resolve_or_create_user ◌>>=◌ statement attempt insert_user lift scan_user pure
    select_user_by_subject
ada_created = refl

resolve_or_create_user-again_example :
    ((resolve_or_create_user quiet ada (resolve_or_create_user quiet ada empty_world).1).0
      ≡ ok (ada_user, false))
    × ((resolve_or_create_user quiet ada (resolve_or_create_user quiet ada empty_world).1).1.db
        ≡ (resolve_or_create_user quiet ada empty_world).1.db)
resolve_or_create_user-again_example =
    resolve_or_create_user-again quiet quiet-IsQuiet ada ada empty_world ada_user true refl
      ada_created

abbrev rename : UserUpdate
rename = record {
  name = some (codes "Ada L");
  email = none;
  nickname = none;
  username = none;
  photo_url = none;
}

abbrev ada_db : Database
ada_db = record { users = ada_row ∷ []; api_tokens = []; devices = [] }

run_update-build_example :
    (first_where (has_id 1) ada_db.users ≡ none
      → run_update 5 (build (update_builder rename) "users" user_columns "identity_id" 1) ada_db
        ≡ (err no_rows, ada_db))
    × ((row : UserRow)
        → first_where (has_id 1) ada_db.users ≡ some row
        → username_taken (updated_row 5 rename row) ada_db.users ≡ false
        → run_update 5 (build (update_builder rename) "users" user_columns "identity_id" 1) ada_db
          ≡ (
            ok (updated_row 5 rename row),
            record ada_db {
              users = update_where (has_id 1) (λ _. updated_row 5 rename row) ada_db.users;
            },
          ))
run_update-build_example = run_update-build 5 1 rename ada_db

revoke_api_token-others_example :
    others_tokens 1 (revoke_api_token quiet 1 7 empty_world).1.db ≡ others_tokens 1 empty_world.db
revoke_api_token-others_example = revoke_api_token-others quiet 1 7 empty_world (λ clock db. refl)

delete_device-others_example :
    others_devices 1 (delete_device quiet 1 7 empty_world).1.db ≡ others_devices 1 empty_world.db
delete_device-others_example = delete_device-others quiet 1 7 empty_world (λ clock db. refl)

scan_user-total : (row : UserRow) → scan_user row ≡ ok (user_of row)
unfolding scan_user
scan_user-total row = refl

abbrev two_rows_world : World
two_rows_world = record {
  db = record { users = adam_row ∷ ada_row ∷ []; api_tokens = []; devices = [] };
  clock = 3;
  calls = [];
}

two_rows-distinct :
    Pairs (λ (x y : UserRow). x.identity_id ≢ y.identity_id) (adam_row ∷ ada_row ∷ [])
two_rows-distinct = ((λ e. absurd (omega arith), tt), (tt, tt))

-- The second of two pages.
list_entities-page_example :
    (rest : List UserRow) × IsRest
      (λ (row : UserRow). row.identity_id)
      (some (record { after_id = 1 }))
      (adam_row ∷ ada_row ∷ [])
      rest
    × ((list_entities quiet
          (λ db. db.users)
          (λ (row : UserRow). row.identity_id)
          (some (record { after_id = 1 }))
          (pos 1)
          scan_user
          (λ (user : User). user.meta.id)
          two_rows_world).0
        ≡ ok (
          map user_of (take 1 rest),
          if ltb 1 (length rest)
              then some (record {
                after_id = last_of (λ (user : User). user.meta.id) user_of 0 (take 1 rest);
              })
              else none,
        ))
    × ((list_entities quiet
          (λ db. db.users)
          (λ (row : UserRow). row.identity_id)
          (some (record { after_id = 1 }))
          (pos 1)
          scan_user
          (λ (user : User). user.meta.id)
          two_rows_world).1.db
        ≡ two_rows_world.db)
unfolding normalize_page_size
list_entities-page_example =
    list_entities-page scan_user (λ (user : User). user.meta.id) user_of quiet quiet-IsQuiet
      (λ db. db.users) (λ (row : UserRow). row.identity_id) (some (record { after_id = 1 })) (pos 1)
      two_rows_world two_rows-distinct (scan_user-total adam_row, (scan_user-total ada_row, tt))
