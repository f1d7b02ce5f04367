-- ===== src/Examples/ServerExamples.antt =====
-- The theorems about the handlers, at concrete inputs.
use users.Prelude.{
  ℕ, ◌+◌, ◌≡◌, refl, not, ◌&&◌, ◌||◌, none, some, [], ◌∷◌, Bytes, codes, bytes_eq, if◌then◌else◌,
}
use users.Errors.{ok}
use users.Samples.{quiet, plain_base64, zero_entropy, empty_world, ada, ada_row}
use users.World.{World, ◌>>=◌, ◌>>◌, statement, lift, pure, attempt, current_time}
use users.Store.Types.{ApiToken, CreateApiTokenInput}
use users.Store.Users
use users.Store.Statements.{insert_api_token, touch_api_token}
use users.Store.Rows.{scan_api_token}
use users.Store.ApiTokens.{create_api_token, resolve_api_token}
use users.Store.ApiTokens.RoundTrip.{Live}
use users.Server.Auth.Laws.{IsAdmin}
use users.Server.Admin.{get_user, handle}
use users.Server.Admin.Guard.{IsRefused, handle-IsRefused}
use users.Server.Allocate.{allocate, allocate_rounds}
use users.Server.Allocate.Rounds.{allocate_rounds-enough}
use users.Username.Candidates.{new_candidate_iterator}
use users.Server.GroupSync.{in_set, stale_candidate_attributes}
use users.Server.GroupSync.Stale.{count, count-stale_candidate_attributes}
use users.Server.Proto.{ProtoApiToken}
use users.Server.Tokens
use users.Server.Tokens.{is_expired}
use users.Server.Tokens.Expiry.{resolve_api_token-Unexpired}

not-IsAdmin : (id : ℕ) → ¬ IsAdmin quiet (some (codes "a" ∷ [])) 0 id
not-IsAdmin id a = let h = a.allowed in cc

handle-IsRefused_example :
    IsRefused quiet empty_world
      (handle quiet plain_base64 (some (codes "a" ∷ [])) (get_user (codes "b")) empty_world)
handle-IsRefused_example =
    handle-IsRefused quiet plain_base64 (some (codes "a" ∷ [])) (get_user (codes "b")) empty_world
      not-IsAdmin

allocate_rounds-enough_example :
    allocate allocate_rounds
      (λ c. Users.create_user quiet ada)
      (new_candidate_iterator zero_entropy (codes "ada"))
    ≡ allocate
        (allocate_rounds + 7)
        (λ c. Users.create_user quiet ada)
        (new_candidate_iterator zero_entropy (codes "ada"))
allocate_rounds-enough_example =
    allocate_rounds-enough (λ c. Users.create_user quiet ada) 7 zero_entropy (codes "ada")

count-stale_candidate_attributes_example :
    count (codes "g") (stale_candidate_attributes (codes "h" ∷ []) (codes "g" ∷ codes "g" ∷ [])) ≡ (
      if not (bytes_eq (codes "g") [] || in_set (codes "g") (codes "h" ∷ []))
        && in_set (codes "g") (codes "g" ∷ codes "g" ∷ [])
      then 1
      else 0)
count-stale_candidate_attributes_example =
    count-stale_candidate_attributes (codes "g") (codes "h" ∷ []) (codes "g" ∷ codes "g" ∷ [])

abbrev ada_world : World
ada_world = record {
  db = record { users = ada_row ∷ []; api_tokens = []; devices = [] };
  clock = 9;
  calls = [];
}

abbrev key_input : CreateApiTokenInput
key_input = record {
  identity_id = 1;
  name = codes "key";
  token_hash = codes "h";
  token_prefix = codes "p";
  expires_at = some 100;
}

abbrev key : ApiToken
key = record {
  id = 9;
  identity_id = 1;
  name = codes "key";
  token_hash = codes "h";
  token_prefix = codes "p";
  expires_at = some 100;
  created_at = 9;
  last_used_at = none;
}

abbrev key_world : World
key_world = (create_api_token quiet key_input ada_world).1

abbrev key_answer : Bytes × ProtoApiToken
key_answer = (
  1 ∷ [],
  record {
    id = 9 ∷ [];
    identity_id = 1 ∷ [];
    name = codes "key";
    token_prefix = codes "p";
    expires_at = some 100;
    created_at = 9;
    last_used_at = some 10;
  },
)

key_answered : (Tokens.resolve_api_token quiet (codes "h") key_world).0 ≡ ok key_answer
unfolding Tokens.resolve_api_token ◌>>=◌ statement ◌>>◌ pure attempt lift resolve_api_token
    touch_api_token create_api_token insert_api_token scan_api_token current_time
key_answered = refl

resolve_api_token-Unexpired_example :
    Live
      (quiet.now (Tokens.resolve_api_token quiet (codes "h") key_world).1.clock)
      key_answer.1.expires_at
resolve_api_token-Unexpired_example =
    resolve_api_token-Unexpired quiet (codes "h") key_world key_answer key_answered
