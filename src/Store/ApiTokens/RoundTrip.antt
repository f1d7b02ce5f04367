-- ===== src/Store/ApiTokens/RoundTrip.antt =====
-- A token that was created is resolved by its hash.
use users.Prelude.{◌+◌, ◌<◌, Option, none, some, ◌∷◌}
use users.Errors.{Result}
use users.World.{Environment, World}
use users.World.Quiet.{IsQuiet}
use users.Store.Types.{Time, ApiToken, ApiTokenRow, CreateApiTokenInput, Database}
use users.Store.Statements.{touch_api_token, api_token_row}

-- The token has not expired at that moment.
abbrev pub Live : Time → Option Time → Type 0
Live now none = Unit
Live now (some t) = now < t

-- The tables with one more token.
abbrev with_token : ApiTokenRow → Database → Database
with_token row db = record db { api_tokens = row ∷ db.api_tokens }

-- What `scan_api_token` makes of a row.
abbrev token_of : ApiTokenRow → ApiToken
token_of row = record {
  id = row.id;
  identity_id = row.identity_id;
  name = row.name;
  token_hash = row.token_hash;
  token_prefix = row.token_prefix;
  expires_at = row.expires_at;
  created_at = row.created_at;
  last_used_at = row.last_used_at;
}

module _ (env : Environment) (quiet : IsQuiet env) (input : CreateApiTokenInput) (w : World) where
  abbrev new_row : ApiTokenRow
  new_row = api_token_row (env.fresh_uuid w.clock) (env.now w.clock) input

  abbrev behind : World
  behind = record w { db = with_token new_row w.db; clock = w.clock + 1 }

  abbrev moment : Time
  moment = env.now behind.clock

  abbrev touch_step : Result ApiTokenRow × Database
  touch_step = touch_api_token moment input.token_hash behind.db

  abbrev used : World
  used = record behind { db = touch_step.1; clock = behind.clock + 1 }
