-- ===== src/World.antt =====
-- The state that an operation of the service runs in, and its actions: the database, a clock that
-- counts the statements and calls so far, and the calls that were made to the other services. What
-- is not under this repository answers through an `Environment`.
pub mod Keeps
pub mod Yields
pub mod Quiet
pub mod Runs
pub mod Calls
pub mod Ends
use users.Prelude.{
  ℕ, zero, suc, ◌+◌, ◌≡◌, ◌≢◌, Bool, Option, none, some, List, [], ◌∷◌, ◌++◌, Bytes,
}
use users.Errors.{Result, ok, err, Error}
use users.Digest.{Digest}
use users.Username.Candidates.{Entropy}
use users.Store.Types.{UserId, Time, Database}

-- authorization.v1.TupleKey
pub record TupleKey : Type 0 where
  pub user : Bytes
  pub relation : Bytes
  pub object : Bytes

-- ziti_management.v1.IdentityEnrollmentState; `other` stands for the values that no case names.
pub data EnrollmentState : Type 0 where
  pending enrolled : EnrollmentState
  other : ℕ → EnrollmentState

pub record Liveness : Type 0 where
  pub enrollment_state : EnrollmentState
  pub has_edge_router_connection : Bool

-- A page of groups, by their ids, and the next page's token.
pub record GroupsPage : Type 0 where
  pub group_ids : List Bytes
  pub next_page_token : Bytes

pub record ZitiIdentity : Type 0 where
  pub ziti_identity_id : Bytes
  pub enrollment_jwt : Bytes

-- A request to another service.
pub data Call : Type 0 where
  check : TupleKey → Call
  write : (writes deletes : List TupleKey) → Call
  list_objects : (type relation user : Bytes) → Call
  register_identity : (identity_id : Bytes) → Call
  create_device_identity : (user_identity_id name : Bytes) (role_attributes : List Bytes) → Call
  delete_device_identity : (ziti_identity_id : Bytes) → Call
  patch_role_attributes : (ziti_identity_id : Bytes) (add remove : List Bytes) → Call
  get_liveness : (ziti_identity_id : Bytes) → Call
  list_member_groups : (member_id organization_id page_token : Bytes) → Call

-- google/uuid: a UUID is printed and read back.
pub record Uuids : Type 0 where
  pub to_string : UserId → Bytes
  pub parse : Bytes → Result UserId
  pub parse-to_string : (id : UserId) → parse (to_string id) ≡ ok id
  pub to_string-ne-nil : (id : UserId) → to_string id ≢ []

-- What the rest of the world does, by the clock: what other sessions do to the database before a
-- statement, whether the statement fails, and how the other services answer.
pub record Environment : Type 0 where
  pub uuids : Uuids
  pub digest : Digest
  pub entropy : Entropy
  pub unicode_lower : ℕ → ℕ
  pub before : ℕ → Database → Database
  pub fault : ℕ → Option Error
  pub fresh_uuid : ℕ → UserId
  pub now : ℕ → Time
  -- the collation of the database: `ORDER BY username ASC`
  pub text_le : Bytes → Bytes → Bool
  pub random_bytes : ℕ → Result Bytes
  pub check : ℕ → TupleKey → Result Bool
  pub write : (clock : ℕ) (writes deletes : List TupleKey) → Result (Unit {0})
  pub list_objects : (clock : ℕ) (type relation user : Bytes) → Result (List Bytes)
  pub register_identity : (clock : ℕ) (identity_id : Bytes) → Result (Unit {0})
  pub create_device_identity :
      (clock : ℕ) (user_identity_id name : Bytes) (role_attributes : List Bytes)
      → Result ZitiIdentity
  pub delete_device_identity : (clock : ℕ) (ziti_identity_id : Bytes) → Result (Unit {0})
  pub patch_role_attributes :
      (clock : ℕ) (ziti_identity_id : Bytes) (add remove : List Bytes) → Result (Unit {0})
  pub get_liveness : (clock : ℕ) (ziti_identity_id : Bytes) → Result Liveness
  -- whether the server was made with a client of the groups service
  pub has_groups_client : Bool
  pub list_member_groups :
      (clock : ℕ) (member_id organization_id page_token : Bytes) → Result GroupsPage

pub record World : Type 0 where
  pub db : Database
  pub clock : ℕ
  pub calls : List Call

abbrev pub M : Type 0 → Type 0
M A = World → Result A × World

module _ {A : Type 0} where
  unfoldable pub pure : A → M A
  pure a w = (ok a, w)

  unfoldable pub raise : Error → M A
  raise e w = (err e, w)

  unfoldable pub lift : Result A → M A
  lift r w = (r, w)

  -- An action with its error as a value: `x, err := m`.
  unfoldable pub attempt : M A → M (Result A)
  attempt m w = let (r, w') = m w in (ok r, w')

  run_statement : Option Error → (Database → Result A × Database) → M A
  run_statement (some e) run w = (err e, record w { clock = w.clock + 1 })
  run_statement none run w =
      let (r, db) = run w.db in (r, record w { db = db; clock = w.clock + 1 })

  -- One statement: other sessions may have changed the database before it, and it may fail.
  unfoldable pub statement : Environment → (UserId → Time → Database → Result A × Database) → M A
  unfolding run_statement
  statement env run w =
      run_statement (env.fault w.clock) (run (env.fresh_uuid w.clock) (env.now w.clock))
        (record w { db = env.before w.clock w.db })

  -- One call of another service.
  unfoldable pub invoke : Call → (ℕ → Result A) → M A
  invoke c answer w = (answer w.clock, record w { clock = w.clock + 1; calls = w.calls ++ c ∷ [] })

module _ {A B : Type 0} where
  unfoldable pub then_ : Result A → (A → M B) → M B
  then_ (ok a) f w = f a w
  then_ (err e) f w = (err e, w)

  infixl 5 ◌>>=◌
  unfoldable pub ◌>>=◌ : M A → (A → M B) → M B
  unfolding then_
  ◌>>=◌ m f w = let (r, w') = m w in then_ r f w'

infixl 5 ◌>>◌
unfoldable pub ◌>>◌ : {B : Type 0} → M (Unit {0}) → M B → M B
unfolding ◌>>=◌
m >> k = m >>= λ _. k

-- time.Now()
unfoldable pub current_time : Environment → M Time
current_time env w = (ok (env.now w.clock), w)
