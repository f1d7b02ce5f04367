-- ===== src/Lib.antt =====
-- The users service of this repository: user accounts, their usernames, their API tokens and their
-- devices, kept in PostgreSQL and served over gRPC.
--
-- Parts and files:
--   Errors               internal/store/errors.go, gRPC status codes, and Go's (value, error) pairs
--   Username, Username/  internal/server/username.go: validateUsername (Rule), the runes of a text
--                        (Unicode), normalizeUsernameCandidate (Normalize), deriveUsernameBase
--                        (Derive), usernameCandidateIterator and its suffixes (Candidates)
--   ApiToken, ApiToken/  internal/apitoken/apitoken.go: Generate, Hash, HasPrefix, encodeBase62
--   Store/Types, Rows    the types of internal/store/store.go, the rows of the tables that
--                        migrations/*.sql make, and the scan functions
--   Store/Query          internal/store/query_helpers.go: the UPDATE statement that is built
--   Store/Statements     what each SQL statement of internal/store/store.go does to the tables
--   Store/Users, Update, ApiTokens, Devices, Search
--                        the operations of internal/store/store.go
--   Store/Pagination     internal/store/pagination.go, with ListUsers and ListDevices
--   Store/Ownership      the rows of everyone but one user
--   Store/Consistent     the constraints of the migrations as an invariant of the tables
--   Server/Status, Auth  toStatusError and its kin, and the guards of internal/server/server.go
--   Server/Users, Tokens, Admin, Devices
--                        the handlers of internal/server/server.go
--   Server/Allocate      the loop over username candidates in two of them
--   Server/Proto         internal/server/converter.go
--   Server/Liveness      internal/server/device_liveness.go
--   Server/GroupSync     internal/server/group_sync.go: the groups of a user (Groups), and the role
--                        attributes of the devices (Sync), with the loop over the pages of users,
--                        which the poll of internal/server/device_liveness.go shares
--   Server/Consumer, Ticker
--                        internal/server/group_consumer.go, and the loops over tickers
--   Server/Raises        all requests that the server is registered for in cmd/users-service/main.go,
--                        and rules for the errors of an action
--   Config               internal/config/config.go
--   Migrate              internal/db/migrate.go
--   Process              cmd/users-service/main.go
--   Store/Interface      the interface userStore of internal/server/server.go as data
--   World, World/        the state that operations run in, rules for their invariants and results,
--                        and what holds where nothing interferes (Quiet)
--   Digest, Prelude      SHA-256 as a parameter; shared notation and lemmas
--   Samples, Examples    a concrete environment, and the theorems at concrete inputs
--
-- How they interact: a handler derives a username base from a profile, draws candidates from the
-- iterator and tries each with the store, which answers AlreadyExists("username") while one is
-- taken. The store makes every change by single SQL statements; an operation is a sequence of them.
-- A token is generated, and only its hash and its first eight bytes are stored. A change of a user's
-- groups arrives as an event or on a timer, and the devices of the user are patched to match it.
--
-- State: an action is a function of a World (the tables, a clock that counts statements and calls,
-- the calls made) to a result and a World. An Environment says what other sessions do to the tables
-- before each statement, whether the statement fails, and what uuid.New(), NOW(), rand and the other
-- services answer. Theorems hold for every environment, or name what they ask of it.
--
-- Bounds and fuel: texts are lists of bytes as numbers. The loop of encodeBase62 runs on fuel equal to
-- its value, which it halves at least in each round. The loop over username candidates runs on 105
-- rounds of fuel, one more than the candidates. The loops over the pages of a listing take their fuel
-- as an argument, one round for a page; theorems say that more than the number of rows is enough
-- where nobody else writes. A page size is an int32 that is normalised to 1..100 before it is used,
-- so it is an integer here. Times and UUIDs are numbers without a bound: the law that a printed id is
-- read back is asked of all numbers, where only those below 2^128 are UUIDs.
--
-- Not modelled: the text of log lines and of messages beyond their constant parts; connection handling
-- of pgx, gRPC and NATS. A goroutine is a function of the signals or events that it receives, so the
-- scheduler and the length of a delay are outside. unicode.ToLower above ASCII, SHA-256, base64, UUID
-- printing, the collation, the random source, time.ParseDuration, proto.Unmarshal, and the transactions
-- of PostgreSQL are parameters with their documented laws.
pub mod Prelude
pub mod Errors
pub mod Digest
pub mod Username
pub mod ApiToken
pub mod Store
pub mod World
pub mod Samples
pub mod Examples
pub mod Config
pub mod Server
pub mod Migrate
pub mod Process
