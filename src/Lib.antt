-- ===== src/Lib.antt =====
-- pk-modules: the identity, access, content, audit, notification and migration modules of a
-- multi-tenant back end, in Go.
--
-- Each module of the repository has the same three layers: entities with their validation, a store
-- contract with implementations over database/sql, and a service over the contract. A service calls
-- its store, a password hasher and an audit emitter; the login service also reads users and asks the
-- host's policy for admission, and the notification service sends through channels. A service here
-- is a record of those collaborators, its state is the store's state and what it has told the
-- others, and an operation is a function from the state to a result or an error and the next state,
-- with every call in the order of the source.
--
-- The files, and the code that they model:
--   Common         what the modules share: lists by native numbers, their rows, sorting, calls that
--                  may fail and what they keep, Go strings, base64, signed numbers
--   Sql            what the stores use of database/sql: a list of rows behind a connection; its
--                  children hold the laws of unique keys and of LIMIT and OFFSET
--   Http           pkg/portslib/httpinput.go and requestactor.go, and a request as a handler reads it
--   Passhash       the password hasher of pk-core, a parameter
--   Apikey         pkg/apikey/entities.go and the sentinel errors: ApiKey, validate, is_expired
--   Apikey/Scopes  pkg/apikey/service.go: buildScopeCatalog and normalizeScopes
--   Apikey/Secret  pkg/apikey/service.go: generateSecret, generateID and parsePrefix
--   Apikey/Store   pkg/apikey/store/store.go: the row, the contract, and its laws
--   Apikey/Service pkg/apikey/service.go: Issue, Verify, Revoke and List
--   Auth           pkg/auth/entities.go and the sentinel errors: Session, Credentials
--   Auth/Store     pkg/auth/store/store.go: the contract and its laws
--   Auth/Service   pkg/auth/service.go: Login, Logout, ValidateSession, InvalidateAllSessions
--   Migrate        pkg/migrate/migrate.go: Run, Status and their helpers
--   Tenant         pkg/tenant/entities.go, and the contract of pkg/tenant/store/store.go
--   Tenant/Service pkg/tenant/service.go, without the context provider
--   Content        pkg/content/entities.go, and the contract of pkg/content/store/store.go
--   Content/Service pkg/content/service.go
--   User           pkg/user/entities.go, and the contract of pkg/user/store/store.go
--   User/Service   pkg/user/service.go
--   Audit          pkg/audit/entities.go, and the contract of pkg/audit/store/store.go
--   Audit/Service  pkg/audit/service.go: the service, the emitter and its constructor
--   Notification   pkg/notification/entities.go, portslib.Notification, and the contract of
--                  pkg/notification/store/store.go
--   Notification/Service pkg/notification/service.go and convert.go
--   Signin         the login service over the user service and its table
--   Tests          runs at concrete inputs
-- In each module X that has them, X/Sqlite is pkg/x/store/sqlite/sqlite.go (with the adapter of
-- pkg/auth/module.go for sessions), X/Postgres is pkg/x/store/postgres/postgres.go, and X/Handler is
-- pkg/x/handler.go. The children of a file hold its theorems and are named for them.
--
-- An operation has the source's name in lower case (GetByPrefix is get_by_prefix). For keys and
-- sessions the contract of a store is a record of laws (IsStore) that the store over any adapter
-- fills which reports a taken id as a duplicate, and that the service takes as a parameter, so a result about the service holds over every store with those laws. The
-- other services are stated over any store, their results over the stores of this repository. The
-- statements of a SQLite and a Postgres store differ in placeholders only; what each makes of the
-- driver's message for a violated constraint is its Adapter, and results over a store hold for any.
--
-- A Go string is the list of its bytes; TrimSpace knows every white-space rune of Unicode, ToLower
-- only ASCII, which is all that the driver's messages hold. An instant is a number of nanoseconds
-- since Go's zero time, a duration is a signed number; an instant before the zero time is not
-- modelled. An operation that reads the clock takes the reading, and one that draws from crypto/rand
-- takes the draw (none for its error). Every loop of the modelled code is a recursion on a list, so
-- no fuel is needed.
--
-- A SQL statement runs on the rows of its table. The connection holds a list of faults: the next
-- statement fails with the next entry, before it writes, or runs if the entry is none; the errors of
-- a scan or of rows.Err are that fault of their query. A violated constraint yields the driver's
-- message for it, a parameter, and where a statement violates several, so is the driver's choice of
-- the one that it reports. Rows that tie in an ORDER BY keep the table's order. Columns that hold
-- an instant or text are taken to return what was written.
--
-- The database of a migration run is the ledger, the list of the SQL texts that have run, and
-- whether the advisory lock is held. A transaction that fails, also in its commit, leaves what was
-- there at its begin. The mutex between goroutines makes a run one step.
--
-- A handler takes a request as the code reads it and returns a status with the value that is written
-- as JSON, or the status of an error; the body is the outcome of the strict decoder. The calls of the
-- service stand in the order of the source.
--
-- Parameters, since their code is elsewhere: the password hasher of pk-core, its principal, the
-- decoder of path segments of pk-shared, encoding/json, SHA-256, the printing of a number of
-- nanoseconds, time.Parse, the reader of users, the tenant lookup, the login policy, the channels of
-- other modules, the draws. The result of an audit emission that the source discards is not
-- modelled; the attempt is recorded. Of the hasher's Verify it is kept whether it returned nil, and
-- any other outcome is its mismatch. An instant in a SQL comparison is compared as a number.
--
-- Not modelled: the module wiring and options, the admin pages, the health and branding modules with
-- their handlers. Text of wrapped errors is kept only where the code reads it.
pub mod Common
pub mod Sql
pub mod Http
pub mod Passhash
pub mod Apikey
pub mod Auth
pub mod Migrate
pub mod Tenant
pub mod Content
pub mod User
pub mod Signin
pub mod Audit
pub mod Notification
pub mod Tests
