-- ===== src/Auth/Postgres.antt =====
-- pkg/auth/store/postgres/postgres.go: the statements of the SQLite adapter with `$n` for `?`, and
-- its own classification of a failed INSERT.
use pk_modules.Common.{ℕ, Bool, ◌||◌, Option, Action, if◌then◌else◌}
use pk_modules.Common.Text.{Text, codes, to_lower, contains}
use pk_modules.Sql.{Conn, Driver, Adapter}
use pk_modules.Auth.{Error, Session, duplicate, driver}
use pk_modules.Auth.Store.{Store}
use pk_modules.Auth.Sqlite

unfoldable pub is_unique_violation : Text → Bool
is_unique_violation message =
    let lower = to_lower message in
    contains lower (codes "unique") || contains lower (codes "23505")

-- `classifyInsertErr`
unfoldable pub classify_insert_error : Text → Error
unfolding is_unique_violation
classify_insert_error message =
    if contains (to_lower message) (codes "auth_sessions_pkey")
    then duplicate
    else if is_unique_violation message
    then duplicate
    else driver message

abbrev pub postgres : Driver → Adapter Error
postgres d = record {
  insert_error = classify_insert_error;
  update_error = driver;
  violation = d.violation;
  reported = d.reported;
}

abbrev pub create : Driver → ℕ → Option Session → Action Error (Conn Session) (Unit {0})
create d = Sqlite.create (postgres d)

abbrev pub get : Text → Action Error (Conn Session) Session
get = Sqlite.get

abbrev pub revoke : ℕ → Text → Action Error (Conn Session) (Unit {0})
revoke = Sqlite.revoke

abbrev pub revoke_by_user : ℕ → Text → Action Error (Conn Session) (Unit {0})
revoke_by_user = Sqlite.revoke_by_user

abbrev pub store : Driver → Store (Conn Session)
store d = record { create = create d; get = get; revoke = revoke; revoke_by_user = revoke_by_user }
