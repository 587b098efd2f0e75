-- ===== src/Audit/Postgres.antt =====
-- pkg/audit/store/postgres/postgres.go: the statements of the SQLite adapter with `$n` for `?`, and
-- its own test for a violated constraint.
use pk_modules.Common.{ℕ, Bool, ◌||◌, Option, List, Action, if◌then◌else◌}
use pk_modules.Common.Text.{Text, codes, to_lower, contains}
use pk_modules.Sql.{Conn, Driver, Adapter}
use pk_modules.Audit.{Error, Event, Filter, Store, duplicate_id, driver}
use pk_modules.Audit.Sqlite

unfoldable pub is_unique_violation : Text → Bool
is_unique_violation message =
    let lower = to_lower message in
    contains lower (codes "unique") || contains lower (codes "23505")

unfoldable pub append_error : Text → Error
unfolding is_unique_violation
append_error message = if is_unique_violation message then duplicate_id else driver message

abbrev pub postgres : Driver → Adapter Error
postgres d = record {
  insert_error = append_error;
  update_error = driver;
  violation = d.violation;
  reported = d.reported;
}

abbrev pub append : Driver → ℕ → Option Event → Action Error (Conn Event) Event
append d = Sqlite.append (postgres d)

abbrev pub query : Filter → Action Error (Conn Event) (List Event)
query = Sqlite.query

abbrev pub store : Driver → Store (Conn Event)
store d = record { append = append d; query = query }
