-- ===== src/Apikey/Postgres.antt =====
-- pkg/apikey/store/postgres/postgres.go: the statements of the SQLite adapter with `$n` for `?`, and
-- its own classification of a failed INSERT.
use pk_modules.Common.{ℕ, Bool, ◌||◌, Option, List, Action, if◌then◌else◌}
use pk_modules.Common.Text.{Text, codes, to_lower, contains}
use pk_modules.Sql.{Conn, Driver, Adapter}
use pk_modules.Apikey.{Error, duplicate, driver}
use pk_modules.Apikey.Store.{Row, Store}
use pk_modules.Apikey.Sqlite

unfoldable pub is_unique_violation : Text → Bool
is_unique_violation message =
    let lower = to_lower message in
    contains lower (codes "unique") || contains lower (codes "23505")

-- `classifyInsertErr`
unfoldable pub classify_insert_error : Text → Error
unfolding is_unique_violation
classify_insert_error message =
    if contains (to_lower message) (codes "api_keys_pkey")
    then duplicate
    else if is_unique_violation message
    then duplicate
    else driver message

abbrev pub postgres : Driver → Adapter Error
postgres d = record {
  insert_error = classify_insert_error;
  update_error = driver;
  violation = d.violation;
  reported = d.reported;
}

abbrev pub create : Driver → ℕ → Option Row → Action Error (Conn Row) Row
create d = Sqlite.create (postgres d)

abbrev pub get : Text → Text → Action Error (Conn Row) Row
get = Sqlite.get

abbrev pub get_by_prefix : Text → Action Error (Conn Row) (List Row)
get_by_prefix = Sqlite.get_by_prefix

abbrev pub list : Text → Action Error (Conn Row) (List Row)
list = Sqlite.list

abbrev pub revoke : ℕ → Text → Text → Action Error (Conn Row) (Unit {0})
revoke = Sqlite.revoke

abbrev pub update_last_used : ℕ → Text → Text → ℕ → Action Error (Conn Row) (Unit {0})
update_last_used = Sqlite.update_last_used

abbrev pub store : Driver → Store (Conn Row)
store d = record {
  create = create d;
  get = get;
  get_by_prefix = get_by_prefix;
  list = list;
  revoke = revoke;
  update_last_used = update_last_used;
}
