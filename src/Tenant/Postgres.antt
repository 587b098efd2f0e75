-- ===== src/Tenant/Postgres.antt =====
-- pkg/tenant/store/postgres/postgres.go: the statements of the SQLite adapter with `$n` for `?`, and
-- its own test for a violated constraint.
use pk_modules.Common.{ℕ, Bool, ◌||◌, Option, List, Action, if◌then◌else◌}
use pk_modules.Common.Text.{Text, codes, to_lower, contains}
use pk_modules.Sql.{Conn, Driver, Adapter}
use pk_modules.Tenant.{Error, Tenant, Store, duplicate_slug, driver}
use pk_modules.Tenant.Sqlite

unfoldable pub is_unique_violation : Text → Bool
is_unique_violation message =
    let lower = to_lower message in
    contains lower (codes "unique") || contains lower (codes "23505")

unfoldable pub write_error : Text → Error
unfolding is_unique_violation
write_error message = if is_unique_violation message then duplicate_slug else driver message

abbrev pub postgres : Driver → Adapter Error
postgres d = record {
  insert_error = write_error;
  update_error = write_error;
  violation = d.violation;
  reported = d.reported;
}

abbrev pub create : Driver → ℕ → Option Tenant → Action Error (Conn Tenant) Tenant
create d = Sqlite.create (postgres d)

abbrev pub get : Text → Action Error (Conn Tenant) Tenant
get = Sqlite.get

abbrev pub get_by_slug : Text → Action Error (Conn Tenant) Tenant
get_by_slug = Sqlite.get_by_slug

abbrev pub list : Action Error (Conn Tenant) (List Tenant)
list = Sqlite.list

abbrev pub update : Driver → ℕ → Option Tenant → Action Error (Conn Tenant) Tenant
update d = Sqlite.update (postgres d)

abbrev pub delete : Text → Action Error (Conn Tenant) (Unit {0})
delete = Sqlite.delete

abbrev pub store : Driver → Store (Conn Tenant)
store d = record {
  create = create d;
  get = get;
  get_by_slug = get_by_slug;
  list = list;
  update = update d;
  delete = delete;
}
