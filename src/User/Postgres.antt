-- ===== src/User/Postgres.antt =====
-- pkg/user/store/postgres/postgres.go: the statements of the SQLite adapter with `$n` for `?`, and
-- its own classification of a violated constraint.
use pk_modules.Common.{ℕ, ◌&&◌, not, Option, List, Action, if◌then◌else◌}
use pk_modules.Common.Int.{ℤ}
use pk_modules.Common.Text.{Text, codes, to_lower, contains}
use pk_modules.Sql.{Conn, Driver, Adapter}
use pk_modules.User.{
  Error, User, Store, duplicate_email, duplicate_username, unique_violation, driver,
}
use pk_modules.User.Sqlite

-- `classifyUniqueError`
unfoldable pub classify_unique_error : Text → Error
classify_unique_error message =
    let lower = to_lower message in
    if not (contains lower (codes "unique")) && not (contains lower (codes "23505"))
    then driver message
    else if contains lower (codes "_pkey")
    then unique_violation message
    else if contains lower (codes "uq_users_tenant_email")
    then duplicate_email
    else if contains lower (codes "uq_users_tenant_username")
    then duplicate_username
    else if contains lower (codes "email")
    then duplicate_email
    else if contains lower (codes "username")
    then duplicate_username
    else unique_violation message

abbrev pub postgres : Driver → Adapter Error
postgres d = record {
  insert_error = classify_unique_error;
  update_error = classify_unique_error;
  violation = d.violation;
  reported = d.reported;
}

abbrev pub create : Driver → ℕ → Option User → Action Error (Conn User) User
create d = Sqlite.create (postgres d)

abbrev pub get : Text → Text → Action Error (Conn User) User
get = Sqlite.get

abbrev pub get_by_email : Text → Text → Action Error (Conn User) User
get_by_email = Sqlite.get_by_email

abbrev pub get_by_username : Text → Text → Action Error (Conn User) User
get_by_username = Sqlite.get_by_username

abbrev pub list : Text → ℤ → ℤ → Action Error (Conn User) (List User)
list = Sqlite.list

abbrev pub update : Driver → ℕ → Option User → Action Error (Conn User) User
update d = Sqlite.update (postgres d)

abbrev pub update_pass_hash : ℕ → Text → Text → Text → ℕ → Action Error (Conn User) (Unit {0})
update_pass_hash = Sqlite.update_pass_hash

abbrev pub delete : Text → Text → Action Error (Conn User) (Unit {0})
delete = Sqlite.delete

abbrev pub store : Driver → Store (Conn User)
store d = record {
  create = create d;
  get = get;
  get_by_email = get_by_email;
  get_by_username = get_by_username;
  list = list;
  update = update d;
  update_pass_hash = update_pass_hash;
  delete = delete;
}
