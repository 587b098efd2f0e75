-- ===== src/Notification/Postgres.antt =====
-- pkg/notification/store/postgres/postgres.go: the statements of the SQLite adapter with `$n` for
-- `?`, and its own test for a violated constraint.
use pk_modules.Common.{ℕ, Bool, ◌||◌, Option, List, Action, if◌then◌else◌}
use pk_modules.Common.Int.{ℤ}
use pk_modules.Common.Text.{Text, codes, to_lower, contains}
use pk_modules.Sql.{Driver, Adapter}
use pk_modules.Notification.{Error, Row, Subscription, Store, duplicate, driver}
use pk_modules.Notification.Sqlite
use pk_modules.Notification.Sqlite.{Tables}

unfoldable pub is_unique_violation : Text → Bool
is_unique_violation message =
    let lower = to_lower message in
    contains lower (codes "unique") || contains lower (codes "23505")

unfoldable pub insert_error : Text → Error
unfolding is_unique_violation
insert_error message = if is_unique_violation message then duplicate else driver message

abbrev pub postgres : Driver → Adapter Error
postgres d = record {
  insert_error = insert_error;
  update_error = driver;
  violation = d.violation;
  reported = d.reported;
}

abbrev pub create : Driver → ℕ → Option Row → Action Error Tables (Unit {0})
create d = Sqlite.create (postgres d)

abbrev pub get_by_user : Text → Text → ℤ → ℤ → Action Error Tables (List Row)
get_by_user = Sqlite.get_by_user

abbrev pub mark_read : ℕ → Text → Text → Text → ℕ → Action Error Tables (Unit {0})
mark_read = Sqlite.mark_read

abbrev pub add_subscription : Driver → ℕ → Option Subscription → Action Error Tables (Unit {0})
add_subscription d = Sqlite.add_subscription (postgres d)

abbrev pub remove_subscription : Text → Text → Text → Action Error Tables (Unit {0})
remove_subscription = Sqlite.remove_subscription

abbrev pub list_subscriptions : Text → Text → Action Error Tables (List Subscription)
list_subscriptions = Sqlite.list_subscriptions

abbrev pub store : Driver → Store Tables
store d = record {
  create = create d;
  get_by_user = get_by_user;
  mark_read = mark_read;
  add_subscription = add_subscription d;
  remove_subscription = remove_subscription;
  list_subscriptions = list_subscriptions;
}
