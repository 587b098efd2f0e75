-- ===== src/Notification/Sqlite.antt =====
-- pkg/notification/store/sqlite/sqlite.go over its two tables, notifications and
-- notification_subscriptions, each with the primary key id. An empty category and empty data are
-- stored as NULL and read back as empty, so the rows hold the texts themselves.
pub mod Owners
use pk_modules.Common.{
  ℕ, Bool, ◌&&◌, Option, none, some, List, Action, raise, pure, ◌>>=◌, ◌>>◌, ◌==◌, if◌then◌else◌,
  ltb, count_if, take, drop, sort_by,
}
use pk_modules.Common.Int.{ℤ}
use pk_modules.Common.Text.{Text, codes, text_eq, to_lower, contains}
use pk_modules.Sql
use pk_modules.Sql.{Conn, Driver, Adapter, on_error}
use pk_modules.Sql.Paging
use pk_modules.Sql.Paging.{page}
use pk_modules.Notification.{
  Error, Row, Subscription, Store, nil_notification, nil_subscription, not_found, duplicate, driver,
}

-- One connection to both tables.
pub record Tables : Type 0 where
  pub notifications : List Row
  pub subscriptions : List Subscription
  pub faults : List (Option Text)

-- A statement on one of the tables.
abbrev pub on_notifications : {A : Type 0} → Action Text (Conn Row) A → Action Text Tables A
on_notifications m t =
    let (r, c) = m (record { rows = t.notifications; faults = t.faults }) in
    (r, record t { notifications = c.rows; faults = c.faults })

abbrev pub on_subscriptions :
    {A : Type 0} → Action Text (Conn Subscription) A → Action Text Tables A
on_subscriptions m t =
    let (r, c) = m (record { rows = t.subscriptions; faults = t.faults }) in
    (r, record t { subscriptions = c.rows; faults = c.faults })

unfoldable pub is_unique_violation : Text → Bool
is_unique_violation message = contains (to_lower message) (codes "unique")

unfoldable pub insert_error : Text → Error
unfolding is_unique_violation
insert_error message = if is_unique_violation message then duplicate else driver message

abbrev pub sqlite : Driver → Adapter Error
sqlite d = record {
  insert_error = insert_error;
  update_error = driver;
  violation = d.violation;
  reported = d.reported;
}

-- PRIMARY KEY (id) of either table
unfoldable pub violated : Adapter Error → Row → List Row → Option Text
violated a n rows =
    if count_if (λ r. text_eq r.id n.id) rows == 0
    then none
    else some (a.violation (codes "notifications.id"))

unfoldable pub violated_subscription :
    Adapter Error → Subscription → List Subscription → Option Text
violated_subscription a s rows =
    if count_if (λ r. text_eq r.id s.id) rows == 0
    then none
    else some (a.violation (codes "notification_subscriptions.id"))

abbrev pub stamp : ℕ → Row → Row
stamp now n = record n { emitted_at = if n.emitted_at == 0 then now else n.emitted_at }

unfoldable pub create : Adapter Error → ℕ → Option Row → Action Error Tables (Unit {0})
unfolding violated Sql.insert on_error
create a now none = raise nil_notification
create a now (some n) =
    on_error a.insert_error (on_notifications (Sql.insert (violated a (stamp now n)) (stamp now n)))

-- WHERE tenant_id = ? AND user_id = ?
abbrev pub is_owned : Text → Text → Row → Bool
is_owned tenant user n = text_eq n.tenant_id tenant && text_eq n.user_id user

-- ORDER BY emitted_at DESC
abbrev pub newer : Row → Row → Bool
newer x y = ltb y.emitted_at x.emitted_at

unfoldable pub get_by_user : Text → Text → ℤ → ℤ → Action Error Tables (List Row)
unfolding Sql.query on_error Paging.clamp_limit Paging.clamp_offset
get_by_user tenant user limit offset = do
  rows ← on_error driver (on_notifications (Sql.query (is_owned tenant user)))
  pure (page newer (Paging.clamp_limit 100 limit) (Paging.clamp_offset offset) rows)

-- WHERE id = ? AND tenant_id = ? AND user_id = ?
abbrev pub is_key : Text → Text → Text → Row → Bool
is_key tenant user id n = text_eq n.id id && is_owned tenant user n

-- No constraint of the schema mentions the column that MarkRead writes.
abbrev pub unconstrained : List Row → Option Text
unconstrained rows = none

unfoldable pub mark_read : ℕ → Text → Text → Text → ℕ → Action Error Tables (Unit {0})
unfolding Sql.update Sql.rows_affected on_error
mark_read now tenant user id at = do
  let time : ℕ = if at == 0 then now else at
  matched ← on_error driver (
      on_notifications
        (Sql.update unconstrained (is_key tenant user id) (λ n. record n { read_at = some time })))
  rows ← on_error driver (on_notifications (Sql.rows_affected matched))
  if rows == 0 then raise not_found else pure tt

unfoldable pub add_subscription :
    Adapter Error → ℕ → Option Subscription → Action Error Tables (Unit {0})
unfolding violated_subscription Sql.insert on_error
add_subscription a now none = raise nil_subscription
add_subscription a now (some given) =
    let s : Subscription = record given {
      created_at = if given.created_at == 0 then now else given.created_at;
    } in
    on_error a.insert_error (on_subscriptions (Sql.insert (violated_subscription a s) s))

abbrev pub is_subscriber : Text → Text → Subscription → Bool
is_subscriber tenant user s = text_eq s.tenant_id tenant && text_eq s.user_id user

-- WHERE id = ? AND tenant_id = ? AND user_id = ?
abbrev pub is_subscription : Text → Text → Text → Subscription → Bool
is_subscription tenant user id s = text_eq s.id id && is_subscriber tenant user s

unfoldable pub remove_subscription : Text → Text → Text → Action Error Tables (Unit {0})
unfolding Sql.delete Sql.rows_affected on_error
remove_subscription tenant user id = do
  matched ← on_error driver (on_subscriptions (Sql.delete (is_subscription tenant user id)))
  rows ← on_error driver (on_subscriptions (Sql.rows_affected matched))
  if rows == 0 then raise not_found else pure tt

-- ORDER BY created_at ASC
abbrev pub older : Subscription → Subscription → Bool
older x y = ltb x.created_at y.created_at

unfoldable pub list_subscriptions : Text → Text → Action Error Tables (List Subscription)
unfolding Sql.query on_error
list_subscriptions tenant user = do
  rows ← on_error driver (on_subscriptions (Sql.query (is_subscriber tenant user)))
  pure (sort_by older rows)

-- The implementation of the interface.
abbrev pub store : Adapter Error → Store Tables
store a = record {
  create = create a;
  get_by_user = get_by_user;
  mark_read = mark_read;
  add_subscription = add_subscription a;
  remove_subscription = remove_subscription;
  list_subscriptions = list_subscriptions;
}
