-- ===== src/User/Sqlite.antt =====
-- pkg/user/store/sqlite/sqlite.go over the table users, whose primary key is id and whose unique
-- indexes are (tenant_id, email) and (tenant_id, username).
pub mod Keys
pub mod Conflicts
use pk_modules.Common.{
  ℕ, zero, suc, Bool, true, false, ◌&&◌, ◌||◌, not, Option, none, some, List, [], Action, ok, err,
  raise, pure, or_raise, ◌>>=◌, ◌>>◌, ◌==◌, if◌then◌else◌, ltb, count_if, take, drop, sort_by,
}
use pk_modules.Common.Int.{ℤ, pos, negsuc}
use pk_modules.Common.Rows.{other}
use pk_modules.Common.Text.{Text, codes, text_eq, text_lt, to_lower, contains}
use pk_modules.Sql
use pk_modules.Sql.{Conn, Driver, Adapter, conflict, report, on_error}
use pk_modules.User.{
  Error, User, Store, nil_user, not_found, duplicate_email, duplicate_username, unique_violation,
  driver,
}

-- `classifyUniqueError`, a switch whose cases are tried in order
unfoldable pub classify_unique_error : Text → Error
classify_unique_error message =
    let lower = to_lower message in
    if not (contains lower (codes "unique")) && not (contains lower (codes "constraint"))
    then driver message
    else if contains lower (codes "users.email") || contains lower (codes "uq_users_tenant_email")
    then duplicate_email
    else if contains lower (codes "users.username")
        || contains lower (codes "uq_users_tenant_username")
    then duplicate_username
    else if contains lower (codes "email")
    then duplicate_email
    else if contains lower (codes "username")
    then duplicate_username
    else unique_violation message

abbrev pub sqlite : Driver → Adapter Error
sqlite d = record {
  insert_error = classify_unique_error;
  update_error = classify_unique_error;
  violation = d.violation;
  reported = d.reported;
}

abbrev pub has_id : Text → User → Bool
has_id id u = text_eq u.id id

-- WHERE id = ? AND tenant_id = ?
abbrev pub is_key : Text → Text → User → Bool
is_key tenant id u = text_eq u.id id && text_eq u.tenant_id tenant

-- WHERE tenant_id = ? AND email = ?
abbrev pub has_email : Text → Text → User → Bool
has_email tenant email u = text_eq u.tenant_id tenant && text_eq u.email email

-- WHERE tenant_id = ? AND username = ?
abbrev pub has_username : Text → Text → User → Bool
has_username tenant username u = text_eq u.tenant_id tenant && text_eq u.username username

-- The columns of the three constraints.
abbrev pub id_columns : Text
id_columns = codes "users.id"

abbrev pub email_columns : Text
email_columns = codes "users.tenant_id, users.email"

abbrev pub username_columns : Text
username_columns = codes "users.tenant_id, users.username"

-- The constraints that a new row would violate: PRIMARY KEY (id), UNIQUE (tenant_id, email) and
-- UNIQUE (tenant_id, username).
unfoldable pub broken : User → List User → List Text
broken u rows = conflict (count_if (has_id u.id) rows) id_columns (
    conflict (count_if (has_email u.tenant_id u.email) rows) email_columns
      (conflict (count_if (has_username u.tenant_id u.username) rows) username_columns []))

-- The driver's message, for the constraint that it reports.
unfoldable pub violated : Adapter Error → User → List User → Option Text
unfolding report broken
violated a u rows = report a (broken u rows)

abbrev pub stamp : ℕ → User → User
stamp now u = record u {
  created_at = if u.created_at == 0 then now else u.created_at;
  updated_at = if u.updated_at == 0 then now else u.updated_at;
}

unfoldable pub create : Adapter Error → ℕ → Option User → Action Error (Conn User) User
unfolding violated Sql.insert on_error
create a now none = raise nil_user
create a now (some u) =
    on_error a.insert_error (Sql.insert (violated a (stamp now u)) (stamp now u))
    >> pure (stamp now u)

unfoldable pub get : Text → Text → Action Error (Conn User) User
unfolding Sql.query_row on_error
get tenant id = do
  found ← on_error driver (Sql.query_row (is_key tenant id))
  or_raise found not_found

unfoldable pub get_by_email : Text → Text → Action Error (Conn User) User
unfolding Sql.query_row on_error
get_by_email tenant email = do
  found ← on_error driver (Sql.query_row (has_email tenant email))
  or_raise found not_found

unfoldable pub get_by_username : Text → Text → Action Error (Conn User) User
unfolding Sql.query_row on_error
get_by_username tenant username = do
  found ← on_error driver (Sql.query_row (has_username tenant username))
  or_raise found not_found

-- `limit <= 0` becomes 50 and `limit > 1000` becomes 1000.
unfoldable pub clamp_limit : ℤ → ℕ
clamp_limit (pos zero) = 50
clamp_limit (pos (suc n)) = if ltb 1000 (suc n) then 1000 else suc n
clamp_limit (negsuc n) = 50

unfoldable pub clamp_offset : ℤ → ℕ
clamp_offset (pos n) = n
clamp_offset (negsuc n) = 0

-- ORDER BY username
abbrev pub by_username : User → User → Bool
by_username u v = text_lt u.username v.username

unfoldable pub list : Text → ℤ → ℤ → Action Error (Conn User) (List User)
unfolding Sql.query on_error clamp_limit clamp_offset
list tenant limit offset = do
  rows ← on_error driver (Sql.query (λ u. text_eq u.tenant_id tenant))
  pure (take (clamp_limit limit) (drop (clamp_offset offset) (sort_by by_username rows)))

-- SET email = ?, username = ?, display_name = ?, active = ?, updated_at = ?
abbrev pub overwrite : User → User → User
overwrite u r = record r {
  email = u.email;
  username = u.username;
  display_name = u.display_name;
  active = u.active;
  updated_at = u.updated_at;
}

-- The unique indexes on an update: another row has the values, and the update writes one.
unfoldable pub clash : Adapter Error → User → List User → Option Text
unfolding report
clash a u rows =
    if count_if (is_key u.tenant_id u.id) rows == 0
    then none
    else report a (
        conflict
          (count_if (λ r. has_email u.tenant_id u.email r && other (is_key u.tenant_id u.id) r)
            rows)
          email_columns
          (conflict
            (count_if
              (λ r. has_username u.tenant_id u.username r && other (is_key u.tenant_id u.id) r)
              rows)
            username_columns []))

unfoldable pub update : Adapter Error → ℕ → Option User → Action Error (Conn User) User
unfolding clash Sql.update Sql.rows_affected on_error
update a now none = raise nil_user
update a now (some given) = do
  let u : User = record given { updated_at = now }
  matched ← on_error a.update_error (Sql.update (clash a u) (is_key u.tenant_id u.id) (overwrite u))
  rows ← on_error driver (Sql.rows_affected matched)
  if rows == 0 then raise not_found else pure u

-- No constraint of the schema mentions a column that this update writes.
abbrev pub unconstrained : List User → Option Text
unconstrained rows = none

unfoldable pub update_pass_hash : ℕ → Text → Text → Text → ℕ → Action Error (Conn User) (Unit {0})
unfolding Sql.update Sql.rows_affected on_error
update_pass_hash now tenant id hash updated_at = do
  matched ← on_error driver (
      Sql.update unconstrained (is_key tenant id) (λ u. record u {
        pass_hash = hash;
        updated_at = if updated_at == 0 then now else updated_at;
      }))
  rows ← on_error driver (Sql.rows_affected matched)
  if rows == 0 then raise not_found else pure tt

unfoldable pub delete : Text → Text → Action Error (Conn User) (Unit {0})
unfolding Sql.delete Sql.rows_affected on_error
delete tenant id = do
  matched ← on_error driver (Sql.delete (is_key tenant id))
  rows ← on_error driver (Sql.rows_affected matched)
  if rows == 0 then raise not_found else pure tt

-- The implementation of the interface.
abbrev pub store : Adapter Error → Store (Conn User)
store a = record {
  create = create a;
  get = get;
  get_by_email = get_by_email;
  get_by_username = get_by_username;
  list = list;
  update = update a;
  update_pass_hash = update_pass_hash;
  delete = delete;
}
