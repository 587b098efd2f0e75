-- ===== src/Apikey/Sqlite.antt =====
-- pkg/apikey/store/sqlite/sqlite.go over the table api_keys, whose primary key is id.
pub mod Contract
pub mod Calls
use pk_modules.Common.{
  ℕ, Bool, true, false, ◌&&◌, Option, none, some, List, Action, Result, ok, err, raise, pure,
  or_raise, ◌>>=◌, ◌>>◌, ◌==◌, if◌then◌else◌, count_if, sort_by,
}
use pk_modules.Common.Text.{Text, codes, text_eq, to_lower, contains}
use pk_modules.Sql
use pk_modules.Sql.{Conn, Driver, Adapter, on_error}
use pk_modules.Apikey.{Error, nil_key, not_found, duplicate, driver}
use pk_modules.Apikey.Store.{Row, Store, stamp, newer}

unfoldable pub is_unique_violation : Text → Bool
is_unique_violation message = contains (to_lower message) (codes "unique")

-- `if isUniqueViolation(err) { return store.ErrDuplicate }`, else the wrapped error
unfoldable pub insert_error : Text → Error
unfolding is_unique_violation
insert_error message = if is_unique_violation message then duplicate else driver message

-- WHERE id = ?
abbrev pub has_id : Text → Row → Bool
has_id id r = text_eq r.id id

-- WHERE id = ? AND tenant_id = ?
abbrev pub is_key : Text → Text → Row → Bool
is_key tenant id r = text_eq r.id id && text_eq r.tenant_id tenant

-- revoked_at IS NULL
abbrev pub is_live : Row → Bool
is_live r = elim r.revoked_at [ none ↦ true | some _ ↦ false ]

-- PRIMARY KEY (id)
unfoldable pub duplicate_id : Adapter Error → Row → List Row → Option Text
duplicate_id d r rows =
    if count_if (has_id r.id) rows == 0 then none else some (d.violation (codes "api_keys.id"))

-- No constraint of the schema mentions a column that an update of the store writes.
abbrev pub unconstrained : List Row → Option Text
unconstrained rows = none

unfoldable pub create : Adapter Error → ℕ → Option Row → Action Error (Conn Row) Row
unfolding duplicate_id Sql.insert on_error
create d now none = raise nil_key
create d now (some k) =
    on_error d.insert_error (Sql.insert (duplicate_id d (stamp now k)) (stamp now k))
    >> pure (stamp now k)

unfoldable pub get : Text → Text → Action Error (Conn Row) Row
unfolding Sql.query_row on_error
get tenant id = do
  found ← on_error driver (Sql.query_row (is_key tenant id))
  or_raise found not_found

unfoldable pub get_by_prefix : Text → Action Error (Conn Row) (List Row)
unfolding Sql.query on_error
get_by_prefix prefix = on_error driver (Sql.query (λ r. text_eq r.prefix prefix))

-- ORDER BY created_at DESC
unfoldable pub list : Text → Action Error (Conn Row) (List Row)
unfolding Sql.query on_error
list tenant = do
  rows ← on_error driver (Sql.query (λ r. text_eq r.tenant_id tenant && is_live r))
  pure (sort_by newer rows)

-- An update that matched no row: the key is revoked already, or there is none.
unfoldable pub disambiguate : Text → Text → Action Error (Conn Row) (Unit {0})
unfolding get
disambiguate tenant id s =
    let (r, s') = get tenant id s in
    elim r [ err not_found ↦ (err not_found, s') | _ ↦ (ok tt, s') ]

unfoldable pub revoke : ℕ → Text → Text → Action Error (Conn Row) (Unit {0})
unfolding Sql.update Sql.rows_affected on_error disambiguate
revoke now tenant id = do
  matched ← on_error driver (
      Sql.update unconstrained (λ r. is_key tenant id r && is_live r)
        (λ r. record r { revoked_at = some now }))
  rows ← on_error driver (Sql.rows_affected matched)
  if rows == 0 then disambiguate tenant id else pure tt

unfoldable pub update_last_used : ℕ → Text → Text → ℕ → Action Error (Conn Row) (Unit {0})
unfolding Sql.update on_error
update_last_used now tenant id at =
    on_error driver (
      Sql.update unconstrained (is_key tenant id)
        (λ r. record r { last_used_at = some (if at == 0 then now else at) }))
    >> pure tt

-- The implementation of the interface.
abbrev pub store : Adapter Error → Store (Conn Row)
store d = record {
  create = create d;
  get = get;
  get_by_prefix = get_by_prefix;
  list = list;
  revoke = revoke;
  update_last_used = update_last_used;
}

-- The SQLite adapter; the store has no update that a constraint can refuse.
abbrev pub sqlite : Driver → Adapter Error
sqlite d = record {
  insert_error = insert_error;
  update_error = driver;
  violation = d.violation;
  reported = d.reported;
}
