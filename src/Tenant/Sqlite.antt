-- ===== src/Tenant/Sqlite.antt =====
-- pkg/tenant/store/sqlite/sqlite.go over the table tenants, whose primary key is id and whose slugs
-- are unique.
pub mod Keys
use pk_modules.Common.{
  ℕ, Bool, true, false, ◌&&◌, ◌||◌, Option, none, some, List, [], Action, ok, err, raise, pure,
  or_raise, ◌>>=◌, ◌>>◌, ◌==◌, if◌then◌else◌, count_if, find, map_if, sort_by,
}
use pk_modules.Common.Text.{Text, codes, text_eq, text_lt, to_lower, contains}
use pk_modules.Sql
use pk_modules.Sql.{Conn, Driver, Adapter, conflict, report, on_error}
use pk_modules.Tenant.{Error, Tenant, Store, nil_tenant, not_found, duplicate_slug, driver}

unfoldable pub is_unique_constraint : Text → Bool
is_unique_constraint message =
    let lower = to_lower message in
    contains lower (codes "unique constraint")
    || (contains lower (codes "constraint failed: unique")
        || contains lower (codes "constraint failed: tenants.slug"))

unfoldable pub write_error : Text → Error
unfolding is_unique_constraint
write_error message = if is_unique_constraint message then duplicate_slug else driver message

abbrev pub has_id : Text → Tenant → Bool
has_id id t = text_eq t.id id

abbrev pub has_slug : Text → Tenant → Bool
has_slug slug t = text_eq t.slug slug

-- PRIMARY KEY (id), UNIQUE (slug)
unfoldable pub violated : Adapter Error → Tenant → List Tenant → Option Text
unfolding report
violated d t rows = report d (
    conflict (count_if (has_id t.id) rows) (codes "tenants.id")
      (conflict (count_if (has_slug t.slug) rows) (codes "tenants.slug") []))

abbrev pub stamp : ℕ → Tenant → Tenant
stamp now t = record t {
  created_at = if t.created_at == 0 then now else t.created_at;
  updated_at = if t.updated_at == 0 then now else t.updated_at;
}

unfoldable pub create : Adapter Error → ℕ → Option Tenant → Action Error (Conn Tenant) Tenant
unfolding violated Sql.insert on_error
create d now none = raise nil_tenant
create d now (some t) =
    on_error d.insert_error (Sql.insert (violated d (stamp now t)) (stamp now t))
    >> pure (stamp now t)

unfoldable pub get : Text → Action Error (Conn Tenant) Tenant
unfolding Sql.query_row on_error
get id = do found ← on_error driver (Sql.query_row (has_id id)); or_raise found not_found

unfoldable pub get_by_slug : Text → Action Error (Conn Tenant) Tenant
unfolding Sql.query_row on_error
get_by_slug slug = do
  found ← on_error driver (Sql.query_row (has_slug slug))
  or_raise found not_found

-- ORDER BY slug
abbrev pub by_slug : Tenant → Tenant → Bool
by_slug a b = text_lt a.slug b.slug

unfoldable pub list : Action Error (Conn Tenant) (List Tenant)
unfolding Sql.query on_error
list = do rows ← on_error driver (Sql.query (λ t. true)); pure (sort_by by_slug rows)

-- SET slug = ?, name = ?, updated_at = ?
abbrev pub overwrite : Tenant → Tenant → Tenant
overwrite t r = record r { slug = t.slug; name = t.name; updated_at = t.updated_at }

-- UNIQUE (slug): another row has it, and the update writes one.
unfoldable pub slug_clash : Adapter Error → Tenant → List Tenant → Option Text
slug_clash d t rows =
    if count_if (has_id t.id) rows == 0
    then none
    else if count_if (λ r. has_slug t.slug r && (if has_id t.id r then false else true)) rows == 0
    then none
    else some (d.violation (codes "tenants.slug"))

unfoldable pub update : Adapter Error → ℕ → Option Tenant → Action Error (Conn Tenant) Tenant
unfolding slug_clash Sql.update Sql.rows_affected on_error
update d now none = raise nil_tenant
update d now (some given) = do
  let t : Tenant = record given { updated_at = now }
  matched ← on_error d.update_error (Sql.update (slug_clash d t) (has_id t.id) (overwrite t))
  rows ← on_error driver (Sql.rows_affected matched)
  if rows == 0 then raise not_found else pure t

unfoldable pub delete : Text → Action Error (Conn Tenant) (Unit {0})
unfolding Sql.delete Sql.rows_affected on_error
delete id = do
  matched ← on_error driver (Sql.delete (has_id id))
  rows ← on_error driver (Sql.rows_affected matched)
  if rows == 0 then raise not_found else pure tt

-- The implementation of the interface.
abbrev pub store : Adapter Error → Store (Conn Tenant)
store d = record {
  create = create d;
  get = get;
  get_by_slug = get_by_slug;
  list = list;
  update = update d;
  delete = delete;
}

abbrev pub sqlite : Driver → Adapter Error
sqlite d = record {
  insert_error = write_error;
  update_error = write_error;
  violation = d.violation;
  reported = d.reported;
}
