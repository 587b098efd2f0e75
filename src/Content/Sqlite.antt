-- ===== src/Content/Sqlite.antt =====
-- pkg/content/store/sqlite/sqlite.go over the table content, whose primary key is id and whose rows
-- differ in (tenant_id, kind, slug).
pub mod Tenancy
pub mod Paging
use pk_modules.Common.{
  ℕ, zero, suc, Bool, true, false, ◌&&◌, Option, none, some, List, [], Action, ok, err, raise, pure,
  or_raise, ◌>>=◌, ◌>>◌, ◌==◌, if◌then◌else◌, ltb, count_if, take, drop, sort_by,
}
use pk_modules.Common.Int.{ℤ, pos, negsuc}
use pk_modules.Common.Text.{Text, codes, text_eq, to_lower, contains}
use pk_modules.Sql
use pk_modules.Sql.{Conn, Driver, Adapter, conflict, report, on_error}
use pk_modules.Content.{
  Error, Content, Store, nil_content, not_found, duplicate, slug_taken, driver,
}

-- `classifyInsertErr`, a switch whose cases are tried in order
unfoldable pub classify_insert_error : Text → Error
classify_insert_error message =
    let lower = to_lower message in
    if contains lower (codes "tenant_id") && contains lower (codes "unique")
    then slug_taken
    else if contains lower (codes "primary key")
    then duplicate
    else if contains lower (codes "unique")
    then slug_taken
    else driver message

unfoldable pub is_unique_violation : Text → Bool
is_unique_violation message = contains (to_lower message) (codes "unique")

unfoldable pub update_error : Text → Error
unfolding is_unique_violation
update_error message = if is_unique_violation message then slug_taken else driver message

-- WHERE id = ? AND tenant_id = ?
abbrev pub is_key : Text → Text → Content → Bool
is_key tenant id c = text_eq c.id id && text_eq c.tenant_id tenant

-- WHERE tenant_id = ? AND kind = ? AND slug = ?
abbrev pub is_slug : Text → Text → Text → Content → Bool
is_slug tenant kind slug c =
    text_eq c.tenant_id tenant && (text_eq c.kind kind && text_eq c.slug slug)

abbrev pub slug_columns : Text
slug_columns = codes "content.tenant_id, content.kind, content.slug"

-- PRIMARY KEY (id), UNIQUE (tenant_id, kind, slug)
unfoldable pub violated : Adapter Error → Content → List Content → Option Text
unfolding report
violated d c rows = report d (
    conflict (count_if (λ r. text_eq r.id c.id) rows) (codes "content.id")
      (conflict (count_if (is_slug c.tenant_id c.kind c.slug) rows) slug_columns []))

abbrev pub stamp : ℕ → Content → Content
stamp now c =
    let created = if c.created_at == 0 then now else c.created_at in
    record c {
      created_at = created;
      updated_at = if c.updated_at == 0 then created else c.updated_at;
    }

unfoldable pub create : Adapter Error → ℕ → Option Content → Action Error (Conn Content) (Unit {0})
unfolding violated Sql.insert on_error
create d now none = raise nil_content
create d now (some c) =
    on_error d.insert_error (Sql.insert (violated d (stamp now c)) (stamp now c))

unfoldable pub get : Text → Text → Action Error (Conn Content) Content
unfolding Sql.query_row on_error
get tenant id = do
  found ← on_error driver (Sql.query_row (is_key tenant id))
  or_raise found not_found

unfoldable pub get_by_slug : Text → Text → Text → Action Error (Conn Content) Content
unfolding Sql.query_row on_error
get_by_slug tenant kind slug = do
  found ← on_error driver (Sql.query_row (is_slug tenant kind slug))
  or_raise found not_found

-- `limit <= 0` becomes 100 and `limit > 1000` becomes 1000.
unfoldable pub clamp_limit : ℤ → ℕ
clamp_limit (pos zero) = 100
clamp_limit (pos (suc n)) = if ltb 1000 (suc n) then 1000 else suc n
clamp_limit (negsuc n) = 100

unfoldable pub clamp_offset : ℤ → ℕ
clamp_offset (pos n) = n
clamp_offset (negsuc n) = 0

-- ORDER BY created_at DESC
abbrev pub newer : Content → Content → Bool
newer a b = ltb b.created_at a.created_at

-- tenant_id = ?, and kind = ? unless it is empty
abbrev pub is_listed : Text → Text → Content → Bool
is_listed tenant kind c =
    text_eq c.tenant_id tenant && (if text_eq kind (codes "") then true else text_eq c.kind kind)

unfoldable pub list : Text → Text → ℤ → ℤ → Action Error (Conn Content) (List Content)
unfolding Sql.query on_error clamp_limit clamp_offset
list tenant kind limit offset = do
  rows ← on_error driver (Sql.query (is_listed tenant kind))
  pure (take (clamp_limit limit) (drop (clamp_offset offset) (sort_by newer rows)))

-- The columns that an update sets.
abbrev pub overwrite : Content → Content → Content
overwrite c r = record r {
  kind = c.kind;
  slug = c.slug;
  title = c.title;
  body = c.body;
  body_format = c.body_format;
  author_id = c.author_id;
  updated_at = c.updated_at;
}

-- UNIQUE (tenant_id, kind, slug): another row has the values, and the update writes one.
unfoldable pub slug_clash : Adapter Error → Content → List Content → Option Text
slug_clash d c rows =
    if count_if (is_key c.tenant_id c.id) rows == 0
    then none
    else if count_if
          (λ r.
            is_slug c.tenant_id c.kind c.slug r
            && (if is_key c.tenant_id c.id r then false else true))
          rows
        == 0
    then none
    else some (d.violation slug_columns)

unfoldable pub update : Adapter Error → ℕ → Option Content → Action Error (Conn Content) Content
unfolding slug_clash Sql.update Sql.rows_affected on_error
update d now none = raise nil_content
update d now (some given) = do
  let c : Content = record given { updated_at = now }
  matched ←
      on_error d.update_error (Sql.update (slug_clash d c) (is_key c.tenant_id c.id) (overwrite c))
  rows ← on_error driver (Sql.rows_affected matched)
  if rows == 0 then raise not_found else pure c

unfoldable pub delete : Text → Text → Action Error (Conn Content) (Unit {0})
unfolding Sql.delete Sql.rows_affected on_error
delete tenant id = do
  matched ← on_error driver (Sql.delete (is_key tenant id))
  rows ← on_error driver (Sql.rows_affected matched)
  if rows == 0 then raise not_found else pure tt

-- No constraint of the schema mentions a column that this update writes.
abbrev pub unconstrained : List Content → Option Text
unconstrained rows = none

unfoldable pub set_published : ℕ → Text → Text → Option ℕ → Action Error (Conn Content) (Unit {0})
unfolding Sql.update Sql.rows_affected on_error
set_published now tenant id at = do
  matched ← on_error driver (
      Sql.update unconstrained (is_key tenant id)
        (λ c. record c { published_at = at; updated_at = now }))
  rows ← on_error driver (Sql.rows_affected matched)
  if rows == 0 then raise not_found else pure tt

-- The implementation of the interface.
abbrev pub store : Adapter Error → Store (Conn Content)
store d = record {
  create = create d;
  get = get;
  get_by_slug = get_by_slug;
  list = list;
  update = update d;
  delete = delete;
  set_published = set_published;
}

abbrev pub sqlite : Driver → Adapter Error
sqlite d = record {
  insert_error = classify_insert_error;
  update_error = update_error;
  violation = d.violation;
  reported = d.reported;
}
