-- ===== src/Content/Postgres.antt =====
-- pkg/content/store/postgres/postgres.go: the statements of the SQLite adapter with `$n` for `?`, and
-- its own classification of a failed INSERT or UPDATE.
use pk_modules.Common.{ℕ, Bool, ◌||◌, Option, List, Action, if◌then◌else◌}
use pk_modules.Common.Text.{Text, codes, to_lower, contains}
use pk_modules.Sql.{Conn, Driver, Adapter}
use pk_modules.Common.Int.{ℤ}
use pk_modules.Content.{Error, Content, Store, duplicate, slug_taken, driver}
use pk_modules.Content.Sqlite

unfoldable pub is_unique_violation : Text → Bool
is_unique_violation message =
    let lower = to_lower message in
    contains lower (codes "unique") || contains lower (codes "23505")

-- `classifyInsertErr`
unfoldable pub classify_insert_error : Text → Error
unfolding is_unique_violation
classify_insert_error message =
    if contains (to_lower message) (codes "content_pkey")
    then duplicate
    else if is_unique_violation message
    then slug_taken
    else driver message

unfoldable pub update_error : Text → Error
unfolding is_unique_violation
update_error message = if is_unique_violation message then slug_taken else driver message

abbrev pub postgres : Driver → Adapter Error
postgres d = record {
  insert_error = classify_insert_error;
  update_error = update_error;
  violation = d.violation;
  reported = d.reported;
}

abbrev pub create : Driver → ℕ → Option Content → Action Error (Conn Content) (Unit {0})
create d = Sqlite.create (postgres d)

abbrev pub get : Text → Text → Action Error (Conn Content) Content
get = Sqlite.get

abbrev pub get_by_slug : Text → Text → Text → Action Error (Conn Content) Content
get_by_slug = Sqlite.get_by_slug

abbrev pub list : Text → Text → ℤ → ℤ → Action Error (Conn Content) (List Content)
list = Sqlite.list

abbrev pub update : Driver → ℕ → Option Content → Action Error (Conn Content) Content
update d = Sqlite.update (postgres d)

abbrev pub delete : Text → Text → Action Error (Conn Content) (Unit {0})
delete = Sqlite.delete

abbrev pub set_published : ℕ → Text → Text → Option ℕ → Action Error (Conn Content) (Unit {0})
set_published = Sqlite.set_published

abbrev pub store : Driver → Store (Conn Content)
store d = record {
  create = create d;
  get = get;
  get_by_slug = get_by_slug;
  list = list;
  update = update d;
  delete = delete;
  set_published = set_published;
}
