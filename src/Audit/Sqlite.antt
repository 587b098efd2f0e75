-- ===== src/Audit/Sqlite.antt =====
-- pkg/audit/store/sqlite/sqlite.go over the table audit_events, whose primary key is id.

pub mod Log
use pk_modules.Common.{
  ℕ, Bool, true, ◌&&◌, ◌||◌, Option, none, some, List, [], Action, raise, pure, ◌>>=◌, ◌>>◌, ◌==◌,
  if◌then◌else◌, ltb, leb, count_if, take, drop, sort_by,
}
use pk_modules.Common.Text.{Text, codes, is_blank, text_eq, to_lower, contains}
use pk_modules.Sql
use pk_modules.Sql.{Conn, Driver, Adapter, on_error}
use pk_modules.Sql.Paging
use pk_modules.Sql.Paging.{page}
use pk_modules.Audit.{Error, Event, Filter, Store, nil_event, duplicate_id, driver}

unfoldable pub is_unique_constraint : Text → Bool
is_unique_constraint message =
    let lower = to_lower message in
    contains lower (codes "unique constraint")
    || (contains lower (codes "constraint failed: unique") || contains lower (codes "primary key"))

unfoldable pub append_error : Text → Error
unfolding is_unique_constraint
append_error message = if is_unique_constraint message then duplicate_id else driver message

abbrev pub sqlite : Driver → Adapter Error
sqlite d = record {
  insert_error = append_error;
  update_error = driver;
  violation = d.violation;
  reported = d.reported;
}

abbrev pub has_id : Text → Event → Bool
has_id id e = text_eq e.id id

-- PRIMARY KEY (id)
unfoldable pub violated : Adapter Error → Event → List Event → Option Text
violated a e rows =
    if count_if (has_id e.id) rows == 0 then none else some (a.violation (codes "audit_events.id"))

abbrev pub stamp : ℕ → Event → Event
stamp now e = record e { emitted_at = if e.emitted_at == 0 then now else e.emitted_at }

unfoldable pub append : Adapter Error → ℕ → Option Event → Action Error (Conn Event) Event
unfolding violated Sql.insert on_error
append a now none = raise nil_event
append a now (some e) =
    on_error a.insert_error (Sql.insert (violated a (stamp now e)) (stamp now e))
    >> pure (stamp now e)

-- The clauses of the statement.
unfoldable pub selects : Filter → Event → Bool
selects f e =
    text_eq e.tenant_id f.tenant_id
    && ((if text_eq f.actor [] then true else text_eq e.actor f.actor)
        && ((if text_eq f.action [] then true else text_eq e.action f.action)
            && ((if f.since == 0 then true else leb f.since e.emitted_at)
                && (if f.until == 0 then true else ltb e.emitted_at f.until))))

-- ORDER BY emitted_at ASC
abbrev pub earlier : Event → Event → Bool
earlier x y = ltb x.emitted_at y.emitted_at

unfoldable pub clamp_limit : Filter → ℕ
unfolding Paging.clamp_limit
clamp_limit f = Paging.clamp_limit 100 f.limit

unfoldable pub clamp_offset : Filter → ℕ
unfolding Paging.clamp_offset
clamp_offset f = Paging.clamp_offset f.offset

unfoldable pub query : Filter → Action Error (Conn Event) (List Event)
unfolding Sql.query on_error clamp_limit clamp_offset
query f = if is_blank f.tenant_id then pure [] else do
  rows ← on_error driver (Sql.query (selects f))
  pure (page earlier (clamp_limit f) (clamp_offset f) rows)

-- The implementation of the interface.
abbrev pub store : Adapter Error → Store (Conn Event)
store a = record { append = append a; query = query }
