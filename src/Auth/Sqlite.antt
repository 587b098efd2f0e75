-- ===== src/Auth/Sqlite.antt =====
-- pkg/auth/store/sqlite/sqlite.go over the table auth_sessions, whose primary key is id, behind the
-- adapter of pkg/auth/module.go, which copies field by field.
pub mod Contract
use pk_modules.Common.{
  ℕ, Bool, true, false, ◌&&◌, Option, none, some, List, Action, ok, err, raise, pure, or_raise,
  ◌>>=◌, ◌>>◌, ◌==◌, if◌then◌else◌, count_if,
}
use pk_modules.Common.Text.{Text, codes, text_eq, to_lower, contains}
use pk_modules.Sql
use pk_modules.Sql.{Conn, Driver, Adapter, on_error}
use pk_modules.Auth.{Error, Session, nil_session, not_found, duplicate, driver}
use pk_modules.Auth.Store.{Store, stamp}

unfoldable pub is_unique_violation : Text → Bool
is_unique_violation message = contains (to_lower message) (codes "unique")

unfoldable pub insert_error : Text → Error
unfolding is_unique_violation
insert_error message = if is_unique_violation message then duplicate else driver message

-- WHERE id = ?
abbrev pub has_id : Text → Session → Bool
has_id id s = text_eq s.id id

-- revoked_at IS NULL
abbrev pub is_live : Session → Bool
is_live s = elim s.revoked_at [ none ↦ true | some _ ↦ false ]

-- PRIMARY KEY (id)
unfoldable pub duplicate_id : Adapter Error → Session → List Session → Option Text
duplicate_id d s rows =
    if count_if (has_id s.id) rows == 0 then none else some (d.violation (codes "auth_sessions.id"))

-- No constraint of the schema mentions a column that an update of the store writes.
abbrev pub unconstrained : List Session → Option Text
unconstrained rows = none

unfoldable pub create : Adapter Error → ℕ → Option Session → Action Error (Conn Session) (Unit {0})
unfolding duplicate_id Sql.insert on_error
create d now none = raise nil_session
create d now (some s) =
    on_error d.insert_error (Sql.insert (duplicate_id d (stamp now s)) (stamp now s))

unfoldable pub get : Text → Action Error (Conn Session) Session
unfolding Sql.query_row on_error
get id = do found ← on_error driver (Sql.query_row (has_id id)); or_raise found not_found

-- An update that matched no row: the session is revoked already, or there is none.
unfoldable pub disambiguate : Text → Action Error (Conn Session) (Unit {0})
unfolding get
disambiguate id s =
    let (r, s') = get id s in elim r [ err not_found ↦ (err not_found, s') | _ ↦ (ok tt, s') ]

unfoldable pub revoke : ℕ → Text → Action Error (Conn Session) (Unit {0})
unfolding Sql.update Sql.rows_affected on_error disambiguate
revoke now id = do
  matched ← on_error driver (
      Sql.update unconstrained (λ s. has_id id s && is_live s)
        (λ s. record s { revoked_at = some now }))
  rows ← on_error driver (Sql.rows_affected matched)
  if rows == 0 then disambiguate id else pure tt

unfoldable pub revoke_by_user : ℕ → Text → Action Error (Conn Session) (Unit {0})
unfolding Sql.update on_error
revoke_by_user now user =
    on_error driver (
      Sql.update unconstrained (λ s. text_eq s.user_id user && is_live s)
        (λ s. record s { revoked_at = some now }))
    >> pure tt

-- The implementation of the interface.
abbrev pub store : Adapter Error → Store (Conn Session)
store d = record { create = create d; get = get; revoke = revoke; revoke_by_user = revoke_by_user }

-- The SQLite adapter; the store has no update that a constraint can refuse.
abbrev pub sqlite : Driver → Adapter Error
sqlite d = record {
  insert_error = insert_error;
  update_error = driver;
  violation = d.violation;
  reported = d.reported;
}
