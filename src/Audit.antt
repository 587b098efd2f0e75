-- ===== src/Audit.antt =====
-- pkg/audit: the event (pkg/audit/entities.go), the errors and the contract of store/store.go. The
-- children model the adapters and the service.
pub mod Sqlite
pub mod Postgres
pub mod Service
pub mod Handler
use pk_modules.Common.{
  ℕ, ◌||◌, Bool, Option, none, some, List, [], Action, Result, ok, err, if◌then◌else◌,
}
use pk_modules.Common.Int.{ℤ}
use pk_modules.Common.Text.{Text, codes, is_blank, text_eq}

-- The sentinel of the store, the errors of Validate, of the emitter and of the identifier's draw,
-- and the driver's own.
pub data Error : Type 0 where
  nil_event tenant_id_required action_required bad_severity : Error
  no_service marshal_failed generate_failed : Error
  duplicate_id : Error
  driver : Text → Error

-- `Event` of the module and of its store, which are copied field by field, with the instant in
-- nanoseconds since Go's zero time
pub record Event : Type 0 where
  pub id : Text
  pub tenant_id : Text
  pub actor : Text
  pub action : Text
  pub resource : Text
  pub severity : Text
  pub details : Text
  pub emitted_at : ℕ

abbrev pub severity_info : Text
severity_info = codes "info"

abbrev pub severity_warning : Text
severity_warning = codes "warning"

abbrev pub severity_critical : Text
severity_critical = codes "critical"

-- The cases of the switch in Validate.
unfoldable pub is_severity : Text → Bool
is_severity s =
    text_eq s []
    || (text_eq s severity_info || (text_eq s severity_warning || text_eq s severity_critical))

-- `(*Event).Validate`
unfoldable pub validate : Option Event → Result Error (Unit {0})
unfolding is_severity
validate none = err nil_event
validate (some e) =
    if is_blank e.tenant_id
    then err tenant_id_required
    else if is_blank e.action
    then err action_required
    else if is_severity e.severity
    then ok tt
    else err bad_severity

-- `QueryFilter`: an empty text and the zero time stand for any.
pub record Filter : Type 0 where
  pub tenant_id : Text
  pub actor : Text
  pub action : Text
  pub since : ℕ
  pub until : ℕ
  pub limit : ℤ
  pub offset : ℤ

-- `store.Store`. A call that reads the clock takes the reading first; `append` returns the row as it
-- leaves it behind the caller's pointer.
pub record Store (S : Type 0) : Type 0 where
  pub append : ℕ → Option Event → Action Error S Event
  pub query : Filter → Action Error S (List Event)
