-- ===== src/Auth.antt =====
-- pkg/auth: sessions, credentials and the errors (pkg/auth/entities.go, the sentinel errors of
-- service.go and store/store.go). The children model the stores and the service.
pub mod Store
pub mod Sqlite
pub mod Postgres
pub mod Service
pub mod Handler
use pk_modules.Common.{ℕ, Bool, Option, none, some, List, [], Result, ok, err, if◌then◌else◌, ◌==◌}
use pk_modules.Common.Text.{Text, is_blank, trim_space, text_eq}

pub data Error : Type 0 where
  invalid_credentials session_expired session_revoked no_credentials user_inactive : Error
  policy_denied : Text → Error
  tenant_required identifier_required password_required : Error
  not_found duplicate : Error
  nil_session id_required session_id_required user_id_required tenant_id_required : Error
  expires_at_required generate_failed : Error
  driver : Text → Error

-- `Session` of the module and of its store, with instants in nanoseconds since Go's zero time
pub record Session : Type 0 where
  pub id : Text
  pub user_id : Text
  pub tenant_id : Text
  pub issued_at : ℕ
  pub expires_at : ℕ
  pub revoked_at : Option ℕ

pub record Credentials : Type 0 where
  pub email : Text
  pub username : Text
  pub password : Text

-- `(*Session).Validate`
unfoldable pub validate : Option Session → Result Error (Unit {0})
validate none = err nil_session
validate (some s) =
    if is_blank s.id
    then err id_required
    else if is_blank s.user_id
    then err user_id_required
    else if is_blank s.tenant_id
    then err tenant_id_required
    else if s.expires_at == 0
    then err expires_at_required
    else ok tt

-- `Credentials.Identifier`
unfoldable pub identifier : Credentials → Text
identifier c = if text_eq (trim_space c.email) [] then trim_space c.username else trim_space c.email
