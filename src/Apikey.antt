-- ===== src/Apikey.antt =====
-- pkg/apikey: the entity, the errors and the key layout (pkg/apikey/entities.go, the sentinel
-- errors of service.go and store/store.go). The children model scopes, stores and the service.
pub mod Scopes
pub mod Store
pub mod Sqlite
pub mod Postgres
pub mod Secret
pub mod Service
pub mod Handler
use pk_modules.Common.{
  ℕ, Bool, true, false, ◌&&◌, Option, none, some, List, Result, ok, err, if◌then◌else◌, ltb,
}
use pk_modules.Common.Text.{Text, codes, is_blank}

-- The sentinel errors, the required fields, and the errors that wrap one of another layer.
pub data Error : Type 0 where
  invalid_key key_revoked key_expired not_found duplicate : Error
  nil_key id_required tenant_id_required user_id_required name_required hash_required : Error
  too_many_scopes empty_scope long_scope : Error
  reserved_scope unknown_scope : Text → Error
  generate_failed hash_failed : Error
  decode_scopes : Text → Error
  driver : Text → Error

-- `APIKey`, with instants in nanoseconds since Go's zero time
pub record ApiKey : Type 0 where
  pub id : Text
  pub tenant_id : Text
  pub user_id : Text
  pub name : Text
  pub prefix : Text
  pub hash : Text
  pub scopes : List Text
  pub last_used_at : Option ℕ
  pub revoked_at : Option ℕ
  pub expires_at : Option ℕ
  pub created_at : ℕ

abbrev pub key_prefix : Text
key_prefix = codes "pk"

-- `(*APIKey).Validate`
unfoldable pub validate : Option ApiKey → Result Error (Unit {0})
validate none = err nil_key
validate (some k) =
    if is_blank k.id
    then err id_required
    else if is_blank k.tenant_id
    then err tenant_id_required
    else if is_blank k.user_id
    then err user_id_required
    else if is_blank k.name
    then err name_required
    else if is_blank k.hash
    then err hash_required
    else ok tt

unfoldable pub is_revoked : ApiKey → Bool
is_revoked k = elim k.revoked_at [ none ↦ false | some _ ↦ true ]

-- `k.ExpiresAt != nil && now.After(*k.ExpiresAt)`, also on the row's column
unfoldable pub past : Option ℕ → ℕ → Bool
past none now = false
past (some at) now = ltb at now

unfoldable pub is_expired : ApiKey → ℕ → Bool
unfolding past
is_expired k now = past k.expires_at now
