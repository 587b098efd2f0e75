-- ===== src/Tenant.antt =====
-- pkg/tenant: the entity (pkg/tenant/entities.go), the errors and contract of store/store.go. The
-- children model the SQLite store and the service.
pub mod Sqlite
pub mod Postgres
pub mod Service
pub mod Handler
use pk_modules.Common.{ℕ, Option, none, some, List, Action, Result, ok, err, if◌then◌else◌}
use pk_modules.Common.Text.{Text, is_blank}

pub data Error : Type 0 where
  nil_tenant slug_required name_required id_required : Error
  not_found duplicate_slug : Error
  driver : Text → Error

-- `Tenant` of the module and of its store, which are copied field by field, with instants in
-- nanoseconds since Go's zero time
pub record Tenant : Type 0 where
  pub id : Text
  pub slug : Text
  pub name : Text
  pub created_at : ℕ
  pub updated_at : ℕ

-- `(*Tenant).Validate`
unfoldable pub validate : Option Tenant → Result Error (Unit {0})
validate none = err nil_tenant
validate (some t) =
    if is_blank t.slug
    then err slug_required
    else if is_blank t.name
    then err name_required
    else ok tt

-- `store.Store`. A call that reads the clock takes the reading first; `create` and `update` return
-- the row as they leave it behind the caller's pointer.
pub record Store (S : Type 0) : Type 0 where
  pub create : ℕ → Option Tenant → Action Error S Tenant
  pub get : Text → Action Error S Tenant
  pub get_by_slug : Text → Action Error S Tenant
  pub list : Action Error S (List Tenant)
  pub update : ℕ → Option Tenant → Action Error S Tenant
  pub delete : Text → Action Error S (Unit {0})
