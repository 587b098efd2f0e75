-- ===== src/Tenant/Service.antt =====
-- pkg/tenant/service.go: CRUD over the store; a tenant without an id takes its slug.
pub mod Lookup
use pk_modules.Common.{
  ℕ, Option, none, some, List, Action, ok, err, pure, lift, raise, raise_if, ◌>>=◌, ◌>>◌,
  if◌then◌else◌,
}
use pk_modules.Common.Text.{Text, is_blank}
use pk_modules.Tenant.{Error, Tenant, Store, validate, id_required, slug_required, nil_tenant}

-- `t.ID = t.Slug` where the id is blank
abbrev pub with_id : Tenant → Tenant
with_id t = record t { id = if is_blank t.id then t.slug else t.id }

module _ {S : Type 0} (st : Store S) where
  unfoldable pub get : Text → Action Error S Tenant
  get id = raise_if (is_blank id) id_required >> st.get id

  unfoldable pub get_by_slug : Text → Action Error S Tenant
  get_by_slug slug = raise_if (is_blank slug) slug_required >> st.get_by_slug slug

  unfoldable pub list : Action Error S (List Tenant)
  list = st.list

  -- Returns the tenant as it leaves it behind the caller's pointer.
  unfoldable pub create : ℕ → Option Tenant → Action Error S Tenant
  create now none = lift (validate none) >> raise nil_tenant
  create now (some t) = do
    lift (validate (some t))
    row ← st.create now (some (with_id t))
    pure (record (with_id t) { created_at = row.created_at; updated_at = row.updated_at })

  unfoldable pub update : ℕ → Option Tenant → Action Error S Tenant
  update now none = lift (validate none) >> raise nil_tenant
  update now (some t) = do
    lift (validate (some t))
    raise_if (is_blank t.id) id_required
    row ← st.update now (some t)
    pure (record t { updated_at = row.updated_at })

  unfoldable pub delete : Text → Action Error S (Unit {0})
  delete id = raise_if (is_blank id) id_required >> st.delete id
