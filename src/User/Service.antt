-- ===== src/User/Service.antt =====
-- pkg/user/service.go over any store. The hasher of pk-core is a parameter and may be absent; the
-- tenant service, which may be absent too, answers a lookup of an id: found, not found, or another
-- error.
pub mod Passwords
use pk_modules.Common.{
  ℕ, Bool, true, false, Option, none, some, List, [], ◌∷◌, ◌++◌, Action, Result, ok, err, pure,
  lift, raise, raise_if, or_raise, ◌>>=◌, ◌>>◌, if◌then◌else◌,
}
use pk_modules.Common.Int.{ℤ}
pub use pk_modules.Passhash.{Hasher}
use pk_modules.Common.Text.{Text, codes, is_blank, trim_space, text_eq}
use pk_modules.User.{
  Error, User, Store, validate, validate_password, nil_user, id_required, tenant_id_required,
  email_required, username_required, plaintext_required, no_hasher, hash_failed, mismatch,
  unknown_tenant, tenant_failed,
}

-- What `TenantService.Get` answers.
pub data Lookup : Type 0 where
  found absent failed : Lookup

pub record Service (S : Type 0) : Type 0 where
  pub store : Store S
  pub hasher : Option Hasher
  pub tenants : Option (Text → Lookup)

-- `u.TenantID + ":" + u.Username` where the id is blank
abbrev pub with_id : User → User
with_id u = record u { id = if is_blank u.id then u.tenant_id ++ codes ":" ++ u.username else u.id }

module _ {S : Type 0} (svc : Service S) where
  unfoldable pub validate_tenant : Text → Result Error (Unit {0})
  validate_tenant tenant_id = elim svc.tenants [
    | none ↦ ok tt
    | some get ↦
        let tenant = trim_space tenant_id in
        if text_eq tenant [] then ok tt else elim (get tenant) [
          | found ↦ ok tt
          | absent ↦ err (unknown_tenant tenant)
          | failed ↦ err (tenant_failed tenant)
        ]
  ]

  -- Returns the user as it leaves it behind the caller's pointer.
  unfoldable pub create : ℕ → Option User → Action Error S User
  unfolding validate_tenant
  create now none = lift (validate none) >> raise nil_user
  create now (some u) = do
    lift (validate (some u))
    lift (validate_tenant u.tenant_id)
    row ← svc.store.create now (some (with_id u))
    pure (record (with_id u) { created_at = row.created_at; updated_at = row.updated_at })

  unfoldable pub get : Text → Text → Action Error S User
  get tenant id = do
    raise_if (is_blank tenant) tenant_id_required
    raise_if (is_blank id) id_required
    svc.store.get tenant id

  unfoldable pub get_by_email : Text → Text → Action Error S User
  get_by_email tenant email = do
    raise_if (is_blank tenant) tenant_id_required
    raise_if (is_blank email) email_required
    svc.store.get_by_email tenant email

  unfoldable pub get_by_username : Text → Text → Action Error S User
  get_by_username tenant username = do
    raise_if (is_blank tenant) tenant_id_required
    raise_if (is_blank username) username_required
    svc.store.get_by_username tenant username

  unfoldable pub list : Text → ℤ → ℤ → Action Error S (List User)
  list tenant limit offset = do
    raise_if (is_blank tenant) tenant_id_required
    svc.store.list tenant limit offset

  unfoldable pub update : ℕ → Option User → Action Error S User
  unfolding validate_tenant
  update now none = lift (validate none) >> raise nil_user
  update now (some u) = do
    lift (validate (some u))
    raise_if (is_blank u.id) id_required
    lift (validate_tenant u.tenant_id)
    row ← svc.store.update now (some u)
    pure (record u { updated_at = row.updated_at })

  unfoldable pub delete : Text → Text → Action Error S (Unit {0})
  delete tenant id = do
    raise_if (is_blank tenant) tenant_id_required
    raise_if (is_blank id) id_required
    svc.store.delete tenant id

  -- `now` is the service's reading of the clock, `store_now` one that the store would make if `now`
  -- were the zero time.
  unfoldable pub set_password : ℕ → ℕ → ℕ → Text → Text → Text → Action Error S (Unit {0})
  set_password now store_now salt tenant id plaintext = do
    raise_if (is_blank tenant) tenant_id_required
    raise_if (is_blank id) id_required
    raise_if (text_eq plaintext []) plaintext_required
    lift (validate_password plaintext)
    hasher ← or_raise svc.hasher no_hasher
    encoded ← or_raise (hasher.hash salt plaintext) hash_failed
    svc.store.update_pass_hash store_now tenant id encoded now

  -- Any error of the hasher's Verify is taken as its mismatch.
  unfoldable pub verify_password : Text → Text → Text → Action Error S (Unit {0})
  verify_password tenant id plaintext = do
    raise_if (is_blank tenant) tenant_id_required
    raise_if (is_blank id) id_required
    hasher ← or_raise svc.hasher no_hasher
    row ← svc.store.get tenant id
    raise_if (text_eq row.pass_hash []) mismatch
    raise_if (if hasher.verify plaintext row.pass_hash then false else true) mismatch
