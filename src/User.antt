-- ===== src/User.antt =====
-- pkg/user: the entity (pkg/user/entities.go), the errors and the contract of store/store.go. The
-- children model the adapters and the service.
pub mod Sqlite
pub mod Postgres
pub mod Service
pub mod Handler
use pk_modules.Common.{
  ℕ, Bool, Option, none, some, List, [], ◌∷◌, Action, Result, ok, err, if◌then◌else◌, ltb, length,
}
use pk_modules.Common.Int.{ℤ}
use pk_modules.Common.Text.{Text, codes, is_blank, contains}

-- The sentinel errors, those of Validate and validatePassword (which wrap ErrValidation), the
-- required arguments, and what is passed on from the tenants, the hasher and the driver.
pub data Error : Type 0 where
  nil_user tenant_id_invalid email_invalid email_without_at username_invalid long_password : Error
  tenant_id_required id_required email_required username_required plaintext_required : Error
  no_hasher hash_failed mismatch : Error
  unknown_tenant tenant_failed : Text → Error
  not_found duplicate_email duplicate_username : Error
  unique_violation driver : Text → Error

-- `User` of the module and of its store, which are copied field by field, with instants in
-- nanoseconds since Go's zero time
pub record User : Type 0 where
  pub id : Text
  pub tenant_id : Text
  pub email : Text
  pub username : Text
  pub pass_hash : Text
  pub display_name : Text
  pub active : Bool
  pub created_at : ℕ
  pub updated_at : ℕ

-- `MaxPasswordBytes`
abbrev pub max_password_bytes : ℕ
max_password_bytes = 72

unfoldable pub validate_password : Text → Result Error (Unit {0})
validate_password plaintext =
    if ltb max_password_bytes (length plaintext) then err long_password else ok tt

-- `(*User).Validate`
unfoldable pub validate : Option User → Result Error (Unit {0})
validate none = err nil_user
validate (some u) =
    if is_blank u.tenant_id
    then err tenant_id_invalid
    else if is_blank u.email
    then err email_invalid
    else if contains u.email (codes "@")
    then (if is_blank u.username then err username_invalid else ok tt)
    else err email_without_at

-- `store.Store`. A call that reads the clock takes the reading first; `create` and `update` return
-- the row as they leave it behind the caller's pointer.
pub record Store (S : Type 0) : Type 0 where
  pub create : ℕ → Option User → Action Error S User
  pub get : Text → Text → Action Error S User
  pub get_by_email : Text → Text → Action Error S User
  pub get_by_username : Text → Text → Action Error S User
  pub list : Text → ℤ → ℤ → Action Error S (List User)
  pub update : ℕ → Option User → Action Error S User
  pub update_pass_hash : ℕ → Text → Text → Text → ℕ → Action Error S (Unit {0})
  pub delete : Text → Text → Action Error S (Unit {0})
