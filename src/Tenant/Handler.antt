-- ===== src/Tenant/Handler.antt =====
-- pkg/tenant/handler.go over the tenant service.
pub mod Boundary
use pk_modules.Common.{
  ℕ, Bool, true, false, not, Option, none, some, List, [], ◌∷◌, Result, ok, err, Action, raise,
  raise_if, or_raise, lift, pure, ◌>>=◌, ◌>>◌, if◌then◌else◌,
}
use pk_modules.Common.Text.{Text, codes, text_eq, contains}
use pk_modules.Http.{
  Method, Request, Answer, write_json, no_content, or_status, entity_id_from_path, tenant_of,
}
use pk_modules.Tenant.{Error, Tenant, Store, not_found, duplicate_slug}
use pk_modules.Tenant.Service

-- `APIPath`
abbrev pub api_path : Text
api_path = codes "/api/v1/tenants"

-- What a handler writes.
pub data Body : Type 0 where
  one : Tenant → Body
  many : List Tenant → Body

-- The status of a failed lookup or deletion, and of a failed update.
unfoldable pub lookup_status : Error → ℕ
lookup_status not_found = 404
lookup_status _ = 500

unfoldable pub update_status : Error → ℕ
update_status not_found = 404
update_status duplicate_slug = 409
update_status _ = 500

-- `errors.Is(err, store.ErrNotFound)`
abbrev is_absent : Error → Bool
is_absent not_found = true
is_absent _ = false

module _ {S : Type 0} (st : Store S) (r : Request Tenant) where
  -- The list of the caller's own tenant, which is empty if there is none.
  unfoldable pub list : Action ℕ S (Answer Body)
  unfolding lookup_status tenant_of or_status
  list = do
    self ← lift (tenant_of r.principal)
    found ← (λ s.
        let (t, s') = Service.get st self s in
        (elim t [ ok t ↦ ok (t ∷ []) | err e ↦ if is_absent e then ok [] else err 500 ], s'))
    pure (write_json 200 (many found))

  unfoldable pub get : Text → Action ℕ S (Answer Body)
  unfolding lookup_status tenant_of or_status
  get id = do
    self ← lift (tenant_of r.principal)
    raise_if (not (text_eq id self)) 404
    t ← or_status lookup_status (Service.get st id)
    pure (write_json 200 (one t))

  unfoldable pub create : Action ℕ S (Answer Body)
  unfolding tenant_of
  create = lift (tenant_of r.principal) >> raise 403

  unfoldable pub update : ℕ → Text → Action ℕ S (Answer Body)
  unfolding update_status tenant_of or_status
  update now id = do
    self ← lift (tenant_of r.principal)
    raise_if (not (text_eq id self)) 404
    given ← or_raise r.body 400
    t ← or_status update_status (Service.update st now (some (record given { id = id })))
    pure (write_json 200 (one t))

  unfoldable pub delete : Text → Action ℕ S (Answer Body)
  unfolding lookup_status tenant_of or_status
  delete id = do
    self ← lift (tenant_of r.principal)
    raise_if (not (text_eq id self)) 404
    or_status lookup_status (Service.delete st id)
    pure no_content

  -- The switch of ServeHTTP.
  unfoldable pub route : ℕ → Method → Text → Action ℕ S (Answer Body)
  unfolding list get create update delete
  route now Method.get id = if text_eq id [] then list else get id
  route now Method.post id = if text_eq id [] then create else raise 405
  route now Method.put id = if text_eq id [] then raise 400 else update now id
  route now Method.delete id = if text_eq id [] then raise 400 else delete id
  route now Method.other id = raise 405

  -- `ServeHTTP`; what follows the identifier in the path is not looked at.
  unfoldable pub serve : ℕ → Action ℕ S (Answer Body)
  unfolding entity_id_from_path route
  serve now = elim (entity_id_from_path r.decode r.path api_path) [
    | none ↦ raise 400
    | some (id, verb) ↦ if contains id (codes "/") then raise 404 else route now r.method id
  ]
