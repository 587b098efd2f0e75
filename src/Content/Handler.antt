-- ===== src/Content/Handler.antt =====
-- pkg/content/handler.go over the content service.
use pk_modules.Common.{
  ℕ, none, some, List, [], Action, raise, or_raise, lift, pure, ◌>>=◌, ◌>>◌, if◌then◌else◌,
}
use pk_modules.Common.Text.{Text, codes, text_eq}
use pk_modules.Http.{
  Method, Request, Answer, write_json, no_content, or_status, entity_id_from_path, parse_pagination,
  tenant_of, request_actor,
}
use pk_modules.Content.{Error, Content, not_found, slug_taken, duplicate}
use pk_modules.Content.Service
use pk_modules.Content.Service.{Service, World}

-- `APIPath`
abbrev pub api_path : Text
api_path = codes "/api/v1/content"

-- What a handler writes.
pub data Body : Type 0 where
  one : Content → Body
  many : List Content → Body

-- `writeError`
unfoldable pub error_status : Error → ℕ
error_status not_found = 404
error_status slug_taken = 409
error_status duplicate = 409
error_status _ = 400

module _ {S : Type 0} (svc : Service S) (r : Request Content) where
  unfoldable pub list : Action ℕ (World S) (Answer Body)
  unfolding tenant_of parse_pagination or_status
  list = do
    tenant ← lift (tenant_of r.principal)
    page ← or_raise (parse_pagination r.query) 400
    rows ← or_status (λ e. 500) (Service.list svc tenant (r.query (codes "kind")) page.0 page.1)
    pure (write_json 200 (many rows))

  -- The tenant, the author and the identifier of the body are overwritten.
  unfoldable pub create : ℕ → Action ℕ (World S) (Answer Body)
  unfolding request_actor error_status or_status
  create now = do
    actor ← lift (request_actor r.principal)
    given ← or_raise r.body 400
    c ← or_status error_status (
        Service.create svc now
          (some (record given { tenant_id = actor.0; author_id = actor.1; id = [] })))
    pure (write_json 201 (one c))

  unfoldable pub get : Text → Action ℕ (World S) (Answer Body)
  unfolding tenant_of error_status or_status
  get id = do
    tenant ← lift (tenant_of r.principal)
    c ← or_status error_status (Service.get svc tenant id)
    pure (write_json 200 (one c))

  unfoldable pub update : ℕ → Text → Action ℕ (World S) (Answer Body)
  unfolding tenant_of error_status or_status
  update now id = do
    tenant ← lift (tenant_of r.principal)
    given ← or_raise r.body 400
    c ←
        or_status error_status
          (Service.update svc now (some (record given { id = id; tenant_id = tenant })))
    pure (write_json 200 (one c))

  unfoldable pub delete : Text → Action ℕ (World S) (Answer Body)
  unfolding tenant_of error_status or_status
  delete id = do
    tenant ← lift (tenant_of r.principal)
    or_status error_status (Service.delete svc tenant id)
    pure no_content

  unfoldable pub publish : ℕ → ℕ → Text → Action ℕ (World S) (Answer Body)
  unfolding tenant_of error_status or_status
  publish now stored_now id = do
    tenant ← lift (tenant_of r.principal)
    or_status error_status (Service.publish svc now stored_now tenant id)
    pure no_content

  unfoldable pub unpublish : ℕ → Text → Action ℕ (World S) (Answer Body)
  unfolding tenant_of error_status or_status
  unpublish stored_now id = do
    tenant ← lift (tenant_of r.principal)
    or_status error_status (Service.unpublish svc stored_now tenant id)
    pure no_content

  -- The routes without an identifier, those of a row, and those of its verbs.
  unfoldable pub route_all : ℕ → Method → Action ℕ (World S) (Answer Body)
  unfolding list create
  route_all now Method.get = list
  route_all now Method.post = create now
  route_all now _ = raise 405

  unfoldable pub route_one : ℕ → Method → Text → Action ℕ (World S) (Answer Body)
  unfolding get update delete
  route_one now Method.get id = get id
  route_one now Method.put id = update now id
  route_one now Method.delete id = delete id
  route_one now _ id = raise 405

  -- A verb takes POST only.
  abbrev posted : Method → Action ℕ (World S) (Answer Body) → Action ℕ (World S) (Answer Body)
  posted Method.post m = m
  posted _ m = raise 405

  -- `ServeHTTP`
  unfoldable pub serve : ℕ → ℕ → Action ℕ (World S) (Answer Body)
  unfolding entity_id_from_path route_all route_one publish unpublish
  serve now stored_now = elim (entity_id_from_path r.decode r.path api_path) [
    | none ↦ raise 400
    | some (id, verb) ↦
        if text_eq id []
        then route_all now r.method
        else if text_eq verb []
        then route_one now r.method id
        else if text_eq verb (codes "publish")
        then posted r.method (publish now stored_now id)
        else if text_eq verb (codes "unpublish")
        then posted r.method (unpublish stored_now id)
        else raise 404
  ]
