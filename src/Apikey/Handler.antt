-- ===== src/Apikey/Handler.antt =====
-- pkg/apikey/handler.go over the key service.
use pk_modules.Common.{
  ℕ, suc, ◌-◌, ◌*◌, ◌%◌, none, some, List, [], Action, raise, or_raise, lift, pure, ◌>>=◌, ◌>>◌,
  if◌then◌else◌, ltb,
}
use pk_modules.Common.Int.{ℤ, pos, negsuc}
use pk_modules.Common.Text.{Text, codes, text_eq}
use pk_modules.Http.{
  Method, Request, Answer, write_json, no_content, or_status, entity_id_from_path, tenant_of,
  request_actor,
}
use pk_modules.Apikey.{Error, ApiKey}
use pk_modules.Apikey.Service
use pk_modules.Apikey.Service.{Service, World, Draws}

-- `APIPath`
abbrev pub api_path : Text
api_path = codes "/api/v1/api-keys"

-- `issueRequest`
pub record Input : Type 0 where
  pub name : Text
  pub scopes : List Text
  pub ttl_seconds : ℤ

-- What a handler writes: `issueResponse`, or a list.
pub data Body : Type 0 where
  issued : Text → ApiKey → Body
  many : List ApiKey → Body

-- A residue of 2^64 as an int64.
unfoldable pub to_int64 : ℕ → ℤ
to_int64 m = if ltb m 9223372036854775808 then pos m else negsuc (18446744073709551615 - m)

-- `time.Duration(n) * time.Second`, which wraps around in 64 bits
unfoldable pub seconds : ℤ → ℤ
unfolding to_int64
seconds (pos n) = to_int64 (n * 1000000000 % 18446744073709551616)
seconds (negsuc n) =
    to_int64
      ((18446744073709551616 - suc n * 1000000000 % 18446744073709551616) % 18446744073709551616)

unfoldable pub revoke_status : Error → ℕ
revoke_status Error.not_found = 404
revoke_status _ = 500

module _ {S : Type 0} (svc : Service S) (r : Request Input) where
  unfoldable pub issue : ℕ → Draws → Action ℕ (World S) (Answer Body)
  unfolding request_actor seconds or_status
  issue now draws = do
    actor ← lift (request_actor r.principal)
    input ← or_raise r.body 400
    key ←
        or_status (λ e. 400)
          (Service.issue svc now draws actor.0 actor.1 input.name input.scopes
            (seconds input.ttl_seconds))
    pure (write_json 201 (issued key.0 key.1))

  unfoldable pub list : Action ℕ (World S) (Answer Body)
  unfolding tenant_of or_status
  list = do
    tenant ← lift (tenant_of r.principal)
    keys ← or_status (λ e. 500) (Service.list svc tenant)
    pure (write_json 200 (many keys))

  unfoldable pub revoke : ℕ → Text → Action ℕ (World S) (Answer Body)
  unfolding tenant_of revoke_status or_status
  revoke now id = do
    tenant ← lift (tenant_of r.principal)
    or_status revoke_status (Service.revoke svc now tenant id)
    pure no_content

  -- The switch of ServeHTTP.
  unfoldable pub route : ℕ → Draws → Method → Text → Action ℕ (World S) (Answer Body)
  unfolding issue list revoke
  route now draws Method.get id = if text_eq id [] then list else raise 405
  route now draws Method.post id = if text_eq id [] then issue now draws else raise 405
  route now draws Method.put id = raise 405
  route now draws Method.delete id = if text_eq id [] then raise 400 else revoke now id
  route now draws Method.other id = raise 405

  -- `ServeHTTP`
  unfoldable pub serve : ℕ → Draws → Action ℕ (World S) (Answer Body)
  unfolding entity_id_from_path route
  serve now draws = elim (entity_id_from_path r.decode r.path api_path) [
    | none ↦ raise 400
    | some (id, verb) ↦ route now draws r.method id
  ]
