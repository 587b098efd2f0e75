-- ===== src/Audit/Handler.antt =====
-- pkg/audit/handler.go over the audit service, whose reader it is. `time.Parse(time.RFC3339, …)` is a
-- parameter.
use pk_modules.Common.{
  ℕ, Option, some, List, [], Action, raise, or_raise, lift, pure, ◌>>=◌, if◌then◌else◌,
}
use pk_modules.Common.Text.{Text, codes, text_eq}
use pk_modules.Http.{Method, Request, Answer, write_json, or_status, parse_pagination, tenant_of}
use pk_modules.Audit.{Event}
use pk_modules.Audit.Service
use pk_modules.Audit.Service.{Service}

-- A bound of the query string, which is optional.
unfoldable pub bound : (Text → Option ℕ) → Text → Option ℕ
bound parse_time v = if text_eq v [] then some 0 else parse_time v

module _ {S : Type 0} (svc : Service S) (parse_time : Text → Option ℕ)
    (r : Request (Unit {0})) where
  unfoldable pub list : Action ℕ S (Answer (List Event))
  unfolding tenant_of bound parse_pagination or_status
  list = do
    tenant ← lift (tenant_of r.principal)
    since ← or_raise (bound parse_time (r.query (codes "since"))) 400
    until ← or_raise (bound parse_time (r.query (codes "until"))) 400
    page ← or_raise (parse_pagination r.query) 400
    events ←
        or_status (λ e. 500)
          (Service.query svc (record {
            tenant_id = tenant;
            actor = r.query (codes "actor");
            action = r.query (codes "action");
            since = since;
            until = until;
            limit = page.0;
            offset = page.1;
          }))
    pure (write_json 200 events)

  -- `ServeHTTP`
  unfoldable pub route : Method → Action ℕ S (Answer (List Event))
  unfolding list
  route Method.get = list
  route _ = raise 405

  unfoldable pub serve : Action ℕ S (Answer (List Event))
  unfolding route
  serve = route r.method
