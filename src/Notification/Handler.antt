-- ===== src/Notification/Handler.antt =====
-- pkg/notification/handler.go over the notification service: four routes, each for the principal's
-- tenant and subject.
use pk_modules.Common.{
  ℕ, some, List, [], Action, raise, or_raise, lift, pure, ◌>>=◌, ◌>>◌, if◌then◌else◌,
}
use pk_modules.Common.Text.{Text, codes, text_eq}
use pk_modules.Http.{
  Method, Request, Answer, write_json, no_content, or_status, entity_id_from_path, parse_pagination,
  request_actor,
}
use pk_modules.Notification.{Error, Notification, Subscription, not_found, duplicate}
use pk_modules.Notification.Service
use pk_modules.Notification.Service.{Service, World}

-- `APIPath`
abbrev pub api_path : Text
api_path = codes "/api/v1/notifications"

-- `SubscriptionAPIPath`
abbrev pub subscription_api_path : Text
subscription_api_path = codes "/api/v1/notification-subscriptions"

-- What a handler writes.
pub data Body (V : Type 0) : Type 0 where
  one : Notification V → Body V
  many : List (Notification V) → Body V
  subscribed : Subscription → Body V

-- `writeError`; what a channel reports may be an error of the store
unfoldable pub error_status : Error → ℕ
error_status not_found = 404
error_status duplicate = 409
error_status (Error.deliver name e) = error_status e
error_status _ = 400

module _ {S V : Type 0} (svc : Service S V) where
  unfoldable pub list :
      Request (Notification V) → Text → Text → Action ℕ (World S) (Answer (Body V))
  unfolding parse_pagination or_status
  list r tenant subject = do
    page ← or_raise (parse_pagination r.query) 400
    got ← or_status (λ e. 500) (Service.get_by_user svc tenant subject page.0 page.1)
    pure (write_json 200 (many got))

  -- What the server owns of the body is overwritten.
  unfoldable pub create :
      ℕ → ℕ → Request (Notification V) → Text → Text → Action ℕ (World S) (Answer (Body V))
  unfolding error_status or_status
  create now clock r tenant subject = do
    given ← or_raise r.body 400
    n ← or_status error_status (
        Service.create svc now clock
          (some (record given { id = []; tenant_id = tenant; user_id = subject; emitted_at = 0 })))
    pure (write_json 201 (one n))

  unfoldable pub route_notifications :
      ℕ → ℕ → Request (Notification V) → Method → Text → Text → Action ℕ (World S) (Answer (Body V))
  unfolding list create
  route_notifications now clock r Method.get tenant subject = list r tenant subject
  route_notifications now clock r Method.post tenant subject = create now clock r tenant subject
  route_notifications now clock r _ tenant subject = raise 405

  unfoldable pub serve_notifications :
      ℕ → ℕ → Request (Notification V) → Action ℕ (World S) (Answer (Body V))
  unfolding request_actor route_notifications
  serve_notifications now clock r = do
    actor ← lift (request_actor r.principal)
    route_notifications now clock r r.method actor.0 actor.1

  -- A verb takes POST only, a subscription's removal DELETE only.
  abbrev posted : {A : Type 0} → Method → Action ℕ (World S) A → Action ℕ (World S) A
  posted Method.post m = m
  posted _ m = raise 405

  abbrev deleted : {A : Type 0} → Method → Action ℕ (World S) A → Action ℕ (World S) A
  deleted Method.delete m = m
  deleted _ m = raise 405

  unfoldable pub serve_notification_item :
      ℕ → ℕ → Request (Unit {0}) → Action ℕ (World S) (Answer (Body V))
  unfolding request_actor entity_id_from_path error_status or_status
  serve_notification_item now store_now r = do
    actor ← lift (request_actor r.principal)
    found ← or_raise (entity_id_from_path r.decode r.path api_path) 400
    if text_eq found.1 (codes "read")
        then posted r.method (
            or_status error_status (Service.mark_read svc now store_now actor.0 actor.1 found.0)
            >> pure no_content)
        else raise 404

  -- What the server owns of the body is overwritten.
  unfoldable pub subscribe :
      ℕ → ℕ → Request Subscription → Text → Text → Action ℕ (World S) (Answer (Body V))
  unfolding error_status or_status
  subscribe now store_now r tenant subject = do
    given ← or_raise r.body 400
    sub ← or_status error_status (
        Service.subscribe svc now store_now
          (some (record given { id = []; tenant_id = tenant; user_id = subject; created_at = 0 })))
    pure (write_json 201 (subscribed sub))

  unfoldable pub serve_subscriptions :
      ℕ → ℕ → Request Subscription → Action ℕ (World S) (Answer (Body V))
  unfolding request_actor subscribe
  serve_subscriptions now store_now r = do
    actor ← lift (request_actor r.principal)
    posted r.method (subscribe now store_now r actor.0 actor.1)

  unfoldable pub serve_subscription_item : Request (Unit {0}) → Action ℕ (World S) (Answer (Body V))
  unfolding request_actor entity_id_from_path error_status or_status
  serve_subscription_item r = do
    actor ← lift (request_actor r.principal)
    found ← or_raise (entity_id_from_path r.decode r.path subscription_api_path) 400
    deleted r.method (
        or_status error_status (Service.unsubscribe svc actor.0 actor.1 found.0) >> pure no_content)
