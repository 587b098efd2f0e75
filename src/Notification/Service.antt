-- ===== src/Notification/Service.antt =====
-- pkg/notification/service.go and convert.go over any store and any channels, which share a state:
-- a channel is `portslib.NotificationChannel`, and the in-app channel is the one of the module. JSON
-- and the printing of an instant are parameters. An audit emission is recorded as an attempt: the
-- source drops its errors.
pub mod Dispatch
pub mod Inbox
use pk_modules.Common.{
  ℕ, Bool, not, ◌||◌, Option, none, some, List, [], ◌∷◌, ◌++◌, map, Action, Result, ok, err, pure,
  lift, raise, raise_if, ◌>>=◌, ◌>>◌, ◌==◌, if◌then◌else◌, leb, length, take,
}
use pk_modules.Common.Int.{ℤ}
use pk_modules.Common.Text.{Text, codes, is_blank, text_eq}
use pk_modules.Sql.{on_error}
use pk_modules.Notification.{
  Error, Notification, Row, Subscription, Store, severity_info, severity_warning, severity_critical,
  channel_in_app, validate_subscription, nil_notification, nil_subscription, tenant_id_required,
  user_id_required, bad_severity, marshal_failed, deliver,
}

-- JSON of a map.
pub record Codec (V : Type 0) : Type 0 where
  pub marshal : List (Text × V) → Option Text
  pub unmarshal : Text → Option (List (Text × V))

-- A channel reads the clock at its turn.
pub record Channel (S V : Type 0) : Type 0 where
  pub name : Text
  pub send : ℕ → Notification V → Action Error S (Unit {0})

-- `service`; a channel that is nil stands as none, and `unix_nano` prints an instant as `%d` does its
-- nanoseconds since 1970
pub record Service (S V : Type 0) : Type 0 where
  pub store : Store S
  pub channels : List (Option (Channel S V))
  pub audited : Bool
  pub codec : Codec V
  pub unix_nano : ℕ → Text

pub record Event : Type 0 where
  pub action : Text
  pub resource : Text
  pub user_id : Text
  pub severity : Text
  pub category : Text

pub record World (S : Type 0) : Type 0 where
  pub conn : S
  pub events : List Event

module _ {V : Type 0} (codec : Codec V) where
  -- `toStore`: an empty map is not printed.
  unfoldable pub data_text_of : List (Text × V) → Result Error Text
  data_text_of [] = ok []
  data_text_of (d ∷ ds) = elim (codec.marshal (d ∷ ds)) [
    | none ↦ err marshal_failed
    | some raw ↦ ok raw
  ]

  unfoldable pub to_store : Notification V → Result Error Row
  unfolding data_text_of
  to_store n = elim (data_text_of n.data_of) [
    | err e ↦ err e
    | ok body ↦ ok (record {
      id = n.id;
      tenant_id = n.tenant_id;
      user_id = n.user_id;
      title = n.title;
      body = n.body;
      category = n.category;
      severity = n.severity;
      data_text = body;
      read_at = none;
      emitted_at = n.emitted_at;
    })
  ]

  -- Data that is not JSON of a map reads as none.
  unfoldable pub data_of_text : Text → List (Text × V)
  data_of_text t = if text_eq t [] then [] else elim (codec.unmarshal t) [ none ↦ [] | some d ↦ d ]

  unfoldable pub from_store : Row → Notification V
  unfolding data_of_text
  from_store r = record {
    id = r.id;
    tenant_id = r.tenant_id;
    user_id = r.user_id;
    title = r.title;
    body = r.body;
    category = r.category;
    severity = r.severity;
    data_of = data_of_text r.data_text;
    emitted_at = r.emitted_at;
  }

-- `inAppChannel`, whose Deliver writes to the store
unfoldable pub in_app : {S V : Type 0} → Codec V → Store S → Channel S V
unfolding to_store
in_app codec store = record {
  name = channel_in_app;
  send = λ now n. lift (to_store codec n) >>= λ row. store.create now (some row);
}

-- A delivery, whose error is given the channel's name.
unfoldable pub attempt :
    {S V : Type 0} → Channel S V → ℕ → Notification V → Action Error S (Unit {0})
attempt c now n s =
    let (r, s') = c.send now n s in (elim r [ ok _ ↦ ok tt | err e ↦ err (deliver c.name e) ], s')

-- The loop over the channels, which the first error ends.
unfoldable pub dispatch :
    {S V : Type 0} → List (Option (Channel S V)) → ℕ → Notification V → Action Error S (Unit {0})
unfolding attempt
dispatch [] now n = pure tt
dispatch (none ∷ channels) now n = dispatch channels now n
dispatch (some c ∷ channels) now n = attempt c now n >> dispatch channels now n

unfoldable pub shorten : Text → Text
shorten s = if leb (length s) 32 then s else take 32 s

-- The cases of the switch in Create.
unfoldable pub is_severity : Text → Bool
is_severity s =
    text_eq s severity_info || (text_eq s severity_warning || text_eq s severity_critical)

module _ {S V : Type 0} (svc : Service S V) where
  unfoldable pub generate_id : ℕ → Text → Text → Text
  unfolding shorten
  generate_id emitted_at tenant_id key =
      svc.unix_nano emitted_at ++ (codes "-" ++ (shorten tenant_id ++ (codes "-" ++ shorten key)))

  -- The defaults that Create fills in, in its order.
  unfoldable pub with_defaults : ℕ → Notification V → Notification V
  unfolding generate_id
  with_defaults now n =
      let emitted = if n.emitted_at == 0 then now else n.emitted_at in
      record n {
        severity = if text_eq n.severity [] then severity_info else n.severity;
        emitted_at = emitted;
        id = if is_blank n.id then generate_id emitted n.tenant_id n.user_id else n.id;
      }

  -- A call of the store or of the channels.
  abbrev pub stored : {A : Type 0} → Action Error S A → Action Error (World S) A
  stored m w = let (r, conn) = m w.conn in (r, record w { conn = conn })

  unfoldable pub emit : Notification V → Text → Action Error (World S) (Unit {0})
  emit n action w = (
    ok tt,
    if svc.audited
        then record w {
          events =
              w.events
              ++ (record {
                action = action;
                resource = codes "notification:" ++ n.id;
                user_id = n.user_id;
                severity = n.severity;
                category = n.category;
              })
                ∷ [];
        }
        else w,
  )

  -- Returns the notification as it leaves it behind the caller's pointer; `clock` is what the
  -- channels read.
  unfoldable pub create : ℕ → ℕ → Option (Notification V) → Action Error (World S) (Notification V)
  unfolding with_defaults dispatch emit is_severity
  create now clock none = raise nil_notification
  create now clock (some given) = do
    raise_if (is_blank given.tenant_id) tenant_id_required
    raise_if (is_blank given.user_id) user_id_required
    let n : Notification V = with_defaults now given
    raise_if (not (is_severity n.severity)) bad_severity
    stored (dispatch svc.channels clock n)
    emit n (codes "notification.dispatched")
    pure n

  unfoldable pub get_by_user : Text → Text → ℤ → ℤ → Action Error (World S) (List (Notification V))
  unfolding from_store
  get_by_user tenant user limit offset = do
    rows ← stored (svc.store.get_by_user tenant user limit offset)
    pure (map (from_store svc.codec) rows)

  -- `now` is the service's reading of the clock.
  unfoldable pub mark_read : ℕ → ℕ → Text → Text → Text → Action Error (World S) (Unit {0})
  mark_read now store_now tenant user id = stored (svc.store.mark_read store_now tenant user id now)

  -- Returns the subscription as it leaves it behind the caller's pointer.
  unfoldable pub subscribe : ℕ → ℕ → Option Subscription → Action Error (World S) Subscription
  unfolding generate_id
  subscribe now store_now none = lift (validate_subscription none) >> raise nil_subscription
  subscribe now store_now (some given) = do
    lift (validate_subscription (some given))
    let created : ℕ = if given.created_at == 0 then now else given.created_at
    let key : Text = given.user_id ++ (codes ":" ++ given.channel)
    let sub : Subscription = record given {
      created_at = created;
      id = if is_blank given.id then generate_id created given.tenant_id key else given.id;
    }
    stored (svc.store.add_subscription store_now (some sub))
    pure sub

  unfoldable pub unsubscribe : Text → Text → Text → Action Error (World S) (Unit {0})
  unsubscribe tenant user id = stored (svc.store.remove_subscription tenant user id)
