-- ===== src/Audit/Service.antt =====
-- pkg/audit/service.go over any store: the service, the emitter and its constructor. The bytes of
-- crypto/rand are values, and JSON and the printing of an instant are parameters.

pub mod Recording
use pk_modules.Common.{
  ℕ, ◌+◌, ◌/◌, ◌%◌, Bool, Option, none, some, List, [], ◌∷◌, ◌++◌, Action, Result, ok, err, pure,
  lift, raise, or_raise, ◌>>=◌, ◌>>◌, ◌==◌, if◌then◌else◌, leb, ltb, length, take,
}
use pk_modules.Common.Text.{Text, codes, is_blank, text_eq}
use pk_modules.Audit.{
  Error, Event, Filter, Store, validate, severity_info, nil_event, no_service, marshal_failed,
  generate_failed,
}

-- `service`; `unix_nano` prints an instant as `%d` does its nanoseconds since 1970.
pub record Service (S : Type 0) : Type 0 where
  pub store : Store S
  pub unix_nano : ℕ → Text

unfoldable pub shorten : Text → Text
shorten s = if leb (length s) 16 then s else take 16 s

-- A digit of `hex.EncodeToString`, and the digits of the bytes.
abbrev hex_digit : ℕ → ℕ
hex_digit n = if ltb n 10 then 48 + n else 87 + n

unfoldable pub hex : List ℕ → Text
hex [] = []
hex (b ∷ bytes) = hex_digit (b / 16) ∷ hex_digit (b % 16) ∷ hex bytes

-- The defaults before an identifier is drawn.
abbrev pub with_defaults : ℕ → Event → Event
with_defaults now e = record e {
  severity = if text_eq e.severity [] then severity_info else e.severity;
  emitted_at = if e.emitted_at == 0 then now else e.emitted_at;
}

module _ {S : Type 0} (svc : Service S) where
  -- The draw of four bytes may fail.
  unfoldable pub generate_id : Option (List ℕ) → ℕ → Text → Text → Result Error Text
  unfolding shorten hex
  generate_id none emitted_at tenant_id action = err generate_failed
  generate_id (some bytes) emitted_at tenant_id action = ok (
      svc.unix_nano emitted_at
      ++ (codes "-"
          ++ (shorten tenant_id ++ (codes "-" ++ (shorten action ++ (codes "-" ++ hex bytes))))))

  -- The identifier of the event, drawn if it has none.
  unfoldable pub id_of : Option (List ℕ) → Event → Result Error Text
  unfolding generate_id
  id_of draw e =
      if is_blank e.id then generate_id draw e.emitted_at e.tenant_id e.action else ok e.id

  -- `Record`: returns the event as it leaves it behind the caller's pointer. The reading `store_now`
  -- is one that the store would make if `now` were the zero time.
  unfoldable pub record_event : ℕ → ℕ → Option (List ℕ) → Option Event → Action Error S Event
  unfolding id_of
  record_event now store_now draw none = lift (validate none) >> raise nil_event
  record_event now store_now draw (some given) = do
    lift (validate (some given))
    let e : Event = with_defaults now given
    id ← lift (id_of draw e)
    row ← svc.store.append store_now (some (record e { id = id }))
    pure (record e { id = id; emitted_at = row.emitted_at })

  unfoldable pub query : Filter → Action Error S (List Event)
  query f = svc.store.query f

-- `emitter` over the service that it was given, if any; the details are a map with JSON's printer.
pub record Emitter (S : Type 0) : Type 0 where
  pub svc : Option (Service S)
  pub tenant_id : Text
  pub actor : Text
  pub severity : Text

-- `EmitterFor`
unfoldable pub emitter_for : {S : Type 0} → Option (Service S) → Text → Text → Text → Emitter S
emitter_for svc tenant_id actor severity = record {
  svc = svc;
  tenant_id = tenant_id;
  actor = actor;
  severity = if text_eq severity [] then severity_info else severity;
}

module _ {V : Type 0} (marshal : List (Text × V) → Option Text) where
  -- An empty map is not printed.
  unfoldable pub details_text : List (Text × V) → Result Error Text
  details_text [] = ok []
  details_text (d ∷ ds) = elim (marshal (d ∷ ds)) [
    | none ↦ err marshal_failed
    | some body ↦ ok body
  ]

  -- `Emit`
  unfoldable pub emit :
      {S : Type 0}
      → Emitter S
      → ℕ
      → ℕ
      → Option (List ℕ)
      → Text
      → Text
      → List (Text × V)
      → Action Error S (Unit {0})
  unfolding details_text
  emit em now store_now draw action resource details = do
    svc ← or_raise em.svc no_service
    body ← lift (details_text details)
    record_event svc now store_now draw (
        some (record {
          id = [];
          tenant_id = em.tenant_id;
          actor = em.actor;
          action = action;
          resource = resource;
          severity = em.severity;
          details = body;
          emitted_at = 0;
        }))
    pure tt
