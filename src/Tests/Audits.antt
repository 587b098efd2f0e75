-- ===== src/Tests/Audits.antt =====
-- pkg/audit at a concrete log.
use pk_modules.Common.{
  ℕ, ◌+◌, ◌≤◌, ◌≡◌, refl, false, true, Option, some, List, [], ◌∷◌, ◌++◌, ok, if◌then◌else◌, In,
  count_if, filter, sort_by, arith,
}
use pk_modules.Common.Int.{pos}
use pk_modules.Common.Text.{Text, codes, is_blank, text_eq}
use pk_modules.Sql.{Adapter, Conn}
use pk_modules.Sql.Keys.{Unique}
use pk_modules.Audit.{Error, Event, Filter, validate, severity_info, is_severity}
use pk_modules.Audit.Sqlite.{
  sqlite, has_id, stamp, append, query, selects, clamp_limit, clamp_offset,
}
use pk_modules.Audit.Sqlite.Log.{
  Step, Reach, IsGrown, Reach-IsGrown, Matches, IsAnswer, query-IsAnswer, query-next, calm, events,
  at,
}
use pk_modules.Audit.Service.{
  with_defaults, id_of, record_event, details_text, emit, emitter_for, shorten, hex, generate_id,
}
use pk_modules.Audit.Service.Recording.{over, record_event-query, emit-IsRecorded}
use pk_modules.Tests.Fixtures.{driver}

abbrev adapter : Adapter Error
adapter = sqlite driver

abbrev signed_in : Event
signed_in = record {
  id = [];
  tenant_id = codes "t";
  actor = codes "ann";
  action = codes "auth.login.success";
  resource = codes "u1";
  severity = [];
  details = [];
  emitted_at = 0;
}

-- The printer of instants and the draw.
abbrev unix_nano : ℕ → Text
unix_nano n = codes "7"

abbrev draw : Option (List ℕ)
draw = some (1 ∷ 171 ∷ 0 ∷ 255 ∷ [])

abbrev stored : Event
stored = record signed_in {
  id = codes "7-t-auth.login.succe-01ab00ff";
  severity = severity_info;
  emitted_at = 7;
}

abbrev empty : Conn Event
empty = record { rows = []; faults = [] }

abbrev full : Conn Event
full = record { rows = stored ∷ []; faults = [] }

recorded : record_event (over adapter unix_nano) 7 0 draw (some signed_in) empty ≡ (ok stored, full)
unfolding record_event validate is_severity is_blank text_eq generate_id shorten hex append count_if
    id_of
recorded = refl

Unique-empty : Unique has_id []
unfolding count_if
Unique-empty id = omega arith

Reach-IsGrown_example :
    IsGrown []
      (query
        (record {
          tenant_id = codes "t";
          actor = [];
          action = [];
          since = 0;
          until = 0;
          limit = pos 0;
          offset = pos 0;
        })
        (append adapter 9 (some signed_in) empty).1).1.rows
Reach-IsGrown_example =
    Reach-IsGrown adapter
      (Reach.next (Reach.next Reach.here (Step.appended empty 9 (some signed_in))) (
        Step.queried (append adapter 9 (some signed_in) empty).1 (record {
          tenant_id = codes "t";
          actor = [];
          action = [];
          since = 0;
          until = 0;
          limit = pos 0;
          offset = pos 0;
        })))
      Unique-empty

abbrev anns : Filter
anns = record {
  tenant_id = codes "t";
  actor = codes "ann";
  action = [];
  since = 5;
  until = 0;
  limit = pos 0;
  offset = pos 0;
}

answered : query anns full ≡ (ok (stored ∷ []), full)
unfolding query selects filter sort_by is_blank text_eq
answered = refl

query-IsAnswer_example :
    (full.rows ≡ full.rows)
    × IsAnswer anns full.rows (stored ∷ [])
    × (is_blank (codes "t") ≡ true → stored ∷ [] ≡ [])
query-IsAnswer_example = query-IsAnswer anns (stored ∷ []) full full answered

anns_given : is_blank anns.tenant_id ≡ false
unfolding is_blank
anns_given = refl

query-next_example :
    events (query (at anns 1 0) (calm full)).0 ++ events (query (at anns 2 (0 + 1)) (calm full)).0
    ≡ events (query (at anns (1 + 2) 0) (calm full)).0
query-next_example = query-next anns 1 2 0 full anns_given (omega arith) (omega arith) (omega arith)

record_event-query_example :
    (id : Text) × (id_of (over adapter unix_nano) draw (with_defaults 7 signed_in) ≡ ok id)
    × (stored ≡ stamp 0 (record (with_defaults 7 signed_in) { id = id }))
    × (full.rows ≡ [] ++ stored ∷ [])
    × ((f : Filter)
        → Matches f stored
        → clamp_offset f ≡ 0
        → count_if (selects f) full.rows ≤ clamp_limit f
        → In stored (events (query f (calm full)).0))
record_event-query_example =
    record_event-query adapter unix_nano 7 0 draw signed_in stored empty full recorded

-- One detail, as a toy printer prints it.
abbrev print : List (Text × Text) → Option Text
print [] = some (codes "{}")
print (d ∷ ds) = some (d.0 ++ codes "=" ++ d.1)

abbrev after : Conn Event
after =
    (emit print (emitter_for (some (over adapter unix_nano)) (codes "t") (codes "ann") []) 7 0 draw
      (codes "content.created") (codes "content:1") ((codes "kind", codes "page") ∷ []) empty).1

emitted :
    emit print
      (emitter_for (some (over adapter unix_nano)) (codes "t") (codes "ann") [])
      7
      0
      draw
      (codes "content.created")
      (codes "content:1")
      ((codes "kind", codes "page") ∷ [])
      empty
    ≡ (ok tt, after)
unfolding emit emitter_for details_text record_event validate is_severity is_blank text_eq
    generate_id id_of append count_if
emitted = refl

emit-IsRecorded_example :
    (out : Event) × (after.rows ≡ [] ++ out ∷ [])
    × (out.tenant_id ≡ codes "t")
    × (out.actor ≡ codes "ann")
    × (out.severity ≡ (if text_eq [] [] then severity_info else []))
    × (out.action ≡ codes "content.created")
    × (out.resource ≡ codes "content:1")
    × (details_text print ((codes "kind", codes "page") ∷ []) ≡ ok out.details)
emit-IsRecorded_example =
    emit-IsRecorded adapter unix_nano print (codes "t") (codes "ann") [] 7 0 draw
      (codes "content.created") (codes "content:1") ((codes "kind", codes "page") ∷ []) empty after
      emitted
