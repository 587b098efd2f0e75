-- ===== src/Audit/Service/Recording.antt =====
-- What a recorded event leaves in the log.
use pk_modules.Common.{
  ℕ, ◌≤◌, ◌≡◌, refl, sym, ap, ◌∙◌, inl, inr, false, Option, some, List, [], ◌∷◌, ◌++◌, Result, ok,
  pure, bind_ok, Result-cases, if◌then◌else◌, In, In-append_right, count_if, arith,
}
use pk_modules.Common.Text.{Text, is_blank, text_eq}
use pk_modules.Sql.{Conn, Adapter}
use pk_modules.Audit.{Error, Event, Filter, validate, severity_info}
use pk_modules.Audit.Sqlite.{stamp, append, query, selects, clamp_limit, clamp_offset, store}
use pk_modules.Audit.Sqlite.Log.{Matches, page-IsAnswer, calm, events, calm_events}
use pk_modules.Audit.Service.{
  Service, with_defaults, id_of, record_event, details_text, emit, emitter_for,
}

-- The service over an adapter's store.
abbrev pub over : Adapter Error → (ℕ → Text) → Service (Conn Event)
over a unix_nano = record { store = store a; unix_nano = unix_nano }

append_ok :
    (a : Adapter Error) (now : ℕ) (e row : Event) (s : Conn Event)
    → (append a now (some e) s).0 ≡ ok row
    → (row ≡ stamp now e) × ((append a now (some e) s).1.rows ≡ s.rows ++ stamp now e ∷ [])
unfolding append
append_ok a now e row s h = (ground arith, ground arith)

validate_given : (e : Event) → validate (some e) ≡ ok tt → is_blank e.tenant_id ≡ false
unfolding validate
validate_given e h = ground arith

-- The emitter's default and then the service's.
default_twice :
    (severity : Text)
    → (let given : Text = if text_eq severity [] then severity_info else severity in
        (if text_eq given [] then severity_info else given)
        ≡ (if text_eq severity [] then severity_info else severity))
unfolding text_eq
default_twice [] = refl
default_twice (c ∷ severity) = refl

module _ (a : Adapter Error) (unix_nano : ℕ → Text) where
  -- What Record wrote and returned.
  pub record IsRecorded (now store_now : ℕ) (draw : Option (List ℕ)) (e out : Event)
      (s s' : Conn Event) : Type 0 where
    pub given : is_blank e.tenant_id ≡ false
    pub id : Text
    pub named : id_of (over a unix_nano) draw (with_defaults now e) ≡ ok id
    pub row : out ≡ stamp store_now (record (with_defaults now e) { id = id })
    pub rows : s'.rows ≡ s.rows ++ out ∷ []

  record_event-IsRecorded :
      (now store_now : ℕ) (draw : Option (List ℕ)) (e out : Event) (s s' : Conn Event)
      → record_event (over a unix_nano) now store_now draw (some e) s ≡ (ok out, s')
      → IsRecorded now store_now draw e out s s'
  unfolding record_event
  record_event-IsRecorded now store_now draw e out s s' h =
      elim (Result-cases (validate (some e))) [
        | inr (x, k) ↦ absurd (ground (arith, k))
        | inl (_, valid) ↦
            elim (Result-cases (id_of (over a unix_nano) draw (with_defaults now e))) [
              | inr (x, k) ↦ absurd (ground (arith, k, valid))
              | inl (id, k) ↦
                  let row : Event = record (with_defaults now e) { id = id } in
                  elim (Result-cases (append a store_now (some row) s).0) [
                    | inr (x, l) ↦ absurd (ground (arith, k, valid, l))
                    | inl (r, l) ↦
                        let (same, rows) = append_ok a store_now row r s l in
                        let end : (append a store_now (some row) s).1 ≡ s' =
                          ground (arith, h, k, valid, l) in
                        let out_row : out ≡ record row { emitted_at = r.emitted_at } =
                          ground (arith, h, k, valid, l) in
                        let written : out ≡ stamp store_now row =
                          out_row
                          ∙ ap (λ (x : Event). record row { emitted_at = x.emitted_at }) same in
                        record {
                          given = validate_given e valid;
                          id = id;
                          named = k;
                          row = written;
                          rows =
                              ap (λ (c : Conn Event). c.rows) (sym end)
                              ∙ rows
                              ∙ ap (λ x. s.rows ++ x ∷ []) (sym written);
                        }
                  ]
            ]
      ]

  recorded_fields :
      (now store_now : ℕ) (draw : Option (List ℕ)) (e out : Event) (s s' : Conn Event)
      → IsRecorded now store_now draw e out s s'
      → (out.tenant_id ≡ e.tenant_id)
        × (out.actor ≡ e.actor)
        × (out.severity ≡ (if text_eq e.severity [] then severity_info else e.severity))
        × (out.action ≡ e.action)
        × (out.resource ≡ e.resource)
        × (out.details ≡ e.details)
  recorded_fields now store_now draw e out s s' i = (
    ap (λ (v : Event). v.tenant_id) i.row,
    ap (λ (v : Event). v.actor) i.row,
    ap (λ (v : Event). v.severity) i.row,
    ap (λ (v : Event). v.action) i.row,
    ap (λ (v : Event). v.resource) i.row,
    ap (λ (v : Event). v.details) i.row,
  )

  recorded-query :
      (now store_now : ℕ) (draw : Option (List ℕ)) (e out : Event) (s s' : Conn Event)
      → IsRecorded now store_now draw e out s s'
      → (f : Filter) → Matches f out
      → clamp_offset f ≡ 0
      → count_if (selects f) s'.rows ≤ clamp_limit f
      → In out (events (query f (calm s')).0)
  recorded-query now store_now draw e out s s' i f m start room =
      let tenant : f.tenant_id ≡ e.tenant_id =
        sym m.tenant ∙ ap (λ (x : Event). x.tenant_id) i.row in
      let given : is_blank f.tenant_id ≡ false = rw tenant i.given in
      rw (calm_events f s' given) (
        (page-IsAnswer f s'.rows given).complete out
          (rw i.rows (In-append_right out s.rows (out ∷ []) (inl refl))) m given start room)

  -- An event that Record returned is the last of the log, and every query whose filter it matches
  -- returns it, if the query starts at the first event and its limit leaves room for all that match,
  -- and the driver reports no fault. The event is the caller's with its defaults: the severity info,
  -- the time of the call (or the store's own reading, if that is the zero time) and, where the
  -- identifier is blank, one made of the draw.
  pub record_event-query :
      (now store_now : ℕ) (draw : Option (List ℕ)) (e out : Event) (s s' : Conn Event)
      → record_event (over a unix_nano) now store_now draw (some e) s ≡ (ok out, s')
      → (id : Text) × (id_of (over a unix_nano) draw (with_defaults now e) ≡ ok id)
        × (out ≡ stamp store_now (record (with_defaults now e) { id = id }))
        × (s'.rows ≡ s.rows ++ out ∷ [])
        × ((f : Filter)
            → Matches f out
            → clamp_offset f ≡ 0
            → count_if (selects f) s'.rows ≤ clamp_limit f
            → In out (events (query f (calm s')).0))
  record_event-query now store_now draw e out s s' h =
      let i = record_event-IsRecorded now store_now draw e out s s' h in
      (i.id, i.named, i.row, i.rows, recorded-query now store_now draw e out s s' i)

  -- An emission through EmitterFor's emitter that returned nil has appended one event, with the
  -- tenant, the actor and the severity of the emitter (info, if none was given), the action and the
  -- resource of the call, and its details as JSON, or no details for an empty map.
  pub emit-IsRecorded :
      {V : Type 0} (marshal : List (Text × V) → Option Text) (tenant actor severity : Text)
      (now store_now : ℕ) (draw : Option (List ℕ)) (action resource : Text)
      (details : List (Text × V)) (s s' : Conn Event)
      → emit marshal
          (emitter_for (some (over a unix_nano)) tenant actor severity)
          now
          store_now
          draw
          action
          resource
          details
          s
        ≡ (ok tt, s')
      → (out : Event) × (s'.rows ≡ s.rows ++ out ∷ [])
        × (out.tenant_id ≡ tenant)
        × (out.actor ≡ actor)
        × (out.severity ≡ (if text_eq severity [] then severity_info else severity))
        × (out.action ≡ action)
        × (out.resource ≡ resource)
        × (details_text marshal details ≡ ok out.details)
  unfolding emit emitter_for
  emit-IsRecorded marshal tenant actor severity now store_now draw action resource details s s' h =
      elim (Result-cases (details_text marshal details)) [
        | inr (x, k) ↦ absurd (ground (arith, k))
        | inl (body, k) ↦
            let e : Event = record {
              id = [];
              tenant_id = tenant;
              actor = actor;
              action = action;
              resource = resource;
              severity = if text_eq severity [] then severity_info else severity;
              details = body;
              emitted_at = 0;
            } in
            let write = record_event (over a unix_nano) now store_now draw (some e) in
            let (out, t, x, y) = bind_ok write (λ _. pure tt) s s' (rw k at h) in
            let end : t ≡ s' = ap (λ (q : Result Error (Unit {0}) × Conn Event). q.1) y in
            let i = record_event-IsRecorded now store_now draw e out s t x in
            let (of_tenant, by, level, what, on, with) =
              recorded_fields now store_now draw e out s t i in
            (
              out,
              ap (λ (c : Conn Event). c.rows) (sym end) ∙ i.rows,
              of_tenant,
              by,
              level ∙ default_twice severity,
              what,
              on,
              k ∙ ap ok (sym with),
            )
      ]
