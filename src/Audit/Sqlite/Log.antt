-- ===== src/Audit/Sqlite/Log.antt =====
-- The audit log through the calls of its store: what they write, and what a query answers.
use pk_modules.Common.{
  ℕ, zero, suc, ◌+◌, ◌≤◌, ◌<◌, ◌≡◌, ◌⊎◌, refl, sym, ap, subst, ◌∙◌, inl, inr, true, false, Option,
  none, some, List, [], ◌∷◌, ◌++◌, Result, ok, err, length, drop, In, filter, In-filter, filter-In,
  sort_by, IsSorted, IsOrder, sort_by-IsSorted, count_if, arith, Bool-cases,
}
use pk_modules.Common.Int.{pos}
use pk_modules.Common.Rows.{length-take_le, length-filter, append_assoc, append_nil}
use pk_modules.Common.Text.{is_blank, text_eq_iff}
use pk_modules.Sql.{Conn, Adapter}
use pk_modules.Sql.Keys.{Unique, Unique-snoc}
use pk_modules.Sql.Paging
use pk_modules.Sql.Paging.{
  page, clamp_limit_le, In-page, page-In, IsSorted-take, IsSorted-drop, take-drop_next,
}
use pk_modules.Audit.{Error, Event, Filter}
use pk_modules.Audit.Sqlite.{
  has_id, violated, stamp, append, selects, earlier, clamp_limit, clamp_offset, query,
}

-- One call of the store, with its clock reading; it may fail.
pub data Step (a : Adapter Error) : Conn Event → Conn Event → Type 0 where
  appended : (s : Conn Event) (now : ℕ) (e : Option Event) → Step a s (append a now e s).1
  queried : (s : Conn Event) (f : Filter) → Step a s (query f s).1

pub data Reach (a : Adapter Error) (s : Conn Event) : Conn Event → Type 0 where
  here : Reach a s s
  next : {t u : Conn Event} → Reach a s t → Step a t u → Reach a s u

-- A log that still begins with what it held, and whose events differ in their identifiers.
pub record IsGrown (rows rows' : List Event) : Type 0 where
  pub more : List Event
  pub grown : rows' ≡ rows ++ more
  pub unique : Unique has_id rows'

pub append_rows :
    (a : Adapter Error) (now : ℕ) (e : Event) (s : Conn Event)
    → ((append a now (some e) s).1.rows ≡ s.rows)
      ⊎ (((append a now (some e) s).1.rows ≡ s.rows ++ stamp now e ∷ [])
          × (violated a (stamp now e) s.rows ≡ none))
unfolding append
append_rows a now e s = ground arith

query_rows : (f : Filter) (s : Conn Event) → (query f s).1.rows ≡ s.rows
unfolding query
query_rows f s = ground arith

Step-IsGrown :
    (a : Adapter Error) {rows : List Event} {s t : Conn Event}
    → Step a s t
    → IsGrown rows s.rows
    → IsGrown rows t.rows
unfolding append violated
Step-IsGrown a (appended s now none) g = g
Step-IsGrown a {rows = rows} (appended s now (some e)) g = elim (append_rows a now e s) [
  | inl k ↦ subst (IsGrown rows) (sym k) g
  | inr (k, new) ↦
      let row = stamp now e in
      subst (IsGrown rows) (sym k) (record {
        more = g.more ++ row ∷ [];
        grown = rw (← append_assoc rows g.more (row ∷ []), ← g.grown) refl;
        unique =
            Unique-snoc has_id row s.rows g.unique (λ id q. ground (arith, text_eq_iff row.id id));
      })
]
Step-IsGrown a {rows = rows} (queried s f) g = subst (IsGrown rows) (sym (query_rows f s)) g

-- The log is append-only: after any appends and queries, with whatever events, clock readings and
-- driver errors, it begins with the events that it held, in their order and unchanged, and no two of
-- its events share an identifier if none did before.
pub Reach-IsGrown :
    (a : Adapter Error) {s t : Conn Event}
    → Reach a s t
    → Unique has_id s.rows
    → IsGrown s.rows t.rows
Reach-IsGrown a {s = s} here u = record { more = []; grown = sym (append_nil s.rows); unique = u }
Reach-IsGrown a (next path step) u = Step-IsGrown a step (Reach-IsGrown a path u)

-- What a filter asks of an event.
pub record Matches (f : Filter) (e : Event) : Type 0 where
  pub tenant : e.tenant_id ≡ f.tenant_id
  pub actor : (f.actor ≡ []) ⊎ (e.actor ≡ f.actor)
  pub action : (f.action ≡ []) ⊎ (e.action ≡ f.action)
  pub since : f.since ≤ e.emitted_at
  pub until : (f.until ≡ 0) ⊎ (e.emitted_at < f.until)

selects-Matches : (f : Filter) (e : Event) → selects f e ≡ true → Matches f e
unfolding selects
selects-Matches f e h = record {
  tenant = ground (arith, text_eq_iff e.tenant_id f.tenant_id);
  actor = ground (arith, text_eq_iff e.actor f.actor, text_eq_iff f.actor []);
  action = ground (arith, text_eq_iff e.action f.action, text_eq_iff f.action []);
  since = ground arith;
  until = ground arith;
}

pub Matches-selects : (f : Filter) (e : Event) → Matches f e → selects f e ≡ true
unfolding selects
Matches-selects f e m = ground (
  arith,
  m.tenant,
  m.actor,
  m.action,
  m.since,
  m.until,
  text_eq_iff e.tenant_id f.tenant_id,
  text_eq_iff e.actor f.actor,
  text_eq_iff f.actor [],
  text_eq_iff e.action f.action,
  text_eq_iff f.action [],
)

-- The order of the log.
earlier-IsOrder : IsOrder earlier
earlier-IsOrder = record { asym = λ x y h. ground arith; neg_trans = λ x y z h k. ground arith }

query_page :
    (f : Filter) (es : List Event) (s s' : Conn Event)
    → query f s ≡ (ok es, s')
    → is_blank f.tenant_id ≡ false
    → es ≡ page earlier (clamp_limit f) (clamp_offset f) (filter (selects f) s.rows)
unfolding query
query_page f es s s' h b = ground arith

query_blank :
    (f : Filter) (es : List Event) (s s' : Conn Event)
    → query f s ≡ (ok es, s')
    → is_blank f.tenant_id ≡ true
    → es ≡ []
unfolding query
query_blank f es s s' h b = ground arith

-- What the caller of a query may rely on.
pub record IsAnswer (f : Filter) (rows es : List Event) : Type 0 where
  pub bounded : length es ≤ 1000
  pub sorted : IsSorted earlier es
  pub sound : (e : Event) → In e es → In e rows × Matches f e × (is_blank f.tenant_id ≡ false)
  pub complete :
      (e : Event)
      → In e rows
      → Matches f e
      → is_blank f.tenant_id ≡ false
      → clamp_offset f ≡ 0
      → count_if (selects f) rows ≤ clamp_limit f
      → In e es

limit_le : (f : Filter) → clamp_limit f ≤ 1000
unfolding clamp_limit
limit_le f = clamp_limit_le 100 f.limit (omega arith)

pub page-IsAnswer :
    (f : Filter) (rows : List Event)
    → is_blank f.tenant_id ≡ false
    → IsAnswer f rows (page earlier (clamp_limit f) (clamp_offset f) (filter (selects f) rows))
page-IsAnswer f rows b =
    let hits = filter (selects f) rows in
    let sorted = sort_by earlier hits in
    record {
      bounded =
          omega (arith, length-take_le (clamp_limit f) (drop (clamp_offset f) sorted), limit_le f);
      sorted =
          IsSorted-take earlier (clamp_limit f) (drop (clamp_offset f) sorted)
            (IsSorted-drop earlier (clamp_offset f) sorted (sort_by-IsSorted earlier-IsOrder hits));
      sound = λ e m.
          let (i, q) =
            In-filter e (selects f) rows
              (In-page earlier (clamp_limit f) (clamp_offset f) hits e m) in
          (i, selects-Matches f e q, b);
      complete = λ e i m given start room. rw start (
          page-In earlier (clamp_limit f) hits e
            (omega (arith, room, length-filter (selects f) rows))
            (filter-In e (selects f) rows i (Matches-selects f e m)));
    }

-- A query that returns leaves the log as it is. It returns at most 1000 events, the oldest first,
-- each an event of the log that matches the filter; all that match, where the offset is not
-- positive and the limit leaves room for them; and none at all where the filter's tenant is blank.
pub query-IsAnswer :
    (f : Filter) (es : List Event) (s s' : Conn Event)
    → query f s ≡ (ok es, s')
    → (s'.rows ≡ s.rows) × IsAnswer f s.rows es × (is_blank f.tenant_id ≡ true → es ≡ [])
query-IsAnswer f es s s' h = (
  ap (λ (q : Result Error (List Event) × Conn Event). q.1.rows) (sym h) ∙ query_rows f s,
  elim (Bool-cases (is_blank f.tenant_id)) [
    | inl b ↦ rw (query_blank f es s s' h b) (record {
      bounded = omega arith;
      sorted = tt;
      sound = λ e m. elim m [ ];
      complete = λ e i m given start room. absurd (cc);
    })
    | inr b ↦ rw (query_page f es s s' h b) (page-IsAnswer f s.rows b)
  ],
  query_blank f es s s' h,
)

-- The connection without faults to come.
abbrev pub calm : Conn Event → Conn Event
calm s = record s { faults = [] }

abbrev pub events : Result Error (List Event) → List Event
events (ok es) = es
events (err e) = []

pub calm_events :
    (f : Filter) (s : Conn Event)
    → is_blank f.tenant_id ≡ false
    → events (query f (calm s)).0
      ≡ page earlier (clamp_limit f) (clamp_offset f) (filter (selects f) s.rows)
unfolding query
calm_events f s b = rw b refl

-- The filter's page at an offset.
abbrev pub at : Filter → ℕ → ℕ → Filter
at f limit offset = record f { limit = pos limit; offset = pos offset }

limit_at :
    (f : Filter) (limit offset : ℕ)
    → 1 ≤ limit
    → limit ≤ 1000
    → clamp_limit (at f limit offset) ≡ limit
unfolding clamp_limit Paging.clamp_limit
limit_at f zero offset h k = absurd (omega arith)
limit_at f (suc n) offset h k = ground arith

offset_at : (f : Filter) (limit offset : ℕ) → clamp_offset (at f limit offset) ≡ offset
unfolding clamp_offset Paging.clamp_offset
offset_at f limit offset = refl

same_rows :
    (f : Filter) (limit offset : ℕ) → filter (selects (at f limit offset)) ≡ filter (selects f)
unfolding selects
same_rows f limit offset = refl

-- Two consecutive pages of a log that does not change in between are the page of both their lengths:
-- nothing is read twice, and nothing is skipped, where events of one instant come in the order of the
-- table. The lengths are positive and at most 1000 together, the tenant is given, and the driver
-- reports no fault.
pub query-next :
    (f : Filter) (n m offset : ℕ) (s : Conn Event)
    → is_blank f.tenant_id ≡ false
    → 1 ≤ n
    → 1 ≤ m
    → n + m ≤ 1000
    → events (query (at f n offset) (calm s)).0 ++ events (query (at f m (offset + n)) (calm s)).0
      ≡ events (query (at f (n + m) offset) (calm s)).0
query-next f n m offset s b p q total =
    rw
      (
        calm_events (at f n offset) s b,
        calm_events (at f m (offset + n)) s b,
        calm_events (at f (n + m) offset) s b,
        same_rows f n offset,
        same_rows f m (offset + n),
        same_rows f (n + m) offset,
        limit_at f n offset p (omega arith),
        limit_at f m (offset + n) q (omega arith),
        limit_at f (n + m) offset (omega arith) total,
        offset_at f n offset,
        offset_at f m (offset + n),
        offset_at f (n + m) offset,
      )
      (take-drop_next n m offset (sort_by earlier (filter (selects f) s.rows)))
