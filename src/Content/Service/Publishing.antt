-- ===== src/Content/Service/Publishing.antt =====
-- Publication through the service and SQLite.
use pk_modules.Common.Rows.{find-map_if}
use pk_modules.Common.{
  Action, ℕ, ◌≡◌, refl, sym, ap, ◌∙◌, Bool, Option, none, some, [], Result, ok, bind_ok, ◌>>=◌,
  ◌>>◌, find, map_if, arith,
}
use pk_modules.Common.Text.{Text, codes}
use pk_modules.Sql.{Conn, Adapter}
use pk_modules.Content.{Content, Error}
use pk_modules.Content.Sqlite.{is_key, store, get, set_published}
use pk_modules.Content.Service.{Service, World, stored, emit, publish, unpublish}

-- The connection without faults to come.
abbrev pub calm : Conn Content → Conn Content
calm s = record s { faults = [] }

get_ok :
    (tenant id : Text) (c : Content) (s s' : Conn Content)
    → get tenant id s ≡ (ok c, s')
    → (find (is_key tenant id) s.rows ≡ some c) × (s'.rows ≡ s.rows)
unfolding get
get_ok tenant id c s s' h = (ground arith, ground arith)

set_published_ok :
    (now : ℕ) (tenant id : Text) (at : Option ℕ) (s s' : Conn Content)
    → set_published now tenant id at s ≡ (ok tt, s')
    → s'.rows
      ≡ map_if (is_key tenant id) (λ c. record c { published_at = at; updated_at = now }) s.rows
unfolding set_published
set_published_ok now tenant id at s s' h = ground arith

get_calm :
    (tenant id : Text) (c : Content) (s : Conn Content)
    → find (is_key tenant id) s.rows ≡ some c
    → (get tenant id (calm s)).0 ≡ ok c
unfolding get
get_calm tenant id c s h = rw h refl

-- A row that is found, then marked, is found marked.
marked :
    (now : ℕ) (tenant id : Text) (at : Option ℕ) (c : Content) (s s1 s2 : Conn Content)
    → get tenant id s ≡ (ok c, s1)
    → set_published now tenant id at s1 ≡ (ok tt, s2)
    → (get tenant id (calm s2)).0 ≡ ok (record c { published_at = at; updated_at = now })
marked now tenant id at c s s1 s2 h k =
    let (found, same) = get_ok tenant id c s s1 h in
    let rows =
      set_published_ok now tenant id at s1 s2 k
      ∙ ap (map_if (is_key tenant id) (λ x. record x { published_at = at; updated_at = now }))
          same in
    get_calm tenant id (record c { published_at = at; updated_at = now }) s2
      (rw rows (
        find-map_if (is_key tenant id) (λ x. record x { published_at = at; updated_at = now })
          s.rows c found (λ y. refl)))

-- The service over the SQLite store.
abbrev pub over : Adapter Error → Bool → (ℕ → Text) → Service (Conn Content)
over d audited unix_nano = record { store = store d; audited = audited; unix_nano = unix_nano }

module _ (d : Adapter Error) (audited : Bool) (unix_nano : ℕ → Text) where
  abbrev svc : Service (Conn Content)
  svc = over d audited unix_nano

  emit_conn :
      (c : Content) (action : Text) (at : Option ℕ) (w : World (Conn Content))
      → (emit svc c action at w).1.conn ≡ w.conn
  unfolding emit
  emit_conn c action at w = ground arith

  stored_ok :
      {A : Type 0} (m : Action Error (Conn Content) A) (a : A) (w u : World (Conn Content))
      → stored svc m w ≡ (ok a, u)
      → m w.conn ≡ (ok a, u.conn)
  stored_ok {A = A} m a w u h =
      ap (λ (q : Result Error A × World (Conn Content)). (q.0, q.1.conn)) h

  -- A lookup, a mark, and what follows without the store.
  marked_by :
      (now : ℕ) (tenant id : Text) (at : Option ℕ)
      (k : Content → Action Error (World (Conn Content)) (Unit {0})) (w w' : World (Conn Content))
      → ((c : Content) (u : World (Conn Content)) → (k c u).1.conn ≡ u.conn)
      → (stored svc (get tenant id) >>= λ existing.
            stored svc (set_published now tenant id at) >> k existing)
          w
        ≡ (ok tt, w')
      → (c : Content) × ((get tenant id w.conn).0 ≡ ok c)
        × ((get tenant id (calm w'.conn)).0 ≡ ok (record c { published_at = at; updated_at = now }))
  marked_by now tenant id at k w w' kept h =
      let (c, u, x, h1) =
        bind_ok (stored svc (get tenant id))
          (λ existing. stored svc (set_published now tenant id at) >> k existing) w w' h in
      let (o, v, y, h2) =
        bind_ok (stored svc (set_published now tenant id at)) (λ o. k c) u w' h1 in
      let found = stored_ok (get tenant id) c w u x in
      let set = stored_ok (set_published now tenant id at) tt u v y in
      let same : w'.conn ≡ v.conn =
        ap (λ (q : Result Error (Unit {0}) × World (Conn Content)). q.1.conn) (sym h2) ∙ kept c v in
      (
        c,
        ap (λ (q : Result Error Content × Conn Content). q.0) found,
        rw same (marked now tenant id at c w.conn u.conn v.conn found set),
      )

  -- After Publish returned nil, Get of the tenant's row returns what it was before, published at the
  -- time of the call and updated at the store's, where the driver reports no fault at this Get.
  pub publish-get :
      (now stored_now : ℕ) (tenant id : Text) (w w' : World (Conn Content))
      → publish svc now stored_now tenant id w ≡ (ok tt, w')
      → (c : Content) × ((get tenant id w.conn).0 ≡ ok c)
        × ((get tenant id (calm w'.conn)).0
            ≡ ok (record c { published_at = some now; updated_at = stored_now }))
  unfolding publish
  publish-get now stored_now tenant id w w' =
      marked_by stored_now tenant id (some now)
        (λ c.
          emit svc (record c { published_at = some now }) (codes "content.published") (some now))
        w w'
        (λ c.
          emit_conn (record c { published_at = some now }) (codes "content.published") (some now))

  -- After Unpublish returned nil, Get of the tenant's row returns what it was before, not published
  -- and updated at the store's time, where the driver reports no fault at this Get.
  pub unpublish-get :
      (stored_now : ℕ) (tenant id : Text) (w w' : World (Conn Content))
      → unpublish svc stored_now tenant id w ≡ (ok tt, w')
      → (c : Content) × ((get tenant id w.conn).0 ≡ ok c)
        × ((get tenant id (calm w'.conn)).0
            ≡ ok (record c { published_at = none; updated_at = stored_now }))
  unfolding unpublish
  unpublish-get stored_now tenant id w w' =
      marked_by stored_now tenant id none
        (λ c. emit svc (record c { published_at = none }) (codes "content.unpublished") none) w w'
        (λ c. emit_conn (record c { published_at = none }) (codes "content.unpublished") none)
