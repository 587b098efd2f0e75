-- ===== src/Migrate/Guards.antt =====
-- What makes a run refuse, and what makes it safe to repeat.
use pk_modules.Common.Rows.{append_nil, In-map, map-In, count_if-none}
use pk_modules.Common.{
  Action, ◌>>◌, ◌>>=◌, lift, raise_if, Bool, ◌≡◌, ◌≢◌, refl, sym, ap, subst, ◌∙◌, inl, inr, true,
  false, none, some, List, [], ◌∷◌, ◌++◌, Result, ok, err, map, if◌then◌else◌, ◌==◌, In, All-at,
  filter, find, find-In, In-filter, filter-In, sort_by, sort_by-In, In-sort_by, count_if,
  count_if-In, In-append_left, In-append_right, In-append-cases, arith, Bool-cases, Result-cases,
  Option-cases, bind_ok, proceed,
}
use pk_modules.Common.Text.{Text, is_blank, text_eq, text_eq_iff, text_eq_refl}
use pk_modules.Migrate.{
  Migration, Entry, Options, Error, Database, Env, validate, is_entry, entry, check_entry,
  reconcile_loop, named, by_name, apply_all, ensure_ledger, applied_for, reconcile, run_locked,
  lock, unlock, locked, run,
}
use pk_modules.Migrate.Plan.{validate-IsPlan, Distinct, Ascending-Distinct, pending}
use pk_modules.Migrate.Runs.{IsSame, run-IsRun, ensure_ledger-IsSame, applied_for_rows, lock-IsSame}

-- A sequence whose first part leaves the tables, and whose rest is refused.
module _ {A : Type 0} (q : Action Error Database A) (k : A → Action Error Database (Unit {0}))
    (db : Database) where
  sequence_ok : ((q >>= k) db).0 ≡ ok tt → (a : A) × ((q db).0 ≡ ok a) × ((k a (q db).1).0 ≡ ok tt)
  sequence_ok h = elim (Result-cases (q db).0) [
    | inl (a, x) ↦ (a, x, ground (arith, x))
    | inr (e, x) ↦ absurd (ground (arith, x))
  ]

-- The database as it is, where the driver reports no fault.
abbrev pub calm : List Entry → List Text → Bool → Database
calm rows executed held = record {
  conn = record { rows = rows; faults = [] };
  executed = executed;
  held = held;
}

module _ (env : Env) (opts : Options) where
  abbrev of_module : Entry → Bool
  of_module r = text_eq r.module_name opts.module_name

  reconcile_loop-ok :
      (ms : List Migration) (rs : List Entry) (r : Entry)
      → reconcile_loop env opts ms rs ≡ ok tt
      → In r rs
      → check_entry env opts ms r ≡ none
  unfolding reconcile_loop
  reconcile_loop-ok ms [] r h m = elim m [ ]
  reconcile_loop-ok ms (x ∷ rs) r h m = elim (Option-cases (check_entry env opts ms x)) [
    | inr (e, k) ↦ absurd (ground (arith, k))
    | inl k ↦ elim m [
      | inl here ↦ rw here k
      | inr i ↦ reconcile_loop-ok ms rs r (ground (arith, k)) i
    ]
  ]

  ok-reconcile_loop :
      (ms : List Migration) (rs : List Entry)
      → ((r : Entry) → In r rs → check_entry env opts ms r ≡ none)
      → reconcile_loop env opts ms rs ≡ ok tt
  unfolding reconcile_loop
  ok-reconcile_loop ms [] h = refl
  ok-reconcile_loop ms (x ∷ rs) h =
      rw (reconcile_loop, h x (inl refl)) (ok-reconcile_loop ms rs (λ r m. h r (inr m)))

  locked_ok :
      (body : Action Error Database (Unit {0})) (db : Database)
      → (locked env opts body db).0 ≡ ok tt
      → (body (lock env opts db).1).0 ≡ ok tt
  unfolding locked
  locked_ok body db h =
      let (u, x, k) =
        sequence_ok (lock env opts)
          (λ u db1.
            let (r, db2) = body db1 in
            let (o, db3) = unlock env opts db2 in (elim r [ ok _ ↦ o | err e ↦ err e ], db3))
          db h in
      elim (Result-cases (body (lock env opts db).1).0) [
        | inl (a, y) ↦ y
        | inr (e, y) ↦ absurd (ground (arith, y, k))
      ]

  run_locked_ok :
      (ms : List Migration) (db : Database)
      → (run_locked env opts ms db).0 ≡ ok tt
      → reconcile env opts ms (filter of_module db.conn.rows) ≡ ok tt
  unfolding run_locked
  run_locked_ok ms db h =
      let (u, x, h1) =
        sequence_ok (ensure_ledger env opts)
          (λ u. applied_for env opts >>= λ applied.
            lift (reconcile env opts ms applied) >> apply_all env opts applied ms)
          db h in
      let (applied, y, h2) =
        sequence_ok (applied_for env opts)
          (λ applied. lift (reconcile env opts ms applied) >> apply_all env opts applied ms)
          (ensure_ledger env opts db).1 h1 in
      let (v, z, h3) =
        sequence_ok (lift (reconcile env opts ms applied)) (λ v. apply_all env opts applied ms)
          (applied_for env opts (ensure_ledger env opts db).1).1 h2 in
      subst (λ rs. reconcile env opts ms rs ≡ ok tt)
        (applied_for_rows env opts (ensure_ledger env opts db).1 applied y
          ∙ ap (filter of_module) (ensure_ledger-IsSame env opts db).rows)
        z

  -- A run that returned nil found a module name, a plan, and rows that agree with the build.
  run_ok :
      (ms : List Migration) (db : Database)
      → (run env opts ms db).0 ≡ ok tt
      → (is_blank opts.module_name ≡ false)
        × (validate ms ≡ ok tt)
        × (reconcile env opts ms (filter of_module db.conn.rows) ≡ ok tt)
  unfolding run
  run_ok ms db h =
      let (u, x, h1) =
        sequence_ok (raise_if (is_blank opts.module_name) Error.module_required)
          (λ u. lift (validate ms) >> locked env opts (run_locked env opts ms)) db h in
      let (v, y, h2) =
        sequence_ok (lift (validate ms)) (λ v. locked env opts (run_locked env opts ms)) db h1 in
      let h3 = run_locked_ok ms (lock env opts db).1 (locked_ok (run_locked env opts ms) db h2) in
      (
        ground (arith, x),
        y,
        subst (λ rs. reconcile env opts ms (filter of_module rs) ≡ ok tt)
            (lock-IsSame env opts db).rows h3,
      )

  checked :
      (ms : List Migration) (rows : List Entry) (r : Entry)
      → reconcile env opts ms (filter of_module rows) ≡ ok tt
      → In r rows
      → r.module_name ≡ opts.module_name
      → check_entry env opts ms r ≡ none
  unfolding reconcile
  checked ms rows r h i e = reconcile_loop-ok ms (sort_by by_name (filter of_module rows)) r h (
      sort_by-In by_name (filter of_module rows) r
        (filter-In r of_module rows i ((text_eq_iff r.module_name opts.module_name).1 e)))

  check_entry-ok :
      (ms : List Migration) (r : Entry)
      → check_entry env opts ms r ≡ none
      → (m : Migration) × In m ms × (m.name ≡ r.name) × (env.checksum m.sql ≡ r.checksum)
  unfolding check_entry
  check_entry-ok ms r h = elim (Option-cases (find (named r.name) ms)) [
    | inl e ↦ absurd (ground (arith, e))
    | inr (m, e) ↦
        let (i, q) = find-In (named r.name) ms m e in
        (
          m,
          i,
          (text_eq_iff m.name r.name).0 q,
          ground (arith, e, text_eq_iff (env.checksum m.sql) r.checksum),
        )
  ]

  -- A run never succeeds on a database that holds a row of the module which this build does not
  -- ship: of an unknown name (a downgrade), or whose checksum is not that of the migration of the
  -- same name (a drift).
  pub run-refuses :
      (ms : List Migration) (db : Database) (r : Entry)
      → In r db.conn.rows
      → r.module_name ≡ opts.module_name
      → ((m : Migration) → In m ms → m.name ≡ r.name → env.checksum m.sql ≢ r.checksum)
      → (run env opts ms db).0 ≢ ok tt
  run-refuses ms db r i e differs h =
      let (b, v, c) = run_ok ms db h in
      let (m, im, n, s) = check_entry-ok ms r (checked ms db.conn.rows r c i e) in differs m im n s

  apply_all-none :
      (applied : List Entry) (ms : List Migration) (db : Database)
      → ((m : Migration) → In m ms → (count_if (λ r. text_eq r.name m.name) applied == 0) ≡ false)
      → apply_all env opts applied ms db ≡ (ok tt, db)
  unfolding apply_all
  apply_all-none applied [] db h = refl
  apply_all-none applied (m ∷ ms) db h =
      rw (h m (inl refl)) (apply_all-none applied ms db (λ n i. h n (inr i)))

  run_locked-calm :
      (ms : List Migration) (rows : List Entry) (executed : List Text) (held : Bool)
      → reconcile env opts ms (filter of_module rows) ≡ ok tt
      → ((m : Migration)
          → In m ms
          → (count_if (λ r. text_eq r.name m.name) (filter of_module rows) == 0) ≡ false)
      → run_locked env opts ms (calm rows executed held) ≡ (ok tt, calm rows executed held)
  unfolding run_locked ensure_ledger applied_for
  run_locked-calm ms rows executed held c h =
      rw (c, apply_all-none (filter of_module rows) ms (calm rows executed held) h) refl

  lock-calm :
      (rows : List Entry) (executed : List Text) (held : Bool)
      → lock env opts (calm rows executed held)
        ≡ (ok tt, calm rows executed (if opts.postgres then true else held))
  unfolding lock
  lock-calm rows executed held = elim (Bool-cases opts.postgres) [
    | inl p ↦ rw p refl
    | inr p ↦ rw p refl
  ]

  unlock-calm :
      (rows : List Entry) (executed : List Text) (held : Bool)
      → unlock env opts (calm rows executed held)
        ≡ (ok tt, calm rows executed (if opts.postgres then false else held))
  unfolding unlock
  unlock-calm rows executed held = elim (Bool-cases opts.postgres) [
    | inl p ↦ rw p refl
    | inr p ↦ rw p refl
  ]

  locked_run :
      (body : Action Error Database (Unit {0})) (db db1 db2 db3 : Database)
      → lock env opts db ≡ (ok tt, db1)
      → body db1 ≡ (ok tt, db2)
      → unlock env opts db2 ≡ (ok tt, db3)
      → locked env opts body db ≡ (ok tt, db3)
  unfolding locked
  locked_run body db db1 db2 db3 h k l =
      let released : Result Error (Unit {0}) × Database → Result Error (Unit {0}) × Database =
        λ q. let (o, d) = unlock env opts q.1 in (elim q.0 [ ok _ ↦ o | err e ↦ err e ], d) in
      ap
        (λ (q : Result Error (Unit {0}) × Database).
          proceed (λ (u : Unit {0}) d. released (body d)) q.0 q.1)
        h
      ∙ ap released k
      ∙ l

  locked-calm :
      (body : Action Error Database (Unit {0})) (rows : List Entry) (executed : List Text)
      (held : Bool)
      → ((b : Bool) → body (calm rows executed b) ≡ (ok tt, calm rows executed b))
      → (b : Bool) × (locked env opts body (calm rows executed held)
          ≡ (ok tt, calm rows executed b))
  locked-calm body rows executed held h =
      let taken : Bool = if opts.postgres then true else held in
      (
        if opts.postgres then false else taken,
        locked_run body (calm rows executed held) (calm rows executed taken)
            (calm rows executed taken) (calm rows executed (if opts.postgres then false else taken))
            (lock-calm rows executed held) (h taken) (unlock-calm rows executed taken),
      )

  run-calm :
      (ms : List Migration) (rows : List Entry) (executed : List Text) (held : Bool)
      → is_blank opts.module_name ≡ false
      → validate ms ≡ ok tt
      → reconcile env opts ms (filter of_module rows) ≡ ok tt
      → ((m : Migration)
          → In m ms
          → (count_if (λ r. text_eq r.name m.name) (filter of_module rows) == 0) ≡ false)
      → ((run env opts ms (calm rows executed held)).0 ≡ ok tt)
        × IsSame (calm rows executed held) (run env opts ms (calm rows executed held)).1
  unfolding run
  run-calm ms rows executed held b v c h =
      let (after, e) =
        locked-calm (run_locked env opts ms) rows executed held
          (λ b'. run_locked-calm ms rows executed b' c h) in
      rw (b, v, e) (refl, record { rows = refl; executed = refl })

  -- The ledger after a run that returned nil has a row for every migration, and only rows that
  -- this build accepts.
  covered :
      (ms : List Migration) (rows : List Entry) (m : Migration)
      → In m ms
      → (count_if
            (λ r. text_eq r.name m.name)
            (filter of_module (rows ++ map (entry env opts) (pending opts.module_name rows ms)))
          == 0)
        ≡ false
  unfolding pending
  covered ms rows m i =
      let todo = pending opts.module_name rows ms in
      let after = rows ++ map (entry env opts) todo in
      elim (Bool-cases (count_if (λ r. text_eq r.name m.name) (filter of_module after) == 0)) [
        | inr e ↦ e
        | inl e ↦
            let free : (r : Entry) → In r after → is_entry opts.module_name m.name r ≡ false =
              λ r k. elim (Bool-cases (of_module r)) [
                | inr other ↦ rw other refl
                | inl ours ↦ rw ours (
                    count_if-In (λ r. text_eq r.name m.name) (filter of_module after) r
                      (ground arith) (filter-In r of_module after k ours))
              ] in
            let none_old =
              count_if-none (is_entry opts.module_name m.name) rows
                (λ r k. free r (In-append_left r rows (map (entry env opts) todo) k)) in
            let chosen : In m todo =
              filter-In m (λ n. count_if (is_entry opts.module_name n.name) rows == 0) ms i
                (rw none_old refl) in
            let there = free (entry env opts m) (
              In-append_right (entry env opts m) rows (map (entry env opts) todo)
                (In-map (entry env opts) m todo chosen)) in
            absurd (ground (arith, there, text_eq_refl opts.module_name, text_eq_refl m.name))
      ]

  find-named :
      (m : Migration) (ms : List Migration)
      → Distinct ms
      → In m ms
      → find (named m.name) ms ≡ some m
  unfolding find
  find-named m [] d i = elim i [ ]
  find-named m (x ∷ ms) d (inl e) = rw (e, text_eq_refl x.name) refl
  find-named m (x ∷ ms) d (inr i) =
      rw (All-at (λ (n : Migration). text_eq x.name n.name ≡ false) m ms i d.0)
        (find-named m ms d.1 i)

  entry_checked :
      (ms : List Migration) (m : Migration)
      → Distinct ms
      → In m ms
      → check_entry env opts ms (entry env opts m) ≡ none
  unfolding check_entry
  entry_checked ms m d i =
      rw (check_entry, find-named m ms d i, text_eq_refl (env.checksum m.sql)) refl

  reconciled :
      (ms : List Migration) (rows : List Entry)
      → Distinct ms
      → reconcile env opts ms (filter of_module rows) ≡ ok tt
      → reconcile env opts ms
          (filter of_module (rows ++ map (entry env opts) (pending opts.module_name rows ms)))
        ≡ ok tt
  unfolding reconcile pending
  reconciled ms rows d c =
      let todo = pending opts.module_name rows ms in
      let after = rows ++ map (entry env opts) todo in
      ok-reconcile_loop ms (sort_by by_name (filter of_module after)) (λ r k.
        let (i, o) =
          In-filter r of_module after (In-sort_by by_name (filter of_module after) r k) in
        elim (In-append-cases r rows (map (entry env opts) todo) i) [
          | inl old ↦ checked ms rows r c old ((text_eq_iff r.module_name opts.module_name).0 o)
          | inr new ↦
              let (m, j, e) = map-In (entry env opts) r todo new in
              let (s, q) =
                In-filter m (λ n. count_if (is_entry opts.module_name n.name) rows == 0) ms j in
              rw e (entry_checked ms m d s)
        ])

  -- A boot can be repeated: after a run that returned nil, a run of the same migrations, where the
  -- driver reports no fault, returns nil again and changes neither the ledger nor the schema.
  pub run-again :
      (ms : List Migration) (db db' : Database) (held : Bool)
      → run env opts ms db ≡ (ok tt, db')
      → ((run env opts ms (calm db'.conn.rows db'.executed held)).0 ≡ ok tt)
        × IsSame
            (calm db'.conn.rows db'.executed held)
            (run env opts ms (calm db'.conn.rows db'.executed held)).1
  run-again ms db db' held h =
      let ok_run : (run env opts ms db).0 ≡ ok tt =
        ap (λ (q : Result Error (Unit {0}) × Database). q.0) h in
      let (b, v, c) = run_ok ms db ok_run in
      let full = run-IsRun env opts ms db in
      let all_done : full.done ≡ pending opts.module_name db.conn.rows ms = sym (
        full.split
        ∙ ap (λ rest. full.done ++ rest) (full.complete ok_run)
        ∙ append_nil full.done) in
      let rows : db'.conn.rows
          ≡ db.conn.rows ++ map (entry env opts) (pending opts.module_name db.conn.rows ms) =
        ap (λ (q : Result Error (Unit {0}) × Database). q.1.conn.rows) (sym h)
        ∙ full.rows
        ∙ ap (λ ns. db.conn.rows ++ map (entry env opts) ns) all_done in
      run-calm ms db'.conn.rows db'.executed held b v
        (rw rows
          (reconciled ms db.conn.rows (Ascending-Distinct none ms ((validate-IsPlan ms).0 v).1) c))
        (rw rows (covered ms db.conn.rows))

  unlock_held :
      (db db' : Database)
      → opts.postgres ≡ true
      → unlock env opts db ≡ (ok tt, db')
      → db'.held ≡ false
  unfolding unlock
  unlock_held db db' p h = ground arith

  locked_held :
      (body : Action Error Database (Unit {0})) (db db' : Database)
      → opts.postgres ≡ true
      → locked env opts body db ≡ (ok tt, db')
      → db'.held ≡ false
  unfolding locked
  locked_held body db db' p h =
      let (u, db1, x, k) =
        bind_ok (lock env opts)
          (λ u db1.
            let (r, db2) = body db1 in
            let (o, db3) = unlock env opts db2 in (elim r [ ok _ ↦ o | err e ↦ err e ], db3))
          db db' h in
      elim (Result-cases (body db1).0) [
        | inl (a, y) ↦ unlock_held (body db1).1 db' p (rw y at k)
        | inr (e, y) ↦ absurd (ground (arith, y, k))
      ]

  -- On Postgres, a run that returned nil has released the advisory lock: one whose unlock failed
  -- returns an error.
  pub run_unlocks :
      (ms : List Migration) (db db' : Database)
      → opts.postgres ≡ true
      → run env opts ms db ≡ (ok tt, db')
      → db'.held ≡ false
  unfolding run
  run_unlocks ms db db' p h =
      let (u, db1, x, h1) =
        bind_ok (raise_if (is_blank opts.module_name) Error.module_required)
          (λ u. lift (validate ms) >> locked env opts (run_locked env opts ms)) db db' h in
      let (v, db2, y, h2) =
        bind_ok (lift (validate ms)) (λ v. locked env opts (run_locked env opts ms)) db1 db' h1 in
      locked_held (run_locked env opts ms) db2 db' p h2
