-- ===== src/Migrate/Runs.antt =====
-- What a run does to the ledger and to the schema, on every branch.
use pk_modules.Common.Rows.{
  append_assoc, append_nil, length-filter, count_if-snoc_other, count_if-filter,
}
use pk_modules.Common.{
  Action, ◌>>◌, ◌>>=◌, lift, raise_if, ◌≡◌, refl, sym, ap, subst, ◌∙◌, inl, inr, false, none, List,
  [], ◌∷◌, ◌++◌, Result, ok, err, map, ◌==◌, All, filter, count_if, arith, Bool-cases, Result-cases,
}
use pk_modules.Common.Text.{is_blank, text_eq}
use pk_modules.Migrate.{
  Migration, Entry, Options, Error, Database, Env, validate, is_entry, entry, apply_body, apply,
  apply_all, ensure_ledger, applied_for, reconcile, run_locked, lock, unlock, locked, run,
}
use pk_modules.Migrate.Plan.{validate-IsPlan, Distinct, Ascending-Distinct, pending}

-- A run has applied the first part of the pending migrations, each of them whole, in order: its SQL
-- has run once and its row is in the ledger; all of them, if the run succeeded.
pub record IsRun (env : Env) (opts : Options) (todo : List Migration) (db db' : Database)
    (r : Result Error (Unit {0})) : Type 0 where
  pub done : List Migration
  pub rest : List Migration
  pub split : todo ≡ done ++ rest
  pub rows : db'.conn.rows ≡ db.conn.rows ++ map (entry env opts) done
  pub executed : db'.executed ≡ db.executed ++ map (λ (m : Migration). m.sql) done
  pub complete : r ≡ ok tt → rest ≡ []

-- The ledger and the schema are as they were.
pub record IsSame (db db' : Database) : Type 0 where
  pub rows : db'.conn.rows ≡ db.conn.rows
  pub executed : db'.executed ≡ db.executed

module _ (env : Env) (opts : Options) where
  IsRun-same :
      (todo : List Migration) (db db' : Database) (e : Error)
      → IsSame db db'
      → IsRun env opts todo db db' (err e)
  IsRun-same todo db db' e s = record {
    done = [];
    rest = todo;
    split = refl;
    rows = s.rows ∙ sym (append_nil db.conn.rows);
    executed = s.executed ∙ sym (append_nil db.executed);
    complete = λ h. absurd (cc);
  }

  -- An application is whole or leaves nothing.
  apply_err :
      (m : Migration) (db : Database) (e : Error)
      → (apply env opts m db).0 ≡ err e
      → IsSame db (apply env opts m db).1
  unfolding apply
  apply_err m db e h = elim (Result-cases (apply_body env opts m db).0) [
    | inl (a, k) ↦ absurd (ground (arith, k))
    | inr (x, k) ↦ record { rows = ground (arith, k); executed = ground (arith, k) }
  ]

  apply_ok :
      (m : Migration) (db : Database)
      → count_if (is_entry opts.module_name m.name) db.conn.rows ≡ 0
      → (apply env opts m db).0 ≡ ok tt
      → ((apply env opts m db).1.conn.rows ≡ db.conn.rows ++ entry env opts m ∷ [])
        × ((apply env opts m db).1.executed ≡ db.executed ++ m.sql ∷ [])
  unfolding apply
  apply_ok m db h k =
      let c = length-filter (is_entry opts.module_name m.name) db.conn.rows in
      (ground (arith, c), ground (arith, c))

  -- The names read from the ledger decide as the ledger itself does.
  abbrev Agrees : List Entry → List Entry → List Migration → Type 0
  Agrees applied rows = All (λ m.
      count_if (λ r. text_eq r.name m.name) applied
      ≡ count_if (is_entry opts.module_name m.name) rows)

  pending-snoc :
      (rows : List Entry) (m : Migration) (ms : List Migration)
      → All (λ n. text_eq m.name n.name ≡ false) ms
      → pending opts.module_name (rows ++ entry env opts m ∷ []) ms
        ≡ pending opts.module_name rows ms
  unfolding pending filter
  pending-snoc rows m [] h = refl
  pending-snoc rows m (n ∷ ms) h =
      let same =
        count_if-snoc_other (is_entry opts.module_name n.name) rows (entry env opts m)
          (ground (arith, h.0)) in
      rw (same, pending-snoc rows m ms h.1) refl

  Agrees-snoc :
      (applied rows : List Entry) (m : Migration) (ms : List Migration)
      → All (λ n. text_eq m.name n.name ≡ false) ms
      → Agrees applied rows ms
      → Agrees applied (rows ++ entry env opts m ∷ []) ms
  Agrees-snoc applied rows m [] h a = tt
  Agrees-snoc applied rows m (n ∷ ms) h a =
      let same =
        count_if-snoc_other (is_entry opts.module_name n.name) rows (entry env opts m)
          (ground (arith, h.0)) in
      (a.0 ∙ sym same, Agrees-snoc applied rows m ms h.1 a.1)

  -- One more application in front of a run.
  apply-IsRun :
      (m : Migration) (todo : List Migration) (k : Action Error Database (Unit {0})) (db : Database)
      → count_if (is_entry opts.module_name m.name) db.conn.rows ≡ 0
      → ((db1 : Database)
          → db1.conn.rows ≡ db.conn.rows ++ entry env opts m ∷ []
          → IsRun env opts todo db1 (k db1).1 (k db1).0)
      → IsRun env opts (m ∷ todo) db ((apply env opts m >> k) db).1 ((apply env opts m >> k) db).0
  apply-IsRun m todo k db h then_run = elim (Result-cases (apply env opts m db).0) [
    | inr (e, x) ↦ rw x (IsRun-same (m ∷ todo) db (apply env opts m db).1 e (apply_err m db e x))
    | inl (a, x) ↦
        let (rows, executed) = apply_ok m db h x in
        let next = then_run (apply env opts m db).1 rows in
        rw x (record {
          done = m ∷ next.done;
          rest = next.rest;
          split = ap (λ ms. m ∷ ms) next.split;
          rows =
              next.rows
              ∙ ap (λ rs. rs ++ map (entry env opts) next.done) rows
              ∙ append_assoc db.conn.rows (entry env opts m ∷ []) (map (entry env opts) next.done);
          executed =
              next.executed
              ∙ ap (λ ts. ts ++ map (λ (n : Migration). n.sql) next.done) executed
              ∙ append_assoc db.executed (m.sql ∷ []) (map (λ (n : Migration). n.sql) next.done);
          complete = next.complete;
        })
  ]

  apply_all-IsRun :
      (applied : List Entry) (ms : List Migration) (db : Database)
      → Distinct ms
      → Agrees applied db.conn.rows ms
      → IsRun env opts
          (pending opts.module_name db.conn.rows ms)
          db
          (apply_all env opts applied ms db).1
          (apply_all env opts applied ms db).0
  unfolding apply_all pending filter
  apply_all-IsRun applied [] db d a = record {
    done = [];
    rest = [];
    split = refl;
    rows = sym (append_nil db.conn.rows);
    executed = sym (append_nil db.executed);
    complete = λ h. refl;
  }
  apply_all-IsRun applied (m ∷ ms) db d a =
      elim (Bool-cases (count_if (is_entry opts.module_name m.name) db.conn.rows == 0)) [
        | inr old ↦ rw (a.0, old) (apply_all-IsRun applied ms db d.1 a.1)
        | inl new ↦
            rw (a.0, new)
              (apply-IsRun m (pending opts.module_name db.conn.rows ms)
                (apply_all env opts applied ms) db (ground arith)
                (λ db1 rows.
                  subst
                    (λ todo.
                      IsRun env opts todo db1 (apply_all env opts applied ms db1).1
                        (apply_all env opts applied ms db1).0)
                    (rw rows (pending-snoc db.conn.rows m ms d.0))
                    (apply_all-IsRun applied ms db1 d.1
                      (rw rows (Agrees-snoc applied db.conn.rows m ms d.0 a.1)))))
      ]

  applied_for-Agrees :
      (ms : List Migration) (rows : List Entry)
      → Agrees (filter (λ r. text_eq r.module_name opts.module_name) rows) rows ms
  applied_for-Agrees [] rows = tt
  applied_for-Agrees (m ∷ ms) rows = (
    count_if-filter (λ r. text_eq r.name m.name) (λ r. text_eq r.module_name opts.module_name) rows,
    applied_for-Agrees ms rows,
  )

  -- A call that leaves the ledger and the schema, in front of a run.
  same-IsRun :
      {A : Type 0} (todo : List Migration) (q : Action Error Database A)
      (k : A → Action Error Database (Unit {0})) (db : Database)
      → IsSame db (q db).1
      → ((a : A) → (q db).0 ≡ ok a → IsRun env opts todo (q db).1 (k a (q db).1).1 (k a (q db).1).0)
      → IsRun env opts todo db ((q >>= k) db).1 ((q >>= k) db).0
  same-IsRun todo q k db same then_run = elim (Result-cases (q db).0) [
    | inr (e, x) ↦ rw x (IsRun-same todo db (q db).1 e same)
    | inl (a, x) ↦
        let next = then_run a x in
        rw x (record {
          done = next.done;
          rest = next.rest;
          split = next.split;
          rows = next.rows ∙ ap (λ rs. rs ++ map (entry env opts) next.done) same.rows;
          executed =
              next.executed
              ∙ ap (λ ts. ts ++ map (λ (n : Migration). n.sql) next.done) same.executed;
          complete = next.complete;
        })
  ]

  pub ensure_ledger-IsSame : (db : Database) → IsSame db (ensure_ledger env opts db).1
  unfolding ensure_ledger
  ensure_ledger-IsSame db = record { rows = ground arith; executed = ground arith }

  pub applied_for-IsSame : (db : Database) → IsSame db (applied_for env opts db).1
  unfolding applied_for
  applied_for-IsSame db = record { rows = ground arith; executed = ground arith }

  pub applied_for_rows :
      (db : Database) (applied : List Entry)
      → (applied_for env opts db).0 ≡ ok applied
      → applied ≡ filter (λ r. text_eq r.module_name opts.module_name) db.conn.rows
  unfolding applied_for
  applied_for_rows db applied h = ground arith

  read-IsRun :
      (ms : List Migration) (db : Database) (applied : List Entry)
      → Distinct ms
      → (applied_for env opts db).0 ≡ ok applied
      → IsRun env opts
          (pending opts.module_name db.conn.rows ms)
          (applied_for env opts db).1
          (apply_all env opts applied ms (applied_for env opts db).1).1
          (apply_all env opts applied ms (applied_for env opts db).1).0
  read-IsRun ms db applied d h =
      let same = applied_for-IsSame db in
      let run =
        apply_all-IsRun applied ms (applied_for env opts db).1 d
          (rw (applied_for_rows db applied h, same.rows) (applied_for-Agrees ms db.conn.rows)) in
      rw same.rows at run

  run_locked-IsRun :
      (ms : List Migration) (db : Database)
      → Distinct ms
      → IsRun env opts
          (pending opts.module_name db.conn.rows ms)
          db
          (run_locked env opts ms db).1
          (run_locked env opts ms db).0
  unfolding run_locked
  run_locked-IsRun ms db d =
      let first = ensure_ledger-IsSame db in
      same-IsRun (pending opts.module_name db.conn.rows ms) (ensure_ledger env opts)
        (λ u. applied_for env opts >>= λ applied.
          lift (reconcile env opts ms applied) >> apply_all env opts applied ms)
        db first
        (λ u x.
          same-IsRun (pending opts.module_name db.conn.rows ms) (applied_for env opts)
            (λ applied. lift (reconcile env opts ms applied) >> apply_all env opts applied ms)
            (ensure_ledger env opts db).1 (applied_for-IsSame (ensure_ledger env opts db).1)
            (λ applied y.
              same-IsRun (pending opts.module_name db.conn.rows ms)
                (lift (reconcile env opts ms applied)) (λ v. apply_all env opts applied ms)
                (applied_for env opts (ensure_ledger env opts db).1).1
                (record { rows = refl; executed = refl })
                (λ v z.
                  subst
                    (λ rs.
                      IsRun env opts (pending opts.module_name rs ms)
                        (applied_for env opts (ensure_ledger env opts db).1).1
                        (apply_all env opts applied ms
                          (applied_for env opts (ensure_ledger env opts db).1).1).1
                        (apply_all env opts applied ms
                          (applied_for env opts (ensure_ledger env opts db).1).1).0)
                    first.rows (read-IsRun ms (ensure_ledger env opts db).1 applied d y))))

  -- What follows a run and touches neither table; it can only turn its success into an error.
  IsRun-then :
      (todo : List Migration) (db db1 db2 : Database) (r r' : Result Error (Unit {0}))
      → IsRun env opts todo db db1 r
      → IsSame db1 db2
      → (r' ≡ ok tt → r ≡ ok tt)
      → IsRun env opts todo db db2 r'
  IsRun-then todo db db1 db2 r r' run same back = record {
    done = run.done;
    rest = run.rest;
    split = run.split;
    rows = same.rows ∙ run.rows;
    executed = same.executed ∙ run.executed;
    complete = λ h. run.complete (back h);
  }

  pub lock-IsSame : (db : Database) → IsSame db (lock env opts db).1
  unfolding lock
  lock-IsSame db = record { rows = ground arith; executed = ground arith }

  pub unlock-IsSame : (db : Database) → IsSame db (unlock env opts db).1
  unfolding unlock
  unlock-IsSame db = record { rows = ground arith; executed = ground arith }

  locked-IsRun :
      (todo : List Migration) (body : Action Error Database (Unit {0})) (db : Database)
      → ((db1 : Database) → IsSame db db1 → IsRun env opts todo db1 (body db1).1 (body db1).0)
      → IsRun env opts todo db (locked env opts body db).1 (locked env opts body db).0
  unfolding locked
  locked-IsRun todo body db run =
      same-IsRun todo (lock env opts)
        (λ u db1.
          let (r, db2) = body db1 in
          let (o, db3) = unlock env opts db2 in (elim r [ ok _ ↦ o | err e ↦ err e ], db3))
        db (lock-IsSame db)
        (λ u x.
          let db1 : Database = (lock env opts db).1 in
          IsRun-then todo db1 (body db1).1 (unlock env opts (body db1).1).1 (body db1).0
            (elim (body db1).0 [ ok _ ↦ (unlock env opts (body db1).1).0 | err e ↦ err e ])
            (run db1 (lock-IsSame db)) (unlock-IsSame (body db1).1)
            (λ h. elim (Result-cases (body db1).0) [
              | inl (a, y) ↦ y
              | inr (e, y) ↦ absurd (ground (arith, y))
            ]))

  -- Whatever its result and wherever the driver fails, a run has applied a first part of the
  -- migrations that the ledger lacked, in the order of the list: the SQL of each of them has run
  -- once and its row with its checksum is in the ledger, and nothing else has run or changed there.
  -- A run that returned nil has applied all of them.
  pub run-IsRun :
      (ms : List Migration) (db : Database)
      → IsRun env opts
          (pending opts.module_name db.conn.rows ms)
          db
          (run env opts ms db).1
          (run env opts ms db).0
  unfolding run
  run-IsRun ms db =
      let todo = pending opts.module_name db.conn.rows ms in
      same-IsRun todo (raise_if (is_blank opts.module_name) Error.module_required)
        (λ u. lift (validate ms) >> locked env opts (run_locked env opts ms)) db
        (record { rows = refl; executed = refl })
        (λ u x.
          same-IsRun todo (lift (validate ms)) (λ v. locked env opts (run_locked env opts ms)) db
            (record { rows = refl; executed = refl })
            (λ v y. locked-IsRun todo (run_locked env opts ms) db (λ db1 same.
              subst
                (λ rs.
                  IsRun env opts (pending opts.module_name rs ms) db1 (run_locked env opts ms db1).1
                    (run_locked env opts ms db1).0)
                same.rows
                (run_locked-IsRun ms db1
                  (Ascending-Distinct none ms ((validate-IsPlan ms).0 y).1)))))
