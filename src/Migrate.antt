-- ===== src/Migrate.antt =====
-- pkg/migrate/migrate.go: Run and Status over the ledger table. A database is the ledger behind a
-- connection, the texts of the migrations that have run on it, in order, and the advisory lock.
-- SHA-256 is a parameter, and so is the clock, which gives the reading at each migration. The
-- database handle is not nil; the lock between goroutines makes a run one step.
pub mod Plan
pub mod Runs
pub mod Guards
use pk_modules.Common.{
  ℕ, suc, Bool, true, false, not, ◌&&◌, ◌||◌, Option, none, some, List, [], ◌∷◌, ◌++◌, Action,
  Result, ok, err, pure, raise, lift, raise_if, ◌>>=◌, ◌>>◌, ◌==◌, if◌then◌else◌, ltb, length, take,
  filter, find, count_if, sort_by,
}
use pk_modules.Common.Text.{Text, codes, is_blank, text_eq, text_lt}
use pk_modules.Sql
use pk_modules.Sql.{Conn, Driver}

pub record Migration : Type 0 where
  pub name : Text
  pub sql : Text

-- `Record`, a row of the ledger
pub record Entry : Type 0 where
  pub module_name : Text
  pub name : Text
  pub checksum : Text
  pub applied_at : ℕ

pub record Options : Type 0 where
  pub module_name : Text
  pub postgres : Bool

pub data Error : Type 0 where
  module_required : Error
  no_name : ℕ → Error
  no_sql duplicate_name : Text → Error
  not_ordered : Text → Text → Error
  unknown_migration : Text → Text → Text → Error
  drift : Text → Text → Text → Text → Error
  failed : Text → Error

pub record Database : Type 0 where
  pub conn : Conn Entry
  pub executed : List Text
  pub held : Bool

-- The parameters: SHA-256 in hexadecimal, the clock, and the driver's message for a violation.
pub record Env : Type 0 where
  pub checksum : Text → Text
  pub clock : Text → ℕ
  pub driver : Driver

-- `seen[name]` over the names read so far
unfoldable pub seen_name : List Migration → Text → Bool
seen_name [] name = false
seen_name (m ∷ ms) name = text_eq m.name name || seen_name ms name

-- `i > 0 && migrations[i-1].Name >= m.Name`
unfoldable pub out_of_order : Option Migration → Migration → Bool
out_of_order none m = false
out_of_order (some previous) m = not (text_lt previous.name m.name)

abbrev pub name_of : Option Migration → Text
name_of none = []
name_of (some m) = m.name

-- The loop of `validate` at index i, with the names before it and the last of them.
unfoldable pub validate_loop :
    ℕ → List Migration → Option Migration → List Migration → Result Error (Unit {0})
unfolding seen_name out_of_order
validate_loop i seen previous [] = ok tt
validate_loop i seen previous (m ∷ ms) =
    let rest = validate_loop (suc i) (m ∷ seen) (some m) ms in
    if is_blank m.name
    then err (no_name i)
    else if is_blank m.sql
    then err (no_sql m.name)
    else if seen_name seen m.name
    then err (duplicate_name m.name)
    else if out_of_order previous m
    then err (not_ordered m.name (name_of previous))
    else rest

unfoldable pub validate : List Migration → Result Error (Unit {0})
unfolding validate_loop
validate migrations = validate_loop 0 [] none migrations

unfoldable pub short : Text → Text
short sum = if ltb 12 (length sum) then take 12 sum else sum

unfoldable pub last_name : List Migration → Text
last_name [] = codes "(none)"
last_name (m ∷ []) = m.name
last_name (m ∷ n ∷ ms) = last_name (n ∷ ms)

abbrev pub named : Text → Migration → Bool
named name m = text_eq m.name name

-- WHERE module = ? AND name = ?
abbrev pub is_entry : Text → Text → Entry → Bool
is_entry module_name name r = text_eq r.module_name module_name && text_eq r.name name

abbrev pub by_name : Entry → Entry → Bool
by_name a b = text_lt a.name b.name

-- A call of the driver on the ledger's connection.
abbrev pub call : {A : Type 0} → Action Text (Conn Entry) A → Action Error Database A
call m db =
    let (r, conn) = m db.conn in
    (elim r [ ok a ↦ ok a | err message ↦ err (failed message) ], record db { conn = conn })

-- The migration's own statements.
unfoldable pub execute : Text → Action Error Database (Unit {0})
unfolding Sql.round_trip
execute sql =
    call Sql.round_trip >> (λ db. (ok tt, record db { executed = db.executed ++ sql ∷ [] }))

-- BeginTx, the body, and the deferred Rollback after an error: what was written is undone.
unfoldable pub transaction : Action Error Database (Unit {0}) → Action Error Database (Unit {0})
transaction body db =
    let (r, db') = body db in
    elim r [
      | ok _ ↦ (ok tt, db')
      | err e ↦ (err e, record db { conn = record db.conn { faults = db'.conn.faults } })
    ]

module _ (env : Env) (opts : Options) where
  -- The row of the migrations map under the name of a ledger row, and the comparison with it.
  unfoldable pub check_entry : List Migration → Entry → Option Error
  unfolding short last_name
  check_entry migrations r = elim (find (named r.name) migrations) [
    | none ↦ some (unknown_migration opts.module_name r.name (last_name migrations))
    | some m ↦
        if text_eq (env.checksum m.sql) r.checksum
        then none
        else some (drift opts.module_name r.name (short r.checksum) (short (env.checksum m.sql)))
  ]

  unfoldable pub reconcile_loop : List Migration → List Entry → Result Error (Unit {0})
  unfolding check_entry
  reconcile_loop migrations [] = ok tt
  reconcile_loop migrations (r ∷ rs) =
      let rest = reconcile_loop migrations rs in
      elim (check_entry migrations r) [ some e ↦ err e | none ↦ rest ]

  unfoldable pub reconcile : List Migration → List Entry → Result Error (Unit {0})
  unfolding reconcile_loop
  reconcile migrations applied = reconcile_loop migrations (sort_by by_name applied)

  abbrev pub entry : Migration → Entry
  entry m = record {
    module_name = opts.module_name;
    name = m.name;
    checksum = env.checksum m.sql;
    applied_at = env.clock m.name;
  }

  -- PRIMARY KEY (module, name)
  unfoldable pub duplicate_entry : Entry → List Entry → Option Text
  duplicate_entry r rows =
      if count_if (is_entry r.module_name r.name) rows == 0
      then none
      else some
          (env.driver.violation (codes "pk_schema_migrations.module, pk_schema_migrations.name"))

  -- What runs between BEGIN and COMMIT.
  unfoldable pub apply_body : Migration → Action Error Database (Unit {0})
  unfolding execute Sql.query Sql.insert Sql.round_trip duplicate_entry
  apply_body m = do
    call Sql.round_trip
    rows ← call (Sql.query (is_entry opts.module_name m.name))
    if length rows == 0
        then (do
          execute m.sql
          call (Sql.insert (duplicate_entry (entry m)) (entry m))
          call Sql.round_trip)
        else pure tt

  unfoldable pub apply : Migration → Action Error Database (Unit {0})
  unfolding transaction apply_body
  apply m = transaction (apply_body m)

  -- The loop over the migrations, past those whose name was read from the ledger.
  unfoldable pub apply_all : List Entry → List Migration → Action Error Database (Unit {0})
  unfolding apply
  apply_all applied [] = pure tt
  apply_all applied (m ∷ ms) =
      let rest = apply_all applied ms in
      if count_if (λ r. text_eq r.name m.name) applied == 0 then (apply m >> rest) else rest

  -- `ensureLedger`: CREATE TABLE IF NOT EXISTS
  unfoldable pub ensure_ledger : Action Error Database (Unit {0})
  unfolding Sql.round_trip
  ensure_ledger = call Sql.round_trip

  -- `appliedFor`: the module's rows, whose names the primary key keeps distinct
  unfoldable pub applied_for : Action Error Database (List Entry)
  unfolding Sql.query
  applied_for = call (Sql.query (λ r. text_eq r.module_name opts.module_name))

  -- What Run does under the lock.
  unfoldable pub run_locked : List Migration → Action Error Database (Unit {0})
  unfolding ensure_ledger applied_for reconcile apply_all
  run_locked migrations = do
    ensure_ledger
    applied ← applied_for
    lift (reconcile migrations applied)
    apply_all applied migrations

  -- On Postgres, a session of its own and pg_advisory_lock; nothing on SQLite.
  unfoldable pub lock : Action Error Database (Unit {0})
  unfolding Sql.round_trip
  lock =
      if opts.postgres
      then (do call Sql.round_trip; call Sql.round_trip; (λ db. (ok tt, record db { held = true })))
      else pure tt

  -- pg_advisory_unlock, then the close of the session, which is not skipped.
  unfoldable pub unlock : Action Error Database (Unit {0})
  unfolding Sql.round_trip
  unlock db =
      if opts.postgres
      then (let (r, db1) = call Sql.round_trip db in
          let db2 : Database = elim r [ ok _ ↦ record db1 { held = false } | err _ ↦ db1 ] in
          let (c, db3) = call Sql.round_trip db2 in (elim r [ ok _ ↦ c | err e ↦ err e ], db3))
      else (ok tt, db)

  -- The deferred unlock: its error counts only where the run had none.
  unfoldable pub locked : Action Error Database (Unit {0}) → Action Error Database (Unit {0})
  unfolding lock unlock
  locked body = do
    lock
    (λ db.
        let (r, db1) = body db in
        let (u, db2) = unlock db1 in (elim r [ ok _ ↦ u | err e ↦ err e ], db2))

  unfoldable pub run : List Migration → Action Error Database (Unit {0})
  unfolding validate run_locked locked
  run migrations = do
    raise_if (is_blank opts.module_name) module_required
    lift (validate migrations)
    locked (run_locked migrations)

  -- ORDER BY applied_at DESC, module ASC, name ASC
  abbrev pub status_before : Entry → Entry → Bool
  status_before a b =
      if ltb b.applied_at a.applied_at
      then true
      else if ltb a.applied_at b.applied_at
      then false
      else if text_lt a.module_name b.module_name
      then true
      else if text_lt b.module_name a.module_name
      then false
      else text_lt a.name b.name

  unfoldable pub status : Action Error Database (List Entry)
  unfolding ensure_ledger Sql.query
  status = do ensure_ledger; rows ← call (Sql.query (λ r. true)); pure (sort_by status_before rows)
