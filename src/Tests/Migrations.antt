-- ===== src/Tests/Migrations.antt =====
-- Runs of pkg/migrate at concrete ledgers.
use pk_modules.Common.{
  ◌≡◌, ◌≢◌, ◌↔◌, refl, inl, inr, true, false, none, some, List, [], ◌∷◌, ok, err, In, arith,
  count_if, filter, find, sort_by,
}
use pk_modules.Common.Text.{codes, is_blank, text_eq, text_lt}
use pk_modules.Migrate.{Migration, Options, Error, Database, Env, entry, validate, run}
use pk_modules.Migrate.Plan.{IsPlan, validate-IsPlan, pending}
use pk_modules.Migrate.Runs.{IsRun, IsSame, run-IsRun}
use pk_modules.Migrate.Guards.{calm, run-refuses, run-again, run_unlocks}
use pk_modules.Tests.Fixtures.{driver}

abbrev env : Env
env = record { checksum = λ sql. sql; clock = λ name. 7; driver = driver }

abbrev opts : Options
opts = record { module_name = codes "user"; postgres = true }

abbrev first : Migration
first = record { name = codes "0001"; sql = codes "create" }

abbrev second : Migration
second = record { name = codes "0002"; sql = codes "alter" }

abbrev changed : Migration
changed = record { name = codes "0001"; sql = codes "create more" }

abbrev shipped : List Migration
shipped = first ∷ second ∷ []

-- The first migration has been applied.
abbrev started : Database
started = calm (entry env opts first ∷ []) (codes "create" ∷ []) false

abbrev finished : Database
finished =
    calm (entry env opts first ∷ entry env opts second ∷ []) (codes "create" ∷ codes "alter" ∷ [])
      false

-- A run applies the second alone.
run-started : run env opts shipped started ≡ (ok tt, finished)
unfolding run is_blank text_eq text_lt sort_by filter find count_if
run-started = refl

-- The ninth call of the driver, the commit, fails, and leaves nothing of the second migration.
broken : Database
broken = record started {
  conn = record {
    rows = entry env opts first ∷ [];
    faults = none ∷ none ∷ none ∷ none ∷ none ∷ none ∷ none ∷ none ∷ some (codes "disk") ∷ [];
  };
}

run-broken :
    ((run env opts shipped broken).0 ≡ err (Error.failed (codes "disk")))
    × ((run env opts shipped broken).1.conn.rows ≡ entry env opts first ∷ [])
    × ((run env opts shipped broken).1.executed ≡ codes "create" ∷ [])
unfolding run broken is_blank text_eq text_lt sort_by filter find count_if
run-broken = (refl, refl, refl)

run-IsRun_example :
    IsRun env opts
      (pending (codes "user") (entry env opts first ∷ []) shipped)
      started
      (run env opts shipped started).1
      (run env opts shipped started).0
run-IsRun_example = run-IsRun env opts shipped started

run-again_example :
    ((run env opts shipped (calm finished.conn.rows finished.executed false)).0 ≡ ok tt)
    × IsSame
        (calm finished.conn.rows finished.executed false)
        (run env opts shipped (calm finished.conn.rows finished.executed false)).1
run-again_example = run-again env opts shipped started finished false run-started

differs : (m : Migration) → In m (changed ∷ []) → m.name ≡ codes "0001" → m.sql ≢ codes "create"
differs m i n e = elim i [ inl here ↦ ground (arith) | inr none_left ↦ elim none_left [ ] ]

run-refuses_example : (run env opts (changed ∷ []) started).0 ≢ ok tt
run-refuses_example =
    run-refuses env opts (changed ∷ []) started (entry env opts first) (inl refl) refl differs

run_unlocks_example : finished.held ≡ false
run_unlocks_example = run_unlocks env opts shipped started finished refl run-started

validate-IsPlan_example : (validate shipped ≡ ok tt) ↔ IsPlan none shipped
validate-IsPlan_example = validate-IsPlan shipped

validate_disorder :
    validate (second ∷ first ∷ []) ≡ err (Error.not_ordered (codes "0001") (codes "0002"))
unfolding validate is_blank text_eq text_lt
validate_disorder = refl
