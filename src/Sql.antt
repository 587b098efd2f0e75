-- ===== src/Sql.antt =====
-- What the stores use of database/sql: one table behind a connection, and the statements that the
-- source writes in SQL text. A statement meets the next entry of the connection's list of faults:
-- `none` runs it, `some message` is a driver error before anything is written, and a list that has
-- run out holds no more faults. `insert` and `update` check the constraints of the schema, which
-- the caller states as a test that yields the driver's message for the columns of the constraint.
pub mod Keys
pub mod Paging
use pk_modules.Common.{
  ℕ, Bool, Option, none, some, List, [], ◌∷◌, ◌++◌, ok, err, Action, pure, ◌>>◌, false, true, ◌==◌,
  if◌then◌else◌, filter, find, count_if, map_if,
}
use pk_modules.Common.Text.{Text}

pub record Conn (Row : Type 0) : Type 0 where
  pub rows : List Row
  pub faults : List (Option Text)

-- What the program relies on of the SQL driver: the message of a violated UNIQUE or PRIMARY KEY
-- constraint on some columns, and which constraint's columns it picks where a statement violates
-- several.
pub record Driver : Type 0 where
  pub violation : Text → Text
  pub reported : List Text → Text

-- An adapter over a driver: how it classifies the message of a failed INSERT and of a failed UPDATE.
-- The statements of the SQLite and the Postgres adapter differ in placeholders only.
pub record Adapter (E : Type 0) : Type 0 where
  pub insert_error : Text → E
  pub update_error : Text → E
  pub violation : Text → Text
  pub reported : List Text → Text

-- A constraint's columns, if some rows are in conflict with it, and those of further ones.
abbrev pub conflict : ℕ → Text → List Text → List Text
conflict count columns rest = if count == 0 then rest else columns ∷ rest

-- The driver's message for the constraints that a statement violates.
unfoldable pub report : {E : Type 0} → Adapter E → List Text → Option Text
report a [] = none
report a (columns ∷ rest) = some (a.violation (a.reported (columns ∷ rest)))

module _ {Row : Type 0} where
  -- Whether the next statement runs.
  abbrev pub answers : Conn Row → Bool
  answers c = elim c.faults [ [] ↦ true | none ∷ rest ↦ true | some message ∷ rest ↦ false ]

  -- A call of the driver, which may fail.
  unfoldable pub round_trip : Action Text (Conn Row) (Unit {0})
  round_trip c = elim c.faults [
    | [] ↦ (ok tt, c)
    | none ∷ rest ↦ (ok tt, record c { faults = rest })
    | some message ∷ rest ↦ (err message, record c { faults = rest })
  ]

  -- Writes the new table, or reports the constraint that it would violate.
  unfoldable pub write : Option Text → List Row → Action Text (Conn Row) (Unit {0})
  write violated rows c = elim violated [
    | none ↦ (ok tt, record c { rows = rows })
    | some message ↦ (err message, c)
  ]

  -- INSERT INTO table VALUES (row)
  unfoldable pub insert : (List Row → Option Text) → Row → Action Text (Conn Row) (Unit {0})
  unfolding round_trip write
  insert violated row c = (round_trip >> write (violated c.rows) (c.rows ++ row ∷ [])) c

  -- UPDATE table SET … WHERE …, with the number of rows it matched
  unfoldable pub update :
      (List Row → Option Text) → (Row → Bool) → (Row → Row) → Action Text (Conn Row) ℕ
  unfolding round_trip write
  update violated matches change c =
      (do
        round_trip
        write (violated c.rows) (map_if matches change c.rows)
        pure (count_if matches c.rows))
        c

  -- DELETE FROM table WHERE …, with the number of rows it matched
  unfoldable pub delete : (Row → Bool) → Action Text (Conn Row) ℕ
  unfolding round_trip write
  delete matches c =
      (do
        round_trip
        write none (filter (λ row. if matches row then false else true) c.rows)
        pure (count_if matches c.rows))
        c

  -- SELECT … FROM table WHERE …
  unfoldable pub query : (Row → Bool) → Action Text (Conn Row) (List Row)
  unfolding round_trip
  query matches c = (round_trip >> pure (filter matches c.rows)) c

  -- QueryRow: the first row, none for sql.ErrNoRows
  unfoldable pub query_row : (Row → Bool) → Action Text (Conn Row) (Option Row)
  unfolding round_trip
  query_row matches c = (round_trip >> pure (find matches c.rows)) c

  -- `res.RowsAffected()`, a call of the driver of its own
  unfoldable pub rows_affected : ℕ → Action Text (Conn Row) ℕ
  unfolding round_trip
  rows_affected n = round_trip >> pure n

-- An error of the driver becomes one of the store.
unfoldable pub on_error : {E S A : Type 0} → (Text → E) → Action Text S A → Action E S A
on_error f m s =
    let (r, s') = m s in elim r [ ok a ↦ (ok a, s') | err message ↦ (err (f message), s') ]
