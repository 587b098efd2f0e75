-- ===== src/User/Sqlite/Conflicts.antt =====
-- The errors of a creation that meets a constraint, in both adapters.
use pk_modules.Common.{ℕ, ◌≡◌, ◌≢◌, some, List, [], ◌∷◌, ◌++◌, Result, ok, err, count_if, In}
use pk_modules.Common.Text.{Text, codes}
use pk_modules.Sql.{Driver, Adapter}
use pk_modules.User.{Error, User, duplicate_email, duplicate_username}
use pk_modules.User.Sqlite.{
  has_id, has_email, has_username, id_columns, email_columns, username_columns, create,
}
use pk_modules.User.Postgres

-- A driver reports one of the constraints that are violated, whichever.
abbrev Picks : (List Text → Text) → Type 0
Picks reported = (c : Text) (cs : List Text) → In (reported (c ∷ cs)) (c ∷ cs)

-- SQLite's message for a violated constraint names its columns.
pub record IsSqlite (d : Driver) : Type 0 where
  pub picks : Picks d.reported
  pub message :
      (columns : Text) → d.violation columns ≡ codes "UNIQUE constraint failed: " ++ columns

-- The message of Postgres names the constraint: the primary key, or a unique index.
abbrev pub postgres_message : Text → Text
postgres_message name =
    codes "ERROR: duplicate key value violates unique constraint "
    ++ name
    ++ codes " (SQLSTATE 23505)"

pub record IsPostgres (d : Driver) : Type 0 where
  pub picks : Picks d.reported
  pub id : d.violation id_columns ≡ postgres_message (codes "users_pkey")
  pub email : d.violation email_columns ≡ postgres_message (codes "uq_users_tenant_email")
  pub username : d.violation username_columns ≡ postgres_message (codes "uq_users_tenant_username")

-- What a creation owes to its caller, from the rows alone: the user itself if its three keys are
-- free, and else an error that names a key that is taken.
pub data IsExpected (id_taken : Error) (rows : List User) (u : User)
    : Result Error User → Type 0 where
  created :
      count_if (has_id u.id) rows ≡ 0
      → count_if (has_email u.tenant_id u.email) rows ≡ 0
      → count_if (has_username u.tenant_id u.username) rows ≡ 0
      → IsExpected id_taken rows u (ok u)
  id_clash : count_if (has_id u.id) rows ≢ 0 → IsExpected id_taken rows u (err id_taken)
  email_clash :
      count_if (has_email u.tenant_id u.email) rows ≢ 0
      → IsExpected id_taken rows u (err duplicate_email)
  username_clash :
      count_if (has_username u.tenant_id u.username) rows ≢ 0
      → IsExpected id_taken rows u (err duplicate_username)

module _ (a : Adapter Error) (now : ℕ) (u : User) (rows : List User) where
  abbrev made : Result Error User
  made = (create a now (some u) (record { rows = rows; faults = [] })).0
