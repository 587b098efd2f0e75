-- ===== src/Tests/Users.antt =====
-- pkg/user and its composition with pkg/auth at a concrete table.
use pk_modules.Common.{
  ◌≡◌, refl, true, false, none, some, List, [], ◌∷◌, ◌++◌, ok, err, if◌then◌else◌, count_if, find,
  arith,
}
use pk_modules.Common.Int.{pos}
use pk_modules.Common.Text.{Text, codes, is_blank, trim_space, text_eq, contains, to_lower}
use pk_modules.Sql.{Adapter, Conn, Driver}
use pk_modules.User.{Error, User, validate_password, duplicate_email, duplicate_username, mismatch}
use pk_modules.User.Sqlite
use pk_modules.User.Sqlite.{sqlite, id_columns, is_key}
use pk_modules.User.Sqlite.Keys.{HasKeys, Step, Reach, Reach-HasKeys}
use pk_modules.User.Sqlite.Conflicts.{postgres_message}
use pk_modules.User.Postgres
use pk_modules.User.Postgres.{postgres}
use pk_modules.User.Service.{set_password, verify_password}
use pk_modules.User.Service.Passwords.{over, calm, set_password-verify_password}
use pk_modules.Auth.{Session}
use pk_modules.Auth.Service.{Service, World, Account, allowed, success, login, open_session}
use pk_modules.Auth.Sqlite as Sessions
use pk_modules.Signin.{over_users, set_password-login}
use pk_modules.Tests.Fixtures.{driver, last_of, toy_hash, toy_verify, toy_hasher, toy-IsHasher}

abbrev adapter : Adapter Error
adapter = sqlite driver

abbrev ann : User
ann = record {
  id = codes "u1";
  tenant_id = codes "t";
  email = codes "ann@x";
  username = codes "ann";
  pass_hash = [];
  display_name = [];
  active = true;
  created_at = 3;
  updated_at = 3;
}

abbrev empty : Conn User
empty = record { rows = []; faults = [] }

abbrev full : Conn User
full = record { rows = ann ∷ []; faults = [] }

HasKeys-empty : HasKeys []
unfolding count_if
HasKeys-empty = record {
  ids = λ id. omega arith;
  emails = λ p. omega arith;
  usernames = λ p. omega arith;
}

Reach-HasKeys_example : HasKeys (Sqlite.create adapter 9 (some ann) empty).1.rows
Reach-HasKeys_example =
    Reach-HasKeys adapter (Reach.next Reach.here (Step.created empty 9 (some ann))) HasKeys-empty

-- The messages of Postgres, which name the constraint.
abbrev pg_name : Text → Text
pg_name columns =
    if text_eq columns id_columns
    then codes "users_pkey"
    else if contains columns (codes "email")
    then codes "uq_users_tenant_email"
    else codes "uq_users_tenant_username"

-- It reports the constraint declared first.
first_of : List Text → Text
first_of [] = []
first_of (t ∷ ts) = t

abbrev pg_driver : Driver
pg_driver = record {
  violation = λ columns. postgres_message (pg_name columns);
  reported = first_of;
}

-- A second user with Ann's email and username.
abbrev bob : User
bob = record ann { id = codes "u2" }

-- Where the email and the username are both taken, the driver's choice shows.
reported_keys :
    ((Sqlite.create (sqlite driver) 9 (some bob) full).0 ≡ err duplicate_username)
    × ((Sqlite.create (postgres pg_driver) 9 (some bob) full).0 ≡ err duplicate_email)
unfolding Sqlite.create Sqlite.violated Sqlite.broken count_if text_eq last_of first_of contains
    to_lower Sqlite.classify_unique_error Postgres.classify_unique_error
reported_keys = (refl, refl)

abbrev after : Conn User
after =
    (set_password (over adapter toy_hasher none) 5 0 0 (codes "t") (codes "u1") (codes "secret")
      full).1

set_ann :
    set_password (over adapter toy_hasher none) 5 0 0 (codes "t") (codes "u1") (codes "secret") full
    ≡ (ok tt, after)
unfolding set_password is_blank text_eq validate_password Sqlite.update_pass_hash count_if
set_ann = refl

set_password-verify_password_example :
    (hash : Text) × (toy_hash 0 (codes "secret") ≡ some hash)
    × ((verify_password
          (over adapter toy_hasher none)
          (codes "t")
          (codes "u1")
          (codes "secret")
          (calm after)).0
        ≡ ok tt)
    × ((text : Text)
        → (verify_password
            (over adapter toy_hasher none)
            (codes "t")
            (codes "u1")
            text
            (calm after)).0
          ≡ (if toy_verify text hash then ok tt else err mismatch))
set_password-verify_password_example =
    set_password-verify_password adapter toy_hasher none 5 0 0 (codes "t") (codes "u1")
      (codes "secret") full after set_ann toy-IsHasher

-- The login service, to whose store the users are added.
abbrev base : Service (Conn Session)
base = record {
  sessions = Sessions.store (Sessions.sqlite driver);
  users = none;
  hasher = toy_hasher;
  allow = λ calls t who. none;
  audited = true;
  session_ttl = pos 60;
  decoy_hash = [];
}

abbrev world : World (Conn Session)
world = record {
  conn = record { rows = []; faults = [] };
  policy = [];
  verifications = 0;
  events = [];
}

ann_known : find (is_key (codes "t") (codes "u1")) full.rows ≡ some ann
unfolding find text_eq
ann_known = refl

not_blank : is_blank ann.email ≡ false
unfolding is_blank
not_blank = refl

trimmed : trim_space (codes "t") ≡ codes "t"
unfolding trim_space
trimmed = refl

full-HasKeys : HasKeys full.rows
unfolding count_if
full-HasKeys = record {
  ids = λ id. ground arith;
  emails = λ p. ground arith;
  usernames = λ p. ground arith;
}

abbrev mail : Text
mail = trim_space (codes "ann@x")

set_password-login_example :
    (found : Account) × (found.id ≡ codes "u1")
    × (login
          (over_users base adapter toy_hasher none after)
          7
          none
          (codes "t")
          (record { email = codes "ann@x"; username = []; password = codes "secret" })
          world
        ≡ open_session
            (over_users base adapter toy_hasher none after)
            7
            none
            (codes "t")
            mail
            found
            (record world {
              policy = ([] ++ allowed (codes "t") mail ∷ []) ++ success (codes "t") mail ∷ [];
              verifications = 1;
            }))
set_password-login_example =
    set_password-login base adapter toy_hasher none 5 0 0 (codes "t") (codes "u1") (codes "secret")
      full after ann set_ann toy-IsHasher full-HasKeys ann_known refl not_blank trimmed 7 none []
      world refl
