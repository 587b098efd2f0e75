-- ===== src/Tests/Requests.antt =====
-- Requests to the APIs at concrete tables.
use pk_modules.Common.{
  ◌≤◌, In, inl, count_if, arith, ◌≡◌, refl, true, false, none, some, [], ◌∷◌, ok, err,
  if◌then◌else◌, filter,
}
use pk_modules.Common.Text.{Text, codes, text_eq, trim_space, contains, is_blank, has_prefix}
use pk_modules.Sql.{Conn}
use pk_modules.Http.{
  Method, Principal, Request, tenant_of, entity_id_from_path, trim_prefix, cut_slash,
}
use pk_modules.Common.Int.{pos, negsuc}
use pk_modules.Apikey.Handler.{seconds, to_int64}
use pk_modules.Apikey.Service.{expiry}
use pk_modules.Auth.{Session}
use pk_modules.Auth.Sqlite as Sessions
use pk_modules.Auth.Service.{Service, World}
use pk_modules.Auth.Handler as SessionApi
use pk_modules.Auth.Handler.Ownership.{IsValid, serve-In}
use pk_modules.Tenant.{Tenant}
use pk_modules.Tenant.Sqlite as Tenants
use pk_modules.Tenant.Handler as TenantApi
use pk_modules.Tenant.Handler.Boundary.{is_other, serve-is_other}
use pk_modules.User.Sqlite as Users
use pk_modules.User.Handler as UserApi
use pk_modules.User.Handler.{Input, Readings}
use pk_modules.User.Handler.Writes.{is_foreign, over}
use pk_modules.User.Handler.Boundary.{serve-is_foreign}
use pk_modules.User.{User}
use pk_modules.Tests.Fixtures.{driver, toy_hasher}

-- A decoder of segments that takes them as they are.
abbrev principal : Principal
principal = record {
  tenant_id = codes " t ";
  subject = codes "ann";
  anonymous = false;
  has_scope = λ scope. text_eq scope (codes "admin");
}

abbrev put_other : Request Tenant
put_other = record {
  method = Method.put;
  path = codes "/api/v1/tenants/u";
  query = λ name. [];
  body = some (record {
    id = [];
    slug = codes "mine";
    name = codes "Mine";
    created_at = 0;
    updated_at = 0;
  });
  principal = principal;
  decode = λ segment. some segment;
}

abbrev tenants : Conn Tenant
tenants = record {
  rows =
      (record {
        id = codes "t";
        slug = codes "t";
        name = codes "T";
        created_at = 1;
        updated_at = 1;
      })
      ∷ (record {
        id = codes "u";
        slug = codes "u";
        name = codes "U";
        created_at = 1;
        updated_at = 1;
      })
      ∷ [];
  faults = [];
}

serve-is_other_example :
    filter
      (is_other (trim_space (codes " t ")))
      (TenantApi.serve (Tenants.store (Tenants.sqlite driver)) put_other 9 tenants).1.rows
    ≡ filter (is_other (trim_space (codes " t "))) tenants.rows
serve-is_other_example = serve-is_other (Tenants.sqlite driver) put_other 9 tenants

-- The record of another tenant reads as absent.
refused : (TenantApi.serve (Tenants.store (Tenants.sqlite driver)) put_other 9 tenants).0 ≡ err 404
unfolding TenantApi.serve entity_id_from_path trim_prefix cut_slash has_prefix text_eq contains
    TenantApi.route TenantApi.update tenant_of trim_space
refused = refl

abbrev bob : User
bob = record {
  id = codes "bob";
  tenant_id = codes "u";
  email = codes "bob@x";
  username = codes "bob";
  pass_hash = [];
  display_name = [];
  active = true;
  created_at = 3;
  updated_at = 3;
}

abbrev users : Conn User
users = record {
  rows = bob ∷ record bob { id = codes "rob"; tenant_id = codes "t"; email = codes "rob@x" } ∷ [];
  faults = [];
}

abbrev remove : Text → Request Input
remove path = record {
  method = Method.delete;
  path = path;
  query = λ name. [];
  body = none;
  principal = principal;
  decode = λ segment. some segment;
}

abbrev readings : Readings
readings = record { now = 5; set_now = 5; store_now = 5; salt = 0 }

serve-is_foreign_example :
    filter
      (is_foreign (trim_space (codes " t ")))
      (UserApi.serve
        (over (Users.sqlite driver) (some toy_hasher) none)
        (remove (codes "/api/v1/users/bob"))
        readings
        users).1.rows
    ≡ filter (is_foreign (trim_space (codes " t "))) users.rows
serve-is_foreign_example =
    serve-is_foreign (Users.sqlite driver) (some toy_hasher) none
      (remove (codes "/api/v1/users/bob")) readings users

-- A nested path is served as its first segment: this one deletes Rob.
nested :
    (UserApi.serve
      (over (Users.sqlite driver) (some toy_hasher) none)
      (remove (codes "/api/v1/users/rob/x"))
      readings
      users).1.rows
    ≡ bob ∷ []
unfolding UserApi.serve entity_id_from_path trim_prefix cut_slash has_prefix text_eq contains
    UserApi.route UserApi.delete tenant_of trim_space is_blank Users.delete filter
    pk_modules.User.Service.delete pk_modules.Common.count_if
nested = refl

-- The longest lifetime that an int64 holds in nanoseconds, and one second more, which wraps around to
-- a negative duration: the key gets no expiry at all.
longest : seconds (pos 9223372036) ≡ pos 9223372036000000000
unfolding seconds to_int64
longest = refl

too_long : expiry 5 (seconds (pos 9223372037)) ≡ none
unfolding seconds to_int64
too_long = refl

-- A longer one still wraps around to less than a second.
wrapped : seconds (pos 18446744074) ≡ pos 290448384
unfolding seconds to_int64
wrapped = refl

minus_one : seconds (negsuc 0) ≡ negsuc 999999999
unfolding seconds to_int64
minus_one = refl

-- Bob's session, and Ann's request to end it.
abbrev session : Session
session = record {
  id = codes "s1";
  user_id = codes "bob";
  tenant_id = codes "t";
  issued_at = 5;
  expires_at = 90;
  revoked_at = none;
}

abbrev end_session : Request SessionApi.Input
end_session = record {
  method = Method.delete;
  path = codes "/api/v1/auth/sessions/s1";
  query = λ name. [];
  body = none;
  principal = principal;
  decode = λ segment. some segment;
}

abbrev base : Service (Conn Session)
base = record {
  sessions = Sessions.store (Sessions.sqlite driver);
  users = none;
  hasher = toy_hasher;
  allow = λ calls t who. none;
  audited = false;
  session_ttl = pos 60;
  decoy_hash = [];
}

abbrev world : World (Conn Session)
world = record {
  conn = record { rows = session ∷ []; faults = [] };
  policy = [];
  verifications = 0;
  events = [];
}

session-IsValid : IsValid (Sessions.sqlite driver) base session 7
unfolding is_blank
session-IsValid = record { not_revoked = refl; not_expired = refl; named = refl }

others : text_eq session.user_id end_session.principal.subject ≡ false
unfolding text_eq
others = refl

once : count_if (Sessions.has_id session.id) world.conn.rows ≤ 1
unfolding count_if text_eq
once = omega arith

serve-In_example :
    In session
      (SessionApi.serve
        (record base { sessions = Sessions.store (Sessions.sqlite driver) })
        end_session
        7
        7
        none
        world).1.conn.rows
serve-In_example =
    serve-In (Sessions.sqlite driver) base session end_session 7 7 none world (inl refl) once
      session-IsValid others refl

-- Where the driver fails at the check of the owner alone, the session is revoked.
fails_open :
    (SessionApi.serve base end_session 7 7 none (record world {
      conn = record world.conn { faults = some (codes "locked") ∷ [] };
    })).1.conn.rows
    ≡ record session { revoked_at = some 7 } ∷ []
unfolding SessionApi.serve entity_id_from_path trim_prefix cut_slash has_prefix text_eq
    SessionApi.route SessionApi.logout SessionApi.refuse_foreign is_blank Sessions.get
    Sessions.revoke count_if pk_modules.Auth.Service.validate_session pk_modules.Auth.Service.logout
    pk_modules.Common.map_if
fails_open = refl
