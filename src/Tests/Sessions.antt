-- ===== src/Tests/Sessions.antt =====
-- pkg/auth at concrete inputs.
use pk_modules.Common.{
  ◌≡◌, ◌≤◌, ◌⊎◌, ◌++◌, inl, inr, refl, sym, ◌∙◌, true, false, none, some, List, [], ◌∷◌, ok, In,
  count_if, map_if, find,
}
use pk_modules.Common.Int.{pos}
use pk_modules.Common.Base64.{encode_url}
use pk_modules.Common.Text.{codes, text_eq, trim_space, is_blank, to_lower, contains}
use pk_modules.Sql.{Adapter, Conn}
use pk_modules.Tests.Fixtures.{driver, toy_hash, toy_verify, zeros}
use pk_modules.Auth.{Error, Session, Credentials, identifier, validate}
use pk_modules.Auth.Sqlite
use pk_modules.Auth.Sqlite.{sqlite, store, create, get}
use pk_modules.Auth.Sqlite.Contract.{Classifies, session_store-IsStore}
use pk_modules.Auth.Service.{
  Service, World, Users, Account, PolicyCall, new_service, login, attempt_login, allow_login,
  check_account, open_session, policy_call, lookup_user, logout, validate_session,
  invalidate_all_sessions,
}
use pk_modules.Auth.Service.Login.{IsSettled, login-IsSettled, IsLogin, login_sound}
use pk_modules.Auth.Service.Secrecy.{LooksLike, login_hides_accounts, with_users}
use pk_modules.Auth.Service.Ending.{
  here, next, logged_in, validate_session_sound, logged_out_never_validates,
  invalidated_never_validates,
}

abbrev adapter : Adapter Error
adapter = sqlite driver

adapter-Classifies : Classifies adapter
unfolding Sqlite.insert_error Sqlite.is_unique_violation to_lower contains
adapter-Classifies = record { taken = refl }

abbrev ann : Account
ann = record { id = codes "u1"; active = true; pass_hash = 33 ∷ codes "secret" }

-- Every email and username is Ann's, and nobody's.
abbrev everyone : Users
everyone = record { by_email = λ t e. some ann; by_username = λ t n. some ann }

abbrev nobody : Users
nobody = record { by_email = λ t e. none; by_username = λ t n. none }

abbrev service : Service (Conn Session)
service = record {
  sessions = store adapter;
  users = some everyone;
  hasher = record { hash = toy_hash; verify = toy_verify };
  allow = λ calls t who. none;
  audited = true;
  session_ttl = pos 60;
  decoy_hash = 33 ∷ codes "decoy-password-not-used-for-auth";
}

-- The constructor gives this service its decoy.
new_service_decoy :
    new_service
      (store adapter)
      (some everyone)
      (record { hash = toy_hash; verify = toy_verify })
      (λ calls t who. none)
      true
      (pos 60)
      0
    ≡ service
unfolding new_service
new_service_decoy = refl

abbrev empty : World (Conn Session)
empty = record {
  conn = record { rows = []; faults = [] };
  policy = [];
  verifications = 0;
  events = [];
}

abbrev creds : Credentials
creds = record { email = codes "ann@x"; username = []; password = codes "secret" }

abbrev wrong : Credentials
wrong = record { email = codes "ann@x"; username = []; password = codes "guess" }

abbrev session : Session
session = record {
  id = codes "AAAAAAAAAAAAAAAAAAAAAAAAAAAAAAAAAAAAAAAAAAA";
  user_id = codes "u1";
  tenant_id = codes "t";
  issued_at = 5;
  expires_at = 65;
  revoked_at = none;
}

abbrev after_login : World (Conn Session)
after_login = (login service 5 (some (zeros 32)) (codes " t") creds empty).1

login_ann : login service 5 (some (zeros 32)) (codes " t") creds empty ≡ (ok session, after_login)
unfolding login attempt_login allow_login check_account open_session policy_call lookup_user text_eq
    trim_space identifier encode_url validate is_blank create count_if
login_ann = refl

login_sound_example :
    IsLogin service (λ (c : Conn Session). c.rows) 5 (codes " t") creds empty after_login session
login_sound_example =
    login_sound service (session_store-IsStore adapter adapter-Classifies) 5 (some (zeros 32))
      (codes " t") creds empty after_login session login_ann

login-IsSettled_example :
    (calls : List PolicyCall) × ((login service 5 none (codes " t") wrong empty).1.policy
      ≡ [] ++ calls)
    × IsSettled (trim_space (codes " t")) (identifier wrong) calls
login-IsSettled_example = login-IsSettled service 5 none (codes " t") wrong empty

nobody_found : lookup_user (with_users service (some nobody)) (trim_space (codes "t")) wrong ≡ none
unfolding lookup_user is_blank trim_space
nobody_found = refl

ann_found :
    lookup_user
      (with_users (with_users service (some nobody)) (some everyone))
      (trim_space (codes "t"))
      wrong
    ≡ some ann
unfolding lookup_user is_blank trim_space
ann_found = refl

guess_fails : toy_verify (codes "guess") ann.pass_hash ≡ false
unfolding text_eq
guess_fails = refl

decoy_made : text_eq service.decoy_hash [] ≡ false
unfolding text_eq
decoy_made = refl

login_hides_accounts_example :
    LooksLike
      (with_users service (some nobody))
      (login (with_users service (some nobody)) 5 none (codes "t") wrong empty)
      (login
        (with_users (with_users service (some nobody)) (some everyone))
        5
        none
        (codes "t")
        wrong
        empty)
login_hides_accounts_example =
    login_hides_accounts (with_users service (some nobody)) 5 none (codes "t") wrong (some everyone)
      ann empty decoy_made nobody_found ann_found refl (inr guess_fails)

abbrev live : World (Conn Session)
live = record empty { conn = record { rows = session ∷ []; faults = [] } }

validate_live : validate_session service 65 session.id live ≡ (ok session, live)
unfolding validate_session is_blank trim_space get find text_eq
validate_live = refl

validate_session_sound_example :
    In session live.conn.rows
    × (session.id ≡ session.id)
    × (session.revoked_at ≡ none)
    × ((session.expires_at ≡ 0) ⊎ (65 ≤ session.expires_at))
validate_session_sound_example =
    validate_session_sound service (session_store-IsStore adapter adapter-Classifies) 65 session.id
      session live live validate_live

abbrev after_logout : World (Conn Session)
after_logout = (logout service 9 session.id live).1

logout_session : logout service 9 session.id live ≡ (ok tt, after_logout)
unfolding logout Sqlite.revoke is_blank trim_space text_eq count_if map_if
logout_session = refl

-- Also after a later login.
logged_out_never_validates_example : ¬ (
    validate_session service 12 session.id
      (login service 11 (some (zeros 32)) (codes "t") creds after_logout).1
    ≡ (ok session, live))
logged_out_never_validates_example =
    logged_out_never_validates service (session_store-IsStore adapter adapter-Classifies) 9
      session.id live after_logout session (inl refl) refl logout_session
      (login service 11 (some (zeros 32)) (codes "t") creds after_logout).1
      (next here (logged_in after_logout 11 (some (zeros 32)) (codes "t") creds)) 12 session live

abbrev after_invalidation : World (Conn Session)
after_invalidation = (invalidate_all_sessions service 9 (codes "u1") live).1

invalidate_ann : invalidate_all_sessions service 9 (codes "u1") live ≡ (ok tt, after_invalidation)
unfolding invalidate_all_sessions Sqlite.revoke_by_user is_blank trim_space text_eq count_if map_if
invalidate_ann = refl

one_session : (y z : Session) → In y live.conn.rows → In z live.conn.rows → y.id ≡ z.id → y ≡ z
one_session y z (inl e) (inl f) k = e ∙ sym f
one_session y z (inl e) (inr m) k = elim m [ ]
one_session y z (inr m) n k = elim m [ ]

invalidated_never_validates_example :
    ¬ (validate_session service 12 session.id after_invalidation ≡ (ok session, live))
invalidated_never_validates_example =
    invalidated_never_validates service (session_store-IsStore adapter adapter-Classifies) 9
      (codes "u1") live after_invalidation session (inl refl) refl one_session invalidate_ann
      after_invalidation here 12 session live
