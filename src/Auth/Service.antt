-- ===== src/Auth/Service.antt =====
-- pkg/auth/service.go: Login, Logout, ValidateSession and InvalidateAllSessions over the session
-- store. The reader of users, the hasher of pk-core and the host's login policy are parameters; the
-- calls of the policy, the runs of the hasher's Verify and the attempts to emit an audit entry are
-- recorded in the world in the order in which the source makes them.
pub mod Login
pub mod Secrecy
pub mod Ending
use pk_modules.Common.{
  ℕ, zero, suc, Bool, true, false, not, Option, none, some, List, [], ◌∷◌, ◌++◌, Action, Result, ok,
  err, pure, raise, lift, raise_if, or_raise, ◌>>=◌, ◌>>◌, if◌then◌else◌, ltb, ◌==◌,
}
use pk_modules.Common.Int.{ℤ, add_time}
use pk_modules.Common.Base64.{encode_url}
pub use pk_modules.Passhash.{Hasher}
use pk_modules.Common.Text.{Text, codes, trim_space, is_blank, text_eq}
use pk_modules.Auth.{
  Error, Session, Credentials, validate, identifier, invalid_credentials, session_expired,
  session_revoked, user_inactive, policy_denied, tenant_required, identifier_required,
  password_required, session_id_required, user_id_required, generate_failed,
}
use pk_modules.Auth.Store.{Store}

-- What Login reads of `user.User`.
pub record Account : Type 0 where
  pub id : Text
  pub active : Bool
  pub pass_hash : Text

-- `user.UserBoundaryReader`: by tenant and email, by tenant and username; none for any error
pub record Users : Type 0 where
  pub by_email : Text → Text → Option Account
  pub by_username : Text → Text → Option Account

-- The calls of `LoginPolicy`, with the tenant and the identifier.
pub data PolicyCall : Type 0 where
  allowed denied failure success : Text → Text → PolicyCall

pub record Event : Type 0 where
  pub action : Text
  pub resource : Text
  pub details : List (Text × Text)

-- `service`; AllowLogin answers from the calls that were made before it
pub record Service (S : Type 0) : Type 0 where
  pub sessions : Store S
  pub users : Option Users
  pub hasher : Hasher
  pub allow : List PolicyCall → Text → Text → Option Text
  pub audited : Bool
  pub session_ttl : ℤ
  pub decoy_hash : Text

pub record World (S : Type 0) : Type 0 where
  pub conn : S
  pub policy : List PolicyCall
  pub verifications : ℕ
  pub events : List Event

-- `newService`: a hasher that fails leaves the decoy empty
unfoldable pub new_service :
    {S : Type 0}
    → Store S
    → Option Users
    → Hasher
    → (List PolicyCall → Text → Text → Option Text)
    → Bool
    → ℤ
    → ℕ
    → Service S
new_service sessions users hasher allow audited ttl salt = record {
  sessions = sessions;
  users = users;
  hasher = hasher;
  allow = allow;
  audited = audited;
  session_ttl = ttl;
  decoy_hash = elim (hasher.hash salt (codes "decoy-password-not-used-for-auth")) [
    | none ↦ []
    | some h ↦ h
  ];
}

module _ {S : Type 0} (svc : Service S) where
  -- A call of the session store.
  abbrev pub stored : {A : Type 0} → Action Error S A → Action Error (World S) A
  stored m w = let (r, conn) = m w.conn in (r, record w { conn = conn })

  -- The hasher's Verify, whose runs are counted.
  unfoldable pub run_verify : Text → Text → Action Error (World S) Bool
  run_verify password hash w =
      (ok (svc.hasher.verify password hash), record w { verifications = suc w.verifications })

  unfoldable pub decoy_verify : Text → Action Error (World S) (Unit {0})
  unfolding run_verify
  decoy_verify password =
      if text_eq svc.decoy_hash [] then pure tt else (run_verify password svc.decoy_hash >> pure tt)

  unfoldable pub policy_call : PolicyCall → Action Error (World S) (Unit {0})
  policy_call call w = (ok tt, record w { policy = w.policy ++ call ∷ [] })

  unfoldable pub emit : Event → Action Error (World S) (Unit {0})
  emit e w = (ok tt, if svc.audited then record w { events = w.events ++ e ∷ [] } else w)

  unfoldable pub emit_failure : Text → Text → Text → Action Error (World S) (Unit {0})
  unfolding emit
  emit_failure tenant who reason = emit (record {
    action = codes "auth.login_failure";
    resource = codes "tenant:" ++ tenant;
    details =
        (codes "tenant_id", tenant) ∷ (codes "identifier", who) ∷ (codes "reason", reason) ∷ [];
  })

  unfoldable pub emit_success : Text → Text → Text → Text → Action Error (World S) (Unit {0})
  unfolding emit
  emit_success tenant user who session = emit (record {
    action = codes "auth.login_success";
    resource = codes "user:" ++ user;
    details =
        (codes "tenant_id", tenant)
        ∷ (codes "user_id", user)
        ∷ (codes "identifier", who)
        ∷ (codes "session_id", session)
        ∷ [];
  })

  -- RecordFailure, the audit entry and the error of a failed attempt.
  unfoldable pub deny : {A : Type 0} → Text → Text → Text → Error → Action Error (World S) A
  unfolding policy_call emit_failure
  deny tenant who reason e = do
    policy_call (failure tenant who)
    emit_failure tenant who reason
    raise e

  -- `lookupUser`
  unfoldable pub lookup_user : Text → Credentials → Option Account
  lookup_user tenant creds = elim svc.users [
    | none ↦ none
    | some users ↦
        if is_blank creds.email
        then (if is_blank creds.username then none else users.by_username tenant creds.username)
        else users.by_email tenant creds.email
  ]

  -- The result of the run, after it was counted.
  unfoldable pub judge : Text → Text → Account → Bool → Action Error (World S) Account
  unfolding deny
  judge tenant who u true = pure u
  judge tenant who u false = deny tenant who (codes "password_mismatch") invalid_credentials

  unfoldable pub check_account :
      Text → Text → Credentials → Option Account → Action Error (World S) Account
  unfolding deny decoy_verify run_verify judge
  check_account tenant who creds none = do
    decoy_verify creds.password
    deny tenant who (codes "user_not_found") invalid_credentials
  check_account tenant who creds (some u) =
      if not u.active
      then deny tenant who (codes "user_inactive") user_inactive
      else if text_eq u.pass_hash []
      then (do
        decoy_verify creds.password
        deny tenant who (codes "no_password_set") invalid_credentials)
      else (do same ← run_verify creds.password u.pass_hash; judge tenant who u same)

  -- AllowLogin, and what follows a refusal.
  unfoldable pub allow_login : Text → Text → Action Error (World S) (Unit {0})
  unfolding policy_call emit_failure
  allow_login tenant who w = elim (svc.allow w.policy tenant who) [
    | none ↦ policy_call (allowed tenant who) w
    | some message ↦
        (do
          policy_call (denied tenant who)
          emit_failure tenant who (codes "policy_denied")
          raise (policy_denied message))
          w
  ]

  -- `generateSessionID`
  unfoldable pub generate_session_id : Option (List ℕ) → Result Error Text
  generate_session_id none = err generate_failed
  generate_session_id (some bytes) = ok (encode_url bytes)

  unfoldable pub open_session :
      ℕ → Option (List ℕ) → Text → Text → Account → Action Error (World S) Session
  unfolding generate_session_id emit_success
  open_session now draw tenant who u = do
    id ← lift (generate_session_id draw)
    let session : Session = record {
      id = id;
      user_id = u.id;
      tenant_id = tenant;
      issued_at = now;
      expires_at = add_time now svc.session_ttl;
      revoked_at = none;
    }
    lift (validate (some session))
    stored (svc.sessions.create now (some session))
    emit_success tenant u.id who session.id
    pure session

  -- From the policy's answer to the session.
  unfoldable pub attempt_login :
      ℕ → Option (List ℕ) → Text → Text → Credentials → Action Error (World S) Session
  attempt_login now draw tenant who creds = do
    allow_login tenant who
    u ← check_account tenant who creds (lookup_user tenant creds)
    policy_call (success tenant who)
    open_session now draw tenant who u

  unfoldable pub login : ℕ → Option (List ℕ) → Text → Credentials → Action Error (World S) Session
  login now draw tenant_id creds = do
    raise_if (text_eq (trim_space tenant_id) []) tenant_required
    raise_if (text_eq (identifier creds) []) identifier_required
    raise_if (text_eq creds.password []) password_required
    attempt_login now draw (trim_space tenant_id) (identifier creds) creds

  unfoldable pub logout : ℕ → Text → Action Error (World S) (Unit {0})
  unfolding emit
  logout now id = do
    raise_if (is_blank id) session_id_required
    stored (svc.sessions.revoke now id)
    emit (record {
      action = codes "auth.logout";
      resource = codes "session:" ++ id;
      details = (codes "session_id", id) ∷ [];
    })

  -- The checks on the session that was found.
  unfoldable pub check_session : ℕ → Session → Action Error (World S) Session
  check_session now s = do
    raise_if (elim s.revoked_at [ none ↦ false | some _ ↦ true ]) session_revoked
    raise_if (if s.expires_at == 0 then false else ltb s.expires_at now) session_expired
    pure s

  unfoldable pub validate_session : ℕ → Text → Action Error (World S) Session
  unfolding check_session
  validate_session now id = do
    raise_if (is_blank id) session_id_required
    s ← stored (svc.sessions.get id)
    check_session now s

  unfoldable pub invalidate_all_sessions : ℕ → Text → Action Error (World S) (Unit {0})
  unfolding emit
  invalidate_all_sessions now user = do
    raise_if (is_blank user) user_id_required
    stored (svc.sessions.revoke_by_user now user)
    emit (record {
      action = codes "auth.invalidate_all";
      resource = codes "user:" ++ user;
      details = (codes "user_id", user) ∷ [];
    })
