-- ===== src/Auth/Service/Login.antt =====
-- What a login does: the calls of the policy are settled, and a session is opened only for a verified
-- password.
use mathlib.Core.List.{append_assoc, append-nil}
use pk_modules.Common.{
  ℕ, Bool, ◌≡◌, ◌≢◌, ◌↔◌, ◌⊎◌, inl, inr, refl, sym, ap, ◌∙◌, true, false, Option, none, some, List,
  [], ◌∷◌, ◌++◌, Result, ok, err, In, arith, Bool-cases, Option-cases, ◌>>=◌, ◌>>◌, bind_ok,
  proceed,
}
use pk_modules.Common.Int.{add_time}
use pk_modules.Common.Text.{Text, text_eq, trim_space}
use pk_modules.Auth.{Error, Session, Credentials, identifier, invalid_credentials}
use pk_modules.Auth.Store.{IsStore, stamp}
use pk_modules.Auth.Service.{
  Service, World, Account, PolicyCall, allowed, denied, failure, success, login, attempt_login,
  check_account, allow_login, open_session, lookup_user, policy_call, emit,
}

-- The calls of one login: none, a refusal, or an admission that one outcome settles.
pub data IsSettled (tenant who : Text) : List PolicyCall → Type 0 where
  malformed : IsSettled tenant who []
  refused : IsSettled tenant who (denied tenant who ∷ [])
  failed : IsSettled tenant who (allowed tenant who ∷ failure tenant who ∷ [])
  verified : IsSettled tenant who (allowed tenant who ∷ success tenant who ∷ [])

module _ {S : Type 0} (svc : Service S) where
  -- The account was there, active, with a password that the given one verifies against.
  pub record IsVerified (creds : Credentials) (o : Option Account) (u : Account) : Type 0 where
    pub found : o ≡ some u
    pub active : u.active ≡ true
    pub has_password : text_eq u.pass_hash [] ≡ false
    pub matches : svc.hasher.verify creds.password u.pass_hash ≡ true

  -- A check of an account accepts it and calls no policy, or reports exactly one failure.
  check_account-cases :
      (t who : Text) (creds : Credentials) (o : Option Account) (w : World S)
      → let (r, v) = check_account svc t who creds o w in
        ((u : Account) × IsVerified creds o u × (r ≡ ok u) × (v.policy ≡ w.policy))
        ⊎ ((e : Error) × (r ≡ err e) × (v.policy ≡ w.policy ++ failure t who ∷ []))
  unfolding check_account
  check_account-cases t who creds none w = inr (invalid_credentials, ground arith, ground arith)
  check_account-cases t who creds (some u) w = elim (Bool-cases u.active) [
    | inr a ↦ inr (Error.user_inactive, ground arith, ground arith)
    | inl a ↦ elim (Bool-cases (text_eq u.pass_hash [])) [
      | inl p ↦ inr (invalid_credentials, ground arith, ground arith)
      | inr p ↦ elim (Bool-cases (svc.hasher.verify creds.password u.pass_hash)) [
        | inr m ↦ inr (invalid_credentials, ground arith, ground arith)
        | inl m ↦ inl (
          u,
          record { found = refl; active = a; has_password = p; matches = m },
          ground arith,
          ground arith,
        )
      ]
    ]
  ]

  open_session-policy :
      (now : ℕ) (draw : Option (List ℕ)) (t who : Text) (u : Account) (w : World S)
      → (open_session svc now draw t who u w).1.policy ≡ w.policy
  unfolding open_session
  open_session-policy now draw t who u w = ground arith

  pub allow_login-cases :
      (t who : Text) (w : World S)
      → let (r, v) = allow_login svc t who w in
        ((r ≡ ok tt) × (v.policy ≡ w.policy ++ allowed t who ∷ []))
        ⊎ ((e : Error) × (r ≡ err e) × (v.policy ≡ w.policy ++ denied t who ∷ []))
  unfolding allow_login
  allow_login-cases t who w = elim (Option-cases (svc.allow w.policy t who)) [
    | inl e ↦ inl (ground arith, ground arith)
    | inr (m, e) ↦ inr (Error.policy_denied m, ground arith, ground arith)
  ]

  -- What an attempt that the policy admitted leaves, by the outcome of the check.
  module _ (now : ℕ) (draw : Option (List ℕ)) (t who : Text) (creds : Credentials)
      (w : World S) where
    abbrev checked : Result Error Account × World S
    checked = check_account svc t who creds (lookup_user svc t creds) (allow_login svc t who w).1

    opened :
        (u : Account) (v : World S)
        → ((policy_call svc (success t who) >> open_session svc now draw t who u) v).1.policy
          ≡ v.policy ++ success t who ∷ []
    unfolding policy_call
    opened u v =
        open_session-policy now draw t who u (record v { policy = v.policy ++ success t who ∷ [] })

    -- The attempt's calls of the policy, and whether it got past the check.
    attempt_login-IsSettled :
        (calls : List PolicyCall) × ((attempt_login svc now draw t who creds w).1.policy
          ≡ w.policy ++ calls)
        × IsSettled t who calls
    unfolding attempt_login
    attempt_login-IsSettled = elim (allow_login-cases t who w) [
      | inr (e, r, p) ↦ (denied t who ∷ [], rw (r, proceed) p, refused)
      | inl (r, p) ↦
          elim (check_account-cases t who creds (lookup_user svc t creds)
            (allow_login svc t who w).1) [
              | inr (e, q, k) ↦ (
                allowed t who ∷ failure t who ∷ [],
                rw (r, proceed)
                    (rw (q, proceed)
                      (k
                        ∙ ap (λ (l : List PolicyCall). l ++ failure t who ∷ []) p
                        ∙ append_assoc w.policy (allowed t who ∷ []) (failure t who ∷ []))),
                failed,
              )
              | inl (u, v, q, k) ↦ (
                allowed t who ∷ success t who ∷ [],
                rw (r, proceed)
                    (rw (q, proceed)
                      (opened u checked.1
                        ∙ ap (λ (l : List PolicyCall). l ++ success t who ∷ []) (k ∙ p)
                        ∙ append_assoc w.policy (allowed t who ∷ []) (success t who ∷ []))),
                verified,
              )
            ]
    ]

  -- Every login settles the throttle's reservation, whatever its inputs, the faults of the session
  -- store and its result: it makes no call of the policy (a malformed request), or only the refused
  -- admission, or one admission followed by exactly one recorded failure or one recorded success,
  -- all for the trimmed tenant and the identifier of the credentials.
  pub login-IsSettled :
      (now : ℕ) (draw : Option (List ℕ)) (tenant : Text) (creds : Credentials) (w : World S)
      → (calls : List PolicyCall) × ((login svc now draw tenant creds w).1.policy
          ≡ w.policy ++ calls)
        × IsSettled (trim_space tenant) (identifier creds) calls
  unfolding login
  login-IsSettled now draw tenant creds w = elim (Bool-cases (text_eq (trim_space tenant) [])) [
    | inl e ↦ ([], rw (e, append-nil), malformed)
    | inr e ↦ elim (Bool-cases (text_eq (identifier creds) [])) [
      | inl f ↦ ([], rw (e, f, append-nil), malformed)
      | inr f ↦ elim (Bool-cases (text_eq creds.password [])) [
        | inl g ↦ ([], rw (e, f, g, append-nil), malformed)
        | inr g ↦
            let (calls, p, s) =
              attempt_login-IsSettled now draw (trim_space tenant) (identifier creds) creds w in
            (calls, rw (e, f, g) p, s)
      ]
    ]
  ]

  -- The session of a successful login, and what it did to the store.
  pub record IsLogin (view : S → List Session) (now : ℕ) (tenant : Text) (creds : Credentials)
      (w w' : World S) (s : Session) : Type 0 where
    pub account : Account
    pub admitted : svc.allow w.policy (trim_space tenant) (identifier creds) ≡ none
    pub checked : IsVerified creds (lookup_user svc (trim_space tenant) creds) account
    pub user_id : s.user_id ≡ account.id
    pub tenant_id : s.tenant_id ≡ trim_space tenant
    pub expires_at : s.expires_at ≡ add_time now svc.session_ttl
    pub live : s.revoked_at ≡ none
    pub added : (y : Session) → In y (view w'.conn) ↔ (In y (view w.conn) ⊎ (y ≡ s))
    pub fresh : (y : Session) → In y (view w.conn) → y.id ≢ s.id

  allow_login-ok :
      (t who : Text) (w v : World S)
      → allow_login svc t who w ≡ (ok tt, v)
      → (svc.allow w.policy t who ≡ none) × (v.conn ≡ w.conn)
  unfolding allow_login
  allow_login-ok t who w v h = elim (Option-cases (svc.allow w.policy t who)) [
    | inl e ↦ (e, ground arith)
    | inr (m, e) ↦ absurd (ground arith)
  ]

  check_account-ok :
      (t who : Text) (creds : Credentials) (o : Option Account) (u : Account) (w v : World S)
      → check_account svc t who creds o w ≡ (ok u, v)
      → IsVerified creds o u × (v.conn ≡ w.conn)
  unfolding check_account
  check_account-ok t who creds none u w v h = absurd (ground arith)
  check_account-ok t who creds (some x) u w v h =
      elim (Bool-cases (svc.hasher.verify creds.password x.pass_hash)) [
        | inr m ↦ absurd (ground arith)
        | inl m ↦ (
          record {
            found = ground arith;
            active = ground arith;
            has_password = ground arith;
            matches = ground arith;
          },
          ground arith,
        )
      ]

  open_session-ok :
      (now : ℕ) (draw : Option (List ℕ)) (t who : Text) (u : Account) (w w' : World S) (s : Session)
      → open_session svc now draw t who u w ≡ (ok s, w')
      → (svc.sessions.create now (some s) w.conn ≡ (ok tt, w'.conn))
        × (s ≡ record {
          id = s.id;
          user_id = u.id;
          tenant_id = t;
          issued_at = now;
          expires_at = add_time now svc.session_ttl;
          revoked_at = none;
        })
  unfolding open_session emit
  open_session-ok now draw t who u w w' s h = elim (Option-cases draw) [
    | inl e ↦ absurd (ground arith)
    | inr (bytes, e) ↦ (ground arith, ground arith)
  ]

  stamp-now :
      (now : ℕ) (i u t : Text) (e : ℕ)
      → let s : Session = record {
        id = i;
        user_id = u;
        tenant_id = t;
        issued_at = now;
        expires_at = e;
        revoked_at = none;
      } in
        stamp now s ≡ s
  stamp-now now i u t e = ground arith

  attempt_login-ok :
      (now : ℕ) (draw : Option (List ℕ)) (t who : Text) (creds : Credentials) (w w' : World S)
      (s : Session)
      → attempt_login svc now draw t who creds w ≡ (ok s, w')
      → (u : Account) × (svc.allow w.policy t who ≡ none)
        × IsVerified creds (lookup_user svc t creds) u
        × (svc.sessions.create now (some s) w.conn ≡ (ok tt, w'.conn))
        × (s ≡ record {
          id = s.id;
          user_id = u.id;
          tenant_id = t;
          issued_at = now;
          expires_at = add_time now svc.session_ttl;
          revoked_at = none;
        })
  unfolding attempt_login policy_call
  attempt_login-ok now draw t who creds w w' s h =
      let (_, v, a, h') =
        bind_ok (allow_login svc t who)
          (λ _. check_account svc t who creds (lookup_user svc t creds) >>= λ u.
            policy_call svc (success t who) >> open_session svc now draw t who u)
          w w' h in
      let (u, v', c, h'') =
        bind_ok (check_account svc t who creds (lookup_user svc t creds))
          (λ u. policy_call svc (success t who) >> open_session svc now draw t who u) v w' h' in
      let (admitted, e) = allow_login-ok t who w v a in
      let (accepted, e') = check_account-ok t who creds (lookup_user svc t creds) u v v' c in
      let (made, shape) =
        open_session-ok now draw t who u (record v' { policy = v'.policy ++ success t who ∷ [] }) w'
          s h'' in
      (u, admitted, accepted, rw (← e, ← e') made, shape)

  module _ {view : S → List Session} {answers : S → Bool}
      (law : IsStore svc.sessions view answers) where
    -- When Login returns a session, the policy had admitted the attempt, the credentials named an
    -- active account with a password, the hasher verified the given password against it, and the
    -- store has gained exactly this session, under an id that was free: of that account, in the
    -- trimmed tenant, not revoked, and expiring one session lifetime after now.
    -- The store is any one that keeps the laws of its interface.
    pub login_sound :
        (now : ℕ) (draw : Option (List ℕ)) (tenant : Text) (creds : Credentials) (w w' : World S)
        (s : Session)
        → login svc now draw tenant creds w ≡ (ok s, w')
        → IsLogin view now tenant creds w w' s
    unfolding login
    login_sound now draw tenant creds w w' s h =
        let (u, admitted, accepted, made, shape) =
          attempt_login-ok now draw (trim_space tenant) (identifier creds) creds w w' s
            (ground arith) in
        let (members, free) = law.create_ok now s w.conn w'.conn made in
        let stamped : stamp now s ≡ s =
          ap (stamp now) shape
          ∙ stamp-now now s.id u.id (trim_space tenant) (add_time now svc.session_ttl)
          ∙ sym shape in
        record {
          account = u;
          admitted = admitted;
          checked = accepted;
          user_id = ap (λ (x : Session). x.user_id) shape;
          tenant_id = ap (λ (x : Session). x.tenant_id) shape;
          expires_at = ap (λ (x : Session). x.expires_at) shape;
          live = ap (λ (x : Session). x.revoked_at) shape;
          added = λ y. rw stamped at (members y);
          fresh = free;
        }
