-- ===== src/Auth/Service/Ending.antt =====
-- What ValidateSession accepts, and that a session that was ended stays ended, whatever the service
-- is asked to do afterwards.
use pk_modules.Common.{
  ℕ, ◌≤◌, Result-cases, bind_keeps, Bool, raise_if, ◌≡◌, ◌≢◌, ◌⊎◌, inl, inr, refl, sym, ap, ◌∙◌,
  Option, none, some, List, [], ◌∷◌, ◌++◌, Result, ok, err, In, arith, Option-cases, ◌>>◌,
}
use pk_modules.Common.Base64.{encode_url}
use pk_modules.Common.Int.{add_time}
use pk_modules.Common.Text.{Text, trim_space, text_eq}
use pk_modules.Auth.{Error, Session, Credentials, identifier, validate}
use pk_modules.Auth.Store.{IsStore, Updates, Changes-Updates}
use pk_modules.Auth.Service.{
  Service, World, Account, login, attempt_login, check_account, allow_login, open_session,
  lookup_user, policy_call, success, logout, validate_session, invalidate_all_sessions, emit,
}

-- A session with this id is there and every such session is revoked.
pub record IsDead (id : Text) (rows : List Session) : Type 0 where
  pub present : (x : Session) × In x rows × (x.id ≡ id)
  pub revoked : (x : Session) → In x rows → x.id ≡ id → x.revoked_at ≢ none

updated-IsDead :
    (id : Text) (rows rows' : List Session) → Updates rows rows' → IsDead id rows → IsDead id rows'
updated-IsDead id rows rows' u d =
    let (x, i, e) = d.present in
    let (y, j, f) = u.on x i in
    record {
      present = (y, j, f.id ∙ e);
      revoked = λ y' m k.
          let (x', i', f') = u.back y' m in f'.stays_revoked (d.revoked x' i' (sym f'.id ∙ k));
    }

module _ {S : Type 0} (svc : Service S) where
  -- One request to the service, with its clock reading and its draw; it may fail.
  pub data Step : World S → World S → Type 0 where
    logged_in :
        (w : World S) (now : ℕ) (draw : Option (List ℕ)) (tenant : Text) (creds : Credentials)
        → Step w (login svc now draw tenant creds w).1
    logged_out : (w : World S) (now : ℕ) (id : Text) → Step w (logout svc now id w).1
    validated : (w : World S) (now : ℕ) (id : Text) → Step w (validate_session svc now id w).1
    invalidated :
        (w : World S) (now : ℕ) (user : Text) → Step w (invalidate_all_sessions svc now user w).1

  pub data Reach (w : World S) : World S → Type 0 where
    here : Reach w w
    next : {t u : World S} → Reach w t → Step t u → Reach w u

  validate_session-ok :
      (now : ℕ) (id : Text) (s : Session) (w w' : World S)
      → validate_session svc now id w ≡ (ok s, w')
      → (c : S) × (svc.sessions.get id w.conn ≡ (ok s, c))
        × (s.revoked_at ≡ none)
        × ((s.expires_at ≡ 0) ⊎ (now ≤ s.expires_at))
  unfolding validate_session
  validate_session-ok now id s w w' h =
      go (svc.sessions.get id w.conn).0 (svc.sessions.get id w.conn).1 refl
    where
      go :
          (r : Result Error Session) (c : S)
          → svc.sessions.get id w.conn ≡ (r, c)
          → (c' : S) × (svc.sessions.get id w.conn ≡ (ok s, c'))
            × (s.revoked_at ≡ none)
            × ((s.expires_at ≡ 0) ⊎ (now ≤ s.expires_at))
      go (err e) c g = absurd (ground arith)
      go (ok x) c g = (c, ground arith, ground arith, ground arith)

  pub logout_conn :
      (now : ℕ) (id : Text) (w : World S)
      → ((logout svc now id w).1.conn ≡ w.conn)
        ⊎ ((logout svc now id w).1.conn ≡ (svc.sessions.revoke now id w.conn).1)
  unfolding logout
  logout_conn now id w = ground arith

  invalidate_conn :
      (now : ℕ) (user : Text) (w : World S)
      → ((invalidate_all_sessions svc now user w).1.conn ≡ w.conn)
        ⊎ ((invalidate_all_sessions svc now user w).1.conn
            ≡ (svc.sessions.revoke_by_user now user w.conn).1)
  unfolding invalidate_all_sessions
  invalidate_conn now user w = ground arith

  pub validate_conn :
      (now : ℕ) (id : Text) (w : World S)
      → ((validate_session svc now id w).1.conn ≡ w.conn)
        ⊎ ((validate_session svc now id w).1.conn ≡ (svc.sessions.get id w.conn).1)
  unfolding validate_session
  validate_conn now id w = ground arith

  pub allow_conn : (t who : Text) (w : World S) → (allow_login svc t who w).1.conn ≡ w.conn
  unfolding allow_login
  allow_conn t who w = ground arith

  pub check_conn :
      (t who : Text) (creds : Credentials) (o : Option Account) (w : World S)
      → (check_account svc t who creds o w).1.conn ≡ w.conn
  unfolding check_account
  check_conn t who creds none w = ground arith
  check_conn t who creds (some u) w = ground arith

  pub open_conn :
      (now : ℕ) (draw : Option (List ℕ)) (t who : Text) (u : Account) (w : World S)
      → ((open_session svc now draw t who u w).1.conn ≡ w.conn)
        ⊎ ((s : Session) × ((open_session svc now draw t who u w).1.conn
              ≡ (svc.sessions.create now (some s) w.conn).1))
  unfolding open_session
  open_conn now draw t who u w = elim (Option-cases draw) [
    | inl e ↦ inl (ground arith)
    | inr (bytes, e) ↦
        let s : Session = record {
          id = encode_url bytes;
          user_id = u.id;
          tenant_id = t;
          issued_at = now;
          expires_at = add_time now svc.session_ttl;
          revoked_at = none;
        } in
        elim (Result-cases (validate (some s))) [
          | inr (x, v) ↦ inl (ground arith)
          | inl (x, v) ↦ inr (s, ground arith)
        ]
  ]

module _ {S : Type 0} (svc : Service S) {view : S → List Session} {answers : S → Bool}
    (law : IsStore svc.sessions view answers) where
  revoked_table :
      (now : ℕ) (id : Text) (s : S) → Updates (view s) (view (svc.sessions.revoke now id s).1)
  revoked_table now id s =
      Changes-Updates now (λ x. (x.id ≡ id) × (x.revoked_at ≡ none)) (view s)
        (view (svc.sessions.revoke now id s).1) (law.revoke_changes now id s)

  invalidated_table :
      (now : ℕ) (user : Text) (s : S)
      → Updates (view s) (view (svc.sessions.revoke_by_user now user s).1)
  invalidated_table now user s =
      Changes-Updates now (λ x. (x.user_id ≡ user) × (x.revoked_at ≡ none)) (view s)
        (view (svc.sessions.revoke_by_user now user s).1) (law.revoke_by_user_changes now user s)

  -- When ValidateSession returns a session, the store holds it under the id asked for, it is not
  -- revoked, and it has no expiry or one that is not before now.
  -- The store is any one that keeps the laws of its interface.
  pub validate_session_sound :
      (now : ℕ) (id : Text) (s : Session) (w w' : World S)
      → validate_session svc now id w ≡ (ok s, w')
      → In s (view w.conn)
        × (s.id ≡ id)
        × (s.revoked_at ≡ none)
        × ((s.expires_at ≡ 0) ⊎ (now ≤ s.expires_at))
  validate_session_sound now id s w w' h =
      let (c, g, live, current) = validate_session-ok svc now id s w w' h in
      let (i, e) = law.get_ok id s w.conn c g in (i, e, live, current)

  -- A new session cannot take the id of a session that is there.
  create-IsDead :
      (id : Text) (now : ℕ) (x : Session) (s : S)
      → IsDead id (view s)
      → IsDead id (view (svc.sessions.create now (some x) s).1)
  create-IsDead id now x s d =
      go (svc.sessions.create now (some x) s).0 (svc.sessions.create now (some x) s).1 refl
    where
      go :
          (r : Result Error (Unit {0})) (s' : S)
          → svc.sessions.create now (some x) s ≡ (r, s')
          → IsDead id (view s')
      go (err e) s' h = rw (law.create_err now (some x) e s s' h) d
      go (ok tt) s' h =
          let (members, free) = law.create_ok now x s s' h in
          let (y, i, q) = d.present in
          record {
            present = (y, (members y).1 (inl i), q);
            revoked = λ z m k. elim ((members z).0 m) [
              | inl old ↦ d.revoked z old k
              | inr new ↦ absurd (free y i (q ∙ sym k ∙ ap (λ (r : Session). r.id) new))
            ];
          }

  login-IsDead :
      (id : Text) (now : ℕ) (draw : Option (List ℕ)) (tenant : Text) (creds : Credentials)
      (w : World S)
      → IsDead id (view w.conn)
      → IsDead id (view (login svc now draw tenant creds w).1.conn)
  unfolding login attempt_login policy_call
  login-IsDead id now draw tenant creds w d =
      bind_keeps P (raise_if (text_eq (trim_space tenant) []) Error.tenant_required) _ w d λ _ v dv.
        bind_keeps P (raise_if (text_eq (identifier creds) []) Error.identifier_required) _ v dv
          λ _ v dv.
            bind_keeps P (raise_if (text_eq creds.password []) Error.password_required) _ v dv
              λ _ v dv.
                bind_keeps P (allow_login svc (trim_space tenant) (identifier creds)) _ v
                  (rw allow_conn dv)
                  λ _ v dv.
                    bind_keeps P
                      (check_account svc (trim_space tenant) (identifier creds) creds
                        (lookup_user svc (trim_space tenant) creds))
                      _ v (rw check_conn dv) λ u v dv. opened u v dv
    where
      P : World S → Type 0
      P v = IsDead id (view v.conn)

      opened :
          (u : Account) (v : World S)
          → P v
          → P
              ((policy_call svc (success (trim_space tenant) (identifier creds))
                  >> open_session svc now draw (trim_space tenant) (identifier creds) u)
                v).1
      opened u v dv =
          let v' = record v {
            policy = v.policy ++ success (trim_space tenant) (identifier creds) ∷ [];
          } in
          elim (open_conn svc now draw (trim_space tenant) (identifier creds) u v') [
            | inl e ↦ rw e dv
            | inr (s, e) ↦ rw e (create-IsDead id now s v.conn dv)
          ]

  Step-IsDead :
      (id : Text) {w u : World S} → Step svc w u → IsDead id (view w.conn) → IsDead id (view u.conn)
  Step-IsDead id (logged_in w now draw tenant creds) d = login-IsDead id now draw tenant creds w d
  Step-IsDead id (logged_out w now i) d = elim (logout_conn svc now i w) [
    | inl e ↦ rw e d
    | inr e ↦ rw e (updated-IsDead id (view w.conn) _ (revoked_table now i w.conn) d)
  ]
  Step-IsDead id (validated w now i) d = elim (validate_conn svc now i w) [
    | inl e ↦ rw e d
    | inr e ↦ rw (e, law.get_view i w.conn) d
  ]
  Step-IsDead id (invalidated w now user) d = elim (invalidate_conn svc now user w) [
    | inl e ↦ rw e d
    | inr e ↦ rw e (updated-IsDead id (view w.conn) _ (invalidated_table now user w.conn) d)
  ]

  Reach-IsDead :
      (id : Text) {w u : World S}
      → IsDead id (view w.conn)
      → Reach svc w u
      → IsDead id (view u.conn)
  Reach-IsDead id d here = d
  Reach-IsDead id d (next r st) = Step-IsDead id st (Reach-IsDead id d r)

  dead_never_validates :
      (id : Text) (now : ℕ) (s : Session) (u u' : World S)
      → IsDead id (view u.conn)
      → ¬ (validate_session svc now id u ≡ (ok s, u'))
  dead_never_validates id now s u u' d h =
      let (i, e, live, _) = validate_session_sound now id s u u' h in d.revoked s i e live

  -- After Logout returned nil for a session that the store holds, ValidateSession never accepts its
  -- id again: not after any sequence of further logins, logouts, validations and invalidations,
  -- whatever their inputs, clocks and draws, and whether or not they fail.
  -- The store is any one that keeps the laws of its interface.
  pub logged_out_never_validates :
      (now : ℕ) (id : Text) (w w' : World S) (x : Session)
      → In x (view w.conn)
      → x.id ≡ id
      → logout svc now id w ≡ (ok tt, w')
      → (u : World S) → Reach svc w' u
      → (later : ℕ) (s : Session) (u' : World S) → ¬ (validate_session svc later id u ≡ (ok s, u'))
  unfolding logout emit
  logged_out_never_validates now id w w' x i q h u r later s u' =
      let done : svc.sessions.revoke now id w.conn ≡ (ok tt, w'.conn) = ground arith in
      let (y, j, f) = (revoked_table now id w.conn).on x i in
      dead_never_validates id later s u u' (
        Reach-IsDead id
          (record {
            present = (y, rw (ap (λ p. view p.1) done) at j, f.id ∙ q);
            revoked = law.revoke_ok now id w.conn w'.conn done;
          })
          r)

  -- After InvalidateAllSessions returned nil for a user, no session of that user that was in the
  -- store ever validates again, whatever requests follow, if ids name one session each at that time.
  -- The store is any one that keeps the laws of its interface.
  pub invalidated_never_validates :
      (now : ℕ) (user : Text) (w w' : World S) (x : Session)
      → In x (view w.conn)
      → x.user_id ≡ user
      → ((y z : Session) → In y (view w.conn) → In z (view w.conn) → y.id ≡ z.id → y ≡ z)
      → invalidate_all_sessions svc now user w ≡ (ok tt, w')
      → (u : World S) → Reach svc w' u
      → (later : ℕ) (s : Session) (u' : World S)
      → ¬ (validate_session svc later x.id u ≡ (ok s, u'))
  unfolding invalidate_all_sessions emit
  invalidated_never_validates now user w w' x i q unique h u r later s u' =
      let done : svc.sessions.revoke_by_user now user w.conn ≡ (ok tt, w'.conn) = ground arith in
      let table = invalidated_table now user w.conn in
      let (y, j, f) = table.on x i in
      dead_never_validates x.id later s u u' (
        Reach-IsDead x.id
          (record {
            present = (y, rw (ap (λ p. view p.1) done) at j, f.id);
            revoked = λ z m k.
                let (z', i', f') = table.back z (rw (ap (λ p. view p.1) (sym done)) at m) in
                let same : z' ≡ x = unique z' x i' i (sym f'.id ∙ k) in
                law.revoke_by_user_ok now user w.conn w'.conn done z m
                  (f'.user_id ∙ ap (λ (a : Session). a.user_id) same ∙ q);
          })
          r)
