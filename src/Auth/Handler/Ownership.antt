-- ===== src/Auth/Handler/Ownership.antt =====
-- A live session belongs to its user: what a request of another principal leaves of it.
use pk_modules.Common.{
  ℕ, ◌≤◌, ◌≡◌, ◌⊎◌, refl, subst, inl, inr, Bool, true, false, not, ◌&&◌, Option, none, some, List,
  [], ◌∷◌, ◌++◌, ok, err, Action, raise, raise_if, pure, ◌>>◌, if◌then◌else◌, ◌==◌, ltb, In,
  In-append_left, find, count_if, map_if-In, arith, Bool-cases, Option-cases,
}
use pk_modules.Common.Keeps.{Keeps, Keeps-bind, Keeps-or_raise, Keeps-raise_if, Keeps-if}
use pk_modules.Common.Rows.{find_unique}
use pk_modules.Common.Text.{Text, text_eq, text_eq_iff, text_eq_refl, trim_space, is_blank}
use pk_modules.Sql.{Conn, Adapter, answers}
use pk_modules.Http.{
  Method, Request, Answer, write_json, no_content, or_status, Keeps-or_status, entity_id_from_path,
}
use pk_modules.Auth.{Error, Session, Credentials, identifier}
use pk_modules.Auth.Store.{stamp}
use pk_modules.Auth.Sqlite
use pk_modules.Auth.Sqlite.{store, has_id, is_live}
use pk_modules.Auth.Sqlite.Contract.{revoke_conn}
use pk_modules.Auth.Service
use pk_modules.Auth.Service.{
  Service, World, allow_login, check_account, lookup_user, policy_call, open_session, check_session,
  success,
}
use pk_modules.Auth.Service.Ending.{allow_conn, check_conn, open_conn, validate_conn, logout_conn}
use pk_modules.Auth.Handler.{
  Input, api_path, login, validate, refuse_foreign, is_foreign, logout, route, serve, login_status,
  validate_status, logout_status,
}

module _ (a : Adapter Error) (base : Service (Conn Session)) (x : Session) where
  -- The service over an adapter's store.
  abbrev pub over : Service (Conn Session)
  over = record base { sessions = store a }

  -- The session is in the table.
  abbrev IsThere : World (Conn Session) → Type 0
  IsThere w = In x w.conn.rows

  create_rows :
      (now : ℕ) (s : Session) (c : Conn Session)
      → ((Sqlite.create a now (some s) c).1.rows ≡ c.rows)
        ⊎ ((Sqlite.create a now (some s) c).1.rows ≡ c.rows ++ stamp now s ∷ [])
  unfolding Sqlite.create
  create_rows now s c = ground arith

  create-IsThere :
      (now : ℕ) (s : Session) (c : Conn Session)
      → In x c.rows
      → In x (Sqlite.create a now (some s) c).1.rows
  create-IsThere now s c i = elim (create_rows now s c) [
    | inl e ↦ rw e i
    | inr e ↦ rw e (In-append_left x c.rows (stamp now s ∷ []) i)
  ]

  open-IsThere :
      (now : ℕ) (draw : Option (List ℕ)) (tenant who : Text) (u : Service.Account)
      → Keeps IsThere (open_session over now draw tenant who u)
  open-IsThere now draw tenant who u w i = elim (open_conn over now draw tenant who u w) [
    | inl e ↦ rw e i
    | inr (s, e) ↦ rw e (create-IsThere now s w.conn i)
  ]

  login-IsThere :
      (now : ℕ) (draw : Option (List ℕ)) (tenant : Text) (creds : Credentials)
      → Keeps IsThere (Service.login over now draw tenant creds)
  unfolding Service.login Service.attempt_login policy_call
  login-IsThere now draw tenant creds =
      let t = trim_space tenant in
      let who = identifier creds in
      Keeps-raise_if IsThere (text_eq t []) Error.tenant_required _ (λ _.
        Keeps-raise_if IsThere (text_eq who []) Error.identifier_required _ (λ _.
          Keeps-raise_if IsThere (text_eq creds.password []) Error.password_required _ (λ _.
            Keeps-bind IsThere (allow_login over t who) _ (λ w i. rw (allow_conn over t who w) i)
              (λ _.
                Keeps-bind IsThere (check_account over t who creds (lookup_user over t creds)) _
                  (λ w i. rw (check_conn over t who creds (lookup_user over t creds) w) i)
                  (λ u.
                    Keeps-bind IsThere (policy_call over (success t who))
                      (λ _. open_session over now draw t who u) (λ w i. i)
                      (λ _. open-IsThere now draw t who u))))))

  get_rows : (id : Text) (c : Conn Session) → (Sqlite.get id c).1.rows ≡ c.rows
  unfolding Sqlite.get
  get_rows id c = ground arith

  validate-IsThere : (now : ℕ) (id : Text) → Keeps IsThere (Service.validate_session over now id)
  validate-IsThere now id w i = elim (validate_conn over now id w) [
    | inl e ↦ rw e i
    | inr e ↦ rw e (rw (get_rows id w.conn) i)
  ]

  -- A logout of another identifier.
  logout-IsThere :
      (now : ℕ) (id : Text) → text_eq x.id id ≡ false → Keeps IsThere (Service.logout over now id)
  logout-IsThere now id h w i = elim (logout_conn over now id w) [
    | inl e ↦ rw e i
    | inr e ↦ rw e (elim (revoke_conn now id w.conn) [
      | inl k ↦ rw k i
      | inr k ↦
          let p = λ (s : Session). has_id id s && is_live s in
          let kept =
            map_if-In p (λ (s : Session). record s { revoked_at = some now }) w.conn.rows x i in
          rw k (rw (h) at kept)
    ])
  ]

  -- Neither revoked nor expired.
  pub record IsValid (now : ℕ) : Type 0 where
    pub not_revoked : x.revoked_at ≡ none
    pub not_expired : (if x.expires_at == 0 then false else ltb x.expires_at now) ≡ false
    pub named : is_blank x.id ≡ false

  -- A check and what follows it, in a state.
  checked :
      (c : Bool) (e : ℕ) (m : Action ℕ (World (Conn Session)) (Answer Session))
      (w : World (Conn Session))
      → IsThere w
      → (c ≡ false → IsThere (m w).1)
      → IsThere ((raise_if c e >> m) w).1
  checked true e m w i k = i
  checked false e m w i k = k refl

  get_run :
      (id : Text) (c : Conn Session)
      → find (has_id id) c.rows ≡ some x
      → answers c ≡ true
      → (Sqlite.get id c).0 ≡ ok x
  unfolding Sqlite.get
  get_run id c found calm = ground (arith, found, calm)

  check_run :
      (now : ℕ) (w : World (Conn Session)) → IsValid now → (check_session over now x w).0 ≡ ok x
  unfolding check_session
  check_run now w v = ground (arith, v.not_revoked, v.not_expired)

  validate_run :
      (now : ℕ) (id : Text) (w : World (Conn Session))
      → IsValid now
      → is_blank id ≡ false
      → find (has_id id) w.conn.rows ≡ some x
      → answers w.conn ≡ true
      → (Service.validate_session over now id w).0 ≡ ok x
  unfolding Service.validate_session
  validate_run now id w v named found calm =
      rw (named, get_run id w.conn found calm)
        (check_run now (record w { conn = (Sqlite.get id w.conn).1 }) v)

  module _ (r : Request Input) (foreign : text_eq x.user_id r.principal.subject ≡ false) where
    refuse_run :
        (now : ℕ) (id : Text) (w : World (Conn Session))
        → (Service.validate_session over now id w).0 ≡ ok x
        → (refuse_foreign over r now id w).0 ≡ err 404
    unfolding refuse_foreign is_foreign
    refuse_run now id w h = rw (h, foreign) refl

    refused :
        (now : ℕ) (id : Text) (m : Action ℕ (World (Conn Session)) (Answer Session))
        (w : World (Conn Session))
        → (refuse_foreign over r now id w).0 ≡ err 404
        → ((refuse_foreign over r now id >> m) w).1 ≡ (Service.validate_session over now id w).1
    unfolding refuse_foreign
    refused now id m w h = rw h refl

    -- A logout of the session itself is refused.
    logout_own :
        (now later : ℕ) (w : World (Conn Session))
        → IsValid now
        → find (has_id x.id) w.conn.rows ≡ some x
        → answers w.conn ≡ true
        → IsThere w
        → IsThere (logout over r now later x.id w).1
    unfolding logout
    logout_own now later w v found calm i = checked r.principal.anonymous 401 _ w i (λ _.
        let m : Action ℕ (World (Conn Session)) (Answer Session) =
          or_status logout_status (Service.logout over later x.id) >> pure no_content in
        let valid = validate_run now x.id w v v.named found calm in
        rw (refused now x.id m w (refuse_run now x.id w valid)) (validate-IsThere now x.id w i))

    logout_other :
        (now later : ℕ) (id : Text)
        → text_eq x.id id ≡ false
        → Keeps IsThere (logout over r now later id)
    unfolding logout refuse_foreign
    logout_other now later id h = Keeps-raise_if IsThere r.principal.anonymous 401 _ (λ _.
        Keeps-bind IsThere (refuse_foreign over r now id) _ (λ w i. validate-IsThere now id w i)
          (λ _.
            Keeps-bind IsThere (or_status logout_status (Service.logout over later id))
              (λ _. pure no_content)
              (Keeps-or_status IsThere logout_status (Service.logout over later id)
                (logout-IsThere later id h))
              (λ _ w i. i)))

    validate_kept : (now : ℕ) (id : Text) → Keeps IsThere (validate over r now id)
    unfolding validate
    validate_kept now id = Keeps-raise_if IsThere r.principal.anonymous 401 _ (λ _.
        Keeps-bind IsThere (or_status validate_status (Service.validate_session over now id)) _
          (Keeps-or_status IsThere validate_status (Service.validate_session over now id)
            (validate-IsThere now id))
          (λ s.
            Keeps-raise_if IsThere (not (text_eq s.user_id r.principal.subject)) 404
              (pure (write_json 200 s)) (λ _ w i. i)))

    login_kept : (now : ℕ) (draw : Option (List ℕ)) → Keeps IsThere (login over r now draw)
    unfolding login
    login_kept now draw = Keeps-or_raise IsThere r.body 400 _ (λ input _.
        let creds : Credentials = record {
          email = input.email;
          username = input.username;
          password = input.password;
        } in
        Keeps-bind IsThere
          (or_status login_status (Service.login over now draw input.tenant_id creds))
          (λ s. pure (write_json 201 s))
          (Keeps-or_status IsThere login_status (Service.login over now draw input.tenant_id creds)
            (login-IsThere now draw input.tenant_id creds))
          (λ s w i. i))

    route-IsThere :
        (now later : ℕ) (draw : Option (List ℕ)) (method : Method) (id : Text)
        (w : World (Conn Session))
        → IsValid now
        → find (has_id x.id) w.conn.rows ≡ some x
        → answers w.conn ≡ true
        → IsThere w
        → IsThere (route over r now later draw method id w).1
    unfolding route
    route-IsThere now later draw Method.get id w v found calm i =
        Keeps-if IsThere (text_eq id []) (raise 400) (validate over r now id) (λ _ i. i)
          (validate_kept now id) w i
    route-IsThere now later draw Method.post id w v found calm i =
        Keeps-if IsThere (text_eq id []) (login over r now draw) (raise 405) (login_kept now draw)
          (λ _ i. i) w i
    route-IsThere now later draw Method.put id w v found calm i = i
    route-IsThere now later draw Method.delete id w v found calm i =
        elim (Bool-cases (text_eq id [])) [
          | inl e ↦ rw e i
          | inr e ↦ rw e (elim (Bool-cases (text_eq x.id id)) [
            | inr h ↦ logout_other now later id h w i
            | inl h ↦
                subst (λ (t : Text). IsThere (logout over r now later t w).1)
                  ((text_eq_iff x.id id).0 h) (logout_own now later w v found calm i)
          ])
        ]
    route-IsThere now later draw Method.other id w v found calm i = i

  -- A session that is neither revoked nor expired stays in the table as it is through any request to
  -- the sessions API whose principal is not its user: a login, a validation, and a logout of this or
  -- another identifier, whatever faults the driver reports from the request's second statement on.
  -- It is assumed that no two sessions have its identifier, that this is not blank, and that the
  -- driver reports no fault at the first statement, which in a logout is the lookup of the owner.
  pub serve-In :
      (r : Request Input) (now later : ℕ) (draw : Option (List ℕ)) (w : World (Conn Session))
      → In x w.conn.rows
      → count_if (has_id x.id) w.conn.rows ≤ 1
      → IsValid now
      → text_eq x.user_id r.principal.subject ≡ false
      → answers w.conn ≡ true
      → In x (serve over r now later draw w).1.conn.rows
  unfolding serve text_eq
  serve-In r now later draw w i once v foreign calm =
      let found = find_unique (has_id x.id) w.conn.rows x i (text_eq_refl x.id) once in
      elim (Option-cases (entity_id_from_path r.decode r.path api_path)) [
        | inl e ↦ rw e i
        | inr ((id, verb), e) ↦
            rw e (route-IsThere r foreign now later draw r.method id w v found calm i)
      ]
