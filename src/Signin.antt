-- ===== src/Signin.antt =====
-- The composition of pkg/user and pkg/auth: the login service reads users through the user service
-- (`user.UserBoundaryReader` is its GetByEmail and GetByUsername), over the same table.
use pk_modules.Common.{
  ℕ, suc, ◌≡◌, ◌∙◌, refl, sym, ap, subst, true, false, Option, none, some, List, [], ◌++◌, ◌∷◌,
  Result, ok, err, find, find-In, map_if, map_if-In, arith,
}
use pk_modules.Common.Rows.{find_unique}
use pk_modules.Common.Text.{Text, is_blank, trim_space, text_eq, text_eq_iff, text_eq_refl}
use pk_modules.Passhash.{Hasher, IsHasher}
use pk_modules.Sql.{Conn, Adapter}
use pk_modules.User
use pk_modules.User.{User}
use pk_modules.User.Sqlite.{is_key, has_email}
use pk_modules.User.Sqlite.Keys.{HasKeys, HasKeys-same}
use pk_modules.User.Service
use pk_modules.User.Service.{Lookup}
use pk_modules.User.Service.Passwords.{
  over, calm, rehash, IsPasswordSet, set_password-IsPasswordSet,
}
use pk_modules.Auth.{Credentials, identifier}
use pk_modules.Auth.Service.{
  Account, Users, PolicyCall, allowed, success, Service, World, login, attempt_login, allow_login,
  check_account, lookup_user, open_session, policy_call,
}

-- What Login reads of a user, and nothing for any error.
abbrev pub account : Result User.Error User → Option Account
account (ok u) = some (record { id = u.id; active = u.active; pass_hash = u.pass_hash })
account (err e) = none

-- The reader that the user service is, on the table as it stands.
abbrev pub reader : User.Service.Service (Conn User) → Conn User → Users
reader svc s = record {
  by_email = λ tenant email. account (User.Service.get_by_email svc tenant email s).0;
  by_username = λ tenant username. account (User.Service.get_by_username svc tenant username s).0;
}

get_by_email_run :
    (a : Adapter User.Error) (h : Hasher) (tenants : Option (Text → Lookup)) (tenant email : Text)
    (u : User) (s : Conn User)
    → is_blank tenant ≡ false
    → is_blank email ≡ false
    → find (has_email tenant email) s.rows ≡ some u
    → (User.Service.get_by_email (over a h tenants) tenant email (calm s)).0 ≡ ok u
unfolding User.Service.get_by_email User.Sqlite.get_by_email
get_by_email_run a h tenants tenant email u s b c found = rw (b, c, found) refl

some_inj : {u v : User} → some u ≡ some v → u ≡ v
some_inj e = cc

-- The row of the user whose password was set, found by its email.
found_by_email :
    (a : Adapter User.Error) (h : Hasher) (tenants : Option (Text → Lookup))
    (now store_now salt : ℕ) (tenant id plaintext : Text) (s s' : Conn User)
    (i : IsPasswordSet a h tenants now store_now salt tenant id plaintext s s')
    → HasKeys s.rows
    → find (has_email tenant i.user.email) s'.rows ≡ some (rehash now store_now i.hash i.user)
found_by_email a h tenants now store_now salt tenant id plaintext s s' i keyed =
    let (there, key) = find-In (is_key tenant id) s.rows i.user i.before in
    let f = rehash now store_now i.hash in
    let keyed' = HasKeys-same (is_key tenant id) f s.rows (λ x. (refl, refl, refl, refl)) keyed in
    let row = map_if-In (is_key tenant id) f s.rows i.user there in
    let of_tenant : has_email tenant i.user.email (f i.user) ≡ true =
      ground (arith, text_eq_refl i.user.email) in
    rw i.rows (
      find_unique (has_email tenant i.user.email) (map_if (is_key tenant id) f s.rows) (f i.user)
        (rw key at row) of_tenant (keyed'.emails (tenant, i.user.email)))

not_empty : (t : Text) → (elim t [ [] ↦ true | _ ∷ _ ↦ false ]) ≡ false → text_eq t [] ≡ false
unfolding text_eq
not_empty [] h = cc
not_empty (c ∷ t) h = refl

blank_trim : (t : Text) → is_blank t ≡ false → text_eq (trim_space t) [] ≡ false
unfolding is_blank
blank_trim t h = not_empty (trim_space t) h

identifier_email : (c : Credentials) → is_blank c.email ≡ false → identifier c ≡ trim_space c.email
unfolding identifier
identifier_email c h = rw (blank_trim c.email h) refl

module _ {S : Type 0} (auth : Service S) where
  allow_login_run :
      (tenant who : Text) (w : World S)
      → auth.allow w.policy tenant who ≡ none
      → allow_login auth tenant who w
        ≡ (ok tt, record w { policy = w.policy ++ allowed tenant who ∷ [] })
  unfolding allow_login
  allow_login_run tenant who w h = rw (allow_login, h) refl

  check_account_run :
      (tenant who : Text) (creds : Credentials) (u : Account) (w : World S)
      → u.active ≡ true
      → text_eq u.pass_hash [] ≡ false
      → auth.hasher.verify creds.password u.pass_hash ≡ true
      → check_account auth tenant who creds (some u) w
        ≡ (ok u, record w { verifications = suc w.verifications })
  unfolding check_account
  check_account_run tenant who creds u w active hashed same = ground arith

  policy_call_run :
      (call : PolicyCall) (w : World S)
      → policy_call auth call w ≡ (ok tt, record w { policy = w.policy ++ call ∷ [] })
  unfolding policy_call
  policy_call_run call w = refl

  -- A login that is admitted, finds the account and verifies its hash goes on to open a session.
  attempt_run :
      (now : ℕ) (draw : Option (List ℕ)) (tenant who : Text) (creds : Credentials) (u : Account)
      (w : World S)
      → auth.allow w.policy tenant who ≡ none
      → lookup_user auth tenant creds ≡ some u
      → u.active ≡ true
      → text_eq u.pass_hash [] ≡ false
      → auth.hasher.verify creds.password u.pass_hash ≡ true
      → attempt_login auth now draw tenant who creds w
        ≡ open_session auth now draw tenant who u (record w {
          policy = (w.policy ++ allowed tenant who ∷ []) ++ success tenant who ∷ [];
          verifications = suc w.verifications;
        })
  unfolding attempt_login
  attempt_run now draw tenant who creds u w admitted found active hashed same =
      let w1 : World S = record w { policy = w.policy ++ allowed tenant who ∷ [] } in
      rw
        (
          allow_login_run tenant who w admitted,
          found,
          check_account_run tenant who creds u w1 active hashed same,
          policy_call_run (success tenant who) (record w1 { verifications = suc w1.verifications }),
        )
        refl

  lookup_run :
      (users : User.Service.Service (Conn User)) (s : Conn User) (tenant : Text)
      (creds : Credentials) {u : User}
      → is_blank creds.email ≡ false
      → auth.users ≡ some (reader users s)
      → (User.Service.get_by_email users tenant creds.email s).0 ≡ ok u
      → lookup_user auth tenant creds ≡ account (ok u)
  unfolding lookup_user
  lookup_run users s tenant creds b r h = rw (r, b) (ap account h)

  login_run :
      (now : ℕ) (draw : Option (List ℕ)) (tenant : Text) (creds : Credentials) (w : World S)
      → trim_space tenant ≡ tenant
      → is_blank tenant ≡ false
      → is_blank creds.email ≡ false
      → text_eq creds.password [] ≡ false
      → login auth now draw tenant creds w
        ≡ attempt_login auth now draw tenant (trim_space creds.email) creds w
  unfolding login
  login_run now draw tenant creds w t b m p =
      let given : text_eq tenant [] ≡ false =
        subst (λ x. text_eq x [] ≡ false) t (blank_trim tenant b) in
      let mail = blank_trim creds.email m in rw (t, given, identifier_email creds m, mail, p) refl

module _ {S : Type 0} (base : Service S) (a : Adapter User.Error) (h : Hasher)
    (tenants : Option (Text → Lookup)) where
  -- The login service that reads this table of users, with the hasher that set the passwords.
  abbrev pub over_users : Conn User → Service S
  over_users s = record base { users = some (reader (over a h tenants) (calm s)); hasher = h }

  -- A password that SetPassword stored signs its user in: a login in the tenant with the user's
  -- email and that password, which the policy admits, runs Verify once, records the success and goes
  -- on to open a session for the user's id. It is assumed that the table's keys are unique, that the
  -- user is active and has an email that is not blank, that the tenant has no white space around it,
  -- that the hasher verifies its own hashes and none is empty, and that the driver reports no fault
  -- at the lookup.
  pub set_password-login :
      (set_now store_now salt : ℕ) (tenant id plaintext : Text) (s s' : Conn User) (u : User)
      → User.Service.set_password (over a h tenants) set_now store_now salt tenant id plaintext s
        ≡ (ok tt, s')
      → IsHasher h
      → HasKeys s.rows
      → find (is_key tenant id) s.rows ≡ some u
      → u.active ≡ true
      → is_blank u.email ≡ false
      → trim_space tenant ≡ tenant
      → (now : ℕ) (draw : Option (List ℕ)) (username : Text) (w : World S)
      → base.allow w.policy tenant (trim_space u.email) ≡ none
      → (found : Account) × (found.id ≡ id)
        × (login
              (over_users s')
              now
              draw
              tenant
              (record { email = u.email; username = username; password = plaintext })
              w
            ≡ open_session (over_users s') now draw tenant (trim_space u.email) found (record w {
              policy =
                  (w.policy ++ allowed tenant (trim_space u.email) ∷ [])
                  ++ success tenant (trim_space u.email) ∷ [];
              verifications = suc w.verifications;
            }))
  set_password-login set_now store_now salt tenant id plaintext s s' u e law keyed known active mail
        trimmed now draw username w admitted =
      let i =
        set_password-IsPasswordSet a h tenants set_now store_now salt tenant id plaintext s s' e in
      let same : i.user ≡ u = some_inj (sym i.before ∙ known) in
      let f = rehash set_now store_now i.hash u in
      let creds : Credentials = record {
        email = u.email;
        username = username;
        password = plaintext;
      } in
      let found : Account = record { id = f.id; active = f.active; pass_hash = f.pass_hash } in
      let row : find (has_email tenant u.email) s'.rows ≡ some f =
        subst
          (λ (v : User).
            find (has_email tenant v.email) s'.rows ≡ some (rehash set_now store_now i.hash v))
          same
          (found_by_email a h tenants set_now store_now salt tenant id plaintext s s' i keyed) in
      let reads =
        lookup_run (over_users s') (over a h tenants) (calm s') tenant creds mail refl
          (get_by_email_run a h tenants tenant u.email f s' i.tenant_given mail row) in
      let attempt =
        attempt_run (over_users s') now draw tenant (trim_space u.email) creds found w admitted
          reads active (law.nonempty salt plaintext i.hash i.hashed)
          (law.verify-hash salt plaintext i.hash i.hashed) in
      let (there, key) = find-In (is_key tenant id) s.rows u known in
      (
        found,
        (text_eq_iff u.id id).0 (ground arith),
        login_run (over_users s') now draw tenant creds w trimmed i.tenant_given mail
              i.plaintext_given
            ∙ attempt,
      )
