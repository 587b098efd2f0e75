-- ===== src/Auth/Service/Secrecy.antt =====
-- A wrong password cannot be told from an absent account.
use mathlib.Core.List.{map-append}
use pk_modules.Common.{
  ℕ, Bool, map, if◌then◌else◌, ◌≡◌, ◌⊎◌, inl, inr, refl, sym, ap, ◌∙◌, true, false, Option, none,
  some, List, [], ◌∷◌, ◌++◌, Result, ok, err, arith, Bool-cases, proceed,
}
use pk_modules.Common.Text.{Text, codes, text_eq, trim_space}
use pk_modules.Auth.{Error, Session, Credentials, identifier, invalid_credentials}
use pk_modules.Auth.Service.{
  Service, World, Event, Account, Users, login, attempt_login, check_account, allow_login,
  lookup_user,
}
use pk_modules.Auth.Service.Login.{allow_login-cases}

-- The details of an audit entry without the reason.
unfoldable pub forget_reason : List (Text × Text) → List (Text × Text)
forget_reason [] = []
forget_reason ((name, value) ∷ details) =
    let rest = forget_reason details in
    if text_eq name (codes "reason") then rest else (name, value) ∷ rest

abbrev pub without_reason : Event → Event
without_reason e = record e { details = forget_reason e.details }

-- The entry of a failed attempt.
abbrev failed_entry : Text → Text → Text → Event
failed_entry t who reason = record {
  action = codes "auth.login_failure";
  resource = codes "tenant:" ++ t;
  details = (codes "tenant_id", t) ∷ (codes "identifier", who) ∷ (codes "reason", reason) ∷ [];
}

abbrev extended : Bool → List Event → Event → List Event
extended audited l e = if audited then l ++ e ∷ [] else l

failed_entry-without_reason :
    (t who a b : Text)
    → without_reason (failed_entry t who a) ≡ without_reason (failed_entry t who b)
unfolding forget_reason text_eq
failed_entry-without_reason t who a b = refl

extended-without_reason :
    (audited : Bool) (l : List Event) (t who a b : Text)
    → map without_reason (extended audited l (failed_entry t who a))
      ≡ map without_reason (extended audited l (failed_entry t who b))
extended-without_reason true l t who a b =
    rw
      (
        map-append without_reason l (failed_entry t who a ∷ []),
        map-append without_reason l (failed_entry t who b ∷ []),
        failed_entry-without_reason t who a b,
      )
      refl
extended-without_reason false l t who a b = refl

-- A reader of users in place of the service's own.
abbrev pub with_users : {S : Type 0} → Service S → Option Users → Service S
with_users svc users = record svc { users = users }

module _ {S : Type 0} (svc : Service S) where
  -- What the caller and an observer of the run can see of an attempt.
  pub record LooksLike (a b : Result Error Session × World S) : Type 0 where
    pub result : a.0 ≡ b.0
    pub sessions : a.1.conn ≡ b.1.conn
    pub policy : a.1.policy ≡ b.1.policy
    pub cost : a.1.verifications ≡ b.1.verifications
    pub audit : map without_reason a.1.events ≡ map without_reason b.1.events

  check_none-events :
      (t who : Text) (creds : Credentials) (w : World S)
      → (check_account svc t who creds none w).1.events
        ≡ extended svc.audited w.events (failed_entry t who (codes "user_not_found"))
  unfolding check_account
  check_none-events t who creds w = ground arith

  check_wrong-events :
      (t who : Text) (creds : Credentials) (users : Option Users) (u : Account) (w : World S)
      → u.active ≡ true
      → (text_eq u.pass_hash [] ≡ true) ⊎ (svc.hasher.verify creds.password u.pass_hash ≡ false)
      → (reason : Text) × ((check_account (with_users svc users) t who creds (some u) w).1.events
          ≡ extended svc.audited w.events (failed_entry t who reason))
  unfolding check_account
  check_wrong-events t who creds users u w active wrong =
      elim (Bool-cases (text_eq u.pass_hash [])) [
        | inl p ↦ (codes "no_password_set", ground arith)
        | inr p ↦ (codes "password_mismatch", ground arith)
      ]

  check-LooksLike :
      (t who : Text) (creds : Credentials) (users : Option Users) (u : Account) (w : World S)
      → text_eq svc.decoy_hash [] ≡ false
      → u.active ≡ true
      → (text_eq u.pass_hash [] ≡ true) ⊎ (svc.hasher.verify creds.password u.pass_hash ≡ false)
      → let a = check_account svc t who creds none w in
        let b = check_account (with_users svc users) t who creds (some u) w in
        (a.0 ≡ err invalid_credentials)
        × (b.0 ≡ err invalid_credentials)
        × (a.1.conn ≡ b.1.conn)
        × (a.1.policy ≡ b.1.policy)
        × (a.1.verifications ≡ b.1.verifications)
        × (map without_reason a.1.events ≡ map without_reason b.1.events)
  unfolding check_account
  check-LooksLike t who creds users u w decoy active wrong =
      let (reason, e) = check_wrong-events t who creds users u w active wrong in
      let audit =
        ap (map without_reason) (check_none-events t who creds w)
        ∙ extended-without_reason svc.audited w.events t who (codes "user_not_found") reason
        ∙ ap (map without_reason) (sym e) in
      elim (Bool-cases (text_eq u.pass_hash [])) [
        | inl p ↦ (ground arith, ground arith, ground arith, ground arith, ground arith, audit)
        | inr p ↦ (ground arith, ground arith, ground arith, ground arith, ground arith, audit)
      ]

  attempt_login-denied :
      (now : ℕ) (draw : Option (List ℕ)) (t who : Text) (creds : Credentials) (w : World S)
      (e : Error)
      → (allow_login svc t who w).0 ≡ ok tt
      → (check_account svc t who creds (lookup_user svc t creds) (allow_login svc t who w).1).0
        ≡ err e
      → attempt_login svc now draw t who creds w ≡ (
        err e,
        (check_account svc t who creds (lookup_user svc t creds) (allow_login svc t who w).1).1,
      )
  unfolding attempt_login
  attempt_login-denied now draw t who creds w e r q = rw (r, proceed) (rw (q, proceed) refl)

  attempt_login-refused :
      (now : ℕ) (draw : Option (List ℕ)) (t who : Text) (creds : Credentials) (w : World S)
      (e : Error)
      → (allow_login svc t who w).0 ≡ err e
      → attempt_login svc now draw t who creds w ≡ (err e, (allow_login svc t who w).1)
  unfolding attempt_login
  attempt_login-refused now draw t who creds w e r = rw (r, proceed) refl

  allow_login-with_users :
      (users : Option Users) (t who : Text) (w : World S)
      → allow_login (with_users svc users) t who w ≡ allow_login svc t who w
  unfolding allow_login
  allow_login-with_users users t who w = refl

module _ {S : Type 0} (svc : Service S) where
  attempt_login-LooksLike :
      (now : ℕ) (draw : Option (List ℕ)) (t who : Text) (creds : Credentials) (users : Option Users)
      (u : Account) (w : World S)
      → text_eq svc.decoy_hash [] ≡ false
      → lookup_user svc t creds ≡ none
      → lookup_user (with_users svc users) t creds ≡ some u
      → u.active ≡ true
      → (text_eq u.pass_hash [] ≡ true) ⊎ (svc.hasher.verify creds.password u.pass_hash ≡ false)
      → LooksLike svc
          (attempt_login svc now draw t who creds w)
          (attempt_login (with_users svc users) now draw t who creds w)
  attempt_login-LooksLike now draw t who creds users u w decoy absent present active wrong =
      let same = allow_login-with_users svc users t who w in
      elim (allow_login-cases svc t who w) [
        | inr (e, r, p) ↦
            rw
              (
                attempt_login-refused svc now draw t who creds w e r,
                attempt_login-refused (with_users svc users) now draw t who creds w e (rw same r),
                same,
              )
              (record { result = refl; sessions = refl; policy = refl; cost = refl; audit = refl })
        | inl (r, p) ↦
            let (x, y, c, q, k, l) =
              check-LooksLike svc t who creds users u (allow_login svc t who w).1 decoy active
                wrong in
            rw
              (
                attempt_login-denied svc now draw t who creds w Error.invalid_credentials r
                    (rw absent x),
                attempt_login-denied (with_users svc users) now draw t who creds w
                    Error.invalid_credentials (rw same r) (rw (present, same) y),
                absent,
                present,
                same,
              )
              (record { result = refl; sessions = c; policy = q; cost = k; audit = l })
      ]

  -- A wrong password cannot be told from an absent account: for the same request on the same state,
  -- a login whose account is not found, and one whose account is active but has no password or
  -- another one, return the same error, leave the same sessions, make the same calls of the policy,
  -- run the hasher's Verify equally often, and emit the same audit entries up to the reason that a
  -- failed attempt gives. It is assumed that a decoy hash was made at
  -- construction.
  pub login_hides_accounts :
      (now : ℕ) (draw : Option (List ℕ)) (tenant : Text) (creds : Credentials)
      (users : Option Users) (u : Account) (w : World S)
      → text_eq svc.decoy_hash [] ≡ false
      → lookup_user svc (trim_space tenant) creds ≡ none
      → lookup_user (with_users svc users) (trim_space tenant) creds ≡ some u
      → u.active ≡ true
      → (text_eq u.pass_hash [] ≡ true) ⊎ (svc.hasher.verify creds.password u.pass_hash ≡ false)
      → LooksLike svc
          (login svc now draw tenant creds w)
          (login (with_users svc users) now draw tenant creds w)
  unfolding login
  login_hides_accounts now draw tenant creds users u w decoy absent present active wrong =
      elim (Bool-cases (text_eq (trim_space tenant) [])) [
        | inl e ↦
            rw e
              (record { result = refl; sessions = refl; policy = refl; cost = refl; audit = refl })
        | inr e ↦ elim (Bool-cases (text_eq (identifier creds) [])) [
          | inl f ↦
              rw (e, f)
                (record {
                  result = refl;
                  sessions = refl;
                  policy = refl;
                  cost = refl;
                  audit = refl;
                })
          | inr f ↦ elim (Bool-cases (text_eq creds.password [])) [
            | inl g ↦
                rw (e, f, g)
                  (record {
                    result = refl;
                    sessions = refl;
                    policy = refl;
                    cost = refl;
                    audit = refl;
                  })
            | inr g ↦
                rw (e, f, g)
                  (attempt_login-LooksLike now draw (trim_space tenant) (identifier creds) creds
                    users u w decoy absent present active wrong)
          ]
        ]
      ]
