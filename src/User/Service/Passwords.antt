-- ===== src/User/Service/Passwords.antt =====
-- A password that was set: what VerifyPassword answers, and what Login makes of it.
use pk_modules.Common.{
  ℕ, ◌≡◌, refl, inl, inr, Bool, false, Option, some, List, [], ◌∷◌, ok, err, if◌then◌else◌, ◌==◌,
  find, map_if, count_if, arith, Bool-cases, Option-cases,
}
use pk_modules.Common.Rows.{find-map_if}
use pk_modules.Common.Text.{Text, is_blank, text_eq}
use pk_modules.Passhash.{IsHasher}
use pk_modules.Sql.{Conn, Adapter}
use pk_modules.User.{Error, User, mismatch}
use pk_modules.User.Sqlite.{is_key, store, get, update_pass_hash}
use pk_modules.User.Service.{Hasher, Lookup, Service, set_password, verify_password}

-- The service over an adapter's store, with a hasher.
abbrev pub over : Adapter Error → Hasher → Option (Text → Lookup) → Service (Conn User)
over a h tenants = record { store = store a; hasher = some h; tenants = tenants }

-- The connection without faults to come.
abbrev pub calm : Conn User → Conn User
calm s = record s { faults = [] }

-- The row after its password was set.
abbrev pub rehash : ℕ → ℕ → Text → User → User
rehash now store_now hash u = record u {
  pass_hash = hash;
  updated_at = if now == 0 then store_now else now;
}

get_ok :
    (tenant id : Text) (u : User) (s s' : Conn User)
    → get tenant id s ≡ (ok u, s')
    → find (is_key tenant id) s.rows ≡ some u
unfolding get
get_ok tenant id u s s' h = ground arith

rehashed_ok :
    (now : ℕ) (tenant id hash : Text) (at : ℕ) (s s' : Conn User)
    → update_pass_hash now tenant id hash at s ≡ (ok tt, s')
    → (s'.rows ≡ map_if (is_key tenant id) (rehash at now hash) s.rows)
      × ((count_if (is_key tenant id) s.rows == 0) ≡ false)
unfolding update_pass_hash
rehashed_ok now tenant id hash at s s' h = (ground arith, ground arith)

find-count_if :
    (p : User → Bool) (rows : List User)
    → (count_if p rows == 0) ≡ false
    → (u : User) × (find p rows ≡ some u)
unfolding find count_if
find-count_if p [] h = absurd (cc)
find-count_if p (x ∷ rows) h = elim (Bool-cases (p x)) [
  | inl e ↦ (x, rw e refl)
  | inr e ↦ let (u, k) = find-count_if p rows (ground arith) in (u, ground (arith, k))
]

module _ (a : Adapter Error) (h : Hasher) (tenants : Option (Text → Lookup)) where
  abbrev svc : Service (Conn User)
  svc = over a h tenants

  -- What a SetPassword that returned nil has checked and written.
  pub record IsPasswordSet (now store_now salt : ℕ) (tenant id plaintext : Text) (s s' : Conn User)
      : Type 0 where
    pub tenant_given : is_blank tenant ≡ false
    pub id_given : is_blank id ≡ false
    pub plaintext_given : text_eq plaintext [] ≡ false
    pub hash : Text
    pub hashed : h.hash salt plaintext ≡ some hash
    pub user : User
    pub before : find (is_key tenant id) s.rows ≡ some user
    pub rows : s'.rows ≡ map_if (is_key tenant id) (rehash now store_now hash) s.rows

  pub set_password-IsPasswordSet :
      (now store_now salt : ℕ) (tenant id plaintext : Text) (s s' : Conn User)
      → set_password svc now store_now salt tenant id plaintext s ≡ (ok tt, s')
      → IsPasswordSet now store_now salt tenant id plaintext s s'
  unfolding set_password
  set_password-IsPasswordSet now store_now salt tenant id plaintext s s' e =
      elim (Option-cases (h.hash salt plaintext)) [
        | inl k ↦ absurd (ground (arith, k))
        | inr (hash, k) ↦
            let wrote : update_pass_hash store_now tenant id hash now s ≡ (ok tt, s') =
              ground (arith, k) in
            let (rows, one) = rehashed_ok store_now tenant id hash now s s' wrote in
            let (user, found) = find-count_if (is_key tenant id) s.rows one in
            record {
              tenant_given = ground arith;
              id_given = ground arith;
              plaintext_given = ground arith;
              hash = hash;
              hashed = k;
              user = user;
              before = found;
              rows = rows;
            }
      ]

  found_rehashed :
      (now store_now salt : ℕ) (tenant id plaintext : Text) (s s' : Conn User)
      (i : IsPasswordSet now store_now salt tenant id plaintext s s')
      → find (is_key tenant id) s'.rows ≡ some (rehash now store_now i.hash i.user)
  found_rehashed now store_now salt tenant id plaintext s s' i = rw i.rows (
      find-map_if (is_key tenant id) (rehash now store_now i.hash) s.rows i.user i.before
        (λ x. refl))

  verify_password_lem :
      (now store_now salt : ℕ) (tenant id plaintext : Text) (s s' : Conn User)
      (i : IsPasswordSet now store_now salt tenant id plaintext s s')
      → IsHasher h
      → (text : Text)
      → (verify_password svc tenant id text (calm s')).0
        ≡ (if h.verify text i.hash then ok tt else err mismatch)
  unfolding verify_password get
  verify_password_lem now store_now salt tenant id plaintext s s' i law text =
      rw
        (
          i.tenant_given,
          i.id_given,
          found_rehashed now store_now salt tenant id plaintext s s' i,
          law.nonempty salt plaintext i.hash i.hashed,
        )
        (elim (Bool-cases (h.verify text i.hash)) [ inl k ↦ rw k refl | inr k ↦ rw k refl ])

  -- After SetPassword returned nil, VerifyPassword for the same user accepts exactly the texts that
  -- the hasher verifies against the hash that was drawn, the password itself among them, and reports
  -- a mismatch for any other. It is assumed that the hasher verifies its own hashes and that none is
  -- empty, and that the driver reports no fault at the later call.
  pub set_password-verify_password :
      (now store_now salt : ℕ) (tenant id plaintext : Text) (s s' : Conn User)
      → set_password svc now store_now salt tenant id plaintext s ≡ (ok tt, s')
      → IsHasher h
      → (hash : Text) × (h.hash salt plaintext ≡ some hash)
        × ((verify_password svc tenant id plaintext (calm s')).0 ≡ ok tt)
        × ((text : Text)
            → (verify_password svc tenant id text (calm s')).0
              ≡ (if h.verify text hash then ok tt else err mismatch))
  set_password-verify_password now store_now salt tenant id plaintext s s' e law =
      let i = set_password-IsPasswordSet now store_now salt tenant id plaintext s s' e in
      let answer = verify_password_lem now store_now salt tenant id plaintext s s' i law in
      (
        i.hash,
        i.hashed,
        rw (law.verify-hash salt plaintext i.hash i.hashed) at (answer plaintext),
        answer,
      )
