-- ===== src/Auth/Store.antt =====
-- pkg/auth/store/store.go: the persistence contract of sessions, and what an implementation owes
-- to its caller, stated of the rows that its state stands for.
use pk_modules.Common.{
  ℕ, ◌≡◌, ◌≢◌, ◌↔◌, ◌⊎◌, inl, inr, refl, Bool, true, Option, none, some, List, Action, ok, err, In,
  ◌==◌, if◌then◌else◌, arith,
}
use pk_modules.Common.Rows.{Becomes, Changes}
use pk_modules.Common.Text.{Text}
use pk_modules.Auth.{Error, Session}

-- `store.Store`. A call that reads the clock takes the reading first.
pub record Store (S : Type 0) : Type 0 where
  pub create : ℕ → Option Session → Action Error S (Unit {0})
  pub get : Text → Action Error S Session
  pub revoke : ℕ → Text → Action Error S (Unit {0})
  pub revoke_by_user : ℕ → Text → Action Error S (Unit {0})

-- `b` is `a` after an update that may set the revocation and never clears it.
pub record Follows (a b : Session) : Type 0 where
  pub id : b.id ≡ a.id
  pub user_id : b.user_id ≡ a.user_id
  pub tenant_id : b.tenant_id ≡ a.tenant_id
  pub issued_at : b.issued_at ≡ a.issued_at
  pub expires_at : b.expires_at ≡ a.expires_at
  pub stays_revoked : a.revoked_at ≢ none → b.revoked_at ≢ none

-- What is known of a table after an update.
pub record Updates (rows rows' : List Session) : Type 0 where
  pub back : (y : Session) → In y rows' → (x : Session) × In x rows × Follows x y
  pub on : (x : Session) → In x rows → (y : Session) × In y rows' × Follows x y

abbrev pub stamp : ℕ → Session → Session
stamp now s = record s { issued_at = if s.issued_at == 0 then now else s.issued_at }

-- What a revocation writes.
abbrev pub revocation : ℕ → Session → Session
revocation now s = record s { revoked_at = some now }

-- The contract in the comments of the interface: what a call that succeeds has done, what its
-- sentinel errors mean, and that no call changes more than it says. `view` is the rows that a state
-- stands for, in any order, and `answers` whether the next statement meets no driver error.
pub record IsStore {S : Type 0} (st : Store S) (view : S → List Session) (answers : S → Bool)
    : Type 0 where
  pub create_ok :
      (now : ℕ) (x : Session) (s s' : S)
      → st.create now (some x) s ≡ (ok tt, s')
      → ((y : Session) → In y (view s') ↔ (In y (view s) ⊎ (y ≡ stamp now x)))
        × ((y : Session) → In y (view s) → y.id ≢ x.id)
  pub create_err :
      (now : ℕ) (o : Option Session) (e : Error) (s s' : S)
      → st.create now o s ≡ (err e, s')
      → view s' ≡ view s
  pub create_free :
      (now : ℕ) (x : Session) (s : S)
      → answers s ≡ true
      → ((y : Session) → In y (view s) → y.id ≢ x.id)
      → (st.create now (some x) s).0 ≡ ok tt
  pub create_duplicate :
      (now : ℕ) (x y : Session) (s : S)
      → answers s ≡ true
      → In y (view s)
      → y.id ≡ x.id
      → (st.create now (some x) s).0 ≡ err Error.duplicate
  pub get_view : (id : Text) (s : S) → view (st.get id s).1 ≡ view s
  pub get_ok :
      (id : Text) (x : Session) (s s' : S) → st.get id s ≡ (ok x, s') → In x (view s) × (x.id ≡ id)
  pub get_not_found :
      (id : Text) (s s' : S)
      → st.get id s ≡ (err Error.not_found, s')
      → (x : Session) → In x (view s)
      → x.id ≢ id
  pub get_answers :
      (id : Text) (s : S)
      → answers s ≡ true
      → (((x : Session) × (st.get id s).0 ≡ ok x) ⊎ ((st.get id s).0 ≡ err Error.not_found))
  pub revoke_changes :
      (now : ℕ) (id : Text) (s : S)
      → Changes
          (λ x. (x.id ≡ id) × (x.revoked_at ≡ none))
          (revocation now)
          (view s)
          (view (st.revoke now id s).1)
  pub revoke_not_found :
      (now : ℕ) (id : Text) (s s' : S)
      → st.revoke now id s ≡ (err Error.not_found, s')
      → (x : Session) → In x (view s)
      → x.id ≢ id
  pub revoke_ok :
      (now : ℕ) (id : Text) (s s' : S)
      → st.revoke now id s ≡ (ok tt, s')
      → (x : Session) → In x (view s')
      → x.id ≡ id
      → x.revoked_at ≢ none
  pub revoke_by_user_changes :
      (now : ℕ) (user : Text) (s : S)
      → Changes
          (λ x. (x.user_id ≡ user) × (x.revoked_at ≡ none))
          (revocation now)
          (view s)
          (view (st.revoke_by_user now user s).1)
  pub revoke_by_user_answers :
      (now : ℕ) (user : Text) (s : S) → answers s ≡ true → (st.revoke_by_user now user s).0 ≡ ok tt
  pub revoke_by_user_ok :
      (now : ℕ) (user : Text) (s s' : S)
      → st.revoke_by_user now user s ≡ (ok tt, s')
      → (x : Session) → In x (view s')
      → x.user_id ≡ user
      → x.revoked_at ≢ none

revocation-Follows :
    (now : ℕ) (P : Session → Type 0) (x y : Session) → Becomes P (revocation now) x y → Follows x y
revocation-Follows now P x y (inl e) = rw e (record {
  id = refl;
  user_id = refl;
  tenant_id = refl;
  issued_at = refl;
  expires_at = refl;
  stays_revoked = λ h. h;
})
revocation-Follows now P x y (inr (p, e)) = rw e (record {
  id = refl;
  user_id = refl;
  tenant_id = refl;
  issued_at = refl;
  expires_at = refl;
  stays_revoked = λ h k. ground arith;
})

-- A revocation updates the table, whatever it selects.
pub Changes-Updates :
    (now : ℕ) (P : Session → Type 0) (rows rows' : List Session)
    → Changes P (revocation now) rows rows'
    → Updates rows rows'
Changes-Updates now P rows rows' c = record {
  back = λ y m. let (x, i, b) = c.back y m in (x, i, revocation-Follows now P x y b);
  on = λ x m. let (y, i, b) = c.on x m in (y, i, revocation-Follows now P x y b);
}
