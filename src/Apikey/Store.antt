-- ===== src/Apikey/Store.antt =====
-- pkg/apikey/store/store.go: the row, the persistence contract, and what an implementation owes
-- to its caller, stated of the rows that its state stands for.
use pk_modules.Common.{
  ℕ, ◌≡◌, ◌≢◌, ◌↔◌, ◌⊎◌, inl, inr, refl, Bool, true, Option, none, some, List, Action, ok, err, ltb,
  ◌==◌, if◌then◌else◌, In, IsSorted, arith,
}
use pk_modules.Common.Rows.{Becomes, Changes}
use pk_modules.Common.Text.{Text}
use pk_modules.Apikey.{Error, not_found, duplicate}

-- `store.APIKey`; `scopes` is the JSON text of the column
pub record Row : Type 0 where
  pub id : Text
  pub tenant_id : Text
  pub user_id : Text
  pub name : Text
  pub prefix : Text
  pub hash : Text
  pub scopes : Text
  pub last_used_at : Option ℕ
  pub revoked_at : Option ℕ
  pub expires_at : Option ℕ
  pub created_at : ℕ

-- `store.Store`. A call that reads the clock takes the reading first; `create` returns the row as
-- it leaves it behind the caller's pointer.
pub record Store (S : Type 0) : Type 0 where
  pub create : ℕ → Option Row → Action Error S Row
  pub get : Text → Text → Action Error S Row
  pub get_by_prefix : Text → Action Error S (List Row)
  pub list : Text → Action Error S (List Row)
  pub revoke : ℕ → Text → Text → Action Error S (Unit {0})
  pub update_last_used : ℕ → Text → Text → ℕ → Action Error S (Unit {0})

-- The row is the key (tenant, id).
abbrev pub IsKey : Text → Text → Row → Type 0
IsKey tenant id r = (r.tenant_id ≡ tenant) × (r.id ≡ id)

-- And it is live.
abbrev pub IsRevocable : Text → Text → Row → Type 0
IsRevocable tenant id r = IsKey tenant id r × (r.revoked_at ≡ none)

-- `b` is `a` after an update that may set nothing but the two markers, and never clears the
-- revocation.
pub record Follows (a b : Row) : Type 0 where
  pub id : b.id ≡ a.id
  pub tenant_id : b.tenant_id ≡ a.tenant_id
  pub prefix : b.prefix ≡ a.prefix
  pub hash : b.hash ≡ a.hash
  pub scopes : b.scopes ≡ a.scopes
  pub expires_at : b.expires_at ≡ a.expires_at
  pub stays_revoked : a.revoked_at ≢ none → b.revoked_at ≢ none

abbrev pub stamp : ℕ → Row → Row
stamp now r = record r { created_at = if r.created_at == 0 then now else r.created_at }

-- Later creation first.
abbrev pub newer : Row → Row → Bool
newer a b = ltb b.created_at a.created_at

-- What Revoke and UpdateLastUsed write.
abbrev pub revocation : ℕ → Row → Row
revocation now r = record r { revoked_at = some now }

abbrev pub mark_use : ℕ → ℕ → Row → Row
mark_use now at r = record r { last_used_at = some (if at == 0 then now else at) }

Follows-refl : (r : Row) → Follows r r
Follows-refl r = record {
  id = refl;
  tenant_id = refl;
  prefix = refl;
  hash = refl;
  scopes = refl;
  expires_at = refl;
  stays_revoked = λ h. h;
}

-- The contract in the comments of the interface: what a call that succeeds has done, what its
-- sentinel errors mean, and that no call changes more than it says. `view` is the rows that a state
-- stands for, in any order, and `answers` whether the next statement meets no driver error.
pub record IsStore {S : Type 0} (st : Store S) (view : S → List Row) (answers : S → Bool)
    : Type 0 where
  pub create_ok :
      (now : ℕ) (r r' : Row) (s s' : S)
      → st.create now (some r) s ≡ (ok r', s')
      → (r' ≡ stamp now r)
        × ((x : Row) → In x (view s') ↔ (In x (view s) ⊎ (x ≡ r')))
        × ((x : Row) → In x (view s) → x.id ≢ r.id)
  pub create_err :
      (now : ℕ) (o : Option Row) (e : Error) (s s' : S)
      → st.create now o s ≡ (err e, s')
      → view s' ≡ view s
  pub create_free :
      (now : ℕ) (r : Row) (s : S)
      → answers s ≡ true
      → ((x : Row) → In x (view s) → x.id ≢ r.id)
      → (st.create now (some r) s).0 ≡ ok (stamp now r)
  pub create_duplicate :
      (now : ℕ) (r x : Row) (s : S)
      → answers s ≡ true
      → In x (view s)
      → x.id ≡ r.id
      → (st.create now (some r) s).0 ≡ err duplicate
  pub get_view : (tenant id : Text) (s : S) → view (st.get tenant id s).1 ≡ view s
  pub get_ok :
      (tenant id : Text) (x : Row) (s s' : S)
      → st.get tenant id s ≡ (ok x, s')
      → In x (view s) × IsKey tenant id x
  pub get_not_found :
      (tenant id : Text) (s s' : S)
      → st.get tenant id s ≡ (err not_found, s')
      → (x : Row) → In x (view s)
      → ¬ (IsKey tenant id x)
  pub get_answers :
      (tenant id : Text) (s : S)
      → answers s ≡ true
      → (((x : Row) × (st.get tenant id s).0 ≡ ok x) ⊎ ((st.get tenant id s).0 ≡ err not_found))
  pub get_by_prefix_view : (p : Text) (s : S) → view (st.get_by_prefix p s).1 ≡ view s
  pub get_by_prefix_ok :
      (p : Text) (rs : List Row) (s s' : S)
      → st.get_by_prefix p s ≡ (ok rs, s')
      → (x : Row) → In x rs ↔ (In x (view s) × (x.prefix ≡ p))
  pub get_by_prefix_answers :
      (p : Text) (s : S) → answers s ≡ true → (rs : List Row) × (st.get_by_prefix p s).0 ≡ ok rs
  pub list_view : (tenant : Text) (s : S) → view (st.list tenant s).1 ≡ view s
  pub list_ok :
      (tenant : Text) (rs : List Row) (s s' : S)
      → st.list tenant s ≡ (ok rs, s')
      → (x : Row) → In x rs ↔ (In x (view s) × (x.tenant_id ≡ tenant) × (x.revoked_at ≡ none))
  pub list_answers :
      (tenant : Text) (s : S) → answers s ≡ true → (rs : List Row) × (st.list tenant s).0 ≡ ok rs
  pub list_sorted :
      (tenant : Text) (rs : List Row) (s s' : S)
      → st.list tenant s ≡ (ok rs, s')
      → IsSorted newer rs
  pub revoke_ok :
      (now : ℕ) (tenant id : Text) (s s' : S)
      → st.revoke now tenant id s ≡ (ok tt, s')
      → (x : Row) → In x (view s')
      → IsKey tenant id x
      → x.revoked_at ≢ none
  pub revoke_err :
      (now : ℕ) (tenant id : Text) (s s' : S)
      → st.revoke now tenant id s ≡ (err not_found, s')
      → (x : Row) → In x (view s)
      → ¬ (IsKey tenant id x)
  pub revoke_changes :
      (now : ℕ) (tenant id : Text) (s : S)
      → Changes
          (IsRevocable tenant id)
          (revocation now)
          (view s)
          (view (st.revoke now tenant id s).1)
  pub update_last_used_changes :
      (now : ℕ) (tenant id : Text) (at : ℕ) (s : S)
      → Changes
          (IsKey tenant id)
          (mark_use now at)
          (view s)
          (view (st.update_last_used now tenant id at s).1)
  pub update_last_used_answers :
      (now : ℕ) (tenant id : Text) (at : ℕ) (s : S)
      → answers s ≡ true
      → (st.update_last_used now tenant id at s).0 ≡ ok tt
  pub update_last_used_ok :
      (now : ℕ) (tenant id : Text) (at : ℕ) (s s' : S)
      → st.update_last_used now tenant id at s ≡ (ok tt, s')
      → (x : Row) → In x (view s')
      → IsKey tenant id x
      → x.last_used_at ≡ some (if at == 0 then now else at)

-- Either update leaves what a verification reads but for the markers.
pub revocation-Follows :
    (now : ℕ) (P : Row → Type 0) (x y : Row) → Becomes P (revocation now) x y → Follows x y
revocation-Follows now P x y (inl e) = rw e (Follows-refl x)
revocation-Follows now P x y (inr (p, e)) = rw e (record {
  id = refl;
  tenant_id = refl;
  prefix = refl;
  hash = refl;
  scopes = refl;
  expires_at = refl;
  stays_revoked = λ h k. ground arith;
})

pub mark_use-Follows :
    (now at : ℕ) (P : Row → Type 0) (x y : Row) → Becomes P (mark_use now at) x y → Follows x y
mark_use-Follows now at P x y (inl e) = rw e (Follows-refl x)
mark_use-Follows now at P x y (inr (p, e)) = rw e (record {
  id = refl;
  tenant_id = refl;
  prefix = refl;
  hash = refl;
  scopes = refl;
  expires_at = refl;
  stays_revoked = λ h. h;
})
