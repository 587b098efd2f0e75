-- ===== src/Apikey/Service/Revocation.antt =====
-- A revoked key never verifies again, whatever the service is asked to do afterwards.
use pk_modules.Common.{
  ℕ, ◌≡◌, ◌≢◌, refl, inl, inr, ◌⊎◌, Option, none, some, List, [], ◌∷◌, Result, ok, err, In, arith,
  Bool, Bool-cases, ◌>>=◌, ◌∙◌, ap, sym, proceed, or_raise,
}
use pk_modules.Common.Int.{ℤ}
use pk_modules.Common.Text.{Text, trim_space, text_eq}
use pk_modules.Apikey.{Error, ApiKey, invalid_key}
use pk_modules.Common.Rows.{Becomes, Changes}
use pk_modules.Apikey.Store.{
  Row, IsStore, IsKey, IsRevocable, Follows, revocation, mark_use, mark_use-Follows,
  revocation-Follows,
}
use pk_modules.Apikey.Secret.{parse_prefix}
use pk_modules.Apikey.Service.{
  Service, World, Event, Draws, from_store, accept, verify_rows, verify, stored, Prepared, prepare,
  finish_issue, issue, revoke, list, emit,
}
use pk_modules.Apikey.Service.Issuance.{prepare_world}
use pk_modules.Apikey.Service.Verification.{verify_sound}

-- The key (tenant, id) is there and every row of it is revoked.
pub record IsDead (tenant id : Text) (rows : List Row) : Type 0 where
  pub present : (x : Row) × In x rows × (x.id ≡ id)
  pub revoked : (x : Row) → In x rows → IsKey tenant id x → x.revoked_at ≢ none

module _ {S : Type 0} (svc : Service S) where
  -- One request to the service, with its clock reading and its draws; it may fail.
  pub data Step : World S → World S → Type 0 where
    issued :
        (w : World S) (now : ℕ) (draws : Draws) (tenant user name : Text) (scopes : List Text)
        (ttl : ℤ)
        → Step w (issue svc now draws tenant user name scopes ttl w).1
    verified : (w : World S) (now : ℕ) (text : Text) → Step w (verify svc now text w).1
    revoked : (w : World S) (now : ℕ) (tenant id : Text) → Step w (revoke svc now tenant id w).1
    listed : (w : World S) (tenant : Text) → Step w (list svc tenant w).1

  pub data Reach (w : World S) : World S → Type 0 where
    here : Reach w w
    next : {t u : World S} → Reach w t → Step t u → Reach w u

  emit_conn : (e : Event) (w : World S) → (emit svc e w).1.conn ≡ w.conn
  unfolding emit
  emit_conn e w = ground arith

  finish_issue_conn :
      (now : ℕ) (row : Row) (plaintext : Text) (scopes : List Text) (w : World S)
      → (finish_issue svc now row plaintext scopes w).1.conn
        ≡ (svc.store.create now (some row) w.conn).1
  unfolding finish_issue
  finish_issue_conn now row plaintext scopes w = ground arith

  list_conn :
      (tenant : Text) (w : World S)
      → ((list svc tenant w).1.conn ≡ w.conn)
        ⊎ ((list svc tenant w).1.conn ≡ (svc.store.list tenant w.conn).1)
  unfolding list
  list_conn tenant w = ground arith

  revoke_conn :
      (now : ℕ) (tenant id : Text) (w : World S)
      → ((revoke svc now tenant id w).1.conn ≡ w.conn)
        ⊎ ((revoke svc now tenant id w).1.conn ≡ (svc.store.revoke now tenant id w.conn).1)
  unfolding revoke
  revoke_conn now tenant id w = ground arith

  accept_conn :
      (now : ℕ) (row : Row) (w : World S)
      → ((accept svc now row w).1.conn ≡ w.conn)
        ⊎ ((accept svc now row w).1.conn
            ≡ (svc.store.update_last_used now row.tenant_id row.id now w.conn).1)
  unfolding accept
  accept_conn now row w = ground arith

-- An update of the markers keeps the table dead.
updated-IsDead :
    (P : Row → Type 0) (change : Row → Row) (tenant id : Text) (rows rows' : List Row)
    → ((x y : Row) → Becomes P change x y → Follows x y)
    → Changes P change rows rows'
    → IsDead tenant id rows
    → IsDead tenant id rows'
updated-IsDead P change tenant id rows rows' follows c d =
    let (x, i, e) = d.present in
    let (y, j, b) = c.on x i in
    record {
      present = (y, j, (follows x y b).id ∙ e);
      revoked = λ y' m k.
          let (x', i', b') = c.back y' m in
          let f' = follows x' y' b' in
          f'.stays_revoked (d.revoked x' i' (sym f'.tenant_id ∙ k.0, sym f'.id ∙ k.1));
    }

module _ {S : Type 0} (svc : Service S) {view : S → List Row} {answers : S → Bool}
    (law : IsStore svc.store view answers) where
  update-IsDead :
      (tenant id : Text) (now : ℕ) (t i : Text) (at : ℕ) (s : S)
      → IsDead tenant id (view s)
      → IsDead tenant id (view (svc.store.update_last_used now t i at s).1)
  update-IsDead tenant id now t i at s d =
      updated-IsDead (IsKey t i) (mark_use now at) tenant id (view s)
        (view (svc.store.update_last_used now t i at s).1) (mark_use-Follows now at (IsKey t i))
        (law.update_last_used_changes now t i at s) d

  revoke-IsDead :
      (tenant id : Text) (now : ℕ) (t i : Text) (s : S)
      → IsDead tenant id (view s)
      → IsDead tenant id (view (svc.store.revoke now t i s).1)
  revoke-IsDead tenant id now t i s d =
      updated-IsDead (IsRevocable t i) (revocation now) tenant id (view s)
        (view (svc.store.revoke now t i s).1) (revocation-Follows now (IsRevocable t i))
        (law.revoke_changes now t i s) d

  -- A new row cannot take the id of a row that is there.
  create-IsDead :
      (tenant id : Text) (now : ℕ) (row : Row) (s : S)
      → IsDead tenant id (view s)
      → IsDead tenant id (view (svc.store.create now (some row) s).1)
  create-IsDead tenant id now row s d =
      go (svc.store.create now (some row) s).0 (svc.store.create now (some row) s).1 refl
    where
      go :
          (r : Result Error Row) (s' : S)
          → svc.store.create now (some row) s ≡ (r, s')
          → IsDead tenant id (view s')
      go (err e) s' h = rw (law.create_err now (some row) e s s' h) d
      go (ok r') s' h =
          let (e, members, free) = law.create_ok now row r' s s' h in
          let (x, i, q) = d.present in
          record {
            present = (x, (members x).1 (inl i), q);
            revoked = λ y m k. elim ((members y).0 m) [
              | inl old ↦ d.revoked y old k
              | inr new ↦ absurd (free x i (q ∙ sym k.1 ∙ ap (λ (r : Row). r.id) (new ∙ e)))
            ];
          }

  accept-IsDead :
      (tenant id : Text) (now : ℕ) (row : Row) (w : World S)
      → IsDead tenant id (view w.conn)
      → IsDead tenant id (view (accept svc now row w).1.conn)
  accept-IsDead tenant id now row w d = elim (accept_conn svc now row w) [
    | inl e ↦ rw e d
    | inr e ↦ rw e (update-IsDead tenant id now row.tenant_id row.id now w.conn d)
  ]

  verify_rows-IsDead :
      (tenant id : Text) (now : ℕ) (text : Text) (rows : List Row) (w : World S)
      → IsDead tenant id (view w.conn)
      → IsDead tenant id (view (verify_rows svc now text rows w).1.conn)
  unfolding verify_rows
  verify_rows-IsDead tenant id now text [] w d = d
  verify_rows-IsDead tenant id now text (row ∷ rows) w d =
      elim (Bool-cases (svc.hasher.verify text row.hash)) [
        | inl m ↦ rw m (accept-IsDead tenant id now row w d)
        | inr m ↦ rw m (verify_rows-IsDead tenant id now text rows w d)
      ]

  verify-IsDead :
      (tenant id : Text) (now : ℕ) (text : Text) (w : World S)
      → IsDead tenant id (view w.conn)
      → IsDead tenant id (view (verify svc now text w).1.conn)
  unfolding verify
  verify-IsDead tenant id now text w d = elim (Bool-cases (text_eq (trim_space text) [])) [
    | inl blank ↦ rw blank d
    | inr e ↦ rw e (go (parse_prefix (trim_space text)))
  ]
    where
      looked : (p : Text) → IsDead tenant id (view (svc.store.get_by_prefix p w.conn).1)
      looked p = rw (law.get_by_prefix_view p w.conn) d

      found :
          (r : Result Error (List Row)) (c : S)
          → IsDead tenant id (view c)
          → IsDead tenant id (
              view
                (proceed (verify_rows svc now (trim_space text)) r (record w { conn = c })).1.conn)
      found (ok rows) c k =
          verify_rows-IsDead tenant id now (trim_space text) rows (record w { conn = c }) k
      found (err e) c k = k

      go :
          (o : Option Text)
          → IsDead tenant id (
              view
                ((or_raise o invalid_key >>= λ prefix.
                    stored (svc.store.get_by_prefix prefix)
                    >>= verify_rows svc now (trim_space text))
                  w).1.conn)
      go none = d
      go (some p) =
          found (svc.store.get_by_prefix p w.conn).0 (svc.store.get_by_prefix p w.conn).1 (looked p)

  issue-IsDead :
      (tenant id : Text) (now : ℕ) (draws : Draws) (t user name : Text) (scopes : List Text)
      (ttl : ℤ) (w : World S)
      → IsDead tenant id (view w.conn)
      → IsDead tenant id (view (issue svc now draws t user name scopes ttl w).1.conn)
  unfolding issue
  issue-IsDead tenant id now draws t user name scopes ttl w d =
      go (prepare svc now draws t user name scopes ttl w).0
        (prepare svc now draws t user name scopes ttl w).1
        (rw (prepare_world svc now draws t user name scopes ttl w) d)
    where
      go :
          (r : Result Error Prepared) (v : World S)
          → IsDead tenant id (view v.conn)
          → IsDead tenant id
              (view (proceed (λ p. finish_issue svc now p.row p.plaintext p.scopes) r v).1.conn)
      go (ok p) v k =
          rw (finish_issue_conn svc now p.row p.plaintext p.scopes v)
            (create-IsDead tenant id now p.row v.conn k)
      go (err e) v k = k

  Step-IsDead :
      (tenant id : Text) {w u : World S}
      → Step svc w u
      → IsDead tenant id (view w.conn)
      → IsDead tenant id (view u.conn)
  Step-IsDead tenant id (issued w now draws t user name scopes ttl) d =
      issue-IsDead tenant id now draws t user name scopes ttl w d
  Step-IsDead tenant id (verified w now text) d = verify-IsDead tenant id now text w d
  Step-IsDead tenant id (revoked w now t i) d = elim (revoke_conn svc now t i w) [
    | inl e ↦ rw e d
    | inr e ↦ rw e (revoke-IsDead tenant id now t i w.conn d)
  ]
  Step-IsDead tenant id (listed w t) d = elim (list_conn svc t w) [
    | inl e ↦ rw e d
    | inr e ↦ rw (e, law.list_view t w.conn) d
  ]

  Reach-IsDead :
      (tenant id : Text) {w u : World S}
      → IsDead tenant id (view w.conn)
      → Reach svc w u
      → IsDead tenant id (view u.conn)
  Reach-IsDead tenant id d here = d
  Reach-IsDead tenant id d (next r st) = Step-IsDead tenant id st (Reach-IsDead tenant id d r)

  -- A revocation that succeeded, of a key that is there, kills it.
  revoked-IsDead :
      (now : ℕ) (tenant id : Text) (w w' : World S) (x : Row)
      → In x (view w.conn)
      → x.id ≡ id
      → revoke svc now tenant id w ≡ (ok tt, w')
      → IsDead tenant id (view w'.conn)
  unfolding revoke emit
  revoked-IsDead now tenant id w w' x i q h =
      let done : svc.store.revoke now tenant id w.conn ≡ (ok tt, w'.conn) = ground arith in
      let (y, j, b) = (law.revoke_changes now tenant id w.conn).on x i in
      let f = revocation-Follows now (IsRevocable tenant id) x y b in
      record {
        present = (y, rw (ap (λ p. view p.1) done) at j, f.id ∙ q);
        revoked = law.revoke_ok now tenant id w.conn w'.conn done;
      }

  -- After Revoke returned nil for a key that the store holds, no text ever verifies as that key
  -- again: not after any sequence of further issuances, verifications, revocations and listings,
  -- whatever their inputs, clocks and draws, and whether or not they fail.
  -- The store is any one that keeps the laws of its interface.
  pub revoked_never_verifies :
      (now : ℕ) (tenant id : Text) (w w' : World S) (x : Row)
      → In x (view w.conn)
      → x.id ≡ id
      → revoke svc now tenant id w ≡ (ok tt, w')
      → (u : World S) → Reach svc w' u
      → (later : ℕ) (text : Text) (k : ApiKey) (u' : World S) → verify svc later text u ≡ (ok k, u')
      → ¬ ((k.tenant_id ≡ tenant) × (k.id ≡ id))
  unfolding from_store
  revoked_never_verifies now tenant id w w' x i q h u r later text k u' v key =
      let d = Reach-IsDead tenant id (revoked-IsDead now tenant id w w' x i q h) r in
      let (row, m, _, a) = verify_sound svc law later text k u u' v in
      let same : (row.tenant_id ≡ k.tenant_id) × (row.id ≡ k.id) = ground (arith, a.decoded) in
      d.revoked row m (same.0 ∙ key.0, same.1 ∙ key.1) a.live
