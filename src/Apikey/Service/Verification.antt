-- ===== src/Apikey/Service/Verification.antt =====
-- What Verify accepts and refuses.
use pk_modules.Common.{
  ℕ, ◌≡◌, refl, inl, inr, Bool, true, false, none, some, List, [], ◌∷◌, ok, In, arith, Bool-cases,
  Option-cases, bind_ok,
}
use pk_modules.Common.Text.{Text, trim_space}
use pk_modules.Apikey.{ApiKey, past}
use pk_modules.Apikey.Store.{Row, IsStore}
use pk_modules.Apikey.Secret.{parse_prefix}
use pk_modules.Apikey.Service.{Service, World, from_store, accept, verify_rows, verify, stored}

module _ {S : Type 0} (svc : Service S) where
  -- The key returned comes from this row, which was live and matched the text at the time `now`.
  pub record IsAccepted (now : ℕ) (plaintext : Text) (row : Row) (k : ApiKey) : Type 0 where
    pub matches : svc.hasher.verify plaintext row.hash ≡ true
    pub live : row.revoked_at ≡ none
    pub current : past row.expires_at now ≡ false
    pub decoded : from_store svc.codec (record row { last_used_at = some now }) ≡ ok k

  accept-IsAccepted :
      (now : ℕ) (plaintext : Text) (row : Row) (k : ApiKey) (w w' : World S)
      → svc.hasher.verify plaintext row.hash ≡ true
      → accept svc now row w ≡ (ok k, w')
      → IsAccepted now plaintext row k
  unfolding accept
  accept-IsAccepted now plaintext row k w w' m h = record {
    matches = m;
    live = ground arith;
    current = ground arith;
    decoded = ground arith;
  }

  verify_rows-IsAccepted :
      (now : ℕ) (plaintext : Text) (rows : List Row) (k : ApiKey) (w w' : World S)
      → verify_rows svc now plaintext rows w ≡ (ok k, w')
      → (row : Row) × In row rows × IsAccepted now plaintext row k
  unfolding verify_rows
  verify_rows-IsAccepted now plaintext [] k w w' h = absurd (ground arith)
  verify_rows-IsAccepted now plaintext (row ∷ rows) k w w' h =
      elim (Bool-cases (svc.hasher.verify plaintext row.hash)) [
        | inl m ↦ (row, inl refl, accept-IsAccepted now plaintext row k w w' m (rw m at h))
        | inr m ↦
            let (r, i, a) = verify_rows-IsAccepted now plaintext rows k w w' (rw m at h) in
            (r, inr i, a)
      ]

  -- A verification that returned: the prefix, the candidates, and the loop over them.
  pub verify_ok :
      (now : ℕ) (text : Text) (k : ApiKey) (w w' : World S)
      → verify svc now text w ≡ (ok k, w')
      → (p : Text) × (rs : List Row) × (t : World S) × (parse_prefix (trim_space text) ≡ some p)
        × (stored (svc.store.get_by_prefix p) w ≡ (ok rs, t))
        × (verify_rows svc now (trim_space text) rs t ≡ (ok k, w'))
  unfolding verify
  verify_ok now text k w w' h = elim (Option-cases (parse_prefix (trim_space text))) [
    | inl e ↦ absurd (ground arith)
    | inr (p, e) ↦
        let (rs, t, g, r) =
          bind_ok (stored (svc.store.get_by_prefix p)) (verify_rows svc now (trim_space text)) w w'
            (ground arith) in
        (p, rs, t, e, g, r)
  ]

  module _ {view : S → List Row} {answers : S → Bool} (law : IsStore svc.store view answers) where
    -- When Verify returns a key, some stored row has the prefix parsed from the trimmed text, a
    -- hash that the hasher verifies against that text, no revocation and no expiry in the past, and
    -- the key is that row as it decodes with this use recorded.
    -- The store is any one that keeps the laws of its interface.
    pub verify_sound :
        (now : ℕ) (text : Text) (k : ApiKey) (w w' : World S)
        → verify svc now text w ≡ (ok k, w')
        → (row : Row) × In row (view w.conn)
          × (parse_prefix (trim_space text) ≡ some row.prefix)
          × IsAccepted now (trim_space text) row k
    verify_sound now text k w w' h =
        let (p, rs, t, e, g, r) = verify_ok now text k w w' h in
        let (row, i, a) = verify_rows-IsAccepted now (trim_space text) rs k t w' r in
        let found : svc.store.get_by_prefix p w.conn ≡ (ok rs, t.conn) = ground arith in
        let (m, q) = (law.get_by_prefix_ok p rs w.conn t.conn found row).0 i in (row, m, rw q e, a)
