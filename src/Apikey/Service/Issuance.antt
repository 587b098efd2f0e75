-- ===== src/Apikey/Service/Issuance.antt =====
-- What Issue writes, and that the text it returns verifies as the key it returns.
use pk_modules.Common.{
  ℕ, ◌≡◌, ◌≢◌, ◌≤◌, refl, inl, inr, ◌⊎◌, Bool, true, false, Option, none, some, List, [], ◌∷◌, ◌++◌,
  if◌then◌else◌, Result, ok, err, length, In, arith, Option-cases, bind_ok, ◌∙◌, ◌↔◌, ap, sym,
}
use pk_modules.Common.Int.{ℤ}
use pk_modules.Common.Base64.{encode_url, length-encode_url}
pub use pk_modules.Passhash.{IsHasher}
use pk_modules.Common.Text.{Text, codes, trim_space, text_eq, text_eq_iff}
use pk_modules.Apikey.{Error, ApiKey, past}
use pk_modules.Apikey.Scopes.{normalize_scopes}
use pk_modules.Apikey.Store.{Row, IsStore, stamp}
use pk_modules.Apikey.Secret.{parse_prefix, plaintext_of, generate}
use pk_modules.Apikey.Secret.Laws.{parse_prefix-plaintext_of, trim_space-plaintext_of}
use pk_modules.Apikey.Service.{
  Service, World, Codec, Draws, Prepared, new_row, accept, verify_rows, verify, public_key, prepare,
  finish_issue, issue,
}

-- Documented behaviour of encoding/json: the JSON text of a list of strings decodes to that list and
-- is not empty.
pub record Encodes (c : Codec) (l : List Text) : Type 0 where
  pub nonempty : c.marshal l ≢ []
  pub unmarshal-marshal : c.unmarshal (c.marshal l) ≡ some l

-- The text is the base64 of a draw that did not fail.
abbrev IsDrawn : Option (List ℕ) → Text → Type 0
IsDrawn draw text = (bytes : List ℕ) × (draw ≡ some bytes) × (text ≡ encode_url bytes)

module _ {S : Type 0} (svc : Service S) where
  -- The parts of an issuance that went through.
  pub record IsPrepared (now : ℕ) (draws : Draws) (tenant user name : Text) (scopes : List Text)
      (ttl : ℤ) (p : Prepared) : Type 0 where
    pub bytes : List ℕ
    pub id : Text
    pub hash : Text
    pub has_tenant : text_eq (trim_space tenant) [] ≡ false
    pub has_user : text_eq (trim_space user) [] ≡ false
    pub has_name : text_eq (trim_space name) [] ≡ false
    pub id_drawn : IsDrawn draws.id id
    pub drawn : draws.secret ≡ some bytes
    pub hashed : svc.hasher.hash draws.salt (plaintext_of (encode_url bytes)) ≡ some hash
    pub normalized : normalize_scopes svc.allowed scopes ≡ ok p.scopes
    pub text : p.plaintext ≡ plaintext_of (encode_url bytes)
    pub fields :
        p.row
        ≡ new_row now
            (trim_space tenant)
            (trim_space user)
            (trim_space name)
            id
            (encode_url bytes)
            hash
            (svc.codec.marshal p.scopes)
            ttl

  prepare-IsPrepared :
      (now : ℕ) (draws : Draws) (tenant user name : Text) (scopes : List Text) (ttl : ℤ)
      (w w' : World S) (p : Prepared)
      → prepare svc now draws tenant user name scopes ttl w ≡ (ok p, w')
      → IsPrepared now draws tenant user name scopes ttl p
  unfolding prepare generate
  prepare-IsPrepared now draws tenant user name scopes ttl w w' p h =
      elim (Option-cases draws.secret) [
        | inl e ↦ absurd (ground arith)
        | inr (bytes, e) ↦
            elim (Option-cases (svc.hasher.hash draws.salt (plaintext_of (encode_url bytes)))) [
              | inl f ↦ absurd (ground arith)
              | inr (hash, f) ↦ elim (Option-cases draws.id) [
                | inl g ↦ absurd (ground arith)
                | inr (ids, g) ↦ record {
                  bytes = bytes;
                  id = encode_url ids;
                  hash = hash;
                  has_tenant = ground arith;
                  has_user = ground arith;
                  has_name = ground arith;
                  id_drawn = (ids, g, refl);
                  drawn = e;
                  hashed = f;
                  normalized = ground arith;
                  text = ground arith;
                  fields = ground arith;
                }
              ]
            ]
      ]

  finish_issue_ok :
      (now : ℕ) (row : Row) (plaintext : Text) (scopes : List Text) (w w' : World S) (t : Text)
      (k : ApiKey)
      → finish_issue svc now row plaintext scopes w ≡ (ok (t, k), w')
      → (r : Row) × (svc.store.create now (some row) w.conn ≡ (ok r, w'.conn))
        × (t ≡ plaintext)
        × (k ≡ public_key r scopes)
  unfolding finish_issue
  finish_issue_ok now row plaintext scopes w w' t k h =
      go (svc.store.create now (some row) w.conn).0 (svc.store.create now (some row) w.conn).1 refl
    where
      go :
          (q : Result Error Row) (c : S)
          → svc.store.create now (some row) w.conn ≡ (q, c)
          → (r : Row) × (svc.store.create now (some row) w.conn ≡ (ok r, w'.conn))
            × (t ≡ plaintext)
            × (k ≡ public_key r scopes)
      go (err e) c d = absurd (ground arith)
      go (ok r) c d = (r, ground arith, ground arith, ground arith)

  -- Among candidates of which only one row's hash matches, the loop accepts that row.
  verify_rows-only :
      (now : ℕ) (text : Text) (r : Row) (rows : List Row) (w : World S)
      → In r rows
      → svc.hasher.verify text r.hash ≡ true
      → ((x : Row) → In x rows → (x ≡ r) ⊎ (svc.hasher.verify text x.hash ≡ false))
      → verify_rows svc now text rows w ≡ accept svc now r w
  unfolding verify_rows
  verify_rows-only now text r [] w m v only = elim m [ ]
  verify_rows-only now text r (x ∷ rows) w m v only = elim (only x (inl refl)) [
    | inl e ↦ rw (e, v)
    | inr n ↦ elim m [
      | inl here ↦ absurd (ground arith)
      | inr m' ↦ rw n (verify_rows-only now text r rows w m' v (λ y i. only y (inr i)))
    ]
  ]

  accept-fresh :
      (now : ℕ) (r : Row) (scopes : List Text) (w : World S)
      → r.revoked_at ≡ none
      → past r.expires_at now ≡ false
      → r.scopes ≡ svc.codec.marshal scopes
      → Encodes svc.codec scopes
      → (accept svc now r w).0 ≡ ok (public_key (record r { last_used_at = some now }) scopes)
  unfolding accept
  accept-fresh now r scopes w live current e c =
      ground (arith, c.nonempty, c.unmarshal-marshal, text_eq_iff r.scopes [])

  -- A preparation writes nothing.
  pub prepare_world :
      (now : ℕ) (draws : Draws) (tenant user name : Text) (scopes : List Text) (ttl : ℤ)
      (w : World S)
      → (prepare svc now draws tenant user name scopes ttl w).1 ≡ w
  unfolding prepare
  prepare_world now draws tenant user name scopes ttl w = ground arith

  verify_run :
      (now : ℕ) (text p : Text) (rs : List Row) (c : S) (w : World S)
      → trim_space text ≡ text
      → text ≢ []
      → parse_prefix text ≡ some p
      → svc.store.get_by_prefix p w.conn ≡ (ok rs, c)
      → verify svc now text w ≡ verify_rows svc now text rs (record w { conn = c })
  unfolding verify
  verify_run now text p rs c w trimmed full parsed got = ground (arith, text_eq_iff text [])

  stamp-new_row :
      (now : ℕ) (t u n i s h l : Text) (ttl : ℤ)
      → stamp now (new_row now t u n i s h l ttl) ≡ new_row now t u n i s h l ttl
  stamp-new_row now t u n i s h l ttl = ground arith

  -- What an issuance that returned has done: the row `row` is the only one that was added.
  pub record IsIssued (view : S → List Row) (now : ℕ) (draws : Draws) (tenant user name : Text)
      (scopes : List Text) (ttl : ℤ) (w w' : World S) (t : Text) (k : ApiKey) : Type 0 where
    pub bytes : List ℕ
    pub id : Text
    pub hash : Text
    pub row : Row
    pub has_tenant : text_eq (trim_space tenant) [] ≡ false
    pub has_user : text_eq (trim_space user) [] ≡ false
    pub has_name : text_eq (trim_space name) [] ≡ false
    pub id_drawn : IsDrawn draws.id id
    pub drawn : draws.secret ≡ some bytes
    pub text : t ≡ plaintext_of (encode_url bytes)
    pub hashed : svc.hasher.hash draws.salt t ≡ some hash
    pub granted : normalize_scopes svc.allowed scopes ≡ ok k.scopes
    pub stored :
        row
        ≡ new_row now
            (trim_space tenant)
            (trim_space user)
            (trim_space name)
            id
            (encode_url bytes)
            hash
            (svc.codec.marshal k.scopes)
            ttl
    pub key : k ≡ public_key row k.scopes
    pub added : (x : Row) → In x (view w'.conn) ↔ (In x (view w.conn) ⊎ (x ≡ row))
    pub fresh : (x : Row) → In x (view w.conn) → x.id ≢ id
    pub audited : w'.events ≡ (
        if svc.audited
        then w.events
          ++ (record {
            action = codes "apikey.issued";
            resource = codes "apikey:" ++ row.id;
            details =
                (codes "tenant_id", row.tenant_id)
                ∷ (codes "user_id", row.user_id)
                ∷ (codes "name", row.name)
                ∷ (codes "prefix", row.prefix)
                ∷ [];
          })
            ∷ []
        else w.events)

  module _ {view : S → List Row} {answers : S → Bool} (law : IsStore svc.store view answers) where
    -- When Issue returns a text and a key, tenant, user and name are not blank and the scopes pass
    -- the check; the text is `pk_` and the base64 of the drawn bytes, and the id the base64 of its
    -- own draw; the store has gained exactly one row, under that id, which was free, with the
    -- trimmed tenant, user and name, the first twelve characters of the secret as prefix, the hash of the text, the JSON of
    -- the normalised scopes, no revocation, and an expiry exactly if the duration is positive; and
    -- the key is that row with those scopes. Where auditing is on, one entry is
    -- emitted, "apikey.issued" for that id, with the tenant, the user, the name and the prefix.
    -- The store is any one that keeps the laws of its interface.
    pub issue_sound :
        (now : ℕ) (draws : Draws) (tenant user name : Text) (scopes : List Text) (ttl : ℤ)
        (w w' : World S) (t : Text) (k : ApiKey)
        → issue svc now draws tenant user name scopes ttl w ≡ (ok (t, k), w')
        → IsIssued view now draws tenant user name scopes ttl w w' t k
    unfolding issue
    issue_sound now draws tenant user name scopes ttl w w' t k h =
        let (p, v, prep, fin) =
          bind_ok (prepare svc now draws tenant user name scopes ttl)
            (λ p. finish_issue svc now p.row p.plaintext p.scopes) w w' h in
        let a = prepare-IsPrepared now draws tenant user name scopes ttl w v p prep in
        let (r, made, text, key) = finish_issue_ok now p.row p.plaintext p.scopes v w' t k fin in
        let same : v ≡ w = ground (arith, prepare_world now draws tenant user name scopes ttl w) in
        let (stamped, members, free) = law.create_ok now p.row r v.conn w'.conn made in
        let scoped : k.scopes ≡ p.scopes = ap (λ (x : ApiKey). x.scopes) key in
        record {
          bytes = a.bytes;
          id = a.id;
          hash = a.hash;
          row = r;
          has_tenant = a.has_tenant;
          has_user = a.has_user;
          has_name = a.has_name;
          id_drawn = a.id_drawn;
          drawn = a.drawn;
          text = text ∙ a.text;
          hashed = rw (text ∙ a.text) a.hashed;
          granted = rw scoped a.normalized;
          stored = rw scoped (
              stamped
              ∙ ap (stamp now) a.fields
              ∙ stamp-new_row now (trim_space tenant) (trim_space user) (trim_space name) a.id
                  (encode_url a.bytes) a.hash (svc.codec.marshal p.scopes) ttl);
          key = key ∙ ap (public_key r) (sym scoped);
          added = λ x. rw same at (members x);
          fresh = λ x i e. free x (rw same i) (e ∙ sym (ap (λ (q : Row). q.id) a.fields));
          audited = ground arith;
        }

    -- A key that was just issued verifies: when Issue returned the text `t` and the key `k`, a later
    -- Verify of `t`, before the key's expiry, returns `k` with that use recorded. It is assumed that
    -- the draw of the secret gave 32 bytes, that the hasher verifies its own hashes, that the JSON
    -- codec decodes what it encoded for the scopes granted, that no older key of the same prefix has
    -- a hash that matches `t`, and that the lookup by prefix meets no driver error.
    -- The store is any one that keeps the laws of its interface.
    pub issued_key_verifies :
        (now : ℕ) (draws : Draws) (tenant user name : Text) (scopes : List Text) (ttl : ℤ)
        (w w' : World S) (t : Text) (k : ApiKey)
        → issue svc now draws tenant user name scopes ttl w ≡ (ok (t, k), w')
        → ((bytes : List ℕ) → draws.secret ≡ some bytes → length bytes ≡ 32)
        → IsHasher svc.hasher
        → Encodes svc.codec k.scopes
        → ((x : Row)
            → In x (view w.conn)
            → x.prefix ≡ k.prefix
            → svc.hasher.verify t x.hash ≡ false)
        → (later : ℕ) → past k.expires_at later ≡ false
        → (rs : List Row) (c : S) → svc.store.get_by_prefix k.prefix w'.conn ≡ (ok rs, c)
        → (verify svc later t w').0 ≡ ok (record k { last_used_at = some later })
    issued_key_verifies now draws tenant user name scopes ttl w w' t k h drawn hasher codec others
          later current rs c got =
        let a = issue_sound now draws tenant user name scopes ttl w w' t k h in
        let found = law.get_by_prefix_ok k.prefix rs w'.conn c got in
        let long : 12 ≤ length (encode_url a.bytes) =
          omega (arith, length-encode_url a.bytes, drawn a.bytes a.drawn) in
        let prefixed : k.prefix ≡ a.row.prefix = ap (λ (q : ApiKey). q.prefix) a.key in
        let parsed : parse_prefix t ≡ some k.prefix =
          rw (a.text, prefixed, a.stored) (parse_prefix-plaintext_of (encode_url a.bytes) long) in
        let matches : svc.hasher.verify t a.row.hash ≡ true =
          rw a.stored (hasher.verify-hash draws.salt t a.hash a.hashed) in
        let only : (x : Row) → In x rs → (x ≡ a.row) ⊎ (svc.hasher.verify t x.hash ≡ false) = λ x i.
          elim ((a.added x).0 ((found x).0 i).0) [
            | inl old ↦ inr (others x old ((found x).0 i).1)
            | inr new ↦ inl new
          ] in
        let loop =
          verify_rows-only later t a.row rs (record w' { conn = c })
            ((found a.row).1 ((a.added a.row).1 (inr refl), sym prefixed)) matches only in
        let run =
          verify_run later t k.prefix rs c w' (rw a.text (trim_space-plaintext_of a.bytes))
            (λ e. cc (a.text, e)) parsed got in
        let expires : k.expires_at ≡ a.row.expires_at = ap (λ (q : ApiKey). q.expires_at) a.key in
        ap (λ (q : Result Error ApiKey × World S). q.0) (run ∙ loop)
        ∙ accept-fresh later a.row k.scopes (record w' { conn = c })
            (ap (λ (q : Row). q.revoked_at) a.stored) (rw expires at current)
            (ap (λ (q : Row). q.scopes) a.stored) codec
        ∙ ap (λ (q : ApiKey). ok (record q { last_used_at = some later })) (sym a.key)
