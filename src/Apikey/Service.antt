-- ===== src/Apikey/Service.antt =====
-- pkg/apikey/service.go: Issue, Verify, Revoke and List over the store interface. The password
-- hasher of pk-core, the JSON text of a scope list and the draws of crypto/rand are parameters. An
-- audit emission is recorded as an attempt: the source discards its result.
pub mod Verification
pub mod Issuance
pub mod Revocation
use pk_modules.Common.{
  ℕ, Bool, true, false, ◌&&◌, Option, none, some, List, [], ◌∷◌, ◌++◌, Action, Result, ok, err,
  pure, raise, lift, raise_if, or_raise, ◌>>=◌, ◌>>◌, if◌then◌else◌, ltb, take,
}
use pk_modules.Common.Int.{ℤ, is_positive, add_time}
pub use pk_modules.Passhash.{Hasher}
use pk_modules.Common.Text.{Text, codes, trim_space, is_blank, text_eq}
use pk_modules.Apikey.{
  Error, ApiKey, invalid_key, key_revoked, key_expired, tenant_id_required, user_id_required,
  name_required, id_required, hash_failed, decode_scopes, past,
}
use pk_modules.Apikey.Scopes.{normalize_scopes}
use pk_modules.Apikey.Store.{Row, Store}
use pk_modules.Apikey.Secret.{generate, plaintext_of, parse_prefix}

-- `json.Marshal` and `json.Unmarshal` at a list of strings
pub record Codec : Type 0 where
  pub marshal : List Text → Text
  pub unmarshal : Text → Option (List Text)

pub record Event : Type 0 where
  pub action : Text
  pub resource : Text
  pub details : List (Text × Text)

-- `service`, without the clock; `audited` says that an emitter is wired
pub record Service (S : Type 0) : Type 0 where
  pub store : Store S
  pub hasher : Hasher
  pub codec : Codec
  pub audited : Bool
  pub allowed : List Text

pub record World (S : Type 0) : Type 0 where
  pub conn : S
  pub events : List Event

-- The draws of one issuance: 32 bytes, 12 bytes and the hasher's salt.
pub record Draws : Type 0 where
  pub secret : Option (List ℕ)
  pub id : Option (List ℕ)
  pub salt : ℕ

abbrev pub public_key : Row → List Text → ApiKey
public_key r scopes = record {
  id = r.id;
  tenant_id = r.tenant_id;
  user_id = r.user_id;
  name = r.name;
  prefix = r.prefix;
  hash = r.hash;
  scopes = scopes;
  last_used_at = r.last_used_at;
  revoked_at = r.revoked_at;
  expires_at = r.expires_at;
  created_at = r.created_at;
}

-- `fromStore` of a row
unfoldable pub from_store : Codec → Row → Result Error ApiKey
from_store codec r =
    if text_eq r.scopes [] then ok (public_key r []) else elim (codec.unmarshal r.scopes) [
      | none ↦ err (decode_scopes r.id)
      | some scopes ↦ ok (public_key r scopes)
    ]

module _ {S : Type 0} where
  -- A call of the store.
  abbrev pub stored : {A : Type 0} → Action Error S A → Action Error (World S) A
  stored m w = let (r, conn) = m w.conn in (r, record w { conn = conn })

  -- A call whose result the source discards.
  abbrev pub attempt : {A : Type 0} → Action Error (World S) A → Action Error (World S) (Unit {0})
  attempt m w = (ok tt, (m w).1)

  unfoldable pub emit : Service S → Event → Action Error (World S) (Unit {0})
  emit svc e w = (ok tt, if svc.audited then record w { events = w.events ++ e ∷ [] } else w)

abbrev pub expiry : ℕ → ℤ → Option ℕ
expiry now ttl = if is_positive ttl then some (add_time now ttl) else none

-- The row of an issuance whose checks and draws went well.
abbrev pub new_row : ℕ → Text → Text → Text → Text → Text → Text → Text → ℤ → Row
new_row now tenant user name id secret hash scopes ttl = record {
  id = id;
  tenant_id = tenant;
  user_id = user;
  name = name;
  prefix = take 12 secret;
  hash = hash;
  scopes = scopes;
  last_used_at = none;
  revoked_at = none;
  expires_at = expiry now ttl;
  created_at = now;
}

-- What an issuance has in hand when it writes.
pub record Prepared : Type 0 where
  pub row : Row
  pub plaintext : Text
  pub scopes : List Text

module _ {S : Type 0} (svc : Service S) where
  -- The required fields, on trimmed texts.
  unfoldable pub require_fields : Text → Text → Text → Action Error (World S) (Unit {0})
  require_fields tenant user name = do
    raise_if (text_eq tenant []) tenant_id_required
    raise_if (text_eq user []) user_id_required
    raise_if (text_eq name []) name_required

  -- From the persisted row to the caller's key and the audit entry.
  unfoldable pub finish_issue : ℕ → Row → Text → List Text → Action Error (World S) (Text × ApiKey)
  unfolding from_store emit
  finish_issue now row plaintext scopes = do
    saved ← stored (svc.store.create now (some row))
    out ← lift (from_store svc.codec saved)
    emit svc (record {
      action = codes "apikey.issued";
      resource = codes "apikey:" ++ row.id;
      details =
          (codes "tenant_id", row.tenant_id)
          ∷ (codes "user_id", row.user_id)
          ∷ (codes "name", row.name)
          ∷ (codes "prefix", row.prefix)
          ∷ [];
    })
    pure (plaintext, record out { scopes = scopes })

  -- The checks, the draws and the row, before anything is written.
  unfoldable pub prepare :
      ℕ → Draws → Text → Text → Text → List Text → ℤ → Action Error (World S) Prepared
  unfolding require_fields
  prepare now draws tenant_id user_id name scopes ttl = do
    require_fields (trim_space tenant_id) (trim_space user_id) (trim_space name)
    scopes_copy ← lift (normalize_scopes svc.allowed scopes)
    secret ← lift (generate draws.secret)
    hash ← or_raise (svc.hasher.hash draws.salt (plaintext_of secret)) hash_failed
    id ← lift (generate draws.id)
    pure (record {
      row =
          new_row now (trim_space tenant_id) (trim_space user_id) (trim_space name) id secret hash
            (svc.codec.marshal scopes_copy) ttl;
      plaintext = plaintext_of secret;
      scopes = scopes_copy;
    })

  unfoldable pub issue :
      ℕ → Draws → Text → Text → Text → List Text → ℤ → Action Error (World S) (Text × ApiKey)
  unfolding finish_issue
  issue now draws tenant_id user_id name scopes ttl = do
    p ← prepare now draws tenant_id user_id name scopes ttl
    finish_issue now p.row p.plaintext p.scopes

  -- The branch of the loop for a row whose hash verifies the text.
  unfoldable pub accept : ℕ → Row → Action Error (World S) ApiKey
  unfolding past from_store
  accept now row = do
    raise_if (elim row.revoked_at [ none ↦ false | some _ ↦ true ]) key_revoked
    raise_if (past row.expires_at now) key_expired
    attempt (stored (svc.store.update_last_used now row.tenant_id row.id now))
    lift (from_store svc.codec (record row { last_used_at = some now }))

  unfoldable pub verify_rows : ℕ → Text → List Row → Action Error (World S) ApiKey
  verify_rows now plaintext [] = raise invalid_key
  verify_rows now plaintext (row ∷ rows) =
      if svc.hasher.verify plaintext row.hash
      then accept now row
      else verify_rows now plaintext rows

  unfoldable pub verify : ℕ → Text → Action Error (World S) ApiKey
  verify now text = do
    let plaintext = trim_space text
    raise_if (text_eq plaintext []) invalid_key
    prefix ← or_raise (parse_prefix plaintext) invalid_key
    rows ← stored (svc.store.get_by_prefix prefix)
    verify_rows now plaintext rows

  unfoldable pub revoke : ℕ → Text → Text → Action Error (World S) (Unit {0})
  unfolding emit
  revoke now tenant_id id = do
    raise_if (is_blank tenant_id) tenant_id_required
    raise_if (is_blank id) id_required
    stored (svc.store.revoke now tenant_id id)
    emit svc (record {
      action = codes "apikey.revoked";
      resource = codes "apikey:" ++ id;
      details = (codes "id", id) ∷ (codes "tenant_id", tenant_id) ∷ [];
    })

  -- The conversion of every row, up to the first that does not decode.
  unfoldable pub convert_rows : List Row → Result Error (List ApiKey)
  unfolding from_store
  convert_rows [] = ok []
  convert_rows (r ∷ rows) =
      let rest = convert_rows rows in
      elim (from_store svc.codec r) [
        | err e ↦ err e
        | ok k ↦ elim rest [ err e ↦ err e | ok ks ↦ ok (k ∷ ks) ]
      ]

  unfoldable pub list : Text → Action Error (World S) (List ApiKey)
  list tenant_id = do
    raise_if (is_blank tenant_id) tenant_id_required
    rows ← stored (svc.store.list tenant_id)
    lift (convert_rows rows)
