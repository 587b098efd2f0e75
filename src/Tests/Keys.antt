-- ===== src/Tests/Keys.antt =====
-- pkg/apikey at concrete inputs.
use pk_modules.Common.{
  ◌≡◌, ◌≤◌, inl, inr, refl, true, false, none, some, List, [], ◌∷◌, ◌++◌, ok, err, In, arith,
  length, count_if, map_if, filter, sort_by, All,
}
use pk_modules.Common.Int.{pos}
use pk_modules.Common.Base64.{encode_url}
use pk_modules.Common.Text.{Text, codes, text_eq, trim_space, is_blank, text_lt, to_lower, contains}
use pk_modules.Sql.{Adapter, Conn}
use pk_modules.Tests.Fixtures.{
  toy-IsHasher, driver, toy_hash, toy_verify, marshal, unmarshal, split, zeros,
}
use pk_modules.Apikey.{Error, ApiKey, past, reserved_scope, key_revoked}
use pk_modules.Apikey.Scopes.{
  has, refusal, normalize_scopes, build_scope_catalog, default_allowed_scopes,
}
use pk_modules.Apikey.Scopes.Normalize.{
  IsGrantable, IsResult, normalize_scopes_sound, normalize_scopes_complete,
}
use pk_modules.Apikey.Scopes.Catalog.{IsCatalog, build_scope_catalog_sound}
use pk_modules.Apikey.Store.{Row}
use pk_modules.Apikey.Sqlite
use pk_modules.Apikey.Sqlite.{sqlite, store, list, create, get_by_prefix, update_last_used}
use pk_modules.Apikey.Sqlite.Calls.{Classifies}
use pk_modules.Apikey.Sqlite.Contract.{key_store-IsStore}
use pk_modules.Apikey.Secret.{parse_prefix, plaintext_of, generate}
use pk_modules.Apikey.Service
use pk_modules.Apikey.Service.{
  Service, World, Draws, verify, verify_rows, accept, revoke, issue, prepare,
}
use pk_modules.Apikey.Service.Verification.{IsAccepted, verify_sound}
use pk_modules.Apikey.Service.Issuance.{Encodes, IsIssued, issue_sound, issued_key_verifies}
use pk_modules.Apikey.Service.Revocation.{here, revoked_never_verifies}

abbrev adapter : Adapter Error
adapter = sqlite driver

adapter-Classifies : Classifies adapter
unfolding Sqlite.insert_error Sqlite.is_unique_violation to_lower contains
adapter-Classifies = record { taken = refl }

abbrev service : Service (Conn Row)
service = record {
  store = store adapter;
  hasher = record { hash = toy_hash; verify = toy_verify };
  codec = record { marshal = marshal; unmarshal = unmarshal };
  audited = true;
  allowed = default_allowed_scopes;
}

abbrev key : Text → Text → Row
key tenant id = record {
  id = id;
  tenant_id = tenant;
  user_id = codes "u";
  name = codes "n";
  prefix = codes "AAAAAAAAAAAA";
  hash = 33 ∷ codes "pk_AAAAAAAAAAAA" ++ id;
  scopes = marshal (codes "users:read" ∷ []);
  last_used_at = none;
  revoked_at = none;
  expires_at = some 100;
  created_at = 1;
}

abbrev two_keys : World (Conn Row)
two_keys = record {
  conn = record {
    rows = key (codes "t") (codes "1") ∷ key (codes "t") (codes "2") ∷ [];
    faults = [];
  };
  events = [];
}

abbrev after_revocation : World (Conn Row)
after_revocation = (revoke service 5 (codes "t") (codes "1") two_keys).1

-- The first key is revoked; the second still verifies.
revoke_first : revoke service 5 (codes "t") (codes "1") two_keys ≡ (ok tt, after_revocation)
unfolding revoke Sqlite.revoke is_blank text_eq count_if map_if
revoke_first = refl

abbrev second_text : Text
second_text = codes "pk_AAAAAAAAAAAA2"

abbrev second_key : ApiKey
second_key =
    Service.public_key (record (key (codes "t") (codes "2")) { last_used_at = some 6 })
      (codes "users:read" ∷ [])

verify_second :
    verify service 6 second_text after_revocation
    ≡ (ok second_key, (verify service 6 second_text after_revocation).1)
unfolding revoke Sqlite.revoke is_blank text_eq count_if map_if verify verify_rows parse_prefix
    get_by_prefix filter accept update_last_used split
verify_second = refl

revoked_never_verifies_example : ¬ ((codes "t" ≡ codes "t") × (codes "2" ≡ codes "1"))
revoked_never_verifies_example =
    revoked_never_verifies service (key_store-IsStore adapter adapter-Classifies) 5 (codes "t")
      (codes "1") two_keys after_revocation (key (codes "t") (codes "1")) (inl refl) refl
      revoke_first after_revocation here 6 second_text second_key
      (verify service 6 second_text after_revocation).1 verify_second

verify_sound_example :
    (row : Row) × In row after_revocation.conn.rows
    × (parse_prefix (trim_space second_text) ≡ some row.prefix)
    × IsAccepted service 6 (trim_space second_text) row second_key
verify_sound_example =
    verify_sound service (key_store-IsStore adapter adapter-Classifies) 6 second_text second_key
      after_revocation (verify service 6 second_text after_revocation).1 verify_second

-- The first key's own text is refused as revoked.
verify_first_refused :
    (verify service 6 (codes " pk_AAAAAAAAAAAA1") after_revocation).0 ≡ err key_revoked
unfolding revoke Sqlite.revoke is_blank text_eq count_if map_if verify verify_rows parse_prefix
    get_by_prefix filter accept update_last_used split
verify_first_refused = refl

abbrev draws : Draws
draws = record { secret = some (zeros 32); id = some (zeros 12); salt = 0 }

abbrev requested : List Text
requested = codes " users:read" ∷ codes "users:write" ∷ codes "users:read" ∷ []

abbrev issued : Text × ApiKey
issued = (
  plaintext_of (codes "AAAAAAAAAAAAAAAAAAAAAAAAAAAAAAAAAAAAAAAAAAA"),
  record {
    id = codes "AAAAAAAAAAAAAAAA";
    tenant_id = codes "t";
    user_id = codes "u";
    name = codes "n";
    prefix = codes "AAAAAAAAAAAA";
    hash = 33 ∷ plaintext_of (codes "AAAAAAAAAAAAAAAAAAAAAAAAAAAAAAAAAAAAAAAAAAA");
    scopes = codes "users:read" ∷ codes "users:write" ∷ [];
    last_used_at = none;
    revoked_at = none;
    expires_at = some 27;
    created_at = 7;
  },
)

abbrev after_issue : World (Conn Row)
after_issue =
    (issue service 7 draws (codes "t ") (codes "u") (codes "n") requested (pos 20) two_keys).1

issue_key :
    issue service 7 draws (codes "t ") (codes "u") (codes "n") requested (pos 20) two_keys
    ≡ (ok issued, after_issue)
unfolding issue prepare normalize_scopes refusal has generate encode_url create text_eq trim_space
    count_if split
issue_key = refl

issue_sound_example :
    IsIssued service
      (λ (c : Conn Row). c.rows)
      7
      draws
      (codes "t ")
      (codes "u")
      (codes "n")
      requested
      (pos 20)
      two_keys
      after_issue
      issued.0
      issued.1
issue_sound_example =
    issue_sound service (key_store-IsStore adapter adapter-Classifies) 7 draws (codes "t ")
      (codes "u") (codes "n") requested (pos 20) two_keys after_issue issued.0 issued.1 issue_key

toy-Encodes : Encodes service.codec issued.1.scopes
unfolding split
toy-Encodes = record { nonempty = λ e. cc; unmarshal-marshal = refl }

abbrev issued_row : Row
issued_row = record {
  id = issued.1.id;
  tenant_id = issued.1.tenant_id;
  user_id = issued.1.user_id;
  name = issued.1.name;
  prefix = issued.1.prefix;
  hash = issued.1.hash;
  scopes = marshal issued.1.scopes;
  last_used_at = none;
  revoked_at = none;
  expires_at = issued.1.expires_at;
  created_at = 7;
}

older_keys :
    (x : Row)
    → In x two_keys.conn.rows
    → x.prefix ≡ issued.1.prefix
    → toy_verify issued.0 x.hash ≡ false
unfolding text_eq
older_keys x (inl e) p = rw e
older_keys x (inr (inl e)) p = rw e
older_keys x (inr (inr m)) p = elim m [ ]

lookup_issued : get_by_prefix issued.1.prefix after_issue.conn ≡ (
  ok (key (codes "t") (codes "1") ∷ key (codes "t") (codes "2") ∷ issued_row ∷ []),
  after_issue.conn,
)
unfolding issue prepare normalize_scopes refusal has generate encode_url create text_eq trim_space
    count_if split get_by_prefix filter
lookup_issued = refl

not_expired : past issued.1.expires_at 27 ≡ false
unfolding past
not_expired = refl

issued_key_verifies_example :
    (verify service 27 issued.0 after_issue).0 ≡ ok (record (issued.1) { last_used_at = some 27 })
issued_key_verifies_example =
    issued_key_verifies service (key_store-IsStore adapter adapter-Classifies) 7 draws (codes "t ")
      (codes "u") (codes "n") requested (pos 20) two_keys after_issue issued.0 issued.1 issue_key
      (λ bytes e. ground arith) toy-IsHasher toy-Encodes older_keys 27 not_expired
      (key (codes "t") (codes "1") ∷ key (codes "t") (codes "2") ∷ issued_row ∷ []) after_issue.conn
      lookup_issued

abbrev granted : List Text
granted = codes "users:read" ∷ codes "users:write" ∷ []

normalize_requested : normalize_scopes default_allowed_scopes requested ≡ ok granted
unfolding normalize_scopes refusal has text_eq trim_space
normalize_requested = refl

normalize_scopes_sound_example :
    IsResult default_allowed_scopes requested [] granted × (length granted ≤ 50)
normalize_scopes_sound_example =
    normalize_scopes_sound default_allowed_scopes requested granted normalize_requested

requested-IsGrantable : All (λ s. IsGrantable default_allowed_scopes (trim_space s)) requested
unfolding refusal has text_eq trim_space
requested-IsGrantable = (
  record { accepted = refl; listed = refl },
  (record { accepted = refl; listed = refl }, (record { accepted = refl; listed = refl }, tt)),
)

normalize_scopes_complete_example :
    (result : List Text) × (normalize_scopes default_allowed_scopes requested ≡ ok result)
normalize_scopes_complete_example =
    normalize_scopes_complete default_allowed_scopes requested (omega arith) requested-IsGrantable

-- A reserved scope is refused, whatever the vocabulary.
normalize_admin :
    normalize_scopes default_allowed_scopes (codes "admin" ∷ [])
    ≡ err (reserved_scope (codes "admin"))
unfolding normalize_scopes refusal has text_eq trim_space
normalize_admin = refl

abbrev catalog : List Text × List Text
catalog = elim (build_scope_catalog (codes "audit:read" ∷ codes "a:b " ∷ [])) [
  | ok c ↦ c
  | err e ↦ ([], [])
]

build_catalog :
    build_scope_catalog (codes "audit:read" ∷ codes "a:b " ∷ []) ≡ ok (catalog.0, catalog.1)
unfolding build_scope_catalog refusal has text_eq trim_space sort_by text_lt
build_catalog = refl

build_scope_catalog_sound_example :
    IsCatalog
      (default_allowed_scopes ++ codes "audit:read" ∷ codes "a:b " ∷ [])
      []
      catalog.0
      catalog.1
    × ((s : Text) → has catalog.0 s ≡ true → refusal s ≡ none)
build_scope_catalog_sound_example =
    build_scope_catalog_sound (codes "audit:read" ∷ codes "a:b " ∷ []) catalog.0 catalog.1
      build_catalog

list_two :
    list (codes "t") two_keys.conn
    ≡ (ok (key (codes "t") (codes "1") ∷ key (codes "t") (codes "2") ∷ []), two_keys.conn)
unfolding list filter text_eq sort_by
list_two = refl
