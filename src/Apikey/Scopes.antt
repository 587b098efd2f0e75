-- ===== src/Apikey/Scopes.antt =====
-- The scope vocabulary of pkg/apikey/service.go: buildScopeCatalog and normalizeScopes.
mod Sets
pub mod Catalog
pub mod Normalize
use pk_modules.Common.{
  ℕ, Bool, true, false, ◌||◌, Option, none, some, List, [], ◌∷◌, ◌++◌, Result, ok, err,
  if◌then◌else◌, ltb, length, sort_by,
}
use pk_modules.Common.Text.{Text, codes, trim_space, text_eq, text_lt}
use pk_modules.Apikey.{
  Error, too_many_scopes, empty_scope, long_scope, reserved_scope, unknown_scope,
}

-- `_, ok := m[s]` on a map that is used as a set
unfoldable pub has : List Text → Text → Bool
has [] s = false
has (t ∷ set) s = text_eq t s || has set s

abbrev pub reserved_scopes : List Text
reserved_scopes = codes "admin" ∷ codes "console:access" ∷ []

abbrev pub default_allowed_scopes : List Text
default_allowed_scopes =
    codes "api-keys:read"
    ∷ codes "api-keys:write"
    ∷ codes "audit:read"
    ∷ codes "content:read"
    ∷ codes "content:write"
    ∷ codes "metrics:read"
    ∷ codes "notifications:read"
    ∷ codes "notifications:write"
    ∷ codes "tenants:read"
    ∷ codes "tenants:write"
    ∷ codes "users:read"
    ∷ codes "users:write"
    ∷ []

-- The three checks that both loops begin with, on a trimmed scope.
unfoldable pub refusal : Text → Option Error
refusal scope =
    if text_eq scope []
    then some empty_scope
    else if ltb 100 (length scope)
    then some long_scope
    else if has reserved_scopes scope
    then some (reserved_scope scope)
    else none

-- The map `allowed` and the slice `canonical` of the scopes read so far.
unfoldable pub catalog_loop :
    List Text → List Text → List Text → Result Error (List Text × List Text)
catalog_loop [] allowed canonical = ok (allowed, sort_by text_lt canonical)
catalog_loop (name ∷ names) allowed canonical =
    let scope = trim_space name in
    let again = catalog_loop names allowed canonical in
    let added = catalog_loop names (scope ∷ allowed) (canonical ++ scope ∷ []) in
    elim (refusal scope) [ some e ↦ err e | none ↦ if has allowed scope then again else added ]

unfoldable pub build_scope_catalog : List Text → Result Error (List Text × List Text)
unfolding catalog_loop
build_scope_catalog additional = catalog_loop (default_allowed_scopes ++ additional) [] []

-- `seen` and `out` of the loop over the requested scopes
unfoldable pub normalize_loop :
    List Text → List Text → List Text → List Text → Result Error (List Text)
normalize_loop allowed [] seen out = ok out
normalize_loop allowed (s ∷ scopes) seen out =
    let scope = trim_space s in
    let again = normalize_loop allowed scopes seen out in
    let added = normalize_loop allowed scopes (scope ∷ seen) (out ++ scope ∷ []) in
    elim (refusal scope) [
      | some e ↦ err e
      | none ↦
          if has allowed scope
          then (if has seen scope then again else added)
          else err (unknown_scope scope)
    ]

unfoldable pub normalize_scopes : List Text → List Text → Result Error (List Text)
unfolding normalize_loop
normalize_scopes allowed scopes =
    if ltb 50 (length scopes) then err too_many_scopes else normalize_loop allowed scopes [] []
