-- ===== src/Apikey/Secret.antt =====
-- The random parts of pkg/apikey/service.go: generateSecret, generateID and
-- parsePrefix. A read of crypto/rand is a value: none for its error, else the bytes.
pub mod Laws
use pk_modules.Common.{
  ℕ, ◌+◌, ◌-◌, ◌*◌, ◌/◌, ◌%◌, Option, none, some, List, [], ◌∷◌, ◌++◌, Result, ok, err,
  if◌then◌else◌, ltb, ◌==◌, length, take, drop,
}
use pk_modules.Common.Base64.{encode_url}
use pk_modules.Common.Text.{Text, codes, has_prefix}
use pk_modules.Apikey.{Error, generate_failed, key_prefix}

-- `generateSecret` of 32 bytes and `generateID` of 12
unfoldable pub generate : Option (List ℕ) → Result Error Text
generate none = err generate_failed
generate (some bytes) = ok (encode_url bytes)

-- `KeyPrefix + "_"`
abbrev pub layout : Text
layout = key_prefix ++ codes "_"

-- `KeyPrefix + "_" + secret`
abbrev pub plaintext_of : Text → Text
plaintext_of secret = layout ++ secret

unfoldable pub parse_prefix : Text → Option Text
unfolding has_prefix
parse_prefix plaintext =
    if has_prefix plaintext layout
    then (let secret = drop (length layout) plaintext in
        if ltb (length secret) 12 then none else some (take 12 secret))
    else none
