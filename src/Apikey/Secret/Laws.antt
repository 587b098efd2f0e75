-- ===== src/Apikey/Secret/Laws.antt =====
-- The shape of an encoded secret, and that a key's own text leads back to its stored prefix.
use pk_modules.Common.{ℕ, ◌≤◌, ◌≡◌, some, List, length, take, arith}
use pk_modules.Common.Text.{Text}
use pk_modules.Common.Text.{trim_space}
use pk_modules.Common.Base64.{encode_url, encode_url-IsGraphic}
use pk_modules.Common.Text.Trim.Laws.{trim_space-graphic}
use pk_modules.Apikey.Secret.{parse_prefix, plaintext_of}

-- Whatever its secret of at least 12 characters, the text of a key leads to the stored prefix.
pub parse_prefix-plaintext_of :
    (secret : Text)
    → 12 ≤ length secret
    → parse_prefix (plaintext_of secret) ≡ some (take 12 secret)
unfolding parse_prefix
parse_prefix-plaintext_of secret h = ground arith

-- The text of a key has no white space to trim.
pub trim_space-plaintext_of :
    (bytes : List ℕ)
    → trim_space (plaintext_of (encode_url bytes)) ≡ plaintext_of (encode_url bytes)
trim_space-plaintext_of bytes =
    trim_space-graphic (plaintext_of (encode_url bytes))
      (omega arith, (omega arith, (omega arith, encode_url-IsGraphic bytes)))
