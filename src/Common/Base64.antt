-- ===== src/Common/Base64.antt =====
-- encoding/base64: RawURLEncoding, the URL alphabet with no padding.
use Prim.Native.Nat.{ℕ, ◌+◌, ◌-◌, ◌*◌, ◌/◌, ◌%◌}
use mathlib.Core.Path.{◌≡◌, refl}
use mathlib.Core.List.{List, [], ◌∷◌}
use native.Mathlib.Omega.{arith}
use pk_modules.Common.Tests.{ltb, ◌==◌, if◌then◌else◌}
use pk_modules.Common.Lists.{length, All}
use pk_modules.Common.Text.{Text}
use pk_modules.Common.Text.Trim.Laws.{IsGraphic}

-- The URL alphabet: A-Z, a-z, 0-9, '-' and '_'.
unfoldable pub url_char : ℕ → ℕ
url_char n =
    if ltb n 26
    then n + 65
    else if ltb n 52
    then n + 71
    else if ltb n 62
    then n - 4
    else if n == 62
    then 45
    else 95

-- `base64.RawURLEncoding.EncodeToString`
unfoldable pub encode_url : List ℕ → Text
unfolding url_char
encode_url [] = []
encode_url (a ∷ []) = url_char (a / 4) ∷ url_char (a % 4 * 16) ∷ []
encode_url (a ∷ b ∷ []) =
    url_char (a / 4) ∷ url_char (a % 4 * 16 + b / 16) ∷ url_char (b % 16 * 4) ∷ []
encode_url (a ∷ b ∷ c ∷ rest) =
    url_char (a / 4)
    ∷ url_char (a % 4 * 16 + b / 16)
    ∷ url_char (b % 16 * 4 + c / 64)
    ∷ url_char (c % 64)
    ∷ encode_url rest

url_char-IsGraphic : (n : ℕ) → IsGraphic (url_char n)
unfolding url_char
url_char-IsGraphic n = ground arith

pub encode_url-IsGraphic : (bytes : List ℕ) → All IsGraphic (encode_url bytes)
unfolding encode_url
encode_url-IsGraphic [] = tt
encode_url-IsGraphic (a ∷ []) = (url_char-IsGraphic (a / 4), (url_char-IsGraphic (a % 4 * 16), tt))
encode_url-IsGraphic (a ∷ b ∷ []) = (
  url_char-IsGraphic (a / 4),
  (url_char-IsGraphic (a % 4 * 16 + b / 16), (url_char-IsGraphic (b % 16 * 4), tt)),
)
encode_url-IsGraphic (a ∷ b ∷ c ∷ rest) = (
  url_char-IsGraphic (a / 4),
  (
    url_char-IsGraphic (a % 4 * 16 + b / 16),
    (
      url_char-IsGraphic (b % 16 * 4 + c / 64),
      (url_char-IsGraphic (c % 64), encode_url-IsGraphic rest),
    ),
  ),
)

-- The encoding of n bytes is the rounded-up 4n / 3 characters long: 43 for a secret, 16 for an id.
pub length-encode_url : (bytes : List ℕ) → length (encode_url bytes) ≡ (length bytes * 4 + 2) / 3
unfolding encode_url
length-encode_url [] = refl
length-encode_url (a ∷ []) = refl
length-encode_url (a ∷ b ∷ []) = refl
length-encode_url (a ∷ b ∷ c ∷ rest) = omega (arith, length-encode_url rest)
