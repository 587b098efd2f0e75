-- ===== src/Common/Text/Trim.antt =====
-- `strings.TrimSpace`: the white-space runes of unicode.IsSpace, as their UTF-8 bytes.
pub mod Laws
use pk_modules.Common.Tests.{leb, ◌==◌, if◌then◌else◌}
use Prim.Native.Nat.{ℕ, zero, suc}
use mathlib.Core.Path.{◌≡◌, refl}
use mathlib.Core.Bool.{Bool, true, false, ◌&&◌, ◌||◌}
use mathlib.Core.List.{List, [], ◌∷◌, reverse}

-- U+0009 to U+000D and U+0020
is_space1 : ℕ → Bool
is_space1 a = (leb 9 a && leb a 13) || (a == 32)

-- U+0085 and U+00A0
is_space2 : ℕ → ℕ → Bool
is_space2 a b = (a == 0xc2) && ((b == 0x85) || (b == 0xa0))

-- U+1680, U+2000 to U+200A, U+2028, U+2029, U+202F, U+205F and U+3000
is_space3 : ℕ → ℕ → ℕ → Bool
is_space3 a b c =
    ((a == 0xe1) && ((b == 0x9a) && (c == 0x80)))
    || (((a == 0xe2)
          && (((b == 0x80)
                && ((leb 0x80 c && leb c 0x8a) || ((c == 0xa8) || ((c == 0xa9) || (c == 0xaf)))))
              || ((b == 0x81) && (c == 0x9f))))
        || ((a == 0xe3) && ((b == 0x80) && (c == 0x80))))

-- How many bytes the white-space rune at the front takes, 0 if none stands there.
front_space : List ℕ → ℕ
unfolding is_space1 is_space2 is_space3
front_space [] = 0
front_space (a ∷ []) = if is_space1 a then 1 else 0
front_space (a ∷ b ∷ []) = if is_space1 a then 1 else if is_space2 a b then 2 else 0
front_space (a ∷ b ∷ c ∷ s) =
    if is_space1 a then 1 else if is_space2 a b then 2 else if is_space3 a b c then 3 else 0

-- The same at the back of a text that is given in reverse.
back_space : List ℕ → ℕ
unfolding is_space1 is_space2 is_space3
back_space [] = 0
back_space (a ∷ []) = if is_space1 a then 1 else 0
back_space (b ∷ a ∷ []) = if is_space1 b then 1 else if is_space2 a b then 2 else 0
back_space (c ∷ b ∷ a ∷ s) =
    if is_space1 c then 1 else if is_space2 b c then 2 else if is_space3 a b c then 3 else 0

-- Drops `skip` bytes, then every rune that `width` finds at the front.
strip : (List ℕ → ℕ) → ℕ → List ℕ → List ℕ
strip width skip [] = []
strip width (suc skip) (c ∷ s) = strip width skip s
strip width zero (c ∷ s) = elim (width (c ∷ s)) [ zero ↦ c ∷ s | suc skip ↦ strip width skip s ]

unfoldable pub trim_space : List ℕ → List ℕ
unfolding strip front_space back_space
trim_space s = reverse (strip back_space 0 (reverse (strip front_space 0 s)))

-- `strings.TrimSpace(s) == ""`
unfoldable pub is_blank : List ℕ → Bool
unfolding trim_space
is_blank s = elim (trim_space s) [ [] ↦ true | _ ∷ _ ↦ false ]

trim_space_tabs :
    trim_space (9 ∷ 0xe2 ∷ 0x80 ∷ 0xa8 ∷ 65 ∷ 32 ∷ 66 ∷ 0xc2 ∷ 0xa0 ∷ 10 ∷ []) ≡ 65 ∷ 32 ∷ 66 ∷ []
unfolding trim_space
trim_space_tabs = refl
