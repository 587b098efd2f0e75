-- ===== src/Common/Text.antt =====
-- Go strings as lists of bytes, and what the program uses of package strings: equality, `<`,
-- HasPrefix, Contains, ToLower on ASCII, and TrimSpace with every white-space rune of Unicode.
pub mod Equality
pub mod Trim
unfoldable pub use Equality.{text_eq, text_lt}
pub use Equality.{
  text_eq_iff, text_eq_refl, text_lt_total, text_lt_irrefl, text_lt_trans, text_lt_asym,
  text_lt_neg_trans,
}
unfoldable pub use Trim.{trim_space, is_blank}
use Prim.Native.Char.{code}
use Prim.Native.String.{String}
use pk_modules.Common.Tests.{leb, ◌==◌, if◌then◌else◌}
use Prim.Native.Nat.{ℕ, ◌+◌}
use mathlib.Core.Bool.{Bool, true, false, ◌&&◌, ◌||◌}
use mathlib.Core.List.{List, [], ◌∷◌, map}

abbrev pub Text : Type 0
Text = List ℕ

-- The bytes of a literal; all the literals of the program are ASCII.
abbrev pub codes : String → Text
codes String.[] = []
codes (String.◌∷◌ c s) = code c ∷ codes s

-- `strings.HasPrefix(s, prefix)`
unfoldable pub has_prefix : Text → Text → Bool
has_prefix s [] = true
has_prefix [] (p ∷ prefix) = false
has_prefix (c ∷ s) (p ∷ prefix) = (c == p) && has_prefix s prefix

-- `strings.Contains(s, sub)`
unfoldable pub contains : Text → Text → Bool
unfolding has_prefix
contains [] sub = has_prefix [] sub
contains (c ∷ s) sub = has_prefix (c ∷ s) sub || contains s sub

-- `strings.ToLower` on ASCII text
unfoldable pub to_lower : Text → Text
to_lower = map (λ c. if leb 65 c && leb c 90 then c + 32 else c)
