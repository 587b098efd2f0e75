-- ===== src/Common/Text/Trim/Laws.antt =====
-- TrimSpace leaves printable ASCII without spaces as it is.
use pk_modules.Common.Lists.{All, All-snoc}
use pk_modules.Common.Text.Trim.{front_space, back_space, strip, trim_space}
use Prim.Native.Nat.{ℕ, ◌≤◌}
use mathlib.Core.Path.{◌≡◌, refl}
use mathlib.Core.List.{List, [], ◌∷◌, reverse, reverse-reverse, reverse-append}
use native.Mathlib.Omega.{arith}

-- A printable ASCII byte other than the space.
abbrev pub IsGraphic : ℕ → Type 0
IsGraphic c = (33 ≤ c) × (c ≤ 126)

front_space-graphic : (c : ℕ) (s : List ℕ) → IsGraphic c → front_space (c ∷ s) ≡ 0
unfolding front_space
front_space-graphic c [] h = ground arith
front_space-graphic c (b ∷ []) h = ground arith
front_space-graphic c (b ∷ a ∷ s) h = ground arith

back_space-graphic : (c : ℕ) (s : List ℕ) → IsGraphic c → back_space (c ∷ s) ≡ 0
unfolding back_space
back_space-graphic c [] h = ground arith
back_space-graphic c (b ∷ []) h = ground arith
back_space-graphic c (b ∷ a ∷ s) h = ground arith

strip-graphic :
    (width : List ℕ → ℕ)
    → ((c : ℕ) (s : List ℕ) → IsGraphic c → width (c ∷ s) ≡ 0)
    → (s : List ℕ) → All IsGraphic s
    → strip width 0 s ≡ s
unfolding strip
strip-graphic width none [] h = refl
strip-graphic width none (c ∷ s) h = rw (none c s h.0, strip)

All-reverse : (P : ℕ → Type 0) (s : List ℕ) → All P s → All P (reverse s)
All-reverse P [] h = tt
All-reverse P (c ∷ s) h =
    rw (reverse-append (c ∷ []) s) (All-snoc P (reverse s) c (All-reverse P s h.1) h.0)

pub trim_space-graphic : (s : List ℕ) → All IsGraphic s → trim_space s ≡ s
unfolding trim_space
trim_space-graphic s h =
    rw
      (
        strip-graphic front_space front_space-graphic s h,
        strip-graphic back_space back_space-graphic (reverse s) (All-reverse IsGraphic s h),
      )
      (reverse-reverse s)
