-- ===== src/Common/Text/Equality.antt =====
-- `==` and `<` of Go strings, byte by byte.
use pk_modules.Common.Tests.{◌==◌, ltb, Bool-cases}
use Prim.Native.Nat.{ℕ}
use mathlib.Core.Path.{◌≡◌, refl}
use mathlib.Core.Logic.{◌↔◌, inl, inr}
use mathlib.Core.Bool.{Bool, true, false, ◌&&◌, ◌||◌}
use mathlib.Core.List.{List, [], ◌∷◌}
use native.Mathlib.Omega.{arith}

unfoldable pub text_eq : List ℕ → List ℕ → Bool
text_eq [] [] = true
text_eq [] (c ∷ t) = false
text_eq (c ∷ s) [] = false
text_eq (c ∷ s) (d ∷ t) = (c == d) && text_eq s t

-- `s < t`, the order of the bytes
unfoldable pub text_lt : List ℕ → List ℕ → Bool
text_lt s [] = false
text_lt [] (d ∷ t) = true
text_lt (c ∷ s) (d ∷ t) = ltb c d || ((c == d) && text_lt s t)

pub text_eq_refl : (s : List ℕ) → text_eq s s ≡ true
unfolding text_eq
text_eq_refl [] = refl
text_eq_refl (c ∷ s) = ground (arith, text_eq_refl s)

eq-of-text_eq : (s t : List ℕ) → text_eq s t ≡ true → s ≡ t
unfolding text_eq
eq-of-text_eq [] [] h = refl
eq-of-text_eq [] (c ∷ t) h = ground arith
eq-of-text_eq (c ∷ s) [] h = ground arith
eq-of-text_eq (c ∷ s) (d ∷ t) h = ground (arith, eq-of-text_eq s t)

pub text_eq_iff : (s t : List ℕ) → (text_eq s t ≡ true) ↔ (s ≡ t)
text_eq_iff s t = (eq-of-text_eq s t, λ e. rw e (text_eq_refl t))

-- The order is total: of two texts that differ one is below the other.
pub text_lt_total : (s t : List ℕ) → text_lt s t ≡ false → text_lt t s ≡ false → s ≡ t
unfolding text_lt
text_lt_total [] [] h k = refl
text_lt_total [] (d ∷ t) h k = ground arith
text_lt_total (c ∷ s) [] h k = ground arith
text_lt_total (c ∷ s) (d ∷ t) h k = ground (arith, text_lt_total s t)

pub text_lt_irrefl : (s : List ℕ) → text_lt s s ≡ false
unfolding text_lt
text_lt_irrefl [] = refl
text_lt_irrefl (c ∷ s) = ground (arith, text_lt_irrefl s)

pub text_lt_trans : (s t u : List ℕ) → text_lt s t ≡ true → text_lt t u ≡ true → text_lt s u ≡ true
unfolding text_lt
text_lt_trans s t [] h k = ground arith
text_lt_trans s [] (e ∷ u) h k = ground arith
text_lt_trans [] (d ∷ t) (e ∷ u) h k = refl
text_lt_trans (c ∷ s) (d ∷ t) (e ∷ u) h k = ground (arith, text_lt_trans s t u)

pub text_lt_asym : (s t : List ℕ) → text_lt s t ≡ true → text_lt t s ≡ false
text_lt_asym s t h = elim (Bool-cases (text_lt t s)) [
  | inl k ↦ ground (arith, text_lt_trans s t s h k, text_lt_irrefl s)
  | inr k ↦ k
]

pub text_lt_neg_trans :
    (s t u : List ℕ) → text_lt s t ≡ false → text_lt t u ≡ false → text_lt s u ≡ false
text_lt_neg_trans s t u h k = elim (Bool-cases (text_lt s u)) [
  | inr e ↦ e
  | inl e ↦ elim (Bool-cases (text_lt t s)) [
    | inl l ↦ ground (arith, text_lt_trans t s u l e)
    | inr l ↦ let same = text_lt_total s t h l in ground (arith, same)
  ]
]
