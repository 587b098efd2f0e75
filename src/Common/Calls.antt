-- ===== src/Common/Calls.antt =====
-- Go calls that change state and may return an error: the state comes back beside the error too.
use mathlib.Core.Path.{◌≡◌, refl}
use mathlib.Core.Logic.{◌⊎◌, inl, inr}
use mathlib.Core.Bool.{Bool, true, false}
use mathlib.Core.Option.{Option, none, some}

pub data Result (E A : Type 0) : Type 0 where
  ok : A → Result E A
  err : E → Result E A

abbrev pub Action : Type 0 → Type 0 → Type 0 → Type 0
Action E S A = S → Result E A × S

module _ {E S A : Type 0} where
  abbrev pub pure : A → Action E S A
  pure a s = (ok a, s)

  abbrev pub raise : E → Action E S A
  raise e s = (err e, s)

  -- A pure call that may return an error.
  abbrev pub lift : Result E A → Action E S A
  lift r s = (r, s)

  -- A comma-ok value, or a nilable one, with the error for its absence.
  abbrev pub or_raise : Option A → E → Action E S A
  or_raise o e s = (elim o [ none ↦ err e | some a ↦ ok a ], s)

-- `if failing { return err }`
abbrev pub raise_if : {E S : Type 0} → Bool → E → Action E S (Unit {0})
raise_if c e s = (elim c [ true ↦ err e | false ↦ ok tt ], s)

-- What follows a call: the next call, or the error and the state that it left.
abbrev pub proceed : {E S A B : Type 0} → (A → Action E S B) → Result E A → Action E S B
proceed f (ok a) s = f a s
proceed f (err e) s = (err e, s)

infixl 5 ◌>>=◌ ◌>>◌
abbrev pub ◌>>=◌ : {E S A B : Type 0} → Action E S A → (A → Action E S B) → Action E S B
◌>>=◌ m f s = let (r, s') = m s in proceed f r s'

abbrev pub ◌>>◌ : {E S A B : Type 0} → Action E S A → Action E S B → Action E S B
m >> k = m >>= λ _. k

-- A sequence that returned: its first part returned, and then the rest.
pub bind_ok :
    {E S A B : Type 0} (m : Action E S A) (f : A → Action E S B) (s s' : S) {b : B}
    → (m >>= f) s ≡ (ok b, s')
    → (a : A) × (t : S) × (m s ≡ (ok a, t)) × (f a t ≡ (ok b, s'))
bind_ok {E = E} {S = S} {A = A} m f s s' {b = b} h = go (m s).0 (m s).1 refl h
  where
    go :
        (r : Result E A) (t : S)
        → m s ≡ (r, t)
        → proceed f r t ≡ (ok b, s')
        → (a : A) × (t : S) × (m s ≡ (ok a, t)) × (f a t ≡ (ok b, s'))
    go (ok a) t e k = (a, t, e, k)
    go (err x) t e k = absurd (cc)

-- What the first part leaves true, and every call of the rest keeps, holds at the end.
pub bind_keeps :
    {E S A B : Type 0} (P : S → Type 0) (m : Action E S A) (f : A → Action E S B) (s : S)
    → P (m s).1
    → ((a : A) (t : S) → P t → P (f a t).1)
    → P ((m >>= f) s).1
bind_keeps {E = E} {S = S} {A = A} P m f s h k = go (m s).0 (m s).1 h
  where
    go : (r : Result E A) (t : S) → P t → P (proceed f r t).1
    go (ok a) t p = k a t p
    go (err e) t p = p

pub Result-cases :
    {E A : Type 0} (r : Result E A) → ((a : A) × (r ≡ ok a)) ⊎ ((e : E) × (r ≡ err e))
Result-cases (ok a) = inl (a, refl)
Result-cases (err e) = inr (e, refl)
