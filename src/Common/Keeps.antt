-- ===== src/Common/Keeps.antt =====
-- Calls that keep a property of the state, whatever they return.
use mathlib.Core.Path.{◌≡◌, refl}
use mathlib.Core.Bool.{Bool, true, false}
use mathlib.Core.Option.{Option, none, some}
use pk_modules.Common.Tests.{if◌then◌else◌}
use pk_modules.Common.Calls.{
  Result, ok, err, Action, lift, raise_if, or_raise, ◌>>=◌, ◌>>◌, bind_keeps,
}

module _ {S : Type 0} (P : S → Type 0) where
  abbrev pub Keeps : {E A : Type 0} → Action E S A → Type 0
  Keeps m = (s : S) → P s → P (m s).1

  pub Keeps-bind :
      {E A B : Type 0} (m : Action E S A) (f : A → Action E S B)
      → Keeps m
      → ((a : A) → Keeps (f a))
      → Keeps (m >>= f)
  Keeps-bind m f h k s p = bind_keeps P m f s (h s p) k

  -- What follows a pure call runs on what it returned.
  pub Keeps-lift :
      {E A B : Type 0} (r : Result E A) (f : A → Action E S B)
      → ((a : A) → r ≡ ok a → Keeps (f a))
      → Keeps (lift r >>= f)
  Keeps-lift (ok a) f k s p = k a refl s p
  Keeps-lift (err e) f k s p = p

  pub Keeps-or_raise :
      {E A B : Type 0} (o : Option A) (e : E) (f : A → Action E S B)
      → ((a : A) → o ≡ some a → Keeps (f a))
      → Keeps (or_raise o e >>= f)
  Keeps-or_raise none e f k s p = p
  Keeps-or_raise (some a) e f k s p = k a refl s p

  pub Keeps-raise_if :
      {E B : Type 0} (c : Bool) (e : E) (m : Action E S B)
      → (c ≡ false → Keeps m)
      → Keeps (raise_if c e >> m)
  Keeps-raise_if true e m k s p = p
  Keeps-raise_if false e m k s p = k refl s p

  pub Keeps-if :
      {E A : Type 0} (c : Bool) (m k : Action E S A)
      → Keeps m
      → Keeps k
      → Keeps (if c then m else k)
  Keeps-if true m k h g s p = h s p
  Keeps-if false m k h g s p = g s p
