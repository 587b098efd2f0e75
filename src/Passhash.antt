-- ===== src/Passhash.antt =====
-- `passhash.Hasher` of pk-core, which the services take as a parameter: its operations, and the
-- documented behaviour that some results rely on.
use pk_modules.Common.{ℕ, ◌≡◌, Bool, true, false, Option, some, []}
use pk_modules.Common.Text.{Text, text_eq}

-- The salt is the hasher's randomness; `hash` fails as none.
pub record Hasher : Type 0 where
  pub hash : ℕ → Text → Option Text
  pub verify : Text → Text → Bool

-- A hash verifies the text that it was made from, and is not empty.
pub record IsHasher (h : Hasher) : Type 0 where
  pub verify-hash : (salt : ℕ) (p x : Text) → h.hash salt p ≡ some x → h.verify p x ≡ true
  pub nonempty : (salt : ℕ) (p x : Text) → h.hash salt p ≡ some x → text_eq x [] ≡ false
