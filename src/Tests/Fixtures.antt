-- ===== src/Tests/Fixtures.antt =====
-- A driver with SQLite's messages, a toy hasher and a toy codec, and small tables.
use pk_modules.Common.{
  arith, ℕ, zero, suc, Bool, Option, none, some, List, [], ◌∷◌, ◌++◌, if◌then◌else◌, ◌==◌,
}
use pk_modules.Common.Text.{Text, codes, text_eq, text_eq_refl}
use pk_modules.Sql.{Driver}
use pk_modules.Passhash.{Hasher, IsHasher}

-- The last of a list of texts.
unfoldable pub last_of : List Text → Text
last_of [] = []
last_of (t ∷ ts) = let rest = last_of ts in elim ts [ [] ↦ t | _ ∷ _ ↦ rest ]

-- SQLite's text for a violated constraint.
abbrev pub driver : Driver
driver = record {
  violation = λ column. codes "UNIQUE constraint failed: " ++ column;
  reported = last_of;
}

-- Hashes are marked with a bang.
abbrev pub toy_hash : ℕ → Text → Option Text
toy_hash salt p = some (33 ∷ p)

abbrev pub toy_verify : Text → Text → Bool
toy_verify p h = text_eq (33 ∷ p) h

abbrev pub toy_hasher : Hasher
toy_hasher = record { hash = toy_hash; verify = toy_verify }

pub toy-IsHasher : IsHasher toy_hasher
unfolding text_eq
toy-IsHasher = record {
  verify-hash = λ salt p x e. ground (arith, text_eq_refl (33 ∷ p));
  nonempty = λ salt p x e. ground arith;
}

-- A list of texts as its members, each ended by a comma, after a bracket.
abbrev pub join : List Text → Text
join [] = []
join (t ∷ l) = t ++ 44 ∷ join l

abbrev pub marshal : List Text → Text
marshal l = 91 ∷ join l

unfoldable pub split : Text → Text → List Text
split acc [] = []
split acc (c ∷ t) =
    let rest = split [] t in
    let more = split (acc ++ c ∷ []) t in if c == 44 then acc ∷ rest else more

abbrev pub unmarshal : Text → Option (List Text)
unmarshal [] = none
unmarshal (c ∷ t) = if c == 91 then some (split [] t) else none

-- 32 and 12 zero bytes, as draws of crypto/rand.
abbrev pub zeros : ℕ → List ℕ
zeros zero = []
zeros (suc n) = 0 ∷ zeros n
