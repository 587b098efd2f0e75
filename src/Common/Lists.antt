-- ===== src/Common/Lists.antt =====
-- Lists measured by native numbers, membership by recursion, and the list work of a query: the
-- rows that pass a test, an update in place, a sort.
use Prim.Native.Nat.{ℕ, zero, suc}
use mathlib.Core.Path.{◌≡◌, refl}
use mathlib.Core.Logic.{◌↔◌, ◌⊎◌, inl, inr}
use mathlib.Core.Bool.{Bool, true, false}
use mathlib.Core.Option.{Option, none, some}
use mathlib.Core.List.{List, [], ◌∷◌, ◌++◌}
use native.Mathlib.Omega.{arith}
use pk_modules.Common.Tests.{if◌then◌else◌, Bool-cases}

module _ {A : Type 0} where
  abbrev pub length : List A → ℕ
  length [] = 0
  length (x ∷ xs) = suc (length xs)

  abbrev pub take : ℕ → List A → List A
  take zero xs = []
  take (suc n) [] = []
  take (suc n) (x ∷ xs) = x ∷ take n xs

  abbrev pub drop : ℕ → List A → List A
  drop zero xs = xs
  drop (suc n) [] = []
  drop (suc n) (x ∷ xs) = drop n xs

  -- Membership by recursion, and a property of every member.
  abbrev pub In : A → List A → Type 0
  In a [] = ⊥
  In a (x ∷ xs) = (a ≡ x) ⊎ In a xs

  abbrev pub All : (A → Type 0) → List A → Type 0
  All P [] = Unit
  All P (x ∷ xs) = P x × All P xs

  -- The rows that pass a test, in order, and the first of them.
  unfoldable pub filter : (A → Bool) → List A → List A
  filter p [] = []
  filter p (x ∷ xs) = let rest = filter p xs in if p x then x ∷ rest else rest

  unfoldable pub find : (A → Bool) → List A → Option A
  find p [] = none
  find p (x ∷ xs) = if p x then some x else find p xs

  -- How many rows pass, and the list in which each of them is changed.
  unfoldable pub count_if : (A → Bool) → List A → ℕ
  count_if p [] = 0
  count_if p (x ∷ xs) = let rest = count_if p xs in if p x then suc rest else rest

  unfoldable pub map_if : (A → Bool) → (A → A) → List A → List A
  map_if p f [] = []
  map_if p f (x ∷ xs) = (if p x then f x else x) ∷ map_if p f xs

  pub All-at : (P : A → Type 0) (a : A) (xs : List A) → In a xs → All P xs → P a
  All-at P a [] m h = elim m [ ]
  All-at P a (x ∷ xs) (inl e) h = rw e h.0
  All-at P a (x ∷ xs) (inr m) h = All-at P a xs m h.1

  pub All-tabulate : {P : A → Type 0} (xs : List A) → ((a : A) → In a xs → P a) → All P xs
  All-tabulate [] f = tt
  All-tabulate (x ∷ xs) f = (f x (inl refl), All-tabulate xs (λ a m. f a (inr m)))

  pub All-snoc : (P : A → Type 0) (xs : List A) (a : A) → All P xs → P a → All P (xs ++ a ∷ [])
  All-snoc P [] a h k = (k, tt)
  All-snoc P (x ∷ xs) a h k = (h.0, All-snoc P xs a h.1 k)

  pub In-append_left : (a : A) (xs ys : List A) → In a xs → In a (xs ++ ys)
  In-append_left a [] ys m = elim m [ ]
  In-append_left a (x ∷ xs) ys (inl e) = inl e
  In-append_left a (x ∷ xs) ys (inr m) = inr (In-append_left a xs ys m)

  pub In-append_right : (a : A) (xs ys : List A) → In a ys → In a (xs ++ ys)
  In-append_right a [] ys m = m
  In-append_right a (x ∷ xs) ys m = inr (In-append_right a xs ys m)

  pub In-append-cases : (a : A) (xs ys : List A) → In a (xs ++ ys) → In a xs ⊎ In a ys
  In-append-cases a [] ys m = inr m
  In-append-cases a (x ∷ xs) ys (inl e) = inl (inl e)
  In-append-cases a (x ∷ xs) ys (inr m) = elim (In-append-cases a xs ys m) [
    | inl l ↦ inl (inr l)
    | inr r ↦ inr r
  ]

  pub In-snoc : (xs : List A) (b a : A) → In a (xs ++ b ∷ []) ↔ (In a xs ⊎ (a ≡ b))
  In-snoc xs b a = (
    λ m. elim (In-append-cases a xs (b ∷ []) m) [
      | inl i ↦ inl i
      | inr (inl e) ↦ inr e
      | inr (inr n) ↦ elim n [ ]
    ],
    elim [ inl i ↦ In-append_left a xs (b ∷ []) i | inr e ↦ In-append_right a xs (b ∷ []) (inl e) ],
  )

  -- A row is in the filtered list exactly when it is in the list and passes the test.
  pub In-filter : (a : A) (p : A → Bool) (xs : List A) → In a (filter p xs) → In a xs × (p a ≡ true)
  unfolding filter
  In-filter a p [] m = elim m [ ]
  In-filter a p (x ∷ xs) m = elim (Bool-cases (p x)) [
    | inl e ↦ elim (rw e at m) [
      | inl here ↦ (inl here, rw here e)
      | inr m' ↦ let (i, q) = In-filter a p xs m' in (inr i, q)
    ]
    | inr e ↦ let (i, q) = In-filter a p xs (rw e at m) in (inr i, q)
  ]

  pub filter-In : (a : A) (p : A → Bool) (xs : List A) → In a xs → p a ≡ true → In a (filter p xs)
  unfolding filter
  filter-In a p [] m h = elim m [ ]
  filter-In a p (x ∷ xs) (inl here) h = rw (← here, h) (inl refl)
  filter-In a p (x ∷ xs) (inr m) h = elim (Bool-cases (p x)) [
    | inl e ↦ rw e (inr (filter-In a p xs m h))
    | inr e ↦ rw e (filter-In a p xs m h)
  ]

  -- The row found is in the list and passes; where none is found, none passes.
  pub find-In : (p : A → Bool) (xs : List A) (a : A) → find p xs ≡ some a → In a xs × (p a ≡ true)
  unfolding find
  find-In p [] a h = absurd (cc)
  find-In p (x ∷ xs) a h = elim (Bool-cases (p x)) [
    | inl e ↦ (inl (ground arith), ground arith)
    | inr e ↦ let (i, q) = find-In p xs a (ground arith) in (inr i, q)
  ]

  pub find-none : (p : A → Bool) (xs : List A) (a : A) → find p xs ≡ none → In a xs → p a ≡ false
  unfolding find
  find-none p [] a h m = elim m [ ]
  find-none p (x ∷ xs) a h (inl here) = rw here (ground arith)
  find-none p (x ∷ xs) a h (inr m) = find-none p xs a (ground arith) m

  -- An update touches a row exactly when the row passes.
  pub map_if-In :
      (p : A → Bool) (f : A → A) (xs : List A) (a : A)
      → In a xs
      → In (if p a then f a else a) (map_if p f xs)
  unfolding map_if
  map_if-In p f [] a m = elim m [ ]
  map_if-In p f (x ∷ xs) a (inl here) = inl (rw here)
  map_if-In p f (x ∷ xs) a (inr m) = inr (map_if-In p f xs a m)

  pub In-map_if :
      (p : A → Bool) (f : A → A) (xs : List A) (b : A)
      → In b (map_if p f xs)
      → (a : A) × In a xs × (b ≡ (if p a then f a else a))
  unfolding map_if
  In-map_if p f [] b m = elim m [ ]
  In-map_if p f (x ∷ xs) b (inl here) = (x, inl refl, here)
  In-map_if p f (x ∷ xs) b (inr m) = let (a, i, e) = In-map_if p f xs b m in (a, inr i, e)

  pub map_if-count_zero :
      (p : A → Bool) (f : A → A) (xs : List A) → count_if p xs ≡ 0 → map_if p f xs ≡ xs
  unfolding map_if count_if
  map_if-count_zero p f [] h = refl
  map_if-count_zero p f (x ∷ xs) h = ground (arith, map_if-count_zero p f xs)

  pub count_if-In : (p : A → Bool) (xs : List A) (a : A) → count_if p xs ≡ 0 → In a xs → p a ≡ false
  unfolding count_if
  count_if-In p [] a h m = elim m [ ]
  count_if-In p (x ∷ xs) a h (inl here) = rw here (ground arith)
  count_if-In p (x ∷ xs) a h (inr m) = count_if-In p xs a (ground arith) m
