-- ===== src/Common/Sorting.antt =====
-- `ORDER BY`, slices.Sort and sort.Strings: a stable insertion sort, its members and its order.
use mathlib.Core.Path.{◌≡◌}
use mathlib.Core.Logic.{◌⊎◌, inl, inr}
use mathlib.Core.Bool.{Bool, true, false}
use mathlib.Core.List.{List, [], ◌∷◌}
use pk_modules.Common.Tests.{if◌then◌else◌, Bool-cases}
use pk_modules.Common.Lists.{In, All}

module _ {A : Type 0} where
  -- `before` says which comes strictly before.
  unfoldable pub insert_by : (A → A → Bool) → A → List A → List A
  insert_by before x [] = x ∷ []
  insert_by before x (y ∷ ys) = if before y x then y ∷ insert_by before x ys else x ∷ y ∷ ys

  unfoldable pub sort_by : (A → A → Bool) → List A → List A
  unfolding insert_by
  sort_by before [] = []
  sort_by before (x ∷ xs) = insert_by before x (sort_by before xs)

  pub In-insert_by :
      (before : A → A → Bool) (x : A) (ys : List A) (a : A)
      → In a (insert_by before x ys)
      → (a ≡ x) ⊎ In a ys
  unfolding insert_by
  In-insert_by before x [] a m = m
  In-insert_by before x (y ∷ ys) a m = elim (Bool-cases (before y x)) [
    | inl e ↦ elim (rw e at m) [
      | inl here ↦ inr (inl here)
      | inr m' ↦ elim (In-insert_by before x ys a m') [ inl i ↦ inl i | inr i ↦ inr (inr i) ]
    ]
    | inr e ↦ rw e at m
  ]

  pub insert_by-In :
      (before : A → A → Bool) (x : A) (ys : List A) (a : A)
      → (a ≡ x) ⊎ In a ys
      → In a (insert_by before x ys)
  unfolding insert_by
  insert_by-In before x [] a m = m
  insert_by-In before x (y ∷ ys) a m = elim (Bool-cases (before y x)) [
    | inl e ↦ rw e (elim m [
      | inl i ↦ inr (insert_by-In before x ys a (inl i))
      | inr (inl here) ↦ inl here
      | inr (inr i) ↦ inr (insert_by-In before x ys a (inr i))
    ])
    | inr e ↦ rw e m
  ]

  -- A sort keeps the members.
  pub In-sort_by :
      (before : A → A → Bool) (xs : List A) (a : A) → In a (sort_by before xs) → In a xs
  unfolding sort_by
  In-sort_by before [] a m = m
  In-sort_by before (x ∷ xs) a m = elim (In-insert_by before x (sort_by before xs) a m) [
    | inl here ↦ inl here
    | inr i ↦ inr (In-sort_by before xs a i)
  ]

  pub sort_by-In :
      (before : A → A → Bool) (xs : List A) (a : A) → In a xs → In a (sort_by before xs)
  unfolding sort_by
  sort_by-In before [] a m = m
  sort_by-In before (x ∷ xs) a (inl here) = insert_by-In before x (sort_by before xs) a (inl here)
  sort_by-In before (x ∷ xs) a (inr m) =
      insert_by-In before x (sort_by before xs) a (inr (sort_by-In before xs a m))

  -- No element comes strictly before one that stands in front of it.
  abbrev pub IsSorted : (A → A → Bool) → List A → Type 0
  IsSorted before [] = Unit
  IsSorted before (x ∷ xs) = All (λ y. before y x ≡ false) xs × IsSorted before xs

  All-insert_by :
      (P : A → Type 0) (before : A → A → Bool) (x : A) (ys : List A)
      → P x
      → All P ys
      → All P (insert_by before x ys)
  unfolding insert_by
  All-insert_by P before x [] h k = (h, tt)
  All-insert_by P before x (y ∷ ys) h k = elim (Bool-cases (before y x)) [
    | inl e ↦ rw e (k.0, All-insert_by P before x ys h k.1)
    | inr e ↦ rw e (h, k)
  ]

  -- A strict weak order.
  pub record IsOrder (before : A → A → Bool) : Type 0 where
    pub asym : (a b : A) → before a b ≡ true → before b a ≡ false
    pub neg_trans : (a b c : A) → before a b ≡ false → before b c ≡ false → before a c ≡ false

module _ {A : Type 0} {before : A → A → Bool} (order : IsOrder before) where
  All-below :
      (x y : A) (ys : List A)
      → before y x ≡ false
      → All (λ z. before z y ≡ false) ys
      → All (λ z. before z x ≡ false) ys
  All-below x y [] e h = tt
  All-below x y (z ∷ ys) e h = (order.neg_trans z y x h.0 e, All-below x y ys e h.1)

  insert_by-IsSorted :
      (x : A) (ys : List A) → IsSorted before ys → IsSorted before (insert_by before x ys)
  unfolding insert_by
  insert_by-IsSorted x [] h = (tt, tt)
  insert_by-IsSorted x (y ∷ ys) h = elim (Bool-cases (before y x)) [
    | inl e ↦ rw e (
      All-insert_by (λ z. before z y ≡ false) before x ys (order.asym y x e) h.0,
      insert_by-IsSorted x ys h.1,
    )
    | inr e ↦ rw e ((e, All-below x y ys e h.0), h)
  ]

  -- The sort sorts.
  pub sort_by-IsSorted : (xs : List A) → IsSorted before (sort_by before xs)
  unfolding sort_by
  sort_by-IsSorted [] = tt
  sort_by-IsSorted (x ∷ xs) = insert_by-IsSorted x (sort_by before xs) (sort_by-IsSorted xs)
