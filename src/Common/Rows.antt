-- ===== src/Common/Rows.antt =====
-- The lemmas on lists of rows that the stores' proofs share: counts, filters, lookups, pages.
use Prim.Native.Nat.{ℕ, zero, suc, ◌+◌, ◌≤◌}
use mathlib.Core.Path.{◌≡◌, refl, ap}
use mathlib.Core.Logic.{◌⊎◌, inl, inr}
use mathlib.Core.Bool.{Bool, true, false, ◌&&◌}
use mathlib.Core.Option.{some, none}
use mathlib.Core.List.{List, [], ◌∷◌, ◌++◌, map}
use native.Mathlib.Omega.{arith}
use pk_modules.Common.Tests.{if◌then◌else◌, Bool-cases}
use pk_modules.Common.Lists.{
  length, take, drop, In, filter, find, count_if, map_if, count_if-In, map_if-In, In-map_if,
}

-- The rows that a test does not select.
abbrev pub other {ℓ} : {A : Type ℓ} → (A → Bool) → A → Bool
other q x = if q x then false else true

-- What an update does to a table, in any order of the rows: every row of the new one is a row of the
-- old one, or what `change` makes of one that `P` holds of; and every old row goes on so.
abbrev pub Becomes : {A : Type 0} → (A → Type 0) → (A → A) → A → A → Type 0
Becomes P change x y = (y ≡ x) ⊎ (P x × (y ≡ change x))

pub record Changes {A : Type 0} (P : A → Type 0) (change : A → A) (rows rows' : List A)
    : Type 0 where
  pub back : (y : A) → In y rows' → (x : A) × In x rows × Becomes P change x y
  pub on : (x : A) → In x rows → (y : A) × In y rows' × Becomes P change x y

module _ {A : Type 0} (P : A → Type 0) (change : A → A) (rows rows' : List A) where
  pub Changes-same : rows' ≡ rows → Changes P change rows rows'
  Changes-same e = record {
    back = λ y m. (y, rw e at m, inl refl);
    on = λ x m. (x, rw e m, inl refl);
  }

  pub Changes-map_if :
      (p : A → Bool)
      → ((x : A) → p x ≡ true → P x)
      → rows' ≡ map_if p change rows
      → Changes P change rows rows'
  Changes-map_if p holds e = record {
    back = λ y m.
        let (x, i, q) = In-map_if p change rows y (rw e at m) in
        elim (Bool-cases (p x)) [
          | inl t ↦ (x, i, inr (holds x t, rw t at q))
          | inr t ↦ (x, i, inl (rw t at q))
        ];
    on = λ x m. elim (Bool-cases (p x)) [
      | inl t ↦ (change x, rw e (rw t at (map_if-In p change rows x m)), inr (holds x t, refl))
      | inr t ↦ (x, rw e (rw t at (map_if-In p change rows x m)), inl refl)
    ];
  }

module _ {A : Type 0} where
  pub append_assoc : (xs ys zs : List A) → (xs ++ ys) ++ zs ≡ xs ++ (ys ++ zs)
  append_assoc [] ys zs = refl
  append_assoc (x ∷ xs) ys zs = rw (append_assoc xs ys zs) refl

  pub append_nil : (xs : List A) → xs ++ [] ≡ xs
  append_nil [] = refl
  append_nil (x ∷ xs) = rw (append_nil xs) refl

  pub In-map : {B : Type 0} (f : A → B) (a : A) (xs : List A) → In a xs → In (f a) (map f xs)
  In-map f a [] m = elim m [ ]
  In-map f a (x ∷ xs) (inl e) = inl (ap f e)
  In-map f a (x ∷ xs) (inr m) = inr (In-map f a xs m)

  pub map-In :
      {B : Type 0} (f : A → B) (b : B) (xs : List A)
      → In b (map f xs)
      → (a : A) × In a xs × (b ≡ f a)
  map-In f b [] m = elim m [ ]
  map-In f b (x ∷ xs) (inl e) = (x, inl refl, e)
  map-In f b (x ∷ xs) (inr m) = let (a, i, e) = map-In f b xs m in (a, inr i, e)

  -- Counts.
  pub length-filter : (p : A → Bool) (xs : List A) → length (filter p xs) ≡ count_if p xs
  unfolding filter count_if
  length-filter p [] = refl
  length-filter p (x ∷ xs) = ground (arith, length-filter p xs)

  pub count_if-snoc :
      (p : A → Bool) (xs : List A) (a : A)
      → count_if p (xs ++ a ∷ []) ≡ count_if p xs + (if p a then 1 else 0)
  unfolding count_if
  count_if-snoc p [] a = ground arith
  count_if-snoc p (x ∷ xs) a = ground (arith, count_if-snoc p xs a)

  pub count_if-snoc_other :
      (p : A → Bool) (xs : List A) (a : A) → p a ≡ false → count_if p (xs ++ a ∷ []) ≡ count_if p xs
  count_if-snoc_other p xs a h = ground (arith, count_if-snoc p xs a)

  pub count_if-filter :
      (p q : A → Bool) (xs : List A) → count_if p (filter q xs) ≡ count_if (λ x. q x && p x) xs
  unfolding count_if filter
  count_if-filter p q [] = refl
  count_if-filter p q (x ∷ xs) = ground (arith, count_if-filter p q xs)

  pub count_if-filter_le : (p q : A → Bool) (xs : List A) → count_if p (filter q xs) ≤ count_if p xs
  unfolding count_if filter
  count_if-filter_le p q [] = omega arith
  count_if-filter_le p q (x ∷ xs) = ground (arith, count_if-filter_le p q xs)

  pub count_if-and_le :
      (p q : A → Bool) (xs : List A) → count_if (λ x. p x && q x) xs ≤ count_if p xs
  unfolding count_if
  count_if-and_le p q [] = omega arith
  count_if-and_le p q (x ∷ xs) = ground (arith, count_if-and_le p q xs)

  pub count_if-none :
      (p : A → Bool) (xs : List A) → ((a : A) → In a xs → p a ≡ false) → count_if p xs ≡ 0
  unfolding count_if
  count_if-none p [] h = refl
  count_if-none p (x ∷ xs) h =
      ground (arith, h x (inl refl), count_if-none p xs (λ a m. h a (inr m)))

  -- An update that leaves a test as it was leaves its count.
  pub count_if-map_if_same :
      (p q : A → Bool) (f : A → A) (xs : List A)
      → ((x : A) → p (f x) ≡ p x)
      → count_if p (map_if q f xs) ≡ count_if p xs
  unfolding count_if map_if
  count_if-map_if_same p q f [] h = refl
  count_if-map_if_same p q f (x ∷ xs) h = ground (arith, count_if-map_if_same p q f xs h, h x)

  -- One that gives the rows it touches the same answer counts those, and the others as before.
  pub count_if-map_if :
      (p q : A → Bool) (b : Bool) (f : A → A) (xs : List A)
      → ((x : A) → q x ≡ true → p (f x) ≡ b)
      → count_if p (map_if q f xs)
        ≡ (if b then count_if q xs else 0) + count_if (λ x. p x && other q x) xs
  unfolding count_if map_if
  count_if-map_if p q b f [] h = ground arith
  count_if-map_if p q b f (x ∷ xs) h = ground (arith, count_if-map_if p q b f xs h, h x)

  -- Filters.
  pub filter-snoc :
      (p : A → Bool) (xs : List A) (a : A) → p a ≡ false → filter p (xs ++ a ∷ []) ≡ filter p xs
  unfolding filter
  filter-snoc p [] a h = ground arith
  filter-snoc p (x ∷ xs) a h = ground (arith, filter-snoc p xs a)

  pub filter-map_if :
      (p q : A → Bool) (f : A → A) (xs : List A)
      → ((x : A) → q x ≡ true → p x ≡ false)
      → ((x : A) → p (f x) ≡ p x)
      → filter p (map_if q f xs) ≡ filter p xs
  unfolding filter map_if
  filter-map_if p q f [] apart same = refl
  filter-map_if p q f (x ∷ xs) apart same =
      ground (arith, filter-map_if p q f xs apart same, apart x, same x)

  pub filter-filter :
      (p q : A → Bool) (xs : List A)
      → ((x : A) → q x ≡ true → p x ≡ false)
      → filter p (filter (other q) xs) ≡ filter p xs
  unfolding filter
  filter-filter p q [] apart = refl
  filter-filter p q (x ∷ xs) apart = ground (arith, filter-filter p q xs apart, apart x)

  -- Lookups.
  pub find-snoc :
      (p : A → Bool) (xs : List A) (a : A)
      → count_if p xs ≡ 0
      → p a ≡ true
      → find p (xs ++ a ∷ []) ≡ some a
  unfolding count_if find
  find-snoc p [] a h k = ground arith
  find-snoc p (x ∷ xs) a h k = ground (arith, find-snoc p xs a)

  pub find-filter : (p : A → Bool) (xs : List A) → find p (filter (other p) xs) ≡ none
  unfolding find filter
  find-filter p [] = refl
  find-filter p (x ∷ xs) = ground (arith, find-filter p xs)

  pub find-map_if :
      (p : A → Bool) (f : A → A) (xs : List A) (a : A)
      → find p xs ≡ some a
      → ((y : A) → p (f y) ≡ p y)
      → find p (map_if p f xs) ≡ some (f a)
  unfolding find map_if
  find-map_if p f [] a h k = absurd (cc)
  find-map_if p f (y ∷ xs) a h k = ground (arith, find-map_if p f xs a, k y)

  -- A row that passes a test which at most one row passes is the row that is found.
  pub find_unique :
      (p : A → Bool) (xs : List A) (a : A)
      → In a xs
      → p a ≡ true
      → count_if p xs ≤ 1
      → find p xs ≡ some a
  unfolding find count_if
  find_unique p [] a m h k = elim m [ ]
  find_unique p (x ∷ xs) a (inl e) h k = rw (← e, h) (refl)
  find_unique p (x ∷ xs) a (inr m) h k = elim (Bool-cases (p x)) [
    | inr e ↦ rw e (find_unique p xs a m h (ground arith))
    | inl e ↦ absurd (ground (arith, count_if-In p xs a, h))
  ]

  -- Pages.
  pub In-take : (n : ℕ) (xs : List A) (a : A) → In a (take n xs) → In a xs
  In-take zero xs a m = elim m [ ]
  In-take (suc n) [] a m = elim m [ ]
  In-take (suc n) (x ∷ xs) a (inl e) = inl e
  In-take (suc n) (x ∷ xs) a (inr m) = inr (In-take n xs a m)

  pub In-drop : (n : ℕ) (xs : List A) (a : A) → In a (drop n xs) → In a xs
  In-drop zero xs a m = m
  In-drop (suc n) [] a m = elim m [ ]
  In-drop (suc n) (x ∷ xs) a m = inr (In-drop n xs a m)

  pub length-take_le : (n : ℕ) (xs : List A) → length (take n xs) ≤ n
  length-take_le zero xs = omega arith
  length-take_le (suc n) [] = omega arith
  length-take_le (suc n) (x ∷ xs) = omega (arith, length-take_le n xs)
