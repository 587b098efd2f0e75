-- ===== src/Sql/Paging.antt =====
-- LIMIT and OFFSET behind an ORDER BY, with the bounds that the stores put on both.
use pk_modules.Common.{
  ℕ, zero, suc, ◌+◌, ◌≤◌, ◌≡◌, refl, inl, inr, Bool, false, List, [], ◌∷◌, ◌++◌, if◌then◌else◌, ltb,
  length, take, drop, In, All, IsSorted, sort_by, insert_by, In-sort_by, sort_by-In, arith,
  Bool-cases,
}
use pk_modules.Common.Rows.{In-take, In-drop}
use pk_modules.Common.Int.{ℤ, pos, negsuc}

-- A limit that is not positive becomes the fallback, and one above 1000 becomes 1000; the stores'
-- fallbacks are below that.
unfoldable pub clamp_limit : ℕ → ℤ → ℕ
clamp_limit fallback (pos zero) = fallback
clamp_limit fallback (pos (suc n)) = if ltb 1000 (suc n) then 1000 else suc n
clamp_limit fallback (negsuc n) = fallback

unfoldable pub clamp_offset : ℤ → ℕ
clamp_offset (pos n) = n
clamp_offset (negsuc n) = 0

pub clamp_limit_le :
    (fallback : ℕ) (limit : ℤ) → fallback ≤ 1000 → clamp_limit fallback limit ≤ 1000
unfolding clamp_limit
clamp_limit_le fallback (pos zero) h = h
clamp_limit_le fallback (pos (suc n)) h = ground arith
clamp_limit_le fallback (negsuc n) h = h

module _ {A : Type 0} where
  -- ORDER BY … LIMIT ? OFFSET ?
  abbrev pub page : (A → A → Bool) → ℕ → ℕ → List A → List A
  page before limit offset rows = take limit (drop offset (sort_by before rows))

  pub In-page :
      (before : A → A → Bool) (limit offset : ℕ) (rows : List A) (a : A)
      → In a (page before limit offset rows)
      → In a rows
  In-page before limit offset rows a m = In-sort_by before rows a (
      In-drop offset (sort_by before rows) a
        (In-take limit (drop offset (sort_by before rows)) a m))

  length-insert_by :
      (before : A → A → Bool) (x : A) (ys : List A)
      → length (insert_by before x ys) ≡ suc (length ys)
  unfolding insert_by
  length-insert_by before x [] = refl
  length-insert_by before x (y ∷ ys) = elim (Bool-cases (before y x)) [
    | inl e ↦ rw e (omega (arith, length-insert_by before x ys))
    | inr e ↦ rw e refl
  ]

  length-sort_by : (before : A → A → Bool) (xs : List A) → length (sort_by before xs) ≡ length xs
  unfolding sort_by
  length-sort_by before [] = refl
  length-sort_by before (x ∷ xs) =
      omega (arith, length-insert_by before x (sort_by before xs), length-sort_by before xs)

  take-In : (n : ℕ) (xs : List A) (a : A) → length xs ≤ n → In a xs → In a (take n xs)
  take-In zero [] a h m = m
  take-In zero (x ∷ xs) a h m = absurd (omega arith)
  take-In (suc n) [] a h m = m
  take-In (suc n) (x ∷ xs) a h (inl e) = inl e
  take-In (suc n) (x ∷ xs) a h (inr m) = inr (take-In n xs a (omega arith) m)

  -- The first page holds everything if it has room.
  pub page-In :
      (before : A → A → Bool) (limit : ℕ) (rows : List A) (a : A)
      → length rows ≤ limit
      → In a rows
      → In a (page before limit 0 rows)
  page-In before limit rows a h m =
      take-In limit (sort_by before rows) a (omega (arith, length-sort_by before rows))
        (sort_by-In before rows a m)

  All-take : (P : A → Type 0) (n : ℕ) (xs : List A) → All P xs → All P (take n xs)
  All-take P zero xs h = tt
  All-take P (suc n) [] h = tt
  All-take P (suc n) (x ∷ xs) h = (h.0, All-take P n xs h.1)

  pub IsSorted-take :
      (before : A → A → Bool) (n : ℕ) (xs : List A)
      → IsSorted before xs
      → IsSorted before (take n xs)
  IsSorted-take before zero xs h = tt
  IsSorted-take before (suc n) [] h = tt
  IsSorted-take before (suc n) (x ∷ xs) h =
      (All-take (λ y. before y x ≡ false) n xs h.0, IsSorted-take before n xs h.1)

  pub IsSorted-drop :
      (before : A → A → Bool) (n : ℕ) (xs : List A)
      → IsSorted before xs
      → IsSorted before (drop n xs)
  IsSorted-drop before zero xs h = h
  IsSorted-drop before (suc n) [] h = tt
  IsSorted-drop before (suc n) (x ∷ xs) h = IsSorted-drop before n xs h.1

  take_next : (n m : ℕ) (xs : List A) → take n xs ++ take m (drop n xs) ≡ take (n + m) xs
  take_next zero m xs = let e : 0 + m ≡ m = omega arith in rw e refl
  take_next (suc n) zero [] = let e : suc n + 0 ≡ suc n = omega arith in rw e refl
  take_next (suc n) (suc m) [] = let e : suc n + suc m ≡ suc (n + suc m) = omega arith in rw e refl
  take_next (suc n) m (x ∷ xs) =
      let e : suc n + m ≡ suc (n + m) = omega arith in rw (e, take_next n m xs) refl

  drop-drop : (n o : ℕ) (xs : List A) → drop (o + n) xs ≡ drop n (drop o xs)
  drop-drop n zero xs = let e : 0 + n ≡ n = omega arith in rw e refl
  drop-drop zero (suc o) [] = let e : suc o + 0 ≡ suc o = omega arith in rw e refl
  drop-drop (suc n) (suc o) [] = let e : suc o + suc n ≡ suc (o + suc n) = omega arith in rw e refl
  drop-drop n (suc o) (x ∷ xs) =
      let e : suc o + n ≡ suc (o + n) = omega arith in rw e (drop-drop n o xs)

  -- A page and the next one are the page of both their lengths.
  pub take-drop_next :
      (n m offset : ℕ) (xs : List A)
      → take n (drop offset xs) ++ take m (drop (offset + n) xs) ≡ take (n + m) (drop offset xs)
  take-drop_next n m offset xs = rw (drop-drop n offset xs) (take_next n m (drop offset xs))
