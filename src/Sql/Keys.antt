-- ===== src/Sql/Keys.antt =====
-- Unique keys of a table: a family of tests, one for each value of the key, none of which two rows
-- pass; and what an insert, a deletion and an update leave of it.
use pk_modules.Common.{
  ◌≤◌, ◌≡◌, Bool, true, ◌&&◌, List, [], ◌∷◌, ◌++◌, count_if, filter, map_if, arith,
}
use pk_modules.Common.Rows.{
  other, count_if-snoc, count_if-filter_le, count_if-map_if_same, count_if-map_if, count_if-and_le,
}

module _ {K Row : Type 0} (key : K → Row → Bool) where
  abbrev pub Unique : List Row → Type 0
  Unique rows = (k : K) → count_if (key k) rows ≤ 1

  -- A row whose keys are free.
  pub Unique-snoc :
      (r : Row) (rows : List Row)
      → Unique rows
      → ((k : K) → key k r ≡ true → count_if (key k) rows ≡ 0)
      → Unique (rows ++ r ∷ [])
  Unique-snoc r rows u free k = ground (arith, count_if-snoc (key k) rows r, u k, free k)

  pub Unique-filter : (q : Row → Bool) (rows : List Row) → Unique rows → Unique (filter q rows)
  Unique-filter q rows u k = omega (arith, count_if-filter_le (key k) q rows, u k)

  -- An update that leaves the key alone.
  pub Unique-map_if_same :
      (q : Row → Bool) (f : Row → Row) (rows : List Row)
      → ((k : K) (x : Row) → key k (f x) ≡ key k x)
      → Unique rows
      → Unique (map_if q f rows)
  Unique-map_if_same q f rows same u k =
      omega (arith, count_if-map_if_same (key k) q f rows (same k), u k)

  -- An update of at most one row that moves it to keys which no other row has.
  pub Unique-map_if :
      (q : Row → Bool) (b : K → Bool) (f : Row → Row) (rows : List Row)
      → ((k : K) (x : Row) → q x ≡ true → key k (f x) ≡ b k)
      → count_if q rows ≤ 1
      → ((k : K) → b k ≡ true → count_if (λ x. key k x && other q x) rows ≡ 0)
      → Unique rows
      → Unique (map_if q f rows)
  Unique-map_if q b f rows moved one free u k = ground (
    arith,
    count_if-map_if (key k) q (b k) f rows (moved k),
    one,
    free k,
    u k,
    count_if-and_le (key k) (other q) rows,
  )
