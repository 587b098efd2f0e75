-- ===== src/Content/Sqlite/Paging.antt =====
-- The pages of a listing.
use pk_modules.Common.Rows.{In-take, In-drop, length-take_le}
use pk_modules.Common.{
  zero, suc, ◌≤◌, ◌≡◌, false, List, ok, In, length, take, drop, filter, In-filter, sort_by,
  In-sort_by, arith,
}
use pk_modules.Common.Int.{ℤ, pos, negsuc}
use pk_modules.Common.Text.{Text, codes, text_eq, text_eq_iff}
use pk_modules.Sql.{Conn}
use pk_modules.Content.{Content}
use pk_modules.Content.Sqlite.{clamp_limit, clamp_offset, newer, is_listed, list}

clamp_limit_le : (limit : ℤ) → clamp_limit limit ≤ 1000
unfolding clamp_limit
clamp_limit_le (pos zero) = omega arith
clamp_limit_le (pos (suc n)) = ground arith
clamp_limit_le (negsuc n) = omega arith

list_page :
    (tenant kind : Text) (limit offset : ℤ) (cs : List Content) (s s' : Conn Content)
    → list tenant kind limit offset s ≡ (ok cs, s')
    → cs
      ≡ take
          (clamp_limit limit)
          (drop (clamp_offset offset) (sort_by newer (filter (is_listed tenant kind) s.rows)))
unfolding list
list_page tenant kind limit offset cs s s' h = ground arith

-- A page of a listing has at most 1000 rows whatever limit was asked for, also a negative one, and
-- every row of it is a stored row of the tenant, of the kind asked for unless that is empty.
pub list-bounds :
    (tenant kind : Text) (limit offset : ℤ) (cs : List Content) (s s' : Conn Content)
    → list tenant kind limit offset s ≡ (ok cs, s')
    → (length cs ≤ 1000)
      × ((c : Content)
          → In c cs
          → In c s.rows
            × (c.tenant_id ≡ tenant)
            × (text_eq kind (codes "") ≡ false → c.kind ≡ kind))
list-bounds tenant kind limit offset cs s s' h =
    let page = list_page tenant kind limit offset cs s s' h in
    let sorted = sort_by newer (filter (is_listed tenant kind) s.rows) in
    rw page (
      omega (
        arith,
        length-take_le (clamp_limit limit) (drop (clamp_offset offset) sorted),
        clamp_limit_le limit,
      ),
      λ c m.
          let (i, q) = In-filter c (is_listed tenant kind) s.rows (
            In-sort_by newer (filter (is_listed tenant kind) s.rows) c (
              In-drop (clamp_offset offset) sorted c
                (In-take (clamp_limit limit) (drop (clamp_offset offset) sorted) c m))) in
          (
            i,
            ground (arith, text_eq_iff c.tenant_id tenant),
            λ k. ground (arith, text_eq_iff c.kind kind),
          ),
    )
