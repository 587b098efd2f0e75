-- ===== src/Apikey/Scopes/Catalog.antt =====
-- What buildScopeCatalog returns.
use pk_modules.Common.{
  ◌≡◌, ◌∙◌, sym, refl, inl, inr, true, none, List, [], ◌∷◌, ◌++◌, map, ok, if◌then◌else◌, IsSorted,
  IsOrder, sort_by, sort_by-IsSorted, sort_by-In, In-sort_by, arith, Bool-cases, Option-cases,
}
use pk_modules.Common.Text.{
  Text, trim_space, text_eq, text_lt, text_eq_iff, text_lt_asym, text_lt_neg_trans,
}
use pk_modules.Apikey.Scopes.{
  has, default_allowed_scopes, refusal, catalog_loop, build_scope_catalog,
}
use pk_modules.Apikey.Scopes.Sets.{has-append, has_cong}

pub text-IsOrder : IsOrder text_lt
text-IsOrder = record { asym = text_lt_asym; neg_trans = text_lt_neg_trans }

-- The vocabulary after the names `names`, begun at `before`: the map and the slice hold the same
-- scopes, exactly those at the start and the trimmed names; each passes the checks; the slice is
-- in ascending order.
pub record IsCatalog (names before allowed canonical : List Text) : Type 0 where
  pub covers :
      (s : Text) → has allowed s ≡ (if has before s then true else has (map trim_space names) s)
  pub same : (s : Text) → has canonical s ≡ has allowed s
  pub sorted : IsSorted text_lt canonical

pub has-sort_by : (l : List Text) (s : Text) → has (sort_by text_lt l) s ≡ has l s
has-sort_by l s = has_cong (sort_by text_lt l) l s (In-sort_by text_lt l s) (sort_by-In text_lt l s)

catalog_loop-IsCatalog :
    (names allowed canonical result sorted : List Text)
    → ((s : Text) → has canonical s ≡ has allowed s)
    → catalog_loop names allowed canonical ≡ ok (result, sorted)
    → IsCatalog names allowed result sorted
unfolding catalog_loop has
catalog_loop-IsCatalog [] allowed canonical result sorted same h =
    let e : allowed ≡ result = ground arith in
    let k : sort_by text_lt canonical ≡ sorted = ground arith in
    rw (← e, ← k)
      (record {
        covers = λ s. ground arith;
        same = λ s. ground (arith, has-sort_by canonical s, same s);
        sorted = sort_by-IsSorted text-IsOrder canonical;
      })
catalog_loop-IsCatalog (x ∷ names) allowed canonical result sorted same h =
    elim (Option-cases (refusal (trim_space x))) [
      | inr (e, p) ↦ absurd (ground arith)
      | inl p ↦ elim (Bool-cases (has allowed (trim_space x))) [
        | inl w ↦
            let r =
              catalog_loop-IsCatalog names allowed canonical result sorted same (ground arith) in
            record {
              covers = λ s. ground (arith, r.covers s, text_eq_iff (trim_space x) s);
              same = r.same;
              sorted = r.sorted;
            }
        | inr w ↦
            let r =
              catalog_loop-IsCatalog names (trim_space x ∷ allowed) (canonical ++ trim_space x ∷ [])
                result sorted
                (λ s. ground (arith, same s, has-append canonical (trim_space x ∷ []) s))
                (ground arith) in
            record { covers = λ s. ground (arith, r.covers s); same = r.same; sorted = r.sorted }
      ]
    ]

-- No scope that fails a check is among the names of a catalogue that was built.
catalog_loop-refusal :
    (names allowed canonical : List Text) {r : List Text × List Text} (s : Text)
    → catalog_loop names allowed canonical ≡ ok r
    → has (map trim_space names) s ≡ true
    → refusal s ≡ none
unfolding catalog_loop has
catalog_loop-refusal [] allowed canonical s h k = absurd (ground arith)
catalog_loop-refusal (x ∷ names) allowed canonical {r = r} s h k =
    elim (Option-cases (refusal (trim_space x))) [
      | inr (e, p) ↦ absurd (ground arith)
      | inl p ↦ elim (Bool-cases (text_eq (trim_space x) s)) [
        | inl e ↦ rw (← (text_eq_iff (trim_space x) s).0 e) p
        | inr e ↦ elim (Bool-cases (has allowed (trim_space x))) [
          | inl w ↦
              catalog_loop-refusal names allowed canonical {r = r} s (ground arith) (ground arith)
          | inr w ↦
              catalog_loop-refusal names (trim_space x ∷ allowed) (canonical ++ trim_space x ∷ [])
                {r = r} s (ground arith) (ground arith)
        ]
      ]
    ]

catalog_loop_refuses :
    (names allowed canonical : List Text)
    → catalog_loop names [] [] ≡ ok (allowed, canonical)
    → IsCatalog names [] allowed canonical × ((s : Text) → has allowed s ≡ true → refusal s ≡ none)
unfolding has
catalog_loop_refuses names allowed canonical h =
    let c = catalog_loop-IsCatalog names [] [] allowed canonical (λ s. refl) h in
    (
      c,
      λ s k. catalog_loop-refusal names [] [] {r = (allowed, canonical)} s h (sym (c.covers s) ∙ k),
    )

-- When buildScopeCatalog succeeds, its map holds exactly the twelve default scopes and the trimmed
-- additional ones, its slice holds the same scopes in ascending order, and every scope in it is
-- non-empty, at most 100 bytes long and not reserved.
pub build_scope_catalog_sound :
    (additional allowed canonical : List Text)
    → build_scope_catalog additional ≡ ok (allowed, canonical)
    → IsCatalog (default_allowed_scopes ++ additional) [] allowed canonical
      × ((s : Text) → has allowed s ≡ true → refusal s ≡ none)
unfolding build_scope_catalog
build_scope_catalog_sound additional allowed canonical h =
    catalog_loop_refuses (default_allowed_scopes ++ additional) allowed canonical h
