-- ===== src/Content/Sqlite/Tenancy.antt =====
-- A write on behalf of one tenant does not touch the rows of another.
use pk_modules.Common.Rows.{filter-snoc, filter-map_if, filter-filter}
use pk_modules.Common.{
  ℕ, ◌≡◌, ◌⊎◌, refl, ap, inl, inr, Bool, true, false, Option, some, [], ◌∷◌, ◌++◌, if◌then◌else◌,
  filter, map_if, arith,
}
use pk_modules.Common.Text.{Text, text_eq, text_eq_iff}
use pk_modules.Sql.{Conn, Adapter}
use pk_modules.Content.{Error, Content}
use pk_modules.Content.Sqlite.{is_key, stamp, overwrite, create, update, delete, set_published}

-- A write of the store for a tenant, with its clock reading; it may fail.
pub data Write (d : Adapter Error) (tenant : Text) : Conn Content → Conn Content → Type 0 where
  created :
      (s : Conn Content) (now : ℕ) (c : Content)
      → c.tenant_id ≡ tenant
      → Write d tenant s (create d now (some c) s).1
  updated :
      (s : Conn Content) (now : ℕ) (c : Content)
      → c.tenant_id ≡ tenant
      → Write d tenant s (update d now (some c) s).1
  deleted : (s : Conn Content) (id : Text) → Write d tenant s (delete tenant id s).1
  published :
      (s : Conn Content) (now : ℕ) (id : Text) (at : Option ℕ)
      → Write d tenant s (set_published now tenant id at s).1

abbrev pub of_tenant : Text → Content → Bool
of_tenant tenant c = text_eq c.tenant_id tenant

apart :
    (tenant other id : Text) (c : Content)
    → text_eq tenant other ≡ false
    → is_key tenant id c ≡ true
    → of_tenant other c ≡ false
apart tenant other id c h k =
    ground (
      arith,
      text_eq_iff c.tenant_id tenant,
      text_eq_iff c.tenant_id other,
      text_eq_iff tenant other,
    )

create_rows :
    (d : Adapter Error) (now : ℕ) (c : Content) (s : Conn Content)
    → ((create d now (some c) s).1.rows ≡ s.rows)
      ⊎ ((create d now (some c) s).1.rows ≡ s.rows ++ stamp now c ∷ [])
unfolding create
create_rows d now c s = ground arith

update_rows :
    (d : Adapter Error) (now : ℕ) (c : Content) (s : Conn Content)
    → ((update d now (some c) s).1.rows ≡ s.rows)
      ⊎ ((update d now (some c) s).1.rows
          ≡ map_if (is_key c.tenant_id c.id) (overwrite (record c { updated_at = now })) s.rows)
unfolding update
update_rows d now c s = ground arith

delete_rows :
    (tenant id : Text) (s : Conn Content)
    → ((delete tenant id s).1.rows ≡ s.rows)
      ⊎ ((delete tenant id s).1.rows
          ≡ filter (λ c. if is_key tenant id c then false else true) s.rows)
unfolding delete
delete_rows tenant id s = ground arith

set_published_rows :
    (now : ℕ) (tenant id : Text) (at : Option ℕ) (s : Conn Content)
    → ((set_published now tenant id at s).1.rows ≡ s.rows)
      ⊎ ((set_published now tenant id at s).1.rows
          ≡ map_if
              (is_key tenant id)
              (λ c. record c { published_at = at; updated_at = now })
              s.rows)
unfolding set_published
set_published_rows now tenant id at s = ground arith

-- A create, update, deletion or change of publication for one tenant, whether or not it succeeds,
-- leaves the rows of every other tenant as they were, in their order.
pub Write-filter :
    (d : Adapter Error) (tenant other : Text) {s u : Conn Content}
    → Write d tenant s u
    → text_eq tenant other ≡ false
    → filter (of_tenant other) u.rows ≡ filter (of_tenant other) s.rows
Write-filter d tenant other (created s now c e) h = elim (create_rows d now c s) [
  | inl k ↦ ap (filter (of_tenant other)) k
  | inr k ↦ rw k (filter-snoc (of_tenant other) s.rows (stamp now c) (rw e h))
]
Write-filter d tenant other (updated s now c e) h = elim (update_rows d now c s) [
  | inl k ↦ ap (filter (of_tenant other)) k
  | inr k ↦ rw k (
      filter-map_if (of_tenant other) (is_key c.tenant_id c.id)
        (overwrite (record c { updated_at = now })) s.rows
        (λ x q. apart c.tenant_id other c.id x (rw e h) q) (λ x. refl))
]
Write-filter d tenant other (deleted s id) h = elim (delete_rows tenant id s) [
  | inl k ↦ ap (filter (of_tenant other)) k
  | inr k ↦ rw k (
      filter-filter (of_tenant other) (is_key tenant id) s.rows
        (λ x q. apart tenant other id x h q))
]
Write-filter d tenant other (published s now id at) h =
    elim (set_published_rows now tenant id at s) [
      | inl k ↦ ap (filter (of_tenant other)) k
      | inr k ↦ rw k (
          filter-map_if (of_tenant other) (is_key tenant id)
            (λ c. record c { published_at = at; updated_at = now }) s.rows
            (λ x q. apart tenant other id x h q) (λ x. refl))
    ]
