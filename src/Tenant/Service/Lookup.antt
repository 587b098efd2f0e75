-- ===== src/Tenant/Service/Lookup.antt =====
-- What a lookup finds after a creation and after a deletion, through the service and SQLite.
use pk_modules.Common.Rows.{find-snoc, find-filter}
use pk_modules.Common.{
  ℕ, ◌≡◌, refl, inl, inr, false, some, List, [], ◌∷◌, ◌++◌, ok, err, bind_ok, lift, pure, ◌>>=◌,
  if◌then◌else◌, count_if, arith, Bool-cases,
}
use pk_modules.Common.Text.{Text, is_blank, text_eq_refl}
use pk_modules.Sql.{Conn, Adapter}
use pk_modules.Tenant.{Error, Tenant, validate, not_found}
use pk_modules.Tenant.Sqlite.{has_id, has_slug, violated, stamp, store}
use pk_modules.Tenant.Sqlite
use pk_modules.Tenant.Service.{with_id, create, get, get_by_slug, delete}

-- The connection without faults to come.
abbrev pub calm : Conn Tenant → Conn Tenant
calm s = record s { faults = [] }

sqlite_create_ok :
    (d : Adapter Error) (now : ℕ) (t row : Tenant) (s s' : Conn Tenant)
    → Sqlite.create d now (some t) s ≡ (ok row, s')
    → (row ≡ stamp now t)
      × (s'.rows ≡ s.rows ++ stamp now t ∷ [])
      × (count_if (has_id t.id) s.rows ≡ 0)
      × (count_if (has_slug t.slug) s.rows ≡ 0)
unfolding Sqlite.create
sqlite_create_ok d now t row s s' h = (ground arith, ground arith, ground arith, ground arith)

create_ok :
    (d : Adapter Error) (now : ℕ) (t t' : Tenant) (s s' : Conn Tenant)
    → create (store d) now (some t) s ≡ (ok t', s')
    → (validate (some t) ≡ ok tt)
      × (t' ≡ stamp now (with_id t))
      × (s'.rows ≡ s.rows ++ stamp now (with_id t) ∷ [])
      × (count_if (has_id (with_id t).id) s.rows ≡ 0)
      × (count_if (has_slug t.slug) s.rows ≡ 0)
unfolding create
create_ok d now t t' s s' h =
    let (u, s1, x, h1) =
      bind_ok (lift (validate (some t)))
        (λ u. Sqlite.create d now (some (with_id t)) >>= λ row.
          pure (record (with_id t) { created_at = row.created_at; updated_at = row.updated_at }))
        s s' h in
    let (row, s2, y, h2) =
      bind_ok (Sqlite.create d now (some (with_id t)))
        (λ row.
          pure (record (with_id t) { created_at = row.created_at; updated_at = row.updated_at }))
        s1 s' h1 in
    let (e, rows, id, slug) = sqlite_create_ok d now (with_id t) row s1 s2 y in
    (
      ground (arith, x),
      ground (arith, h2, e),
      ground (arith, rows, x, h2),
      ground (arith, id, x),
      ground (arith, slug, x),
    )

get_last :
    (d : Adapter Error) (t : Tenant) (rows : List Tenant)
    → is_blank t.id ≡ false
    → count_if (has_id t.id) rows ≡ 0
    → (get (store d) t.id (record { rows = rows ++ t ∷ []; faults = [] })).0 ≡ ok t
unfolding get Sqlite.get
get_last d t rows b h = rw (b, find-snoc (has_id t.id) rows t h (text_eq_refl t.id)) refl

get_by_slug_last :
    (d : Adapter Error) (t : Tenant) (rows : List Tenant)
    → is_blank t.slug ≡ false
    → count_if (has_slug t.slug) rows ≡ 0
    → (get_by_slug (store d) t.slug (record { rows = rows ++ t ∷ []; faults = [] })).0 ≡ ok t
unfolding get_by_slug Sqlite.get_by_slug
get_by_slug_last d t rows b h =
    rw (b, find-snoc (has_slug t.slug) rows t h (text_eq_refl t.slug)) refl

validate_slug : (t : Tenant) → validate (some t) ≡ ok tt → is_blank t.slug ≡ false
unfolding validate
validate_slug t h = ground arith

with_id_named : (t : Tenant) → is_blank t.slug ≡ false → is_blank (with_id t).id ≡ false
with_id_named t h = elim (Bool-cases (is_blank t.id)) [ inl e ↦ rw e h | inr e ↦ rw e e ]

-- A tenant that Create returned nil for can be looked up: it has the given id, or its slug where
-- that is blank, Get by this id and GetBySlug by its slug both return exactly what the caller got
-- back, where the driver reports no fault.
pub create-get :
    (d : Adapter Error) (now : ℕ) (t t' : Tenant) (s s' : Conn Tenant)
    → create (store d) now (some t) s ≡ (ok t', s')
    → (t'.id ≡ (if is_blank t.id then t.slug else t.id))
      × ((get (store d) t'.id (calm s')).0 ≡ ok t')
      × ((get_by_slug (store d) t'.slug (calm s')).0 ≡ ok t')
create-get d now t t' s s' h =
    let (v, e, rows, id, slug) = create_ok d now t t' s s' h in
    let made = stamp now (with_id t) in
    let named = validate_slug t v in
    rw (e, rows)
      (
        refl,
        get_last d made s.rows (with_id_named t named) id,
        get_by_slug_last d made s.rows named slug,
      )

-- After Delete returned nil for an id, Get reports it as not found, where the driver reports no
-- fault.
pub delete-get :
    (d : Adapter Error) (id : Text) (s s' : Conn Tenant)
    → delete (store d) id s ≡ (ok tt, s')
    → (get (store d) id (calm s')).0 ≡ err not_found
unfolding get delete Sqlite.delete Sqlite.get
delete-get d id s s' h = ground (arith, find-filter (has_id id) s.rows)
