-- ===== src/Tenant/Sqlite/Keys.antt =====
-- The table of tenants keeps its two keys through every call of the store.
use pk_modules.Sql.Keys.{Unique, Unique-snoc, Unique-filter, Unique-map_if_same, Unique-map_if}
use pk_modules.Common.{
  ℕ, ◌≡◌, ◌⊎◌, refl, sym, inl, inr, Bool, true, false, Option, none, some, List, [], ◌∷◌, ◌++◌,
  if◌then◌else◌, count_if, filter, map_if, arith, Bool-cases, map_if-count_zero, ◌==◌, subst,
}
use pk_modules.Common.Text.{Text, text_eq, text_eq_iff}
use pk_modules.Sql.{Conn, Adapter}
use pk_modules.Tenant.{Error, Tenant}
use pk_modules.Tenant.Sqlite.{
  has_id, has_slug, violated, stamp, slug_clash, overwrite, create, get, get_by_slug, list, update,
  delete,
}

-- No two rows share an id, and no two share a slug.
pub record IsKeyed (rows : List Tenant) : Type 0 where
  pub ids : Unique has_id rows
  pub slugs : Unique has_slug rows

IsKeyed-snoc :
    (d : Adapter Error) (t : Tenant) (rows : List Tenant)
    → IsKeyed rows
    → violated d t rows ≡ none
    → IsKeyed (rows ++ t ∷ [])
unfolding violated
IsKeyed-snoc d t rows k h = record {
  ids = Unique-snoc has_id t rows k.ids (λ id e. ground (arith, text_eq_iff t.id id));
  slugs = Unique-snoc has_slug t rows k.slugs (λ slug e. ground (arith, text_eq_iff t.slug slug));
}

IsKeyed-filter : (q : Tenant → Bool) (rows : List Tenant) → IsKeyed rows → IsKeyed (filter q rows)
IsKeyed-filter q rows k = record {
  ids = Unique-filter has_id q rows k.ids;
  slugs = Unique-filter has_slug q rows k.slugs;
}

IsKeyed-overwrite :
    (d : Adapter Error) (t : Tenant) (rows : List Tenant)
    → IsKeyed rows
    → slug_clash d t rows ≡ none
    → IsKeyed (map_if (has_id t.id) (overwrite t) rows)
unfolding slug_clash
IsKeyed-overwrite d t rows k h = elim (Bool-cases (count_if (has_id t.id) rows == 0)) [
  | inl e ↦
      subst IsKeyed (sym (map_if-count_zero (has_id t.id) (overwrite t) rows (ground arith))) k
  | inr e ↦ record {
    ids = Unique-map_if_same has_id (has_id t.id) (overwrite t) rows (λ id x. refl) k.ids;
    slugs =
        Unique-map_if has_slug (has_id t.id) (text_eq t.slug) (overwrite t) rows (λ slug x q. refl)
          (k.ids t.id) (λ slug q. ground (arith, text_eq_iff t.slug slug)) k.slugs;
  }
]

-- One call of the store, with its clock reading; it may fail.
pub data Step (d : Adapter Error) : Conn Tenant → Conn Tenant → Type 0 where
  created : (s : Conn Tenant) (now : ℕ) (t : Option Tenant) → Step d s (create d now t s).1
  read : (s : Conn Tenant) (id : Text) → Step d s (get id s).1
  read_slug : (s : Conn Tenant) (slug : Text) → Step d s (get_by_slug slug s).1
  listed : (s : Conn Tenant) → Step d s (list s).1
  updated : (s : Conn Tenant) (now : ℕ) (t : Option Tenant) → Step d s (update d now t s).1
  deleted : (s : Conn Tenant) (id : Text) → Step d s (delete id s).1

pub data Reach (d : Adapter Error) (s : Conn Tenant) : Conn Tenant → Type 0 where
  here : Reach d s s
  next : {t u : Conn Tenant} → Reach d s t → Step d t u → Reach d s u

create_rows :
    (d : Adapter Error) (now : ℕ) (t : Tenant) (s : Conn Tenant)
    → ((create d now (some t) s).1.rows ≡ s.rows)
      ⊎ (((create d now (some t) s).1.rows ≡ s.rows ++ stamp now t ∷ [])
          × (violated d (stamp now t) s.rows ≡ none))
unfolding create
create_rows d now t s = ground arith

pub update_rows :
    (d : Adapter Error) (now : ℕ) (t : Tenant) (s : Conn Tenant)
    → ((update d now (some t) s).1.rows ≡ s.rows)
      ⊎ (((update d now (some t) s).1.rows
            ≡ map_if (has_id t.id) (overwrite (record t { updated_at = now })) s.rows)
          × (slug_clash d (record t { updated_at = now }) s.rows ≡ none))
unfolding update
update_rows d now t s = ground arith

pub delete_rows :
    (id : Text) (s : Conn Tenant)
    → ((delete id s).1.rows ≡ s.rows)
      ⊎ ((delete id s).1.rows ≡ filter (λ t. if has_id id t then false else true) s.rows)
unfolding delete
delete_rows id s = ground arith

pub get_rows : (id : Text) (s : Conn Tenant) → (get id s).1.rows ≡ s.rows
unfolding get
get_rows id s = ground arith

get_by_slug_rows : (slug : Text) (s : Conn Tenant) → (get_by_slug slug s).1.rows ≡ s.rows
unfolding get_by_slug
get_by_slug_rows slug s = ground arith

list_rows : (s : Conn Tenant) → (list s).1.rows ≡ s.rows
unfolding list
list_rows s = ground arith

Step-IsKeyed :
    (d : Adapter Error) {s u : Conn Tenant} → Step d s u → IsKeyed s.rows → IsKeyed u.rows
unfolding create update
Step-IsKeyed d (created s now none) k = k
Step-IsKeyed d (created s now (some t)) k = elim (create_rows d now t s) [
  | inl e ↦ subst IsKeyed (sym e) k
  | inr (e, free) ↦ subst IsKeyed (sym e) (IsKeyed-snoc d (stamp now t) s.rows k free)
]
Step-IsKeyed d (read s id) k = subst IsKeyed (sym (get_rows id s)) k
Step-IsKeyed d (read_slug s slug) k = subst IsKeyed (sym (get_by_slug_rows slug s)) k
Step-IsKeyed d (listed s) k = subst IsKeyed (sym (list_rows s)) k
Step-IsKeyed d (updated s now none) k = k
Step-IsKeyed d (updated s now (some t)) k = elim (update_rows d now t s) [
  | inl e ↦ subst IsKeyed (sym e) k
  | inr (e, free) ↦
      subst IsKeyed (sym e) (IsKeyed-overwrite d (record t { updated_at = now }) s.rows k free)
]
Step-IsKeyed d (deleted s id) k = elim (delete_rows id s) [
  | inl e ↦ subst IsKeyed (sym e) k
  | inr e ↦
      subst IsKeyed (sym e) (IsKeyed-filter (λ t. if has_id id t then false else true) s.rows k)
]

-- Starting from a table whose rows differ in id and in slug, whatever calls of the store follow,
-- with whatever arguments, clock readings and driver errors, no two rows ever share an id or a
-- slug.
pub Reach-IsKeyed :
    (d : Adapter Error) {s u : Conn Tenant} → Reach d s u → IsKeyed s.rows → IsKeyed u.rows
Reach-IsKeyed d here k = k
Reach-IsKeyed d (next path step) k = Step-IsKeyed d step (Reach-IsKeyed d path k)
