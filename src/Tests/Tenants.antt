-- ===== src/Tests/Tenants.antt =====
-- The tenants' store and service at a concrete table.
use pk_modules.Common.{◌≡◌, refl, some, [], ◌∷◌, ok, err, count_if, filter, arith}
use pk_modules.Common.Text.{codes, is_blank, text_eq, to_lower, contains}
use pk_modules.Sql.{Adapter, Conn}
use pk_modules.Tenant.{Error, Tenant, validate, duplicate_slug}
use pk_modules.Tenant.Sqlite.{sqlite, store}
use pk_modules.Tenant.Sqlite
use pk_modules.Tenant.Sqlite.Keys.{IsKeyed, Step, Reach, Reach-IsKeyed}
use pk_modules.Tenant.Service.{create, delete}
use pk_modules.Tests.Fixtures.{driver}

abbrev adapter : Adapter Error
adapter = sqlite driver

abbrev acme : Tenant
acme = record { id = []; slug = codes "acme"; name = codes "Acme"; created_at = 0; updated_at = 0 }

abbrev stored_acme : Tenant
stored_acme = record {
  id = codes "acme";
  slug = codes "acme";
  name = codes "Acme";
  created_at = 5;
  updated_at = 5;
}

abbrev empty : Conn Tenant
empty = record { rows = []; faults = [] }

abbrev full : Conn Tenant
full = record { rows = stored_acme ∷ []; faults = [] }

created_acme : create (store adapter) 5 (some acme) empty ≡ (ok stored_acme, full)
unfolding create validate is_blank Sqlite.create text_eq count_if
created_acme = refl

deleted_acme : delete (store adapter) (codes "acme") full ≡ (ok tt, empty)
unfolding delete is_blank Sqlite.delete text_eq count_if filter
deleted_acme = refl

-- A second tenant with the slug is refused.
created_twice :
    (create (store adapter) 5 (some (record acme { id = codes "other" })) full).0
    ≡ err duplicate_slug
unfolding create validate is_blank Sqlite.create text_eq count_if to_lower contains
    Sqlite.write_error
created_twice = refl

Reach-IsKeyed_example : IsKeyed (Sqlite.create adapter 9 (some acme) empty).1.rows
unfolding count_if
Reach-IsKeyed_example =
    Reach-IsKeyed adapter (Reach.next Reach.here (Step.created empty 9 (some acme)))
      (record { ids = λ id. omega arith; slugs = λ slug. omega arith })
