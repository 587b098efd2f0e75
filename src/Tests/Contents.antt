-- ===== src/Tests/Contents.antt =====
-- The content store and service at a concrete table.
use pk_modules.Common.{
  ◌≡◌, refl, false, none, some, [], ◌∷◌, ok, err, ◌≤◌, In, length, count_if, filter, find, map_if,
  sort_by,
}
use pk_modules.Common.Int.{pos, negsuc}
use pk_modules.Common.Text.{Text, codes, text_eq, to_lower, contains}
use pk_modules.Sql.{Adapter, Conn}
use pk_modules.Content.{Error, Content}
use pk_modules.Content.Sqlite
use pk_modules.Content.Sqlite.Tenancy.{Write, of_tenant, Write-filter}
use pk_modules.Content.Sqlite.Paging.{list-bounds}
use pk_modules.Content.Service.{World, publish, unpublish}
use pk_modules.Content.Service.Publishing.{calm, over, publish-get}
use pk_modules.Tests.Fixtures.{last_of, driver}
use pk_modules.Content.Sqlite.{sqlite}

abbrev adapter : Adapter Error
adapter = sqlite driver

abbrev page : Text → Content
page tenant = record {
  id = codes "1";
  tenant_id = tenant;
  kind = codes "page";
  slug = codes "home";
  title = codes "Home";
  body = [];
  body_format = codes "text";
  author_id = codes "u";
  published_at = none;
  created_at = 3;
  updated_at = 3;
}

abbrev public_page : Content
public_page = record (page (codes "t")) { published_at = some 8; updated_at = 9 }

abbrev table : Conn Content
table = record { rows = page (codes "t") ∷ []; faults = [] }

abbrev world : World (Conn Content)
world = record { conn = table; events = [] }

abbrev public_world : World (Conn Content)
public_world = record { conn = record { rows = public_page ∷ []; faults = [] }; events = [] }

published :
    publish (over adapter false (λ n. [])) 8 9 (codes "t") (codes "1") world ≡ (ok tt, public_world)
unfolding publish Sqlite.get Sqlite.set_published text_eq find map_if count_if
published = refl

publish-get_example :
    (c : Content) × ((Sqlite.get (codes "t") (codes "1") table).0 ≡ ok c)
    × ((Sqlite.get (codes "t") (codes "1") (calm public_world.conn)).0
        ≡ ok (record c { published_at = some 8; updated_at = 9 }))
publish-get_example =
    publish-get adapter false (λ n. []) 8 9 (codes "t") (codes "1") world public_world published

abbrev draft_world : World (Conn Content)
draft_world = record {
  conn = record { rows = record (page (codes "t")) { updated_at = 11 } ∷ []; faults = [] };
  events = [];
}

unpublished :
    unpublish (over adapter false (λ n. [])) 11 (codes "t") (codes "1") public_world
    ≡ (ok tt, draft_world)
unfolding unpublish Sqlite.get Sqlite.set_published text_eq find map_if count_if
unpublished = refl

tenants_differ : text_eq (codes "other") (codes "t") ≡ false
unfolding text_eq
tenants_differ = refl

Write-filter_example :
    filter (of_tenant (codes "t")) (Sqlite.delete (codes "other") (codes "1") table).1.rows
    ≡ filter (of_tenant (codes "t")) table.rows
Write-filter_example =
    Write-filter adapter (codes "other") (codes "t") (Write.deleted table (codes "1"))
      tenants_differ

listed : Sqlite.list (codes "t") [] (negsuc 0) (pos 0) table ≡ (ok (page (codes "t") ∷ []), table)
unfolding Sqlite.list filter sort_by text_eq
listed = refl

list-bounds_example :
    (length (page (codes "t") ∷ []) ≤ 1000)
    × ((c : Content)
        → In c (page (codes "t") ∷ [])
        → In c table.rows
          × (c.tenant_id ≡ codes "t")
          × (text_eq [] (codes "") ≡ false → c.kind ≡ []))
list-bounds_example =
    list-bounds (codes "t") [] (negsuc 0) (pos 0) (page (codes "t") ∷ []) table table listed

-- A second row with the id of the first is reported as one with its slug: SQLite's message for a
-- violated primary key names a unique constraint.
created_twice :
    (Sqlite.create adapter 5 (some (record (page (codes "t")) { slug = codes "other" })) table).0
    ≡ err Error.slug_taken
unfolding Sqlite.create text_eq count_if to_lower contains Sqlite.classify_insert_error last_of
created_twice = refl
