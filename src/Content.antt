-- ===== src/Content.antt =====
-- pkg/content: the entity (pkg/content/entities.go), the errors and the contract of store/store.go.
-- The children model the SQLite store and the service.
pub mod Sqlite
pub mod Postgres
pub mod Service
pub mod Handler
use pk_modules.Common.{
  ℕ, Bool, true, false, ◌||◌, Option, none, some, List, Action, Result, ok, err, if◌then◌else◌, ltb,
  length,
}
use pk_modules.Common.Int.{ℤ}
use pk_modules.Common.Text.{Text, codes, is_blank, text_eq}

pub data Error : Type 0 where
  nil_content tenant_id_required kind_required slug_required title_required : Error
  long_slug long_kind long_title body_format_unknown id_required : Error
  not_found duplicate slug_taken : Error
  driver : Text → Error

-- `Content` of the module and of its store, which are copied field by field, with instants in
-- nanoseconds since Go's zero time
pub record Content : Type 0 where
  pub id : Text
  pub tenant_id : Text
  pub kind : Text
  pub slug : Text
  pub title : Text
  pub body : Text
  pub body_format : Text
  pub author_id : Text
  pub published_at : Option ℕ
  pub created_at : ℕ
  pub updated_at : ℕ

abbrev pub markdown : Text
markdown = codes "markdown"

-- The values of `body_format` that the switch lets through.
unfoldable pub is_format : Text → Bool
is_format f =
    text_eq f (codes "")
    || (text_eq f markdown || (text_eq f (codes "html") || text_eq f (codes "text")))

-- `(*Content).Validate`
unfoldable pub validate : Option Content → Result Error (Unit {0})
unfolding is_format
validate none = err nil_content
validate (some c) =
    if is_blank c.tenant_id
    then err tenant_id_required
    else if is_blank c.kind
    then err kind_required
    else if is_blank c.slug
    then err slug_required
    else if is_blank c.title
    then err title_required
    else if ltb 200 (length c.slug)
    then err long_slug
    else if ltb 50 (length c.kind)
    then err long_kind
    else if ltb 300 (length c.title)
    then err long_title
    else if is_format c.body_format
    then ok tt
    else err body_format_unknown

-- `store.Store`. A call that reads the clock takes the reading first; `update` returns the row as it
-- leaves it behind the caller's pointer.
pub record Store (S : Type 0) : Type 0 where
  pub create : ℕ → Option Content → Action Error S (Unit {0})
  pub get : Text → Text → Action Error S Content
  pub get_by_slug : Text → Text → Text → Action Error S Content
  pub list : Text → Text → ℤ → ℤ → Action Error S (List Content)
  pub update : ℕ → Option Content → Action Error S Content
  pub delete : Text → Text → Action Error S (Unit {0})
  pub set_published : ℕ → Text → Text → Option ℕ → Action Error S (Unit {0})
