-- ===== src/Content/Service.antt =====
-- pkg/content/service.go over any store. An audit emission is recorded as an attempt: the source
-- drops its errors.
pub mod Publishing
use pk_modules.Common.{
  ℕ, ◌/◌, ◌%◌, Bool, Option, none, some, List, [], ◌∷◌, ◌++◌, Action, Result, ok, err, pure, lift,
  raise, raise_if, ◌>>=◌, ◌>>◌, ◌==◌, if◌then◌else◌, leb, length, take,
}
use pk_modules.Common.Int.{ℤ}
use pk_modules.Common.Text.{Text, codes, is_blank, text_eq}
use pk_modules.Content.{Error, Content, Store, validate, markdown, nil_content, id_required}

pub record Event : Type 0 where
  pub action : Text
  pub resource : Text
  pub kind : Text
  pub slug : Text
  pub published_at : Option ℕ

-- `service`; `audited` says that an emitter is wired, `unix_nano` prints an instant as `%d` does
-- its nanoseconds since 1970
pub record Service (S : Type 0) : Type 0 where
  pub store : Store S
  pub audited : Bool
  pub unix_nano : ℕ → Text

pub record World (S : Type 0) : Type 0 where
  pub conn : S
  pub events : List Event

unfoldable pub shorten : Text → Text
shorten s = if leb (length s) 16 then s else take 16 s

module _ {S : Type 0} (svc : Service S) where
  unfoldable pub generate_id : ℕ → Text → Text → Text
  unfolding shorten
  generate_id created_at tenant_id slug =
      svc.unix_nano created_at ++ codes "-" ++ shorten tenant_id ++ codes "-" ++ shorten slug

  -- A call of the store.
  abbrev pub stored : {A : Type 0} → Action Error S A → Action Error (World S) A
  stored m w = let (r, conn) = m w.conn in (r, record w { conn = conn })

  unfoldable pub emit : Content → Text → Option ℕ → Action Error (World S) (Unit {0})
  emit c action published_at w = (
    ok tt,
    if svc.audited
        then record w {
          events =
              w.events
              ++ (record {
                action = action;
                resource = codes "content:" ++ c.id;
                kind = c.kind;
                slug = c.slug;
                published_at = published_at;
              })
                ∷ [];
        }
        else w,
  )

  -- The defaults that Create fills in, in its order.
  unfoldable pub with_defaults : ℕ → Content → Content
  unfolding generate_id
  with_defaults now c =
      let created = if c.created_at == 0 then now else c.created_at in
      record c {
        body_format = if text_eq c.body_format [] then markdown else c.body_format;
        created_at = created;
        updated_at = if c.updated_at == 0 then created else c.updated_at;
        id = if is_blank c.id then generate_id created c.tenant_id c.slug else c.id;
      }

  -- Returns the content as it leaves it behind the caller's pointer; the store's own reading of the
  -- clock is not used, since the time of creation is set.
  unfoldable pub create : ℕ → Option Content → Action Error (World S) Content
  unfolding with_defaults emit
  create now none = lift (validate none) >> raise nil_content
  create now (some c) = do
    lift (validate (some c))
    stored (svc.store.create now (some (with_defaults now c)))
    emit (with_defaults now c) (codes "content.created") none
    pure (with_defaults now c)

  unfoldable pub get : Text → Text → Action Error (World S) Content
  get tenant id = stored (svc.store.get tenant id)

  unfoldable pub get_by_slug : Text → Text → Text → Action Error (World S) Content
  get_by_slug tenant kind slug = stored (svc.store.get_by_slug tenant kind slug)

  unfoldable pub list : Text → Text → ℤ → ℤ → Action Error (World S) (List Content)
  list tenant kind limit offset = stored (svc.store.list tenant kind limit offset)

  -- What the server owns of a row, from the row that exists.
  abbrev pub preserving : Content → Content → Content
  preserving existing c = record c {
    body_format = if text_eq c.body_format [] then markdown else c.body_format;
    author_id = existing.author_id;
    published_at = existing.published_at;
    created_at = existing.created_at;
  }

  unfoldable pub update : ℕ → Option Content → Action Error (World S) Content
  unfolding emit
  update now none = lift (validate none) >> raise nil_content
  update now (some c) = do
    lift (validate (some c))
    raise_if (is_blank c.id) id_required
    existing ← stored (svc.store.get c.tenant_id c.id)
    row ← stored (svc.store.update now (some (preserving existing c)))
    let out : Content = record (preserving existing c) { updated_at = row.updated_at }
    emit out (codes "content.updated") none
    pure out

  unfoldable pub delete : Text → Text → Action Error (World S) (Unit {0})
  unfolding emit
  delete tenant id = do
    existing ← stored (svc.store.get tenant id)
    stored (svc.store.delete tenant id)
    emit existing (codes "content.deleted") none

  -- The store takes its own reading of the clock, for updated_at.
  unfoldable pub publish : ℕ → ℕ → Text → Text → Action Error (World S) (Unit {0})
  unfolding emit
  publish now stored_now tenant id = do
    existing ← stored (svc.store.get tenant id)
    stored (svc.store.set_published stored_now tenant id (some now))
    emit (record existing { published_at = some now }) (codes "content.published") (some now)

  unfoldable pub unpublish : ℕ → Text → Text → Action Error (World S) (Unit {0})
  unfolding emit
  unpublish stored_now tenant id = do
    existing ← stored (svc.store.get tenant id)
    stored (svc.store.set_published stored_now tenant id none)
    emit (record existing { published_at = none }) (codes "content.unpublished") none
