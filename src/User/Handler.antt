-- ===== src/User/Handler.antt =====
-- pkg/user/handler.go over the user service.
pub mod Writes
pub mod Boundary
use pk_modules.Common.{
  ℕ, Bool, true, false, not, ◌&&◌, ◌||◌, Option, none, some, List, [], ◌∷◌, Result, ok, err, Action,
  raise, raise_if, or_raise, lift, pure, ◌>>=◌, ◌>>◌, if◌then◌else◌,
}
use pk_modules.Common.Text.{Text, codes, text_eq, contains}
use pk_modules.Http.{
  Method, Principal, Request, Answer, write_json, no_content, or_status, entity_id_from_path,
  parse_pagination, tenant_of,
}
use pk_modules.User.{
  Error, User, validate_password, nil_user, tenant_id_invalid, email_invalid, email_without_at,
  username_invalid, long_password, unknown_tenant, not_found, duplicate_email, duplicate_username,
  unique_violation,
}
use pk_modules.User.Service

-- `APIPath`
abbrev pub api_path : Text
api_path = codes "/api/v1/users"

-- `userRequest`; an `active` that is left out is none
pub record Input : Type 0 where
  pub email : Text
  pub username : Text
  pub display_name : Text
  pub password : Text
  pub active : Option Bool

-- `(userRequest).user`
abbrev pub user_of : Input → Text → Text → Bool → User
user_of input tenant id active = record {
  id = id;
  tenant_id = tenant;
  email = input.email;
  username = input.username;
  pass_hash = [];
  display_name = input.display_name;
  active = active;
  created_at = 0;
  updated_at = 0;
}

-- What a handler writes.
pub data Body : Type 0 where
  one : User → Body
  many : List User → Body

abbrev pub can_set_password : Principal → Bool
can_set_password p = p.has_scope (codes "admin")

abbrev pub can_mutate_user : Principal → Text → Bool
can_mutate_user p id = p.has_scope (codes "admin") || not (text_eq p.subject id)

-- The status of a failed lookup or deletion, a failed creation, and a failed update.
unfoldable pub lookup_status : Error → ℕ
lookup_status not_found = 404
lookup_status _ = 500

unfoldable pub create_status : Error → ℕ
create_status nil_user = 400
create_status tenant_id_invalid = 400
create_status email_invalid = 400
create_status email_without_at = 400
create_status username_invalid = 400
create_status long_password = 400
create_status (unknown_tenant t) = 400
create_status duplicate_email = 409
create_status duplicate_username = 409
create_status (unique_violation m) = 409
create_status _ = 500

unfoldable pub update_status : Error → ℕ
unfolding create_status
update_status not_found = 404
update_status e = create_status e

-- The readings of the clock and the hasher's salt that a request meets.
pub record Readings : Type 0 where
  pub now : ℕ
  pub set_now : ℕ
  pub store_now : ℕ
  pub salt : ℕ

module _ {S : Type 0} (svc : Service.Service S) (r : Request Input) where
  unfoldable pub list : Action ℕ S (Answer Body)
  unfolding tenant_of parse_pagination or_status
  list = do
    tenant ← lift (tenant_of r.principal)
    page ← or_raise (parse_pagination r.query) 400
    users ← or_status (λ e. 500) (Service.list svc tenant page.0 page.1)
    pure (write_json 200 (many users))

  unfoldable pub get : Text → Action ℕ S (Answer Body)
  unfolding tenant_of lookup_status or_status
  get id = do
    tenant ← lift (tenant_of r.principal)
    u ← or_status lookup_status (Service.get svc tenant id)
    pure (write_json 200 (one u))

  -- The checks of a password in the body, which is not required.
  unfoldable pub check_password : Input → Result ℕ (Unit {0})
  check_password input =
      if not (text_eq input.password []) && not (can_set_password r.principal)
      then err 403
      else elim (validate_password input.password) [ ok _ ↦ ok tt | err e ↦ err 400 ]

  -- SetPassword of a new user, who is deleted if that fails; an error of the deletion is dropped.
  unfoldable pub set_or_delete : Readings → Text → Text → Text → Action ℕ S (Unit {0})
  set_or_delete t tenant id password s =
      let (result, s') =
        Service.set_password svc t.set_now t.store_now t.salt tenant id password s in
      let (_, undone) = Service.delete svc tenant id s' in
      elim result [ ok _ ↦ (ok tt, s') | err e ↦ (err 400, undone) ]

  unfoldable pub create : Readings → Action ℕ S (Answer Body)
  unfolding tenant_of check_password create_status set_or_delete or_status
  create t = do
    tenant ← lift (tenant_of r.principal)
    input ← or_raise r.body 400
    lift (check_password input)
    let active : Bool = elim input.active [ none ↦ true | some b ↦ b ]
    u ← or_status create_status (Service.create svc t.now (some (user_of input tenant [] active)))
    if text_eq input.password [] then pure tt else set_or_delete t tenant u.id input.password
    pure (write_json 201 (one u))

  -- SetPassword of a user who was there before.
  unfoldable pub set_existing : Readings → Text → Text → Text → Action ℕ S (Unit {0})
  unfolding or_status
  set_existing t tenant id password =
      or_status (λ e. 400)
        (Service.set_password svc t.set_now t.store_now t.salt tenant id password)

  unfoldable pub update : Readings → Text → Action ℕ S (Answer Body)
  unfolding tenant_of check_password lookup_status update_status set_existing or_status
  update t id = do
    tenant ← lift (tenant_of r.principal)
    raise_if (not (can_mutate_user r.principal id)) 403
    input ← or_raise r.body 400
    lift (check_password input)
    existing ← or_status lookup_status (Service.get svc tenant id)
    let active : Bool = elim input.active [ none ↦ existing.active | some b ↦ b ]
    u ← or_status update_status (Service.update svc t.now (some (user_of input tenant id active)))
    if text_eq input.password [] then pure tt else set_existing t tenant id input.password
    pure (write_json 200 (one u))

  unfoldable pub delete : Text → Action ℕ S (Answer Body)
  unfolding tenant_of lookup_status or_status
  delete id = do
    tenant ← lift (tenant_of r.principal)
    raise_if (not (can_mutate_user r.principal id)) 403
    raise_if (text_eq r.principal.subject id) 409
    or_status lookup_status (Service.delete svc tenant id)
    pure no_content

  -- The switch of ServeHTTP.
  unfoldable pub route : Readings → Method → Text → Action ℕ S (Answer Body)
  unfolding list get create update delete
  route t Method.get id = if text_eq id [] then list else get id
  route t Method.post id = if text_eq id [] then create t else raise 405
  route t Method.put id = if text_eq id [] then raise 400 else update t id
  route t Method.delete id = if text_eq id [] then raise 400 else delete id
  route t Method.other id = raise 405

  -- `ServeHTTP`; what follows the identifier in the path is not looked at.
  unfoldable pub serve : Readings → Action ℕ S (Answer Body)
  unfolding entity_id_from_path route
  serve t = elim (entity_id_from_path r.decode r.path api_path) [
    | none ↦ raise 400
    | some (id, verb) ↦ if contains id (codes "/") then raise 404 else route t r.method id
  ]
