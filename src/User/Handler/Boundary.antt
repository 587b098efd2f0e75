-- ===== src/User/Handler/Boundary.antt =====
-- The users that a request may change: those of its principal's tenant.
use pk_modules.Common.{
  ℕ, ◌≡◌, refl, sym, subst, ◌∙◌, inl, inr, true, not, Option, none, some, List, [], Action, lift,
  pure, ◌>>=◌, ◌>>◌, if◌then◌else◌, filter, Result-cases, Option-cases,
}
use pk_modules.Common.Keeps.{
  Keeps, Keeps-bind, Keeps-lift, Keeps-or_raise, Keeps-raise_if, Keeps-if,
}
use pk_modules.Common.Text.{Text, text_eq, trim_space, contains, codes}
use pk_modules.Passhash.{Hasher}
use pk_modules.Sql.{Conn, Adapter}
use pk_modules.Http.{
  Method, Request, Answer, write_json, or_status, Keeps-or_status, tenant_of, tenant_of_lem,
  entity_id_from_path, parse_pagination,
}
use pk_modules.User.{Error, User}
use pk_modules.User.Service
use pk_modules.User.Service.{Lookup}
use pk_modules.User.Handler.{
  Body, Input, Readings, api_path, user_of, can_mutate_user, list, get, create, update, delete,
  route, serve, check_password, set_or_delete, set_existing, lookup_status, create_status,
  update_status,
}
use pk_modules.User.Handler.Writes.{
  is_foreign, over, IsKept, svc, service_create-IsKept, service_get-IsKept, service_list-IsKept,
  service_update-IsKept, service_delete-IsKept, set_password-IsKept,
}

module _ (a : Adapter Error) (hasher : Option Hasher) (tenants : Option (Text → Lookup))
    (self : Text) (foreign : List User) (r : Request Input)
    (own : trim_space r.principal.tenant_id ≡ self) where
  abbrev Kept : Conn User → Type 0
  Kept = IsKept a hasher tenants self foreign

  abbrev users : Service.Service (Conn User)
  users = svc a hasher tenants self foreign

  -- What runs for the tenant of the principal.
  scoped :
      (f : Text → Action ℕ (Conn User) (Answer Body))
      → Keeps Kept (f self)
      → Keeps Kept (lift (tenant_of r.principal) >>= f)
  scoped f k =
      Keeps-lift Kept (tenant_of r.principal) f (λ t h.
        subst (λ (x : Text). Keeps Kept (f x)) (sym (tenant_of_lem r.principal t h ∙ own)) k)

  list-Kept : Keeps Kept (list users r)
  unfolding list
  list-Kept = scoped _ (
      Keeps-or_raise Kept (parse_pagination r.query) 400 _ (λ page _.
        Keeps-bind Kept _ _
          (Keeps-or_status Kept (λ e. 500) (Service.list users self page.0 page.1)
            (service_list-IsKept a hasher tenants self foreign self page.0 page.1))
          (λ rows s p. p)))

  get-Kept : (id : Text) → Keeps Kept (get users r id)
  unfolding get
  get-Kept id = scoped _ (
      Keeps-bind Kept _ _
        (Keeps-or_status Kept lookup_status (Service.get users self id)
          (service_get-IsKept a hasher tenants self foreign self id))
        (λ u s p. p))

  set_or_delete-Kept :
      (t : Readings) (id password : Text) → Keeps Kept (set_or_delete users r t self id password)
  unfolding set_or_delete
  set_or_delete-Kept t id password s p =
      let call = Service.set_password users t.set_now t.store_now t.salt self id password in
      let kept =
        set_password-IsKept a hasher tenants self foreign t.set_now t.store_now t.salt id password s
          p in
      elim (Result-cases (call s).0) [
        | inl (_, k) ↦ rw (set_or_delete, k) kept
        | inr (e, k) ↦
            rw (set_or_delete, k)
              (service_delete-IsKept a hasher tenants self foreign id (call s).1 kept)
      ]

  set_existing-Kept :
      (t : Readings) (id password : Text) → Keeps Kept (set_existing users r t self id password)
  unfolding set_existing
  set_existing-Kept t id password =
      Keeps-or_status Kept (λ e. 400)
        (Service.set_password users t.set_now t.store_now t.salt self id password)
        (set_password-IsKept a hasher tenants self foreign t.set_now t.store_now t.salt id password)

  -- The last steps of a creation and of an update.
  password-Kept :
      (input : Input) (m : Action ℕ (Conn User) (Unit {0})) (answer : Answer Body)
      → Keeps Kept m
      → Keeps Kept ((if text_eq input.password [] then pure tt else m) >> pure answer)
  password-Kept input m answer h =
      let set : Action ℕ (Conn User) (Unit {0}) =
        if text_eq input.password [] then pure tt else m in
      Keeps-bind Kept set (λ _. pure answer)
        (Keeps-if Kept (text_eq input.password []) (pure tt) m (λ s p. p) h) (λ _ s p. p)

  create-Kept : (t : Readings) → Keeps Kept (create users r t)
  unfolding create
  create-Kept t = scoped _ (
      Keeps-or_raise Kept r.body 400 _ (λ input _.
        Keeps-lift Kept (check_password users r input) _ (λ _ _.
          let u : User = user_of input self [] (elim input.active [ none ↦ true | some b ↦ b ]) in
          Keeps-bind Kept (or_status create_status (Service.create users t.now (some u))) _
            (Keeps-or_status Kept create_status (Service.create users t.now (some u))
              (service_create-IsKept a hasher tenants self foreign t.now u refl))
            (λ v.
              password-Kept input (set_or_delete users r t self v.id input.password)
                (write_json 201 (Body.one v)) (set_or_delete-Kept t v.id input.password)))))

  update-Kept : (t : Readings) (id : Text) → Keeps Kept (update users r t id)
  unfolding update
  update-Kept t id = scoped _ (
      Keeps-raise_if Kept (not (can_mutate_user r.principal id)) 403 _ (λ _.
        Keeps-or_raise Kept r.body 400 _ (λ input _.
          Keeps-lift Kept (check_password users r input) _ (λ _ _.
            Keeps-bind Kept (or_status lookup_status (Service.get users self id)) _
              (Keeps-or_status Kept lookup_status (Service.get users self id)
                (service_get-IsKept a hasher tenants self foreign self id))
              (λ existing.
                let u : User =
                  user_of input self id
                    (elim input.active [ none ↦ existing.active | some b ↦ b ]) in
                Keeps-bind Kept (or_status update_status (Service.update users t.now (some u))) _
                  (Keeps-or_status Kept update_status (Service.update users t.now (some u))
                    (service_update-IsKept a hasher tenants self foreign t.now u refl))
                  (λ v.
                    password-Kept input (set_existing users r t self id input.password)
                      (write_json 200 (Body.one v)) (set_existing-Kept t id input.password)))))))

  delete-Kept : (id : Text) → Keeps Kept (delete users r id)
  unfolding delete
  delete-Kept id = scoped _ (
      Keeps-raise_if Kept (not (can_mutate_user r.principal id)) 403 _ (λ _.
        Keeps-raise_if Kept (text_eq r.principal.subject id) 409 _ (λ _.
          Keeps-bind Kept _ _
            (Keeps-or_status Kept lookup_status (Service.delete users self id)
              (service_delete-IsKept a hasher tenants self foreign id))
            (λ _ s p. p))))

  route-Kept : (t : Readings) (method : Method) (id : Text) → Keeps Kept (route users r t method id)
  unfolding route
  route-Kept t Method.get id = Keeps-if Kept (text_eq id []) _ _ list-Kept (get-Kept id)
  route-Kept t Method.post id = Keeps-if Kept (text_eq id []) _ _ (create-Kept t) (λ s p. p)
  route-Kept t Method.put id = Keeps-if Kept (text_eq id []) _ _ (λ s p. p) (update-Kept t id)
  route-Kept t Method.delete id = Keeps-if Kept (text_eq id []) _ _ (λ s p. p) (delete-Kept id)
  route-Kept t Method.other id = λ s p. p

  serve-Kept : (t : Readings) → Keeps Kept (serve users r t)
  unfolding serve filter text_eq
  serve-Kept t s p = elim (Option-cases (entity_id_from_path r.decode r.path api_path)) [
    | inl e ↦ rw e p
    | inr ((id, verb), e) ↦
        rw e (Keeps-if Kept (contains id (codes "/")) _ _ (λ s p. p) (route-Kept t r.method id) s p)
  ]

-- Whatever a request to the users' API asks for, with whatever path, method and body, whatever
-- scopes its principal has, and whatever the hasher, the tenant lookup and the driver answer, the
-- users of all tenants but the principal's stay as they were, in their order.
pub serve-is_foreign :
    (a : Adapter Error) (hasher : Option Hasher) (tenants : Option (Text → Lookup))
    (r : Request Input) (t : Readings) (s : Conn User)
    → filter
        (is_foreign (trim_space r.principal.tenant_id))
        (serve (over a hasher tenants) r t s).1.rows
      ≡ filter (is_foreign (trim_space r.principal.tenant_id)) s.rows
serve-is_foreign a hasher tenants r t s =
    let self = trim_space r.principal.tenant_id in
    serve-Kept a hasher tenants self (filter (is_foreign self) s.rows) r refl t s refl
