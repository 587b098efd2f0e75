-- ===== src/Tenant/Handler/Boundary.antt =====
-- The tenants that a request may change: its principal's own.
use pk_modules.Common.{
  ℕ, ◌≡◌, refl, sym, ap, subst, ◌∙◌, inl, inr, Bool, not, some, List, [], Action, raise_if, lift,
  ◌>>=◌, ◌>>◌, filter, arith, Option-cases,
}
use pk_modules.Common.Keeps.{
  Keeps, Keeps-bind, Keeps-lift, Keeps-or_raise, Keeps-raise_if, Keeps-if,
}
use pk_modules.Common.Rows.{filter-map_if, filter-filter}
use pk_modules.Common.Text.{Text, text_eq, text_eq_iff, trim_space, is_blank, contains, codes}
use pk_modules.Sql.{Conn, Adapter}
use pk_modules.Http.{
  Method, Request, Answer, Keeps-or_status, tenant_of, tenant_of_lem, entity_id_from_path,
}
use pk_modules.Tenant.{Error, Tenant, validate, id_required}
use pk_modules.Tenant.Sqlite
use pk_modules.Tenant.Sqlite.{store, has_id, overwrite}
use pk_modules.Tenant.Sqlite.Keys.{update_rows, delete_rows, get_rows}
use pk_modules.Tenant.Service
use pk_modules.Tenant.Handler.{
  Body, api_path, list, get, create, update, delete, route, serve, lookup_status, update_status,
}

-- The tenants that are not the caller's.
abbrev pub is_other : Text → Tenant → Bool
is_other self t = not (text_eq t.id self)

module _ (a : Adapter Error) (self : Text) (others : List Tenant) where
  -- The other tenants are these.
  abbrev IsKept : Conn Tenant → Type 0
  IsKept s = filter (is_other self) s.rows ≡ others

  update-IsKept : (now : ℕ) (t : Tenant) → t.id ≡ self → Keeps IsKept (Sqlite.update a now (some t))
  update-IsKept now t e s p = elim (update_rows a now t s) [
    | inl k ↦ ap (filter (is_other self)) k ∙ p
    | inr (k, _) ↦ rw k (
        filter-map_if (is_other self) (has_id t.id) (overwrite (record t { updated_at = now }))
          s.rows (λ x q. ground (arith, e, text_eq_iff x.id t.id, text_eq_iff x.id self))
          (λ x. refl)
        ∙ p)
  ]

  delete-IsKept : Keeps IsKept (Sqlite.delete self)
  delete-IsKept s p = elim (delete_rows self s) [
    | inl k ↦ ap (filter (is_other self)) k ∙ p
    | inr k ↦ rw k (filter-filter (is_other self) (has_id self) s.rows (λ x q. ground arith) ∙ p)
  ]

  get-IsKept : (id : Text) → Keeps IsKept (Service.get (store a) id)
  unfolding Service.get
  get-IsKept id =
      Keeps-raise_if IsKept (is_blank id) id_required (Sqlite.get id)
        (λ _ s p. ap (filter (is_other self)) (get_rows id s) ∙ p)

  update_service-IsKept :
      (now : ℕ) (t : Tenant) → t.id ≡ self → Keeps IsKept (Service.update (store a) now (some t))
  unfolding Service.update
  update_service-IsKept now t e = Keeps-lift IsKept (validate (some t)) _ (λ _ _.
      Keeps-raise_if IsKept (is_blank t.id) id_required _ (λ _.
        Keeps-bind IsKept (Sqlite.update a now (some t)) _ (update-IsKept now t e) (λ row s p. p)))

  delete_service-IsKept : Keeps IsKept (Service.delete (store a) self)
  unfolding Service.delete
  delete_service-IsKept =
      Keeps-raise_if IsKept (is_blank self) id_required (Sqlite.delete self) (λ _. delete-IsKept)

  module _ (r : Request Tenant) (own : trim_space r.principal.tenant_id ≡ self) where
    list-IsKept : Keeps IsKept (list (store a) r)
    unfolding list
    list-IsKept =
        Keeps-lift IsKept (tenant_of r.principal) _
          (λ t _. Keeps-bind IsKept _ _ (λ s p. get-IsKept t s p) (λ found s p. p))

    -- A route for an identifier goes on only for the caller's own.
    guarded :
        (id : Text) (m : Action ℕ (Conn Tenant) (Answer Body))
        → (id ≡ self → Keeps IsKept m)
        → Keeps IsKept
            (lift (tenant_of r.principal) >>= λ t. raise_if (not (text_eq id t)) 404 >> m)
    guarded id m k = Keeps-lift IsKept (tenant_of r.principal) _ (λ t h.
        Keeps-raise_if IsKept (not (text_eq id t)) 404 m
          (λ e. k ((text_eq_iff id t).0 (ground arith) ∙ tenant_of_lem r.principal t h ∙ own)))

    get-IsKept_own : (id : Text) → Keeps IsKept (get (store a) r id)
    unfolding get
    get-IsKept_own id = guarded id _ (λ e.
        Keeps-bind IsKept _ _
          (Keeps-or_status IsKept lookup_status (Service.get (store a) id) (get-IsKept id))
          (λ t s p. p))

    update-IsKept_own : (now : ℕ) (id : Text) → Keeps IsKept (update (store a) r now id)
    unfolding update
    update-IsKept_own now id = guarded id _ (λ e. Keeps-or_raise IsKept r.body 400 _ (λ given _.
        Keeps-bind IsKept _ _
          (Keeps-or_status IsKept update_status
            (Service.update (store a) now (some (record given { id = id })))
            (update_service-IsKept now (record given { id = id }) e))
          (λ t s p. p)))

    delete-IsKept_own : (id : Text) → Keeps IsKept (delete (store a) r id)
    unfolding delete
    delete-IsKept_own id = guarded id _ (λ e.
        Keeps-bind IsKept _ _
          (Keeps-or_status IsKept lookup_status (Service.delete (store a) id) (
            subst (λ (x : Text). Keeps IsKept (Service.delete (store a) x)) (sym e)
              delete_service-IsKept))
          (λ t s p. p))

    create-IsKept : Keeps IsKept (create (store a) r)
    unfolding create
    create-IsKept = Keeps-lift IsKept (tenant_of r.principal) _ (λ t _ s p. p)

    route-IsKept :
        (now : ℕ) (method : Method) (id : Text) → Keeps IsKept (route (store a) r now method id)
    unfolding route
    route-IsKept now Method.get id =
        Keeps-if IsKept (text_eq id []) _ _ list-IsKept (get-IsKept_own id)
    route-IsKept now Method.post id = Keeps-if IsKept (text_eq id []) _ _ create-IsKept (λ s p. p)
    route-IsKept now Method.put id =
        Keeps-if IsKept (text_eq id []) _ _ (λ s p. p) (update-IsKept_own now id)
    route-IsKept now Method.delete id =
        Keeps-if IsKept (text_eq id []) _ _ (λ s p. p) (delete-IsKept_own id)
    route-IsKept now Method.other id = λ s p. p

    serve-IsKept : (now : ℕ) → Keeps IsKept (serve (store a) r now)
    unfolding serve filter text_eq
    serve-IsKept now s p = elim (Option-cases (entity_id_from_path r.decode r.path api_path)) [
      | inl e ↦ rw e p
      | inr ((id, verb), e) ↦ rw e (
          Keeps-if IsKept (contains id (codes "/")) _ _ (λ s p. p) (route-IsKept now r.method id) s
            p)
    ]

-- Whatever a request to the tenants' API asks for, with whatever path, method and body, and whatever
-- the driver reports, the records of all tenants but the one of the request's principal stay as they
-- were, in their order.
pub serve-is_other :
    (a : Adapter Error) (r : Request Tenant) (now : ℕ) (s : Conn Tenant)
    → filter (is_other (trim_space r.principal.tenant_id)) (serve (store a) r now s).1.rows
      ≡ filter (is_other (trim_space r.principal.tenant_id)) s.rows
serve-is_other a r now s =
    let self = trim_space r.principal.tenant_id in
    serve-IsKept a self (filter (is_other self) s.rows) r refl now s refl
