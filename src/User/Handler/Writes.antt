-- ===== src/User/Handler/Writes.antt =====
-- What the user service writes on behalf of a tenant: nothing of the users of another.
use pk_modules.Common.{
  ℕ, ◌≡◌, refl, ap, ◌∙◌, inl, inr, Bool, not, Option, some, List, [], if◌then◌else◌, ◌==◌, filter,
  map_if, arith,
}
use pk_modules.Common.Keeps.{Keeps, Keeps-bind, Keeps-lift, Keeps-or_raise, Keeps-raise_if}
use pk_modules.Common.Int.{ℤ, pos}
use pk_modules.Common.Rows.{filter-snoc, filter-map_if, filter-filter}
use pk_modules.Common.Text.{Text, text_eq, text_eq_iff, is_blank}
use pk_modules.Passhash.{Hasher}
use pk_modules.Sql.{Conn, Adapter}
use pk_modules.User.{
  Error, User, validate, validate_password, tenant_id_required, id_required, plaintext_required,
  no_hasher, hash_failed,
}
use pk_modules.User.Sqlite
use pk_modules.User.Sqlite.{store, is_key, overwrite, stamp}
use pk_modules.User.Sqlite.Keys.{create_rows, update_rows, rehashed_rows, delete_rows, read_rows}
use pk_modules.User.Service
use pk_modules.User.Service.{Lookup, Service, with_id, validate_tenant}

-- The users of other tenants.
abbrev pub is_foreign : Text → User → Bool
is_foreign tenant u = not (text_eq u.tenant_id tenant)

-- The service over an adapter's store.
abbrev pub over : Adapter Error → Option Hasher → Option (Text → Lookup) → Service (Conn User)
over a hasher tenants = record { store = store a; hasher = hasher; tenants = tenants }

module _ (a : Adapter Error) (hasher : Option Hasher) (tenants : Option (Text → Lookup))
    (self : Text) (foreign : List User) where
  -- The users of the other tenants are these.
  abbrev pub IsKept : Conn User → Type 0
  IsKept s = filter (is_foreign self) s.rows ≡ foreign

  abbrev pub svc : Service (Conn User)
  svc = over a hasher tenants

  create-IsKept :
      (now : ℕ) (u : User) → u.tenant_id ≡ self → Keeps IsKept (Sqlite.create a now (some u))
  create-IsKept now u e s p = elim (create_rows a now u s) [
    | inl k ↦ ap (filter (is_foreign self)) k ∙ p
    | inr (k, _) ↦ rw k (
        filter-snoc (is_foreign self) s.rows (stamp now u)
          (ground (arith, e, text_eq_iff u.tenant_id self))
        ∙ p)
  ]

  -- A change of the rows of a key in the tenant.
  changed :
      (id : Text) (f : User → User) (rows : List User)
      → ((x : User) → (f x).tenant_id ≡ x.tenant_id)
      → filter (is_foreign self) (map_if (is_key self id) f rows) ≡ filter (is_foreign self) rows
  changed id f rows same =
      filter-map_if (is_foreign self) (is_key self id) f rows (λ x q. ground arith)
        (λ x. rw (same x) refl)

  update-IsKept :
      (now : ℕ) (u : User) → u.tenant_id ≡ self → Keeps IsKept (Sqlite.update a now (some u))
  update-IsKept now u e s p = elim (update_rows a now u s) [
    | inl k ↦ ap (filter (is_foreign self)) k ∙ p
    | inr (k, _) ↦
        rw (k, e) (changed u.id (overwrite (record u { updated_at = now })) s.rows (λ x. refl) ∙ p)
  ]

  rehash-IsKept :
      (now : ℕ) (id hash : Text) (at : ℕ)
      → Keeps IsKept (Sqlite.update_pass_hash now self id hash at)
  rehash-IsKept now id hash at s p = elim (rehashed_rows now self id hash at s) [
    | inl k ↦ ap (filter (is_foreign self)) k ∙ p
    | inr k ↦ rw k (
        changed id (λ u. record u { pass_hash = hash; updated_at = if at == 0 then now else at })
          s.rows (λ x. refl)
        ∙ p)
  ]

  delete-IsKept : (id : Text) → Keeps IsKept (Sqlite.delete self id)
  delete-IsKept id s p = elim (delete_rows self id s) [
    | inl k ↦ ap (filter (is_foreign self)) k ∙ p
    | inr k ↦
        rw k (filter-filter (is_foreign self) (is_key self id) s.rows (λ x q. ground arith) ∙ p)
  ]

  get-IsKept : (tenant id : Text) → Keeps IsKept (Sqlite.get tenant id)
  get-IsKept tenant id s p =
      ap (filter (is_foreign self)) (read_rows s tenant id (pos 0) (pos 0)).0 ∙ p

  list-IsKept : (tenant : Text) (limit offset : ℤ) → Keeps IsKept (Sqlite.list tenant limit offset)
  list-IsKept tenant limit offset s p =
      ap (filter (is_foreign self)) (read_rows s tenant [] limit offset).3 ∙ p

  -- The service's calls for the tenant.
  pub service_create-IsKept :
      (now : ℕ) (u : User) → u.tenant_id ≡ self → Keeps IsKept (Service.create svc now (some u))
  unfolding Service.create
  service_create-IsKept now u e = Keeps-lift IsKept (validate (some u)) _ (λ _ _.
      Keeps-lift IsKept (validate_tenant svc u.tenant_id) _ (λ _ _.
        Keeps-bind IsKept (Sqlite.create a now (some (with_id u))) _
          (create-IsKept now (with_id u) e) (λ row s p. p)))

  pub service_get-IsKept : (tenant id : Text) → Keeps IsKept (Service.get svc tenant id)
  unfolding Service.get
  service_get-IsKept tenant id = Keeps-raise_if IsKept (is_blank tenant) tenant_id_required _ (λ _.
      Keeps-raise_if IsKept (is_blank id) id_required (Sqlite.get tenant id)
        (λ _. get-IsKept tenant id))

  pub service_list-IsKept :
      (tenant : Text) (limit offset : ℤ) → Keeps IsKept (Service.list svc tenant limit offset)
  unfolding Service.list
  service_list-IsKept tenant limit offset =
      Keeps-raise_if IsKept (is_blank tenant) tenant_id_required (Sqlite.list tenant limit offset)
        (λ _. list-IsKept tenant limit offset)

  pub service_update-IsKept :
      (now : ℕ) (u : User) → u.tenant_id ≡ self → Keeps IsKept (Service.update svc now (some u))
  unfolding Service.update
  service_update-IsKept now u e = Keeps-lift IsKept (validate (some u)) _ (λ _ _.
      Keeps-raise_if IsKept (is_blank u.id) id_required _ (λ _.
        Keeps-lift IsKept (validate_tenant svc u.tenant_id) _ (λ _ _.
          Keeps-bind IsKept (Sqlite.update a now (some u)) _ (update-IsKept now u e)
            (λ row s p. p))))

  pub service_delete-IsKept : (id : Text) → Keeps IsKept (Service.delete svc self id)
  unfolding Service.delete
  service_delete-IsKept id = Keeps-raise_if IsKept (is_blank self) tenant_id_required _ (λ _.
      Keeps-raise_if IsKept (is_blank id) id_required (Sqlite.delete self id)
        (λ _. delete-IsKept id))

  pub set_password-IsKept :
      (now store_now salt : ℕ) (id plaintext : Text)
      → Keeps IsKept (Service.set_password svc now store_now salt self id plaintext)
  unfolding Service.set_password
  set_password-IsKept now store_now salt id plaintext =
      Keeps-raise_if IsKept (is_blank self) tenant_id_required _ (λ _.
        Keeps-raise_if IsKept (is_blank id) id_required _ (λ _.
          Keeps-raise_if IsKept (text_eq plaintext []) plaintext_required _ (λ _.
            Keeps-lift IsKept (validate_password plaintext) _ (λ _ _.
              Keeps-or_raise IsKept hasher no_hasher _ (λ h _.
                Keeps-or_raise IsKept (h.hash salt plaintext) hash_failed _
                  (λ encoded _. rehash-IsKept store_now id encoded now))))))
