-- ===== src/User/Sqlite/Keys.antt =====
-- The table of users keeps its three keys through every call of the store.
use pk_modules.Common.{
  ℕ, ◌≤◌, ◌≡◌, ◌⊎◌, refl, sym, subst, inl, inr, Bool, ◌&&◌, Option, none, some, List, [], ◌∷◌, ◌++◌,
  if◌then◌else◌, ◌==◌, count_if, filter, map_if, map_if-count_zero, arith, Bool-cases,
}
use pk_modules.Common.Int.{ℤ}
use pk_modules.Common.Rows.{other, count_if-and_le}
use pk_modules.Common.Text.{Text, text_eq, text_eq_iff}
use pk_modules.Sql.{Conn, Adapter}
use pk_modules.Sql.Keys.{Unique, Unique-snoc, Unique-filter, Unique-map_if_same, Unique-map_if}
use pk_modules.User.{Error, User}
use pk_modules.User.Sqlite.{
  has_id, has_email, has_username, is_key, violated, broken, stamp, clash, overwrite, create, get,
  get_by_email, get_by_username, list, update, update_pass_hash, delete,
}

-- The values of the two indexes on a tenant's users.
abbrev pub email_key : Text × Text → User → Bool
email_key k = has_email k.0 k.1

abbrev pub username_key : Text × Text → User → Bool
username_key k = has_username k.0 k.1

-- No two rows share an id, no two of a tenant an email, and no two of a tenant a username.
pub record HasKeys (rows : List User) : Type 0 where
  pub ids : Unique has_id rows
  pub emails : Unique email_key rows
  pub usernames : Unique username_key rows

HasKeys-snoc :
    (a : Adapter Error) (u : User) (rows : List User)
    → HasKeys rows
    → violated a u rows ≡ none
    → HasKeys (rows ++ u ∷ [])
unfolding violated broken
HasKeys-snoc a u rows k h = record {
  ids = Unique-snoc has_id u rows k.ids (λ id e. ground (arith, text_eq_iff u.id id));
  emails =
      Unique-snoc email_key u rows k.emails
        (λ q e. ground (arith, text_eq_iff u.tenant_id q.0, text_eq_iff u.email q.1));
  usernames =
      Unique-snoc username_key u rows k.usernames
        (λ q e. ground (arith, text_eq_iff u.tenant_id q.0, text_eq_iff u.username q.1));
}

HasKeys-filter : (q : User → Bool) (rows : List User) → HasKeys rows → HasKeys (filter q rows)
HasKeys-filter q rows k = record {
  ids = Unique-filter has_id q rows k.ids;
  emails = Unique-filter email_key q rows k.emails;
  usernames = Unique-filter username_key q rows k.usernames;
}

-- An update that leaves the three keys alone.
pub HasKeys-same :
    (q : User → Bool) (f : User → User) (rows : List User)
    → ((x : User)
        → ((f x).id ≡ x.id)
          × ((f x).tenant_id ≡ x.tenant_id)
          × ((f x).email ≡ x.email)
          × ((f x).username ≡ x.username))
    → HasKeys rows
    → HasKeys (map_if q f rows)
HasKeys-same q f rows same k = record {
  ids = Unique-map_if_same has_id q f rows (λ id x. rw (same x).0 refl) k.ids;
  emails = Unique-map_if_same email_key q f rows (λ p x. rw ((same x).1, (same x).2) refl) k.emails;
  usernames =
      Unique-map_if_same username_key q f rows (λ p x. rw ((same x).1, (same x).3) refl)
        k.usernames;
}

-- A key (tenant, id) is one row at most, since the id alone is.
is_key_once :
    (tenant id : Text) (rows : List User)
    → Unique has_id rows
    → count_if (is_key tenant id) rows ≤ 1
is_key_once tenant id rows k =
    omega (arith, count_if-and_le (has_id id) (λ u. text_eq u.tenant_id tenant) rows, k id)

HasKeys-overwrite :
    (a : Adapter Error) (u : User) (rows : List User)
    → HasKeys rows
    → clash a u rows ≡ none
    → HasKeys (map_if (is_key u.tenant_id u.id) (overwrite u) rows)
unfolding clash
HasKeys-overwrite a u rows k h =
    let q = is_key u.tenant_id u.id in
    elim (Bool-cases (count_if q rows == 0)) [
      | inl e ↦ subst HasKeys (sym (map_if-count_zero q (overwrite u) rows (ground arith))) k
      | inr e ↦ record {
        ids = Unique-map_if_same has_id q (overwrite u) rows (λ id x. refl) k.ids;
        emails =
            Unique-map_if email_key q (λ p. text_eq u.tenant_id p.0 && text_eq u.email p.1)
              (overwrite u) rows (λ p x s. ground (arith, text_eq_iff x.tenant_id u.tenant_id))
              (is_key_once u.tenant_id u.id rows k.ids)
              (λ p s. ground (arith, text_eq_iff u.tenant_id p.0, text_eq_iff u.email p.1))
              k.emails;
        usernames =
            Unique-map_if username_key q (λ p. text_eq u.tenant_id p.0 && text_eq u.username p.1)
              (overwrite u) rows (λ p x s. ground (arith, text_eq_iff x.tenant_id u.tenant_id))
              (is_key_once u.tenant_id u.id rows k.ids)
              (λ p s. ground (arith, text_eq_iff u.tenant_id p.0, text_eq_iff u.username p.1))
              k.usernames;
      }
    ]

-- One call of the store, with its clock reading; it may fail.
pub data Step (a : Adapter Error) : Conn User → Conn User → Type 0 where
  created : (s : Conn User) (now : ℕ) (u : Option User) → Step a s (create a now u s).1
  read : (s : Conn User) (tenant id : Text) → Step a s (get tenant id s).1
  read_email : (s : Conn User) (tenant email : Text) → Step a s (get_by_email tenant email s).1
  read_username :
      (s : Conn User) (tenant username : Text) → Step a s (get_by_username tenant username s).1
  listed :
      (s : Conn User) (tenant : Text) (limit offset : ℤ) → Step a s (list tenant limit offset s).1
  updated : (s : Conn User) (now : ℕ) (u : Option User) → Step a s (update a now u s).1
  rehashed :
      (s : Conn User) (now : ℕ) (tenant id hash : Text) (at : ℕ)
      → Step a s (update_pass_hash now tenant id hash at s).1
  deleted : (s : Conn User) (tenant id : Text) → Step a s (delete tenant id s).1

pub data Reach (a : Adapter Error) (s : Conn User) : Conn User → Type 0 where
  here : Reach a s s
  next : {t u : Conn User} → Reach a s t → Step a t u → Reach a s u

pub create_rows :
    (a : Adapter Error) (now : ℕ) (u : User) (s : Conn User)
    → ((create a now (some u) s).1.rows ≡ s.rows)
      ⊎ (((create a now (some u) s).1.rows ≡ s.rows ++ stamp now u ∷ [])
          × (violated a (stamp now u) s.rows ≡ none))
unfolding create
create_rows a now u s = ground arith

pub update_rows :
    (a : Adapter Error) (now : ℕ) (u : User) (s : Conn User)
    → ((update a now (some u) s).1.rows ≡ s.rows)
      ⊎ (((update a now (some u) s).1.rows
            ≡ map_if (is_key u.tenant_id u.id) (overwrite (record u { updated_at = now })) s.rows)
          × (clash a (record u { updated_at = now }) s.rows ≡ none))
unfolding update
update_rows a now u s = ground arith

pub rehashed_rows :
    (now : ℕ) (tenant id hash : Text) (at : ℕ) (s : Conn User)
    → ((update_pass_hash now tenant id hash at s).1.rows ≡ s.rows)
      ⊎ ((update_pass_hash now tenant id hash at s).1.rows
          ≡ map_if
              (is_key tenant id)
              (λ u. record u { pass_hash = hash; updated_at = if at == 0 then now else at })
              s.rows)
unfolding update_pass_hash
rehashed_rows now tenant id hash at s = ground arith

pub delete_rows :
    (tenant id : Text) (s : Conn User)
    → ((delete tenant id s).1.rows ≡ s.rows)
      ⊎ ((delete tenant id s).1.rows ≡ filter (other (is_key tenant id)) s.rows)
unfolding delete
delete_rows tenant id s = ground arith

pub read_rows :
    (s : Conn User) (tenant x : Text) (limit offset : ℤ)
    → ((get tenant x s).1.rows ≡ s.rows)
      × ((get_by_email tenant x s).1.rows ≡ s.rows)
      × ((get_by_username tenant x s).1.rows ≡ s.rows)
      × ((list tenant limit offset s).1.rows ≡ s.rows)
unfolding get get_by_email get_by_username list
read_rows s tenant x limit offset = (ground arith, ground arith, ground arith, ground arith)

Step-HasKeys : (a : Adapter Error) {s t : Conn User} → Step a s t → HasKeys s.rows → HasKeys t.rows
unfolding create update
Step-HasKeys a (created s now none) k = k
Step-HasKeys a (created s now (some u)) k = elim (create_rows a now u s) [
  | inl e ↦ subst HasKeys (sym e) k
  | inr (e, free) ↦ subst HasKeys (sym e) (HasKeys-snoc a (stamp now u) s.rows k free)
]
Step-HasKeys a (read s tenant id) k =
    subst HasKeys (sym (read_rows s tenant id (ℤ.pos 0) (ℤ.pos 0)).0) k
Step-HasKeys a (read_email s tenant email) k =
    subst HasKeys (sym (read_rows s tenant email (ℤ.pos 0) (ℤ.pos 0)).1) k
Step-HasKeys a (read_username s tenant username) k =
    subst HasKeys (sym (read_rows s tenant username (ℤ.pos 0) (ℤ.pos 0)).2) k
Step-HasKeys a (listed s tenant limit offset) k =
    subst HasKeys (sym (read_rows s tenant [] limit offset).3) k
Step-HasKeys a (updated s now none) k = k
Step-HasKeys a (updated s now (some u)) k = elim (update_rows a now u s) [
  | inl e ↦ subst HasKeys (sym e) k
  | inr (e, free) ↦
      subst HasKeys (sym e) (HasKeys-overwrite a (record u { updated_at = now }) s.rows k free)
]
Step-HasKeys a (rehashed s now tenant id hash at) k = elim (rehashed_rows now tenant id hash at s) [
  | inl e ↦ subst HasKeys (sym e) k
  | inr e ↦ subst HasKeys (sym e) (
      HasKeys-same (is_key tenant id)
        (λ u. record u { pass_hash = hash; updated_at = if at == 0 then now else at }) s.rows
        (λ x. (refl, refl, refl, refl)) k)
]
Step-HasKeys a (deleted s tenant id) k = elim (delete_rows tenant id s) [
  | inl e ↦ subst HasKeys (sym e) k
  | inr e ↦ subst HasKeys (sym e) (HasKeys-filter (other (is_key tenant id)) s.rows k)
]

-- Starting from a table in which no two users share an id, and no two of a tenant an email or a
-- username, the same holds after any calls of the store, with whatever arguments, clock readings
-- and driver errors, and whatever the adapter makes of the driver's messages.
pub Reach-HasKeys :
    (a : Adapter Error) {s t : Conn User} → Reach a s t → HasKeys s.rows → HasKeys t.rows
Reach-HasKeys a here k = k
Reach-HasKeys a (next path step) k = Step-HasKeys a step (Reach-HasKeys a path k)
