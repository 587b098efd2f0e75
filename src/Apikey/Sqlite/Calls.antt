-- ===== src/Apikey/Sqlite/Calls.antt =====
-- What each call of the SQLite store returns and leaves in the table, for the contract.
use pk_modules.Common.{
  ℕ, ◌≡◌, ◌≢◌, ◌↔◌, ◌⊎◌, inl, inr, Bool, true, ◌&&◌, Option, none, some, List, [], ◌∷◌, ◌++◌, ok,
  err, ◌==◌, if◌then◌else◌, count_if, sort_by, arith, filter, find, Option-cases, map_if, IsOrder,
}
use pk_modules.Common.Text.{Text, codes, text_eq, text_eq_iff}
use pk_modules.Sql.{Conn, Adapter, answers}
use pk_modules.Apikey.{Error, not_found, duplicate}
use pk_modules.Apikey.Store.{Row, stamp, IsKey, newer, mark_use}
use pk_modules.Apikey.Sqlite.{
  create, get, get_by_prefix, list, revoke, update_last_used, has_id, is_key, is_live,
}

pub is_key_iff : (tenant id : Text) (r : Row) → (is_key tenant id r ≡ true) ↔ IsKey tenant id r
is_key_iff tenant id r = ground (arith, text_eq_iff r.id id, text_eq_iff r.tenant_id tenant)

pub create_conn :
    (d : Adapter Error) (now : ℕ) (r r' : Row) (s s' : Conn Row)
    → create d now (some r) s ≡ (ok r', s')
    → (r' ≡ stamp now r)
      × (s'.rows ≡ s.rows ++ stamp now r ∷ [])
      × (count_if (has_id r.id) s.rows ≡ 0)
unfolding create
create_conn d now r r' s s' h = ground arith

pub create_err_conn :
    (d : Adapter Error) (now : ℕ) (o : Option Row) (e : Error) (s s' : Conn Row)
    → create d now o s ≡ (err e, s')
    → s'.rows ≡ s.rows
unfolding create
create_err_conn d now none e s s' h = ground arith
create_err_conn d now (some r) e s s' h = ground arith

pub get_by_prefix_conn : (p : Text) (s : Conn Row) → (get_by_prefix p s).1.rows ≡ s.rows
unfolding get_by_prefix
get_by_prefix_conn p s = ground arith

pub get_by_prefix_rows :
    (p : Text) (rs : List Row) (s s' : Conn Row)
    → get_by_prefix p s ≡ (ok rs, s')
    → rs ≡ filter (λ r. text_eq r.prefix p) s.rows
unfolding get_by_prefix
get_by_prefix_rows p rs s s' h = ground arith

pub list_conn : (tenant : Text) (s : Conn Row) → (list tenant s).1.rows ≡ s.rows
unfolding list
list_conn tenant s = ground arith

pub list_rows :
    (tenant : Text) (rs : List Row) (s s' : Conn Row)
    → list tenant s ≡ (ok rs, s')
    → rs ≡ sort_by newer (filter (λ r. text_eq r.tenant_id tenant && is_live r) s.rows)
unfolding list
list_rows tenant rs s s' h = ground arith

pub update_last_used_conn :
    (now : ℕ) (tenant id : Text) (at : ℕ) (s : Conn Row)
    → ((update_last_used now tenant id at s).1.rows ≡ s.rows)
      ⊎ ((update_last_used now tenant id at s).1.rows
          ≡ map_if
              (is_key tenant id)
              (λ r. record r { last_used_at = some (if at == 0 then now else at) })
              s.rows)
unfolding update_last_used
update_last_used_conn now tenant id at s = ground arith

-- The two parts of the revocation's WHERE clause.
abbrev pub revocable : Text → Text → Row → Bool
revocable tenant id r = is_key tenant id r && is_live r

abbrev pub revoked_rows : ℕ → Text → Text → List Row → List Row
revoked_rows now tenant id rows =
    map_if (revocable tenant id) (λ r. record r { revoked_at = some now }) rows

pub revoke_conn :
    (now : ℕ) (tenant id : Text) (s : Conn Row)
    → ((revoke now tenant id s).1.rows ≡ s.rows)
      ⊎ ((revoke now tenant id s).1.rows ≡ revoked_rows now tenant id s.rows)
unfolding revoke
revoke_conn now tenant id s = ground arith

pub revoke_ok_conn :
    (now : ℕ) (tenant id : Text) (s s' : Conn Row)
    → revoke now tenant id s ≡ (ok tt, s')
    → s'.rows ≡ revoked_rows now tenant id s.rows
unfolding revoke
revoke_ok_conn now tenant id s s' h = ground arith

pub revoke_not_found_conn :
    (now : ℕ) (tenant id : Text) (s s' : Conn Row)
    → revoke now tenant id s ≡ (err not_found, s')
    → find (is_key tenant id) (revoked_rows now tenant id s.rows) ≡ none
unfolding revoke
revoke_not_found_conn now tenant id s s' h = ground arith

pub newer-IsOrder : IsOrder newer
newer-IsOrder = record { asym = λ a b h. ground arith; neg_trans = λ a b c h k. ground arith }

pub revocable_live :
    (tenant id : Text) (x : Row)
    → revocable tenant id x ≡ true
    → IsKey tenant id x × (x.revoked_at ≡ none)
revocable_live tenant id x t = ground (arith, is_key_iff tenant id x)

-- What an adapter's classification owes: a taken id is reported as such.
pub record Classifies (d : Adapter Error) : Type 0 where
  pub taken : d.insert_error (d.violation (codes "api_keys.id")) ≡ duplicate

pub create_taken :
    (d : Adapter Error) (now : ℕ) (r : Row) (s : Conn Row)
    → Classifies d
    → answers s ≡ true
    → count_if (has_id r.id) s.rows ≢ 0
    → (create d now (some r) s).0 ≡ err duplicate
unfolding create
create_taken d now r s c calm n = ground (arith, c.taken)

pub create_run :
    (d : Adapter Error) (now : ℕ) (r : Row) (s : Conn Row)
    → answers s ≡ true
    → count_if (has_id r.id) s.rows ≡ 0
    → (create d now (some r) s).0 ≡ ok (stamp now r)
unfolding create
create_run d now r s calm free = ground arith

pub get_by_prefix_run :
    (p : Text) (s : Conn Row)
    → answers s ≡ true
    → (get_by_prefix p s).0 ≡ ok (filter (λ r. text_eq r.prefix p) s.rows)
unfolding get_by_prefix
get_by_prefix_run p s calm = ground arith

pub list_run :
    (tenant : Text) (s : Conn Row)
    → answers s ≡ true
    → (list tenant s).0
      ≡ ok (sort_by newer (filter (λ r. text_eq r.tenant_id tenant && is_live r) s.rows))
unfolding list
list_run tenant s calm = ground arith

pub update_last_used_run :
    (now : ℕ) (tenant id : Text) (at : ℕ) (s : Conn Row)
    → answers s ≡ true
    → (update_last_used now tenant id at s).0 ≡ ok tt
unfolding update_last_used
update_last_used_run now tenant id at s calm = ground arith

pub get_conn : (tenant id : Text) (s : Conn Row) → (get tenant id s).1.rows ≡ s.rows
unfolding get
get_conn tenant id s = ground arith

pub get_ok_conn :
    (tenant id : Text) (x : Row) (s s' : Conn Row)
    → get tenant id s ≡ (ok x, s')
    → find (is_key tenant id) s.rows ≡ some x
unfolding get
get_ok_conn tenant id x s s' h = ground arith

pub get_none_conn :
    (tenant id : Text) (s s' : Conn Row)
    → get tenant id s ≡ (err not_found, s')
    → find (is_key tenant id) s.rows ≡ none
unfolding get
get_none_conn tenant id s s' h = ground arith

pub get_answers_conn :
    (tenant id : Text) (s : Conn Row)
    → answers s ≡ true
    → (((x : Row) × (get tenant id s).0 ≡ ok x) ⊎ ((get tenant id s).0 ≡ err not_found))
unfolding get
get_answers_conn tenant id s calm = elim (Option-cases (find (is_key tenant id) s.rows)) [
  | inl e ↦ inr (ground arith)
  | inr (x, e) ↦ inl (x, ground arith)
]

pub use_ok_conn :
    (now : ℕ) (tenant id : Text) (at : ℕ) (s s' : Conn Row)
    → update_last_used now tenant id at s ≡ (ok tt, s')
    → s'.rows ≡ map_if (is_key tenant id) (mark_use now at) s.rows
unfolding update_last_used
use_ok_conn now tenant id at s s' h = ground arith
