-- ===== src/Auth/Sqlite/Contract.antt =====
-- The SQLite store of sessions keeps the contract of the interface, whatever faults the driver
-- meets.
use pk_modules.Common.{
  ℕ, ◌≡◌, ◌≢◌, ◌⊎◌, inl, inr, refl, Bool, true, ◌&&◌, Option, none, some, List, [], ◌∷◌, ◌++◌, ok,
  err, if◌then◌else◌, count_if, In, arith, find, find-In, find-none, Bool-cases, Option-cases,
  map_if, map_if-In, In-map_if, count_if-In, In-snoc,
}
use pk_modules.Common.Text.{Text, codes, text_eq, text_eq_iff}
use pk_modules.Common.Rows.{count_if-none, Changes-same, Changes-map_if}
use pk_modules.Sql.{Conn, Adapter, answers}
use pk_modules.Auth.{Error, Session, not_found, duplicate}
use pk_modules.Auth.Store.{stamp, IsStore, revocation}
use pk_modules.Auth.Sqlite.{
  create, get, revoke, revoke_by_user, store, has_id, is_live, disambiguate,
}

create_conn :
    (d : Adapter Error) (now : ℕ) (x : Session) (s s' : Conn Session)
    → create d now (some x) s ≡ (ok tt, s')
    → (s'.rows ≡ s.rows ++ stamp now x ∷ []) × (count_if (has_id x.id) s.rows ≡ 0)
unfolding create
create_conn d now x s s' h = ground arith

create_err_conn :
    (d : Adapter Error) (now : ℕ) (o : Option Session) (e : Error) (s s' : Conn Session)
    → create d now o s ≡ (err e, s')
    → s'.rows ≡ s.rows
unfolding create
create_err_conn d now none e s s' h = ground arith
create_err_conn d now (some x) e s s' h = ground arith

get_conn : (id : Text) (s : Conn Session) → (get id s).1.rows ≡ s.rows
unfolding get
get_conn id s = ground arith

get_ok_conn :
    (id : Text) (x : Session) (s s' : Conn Session)
    → get id s ≡ (ok x, s')
    → find (has_id id) s.rows ≡ some x
unfolding get
get_ok_conn id x s s' h = ground arith

get_none_conn :
    (id : Text) (s s' : Conn Session)
    → get id s ≡ (err not_found, s')
    → find (has_id id) s.rows ≡ none
unfolding get
get_none_conn id s s' h = ground arith

-- The table after an UPDATE that sets revoked_at on the live rows of a WHERE clause.
abbrev pub revoked_rows : ℕ → (Session → Bool) → List Session → List Session
revoked_rows now p rows =
    map_if (λ s. p s && is_live s) (λ s. record s { revoked_at = some now }) rows

abbrev of_user : Text → Session → Bool
of_user user s = text_eq s.user_id user

pub revoke_conn :
    (now : ℕ) (id : Text) (s : Conn Session)
    → ((revoke now id s).1.rows ≡ s.rows)
      ⊎ ((revoke now id s).1.rows ≡ revoked_rows now (has_id id) s.rows)
unfolding revoke
revoke_conn now id s = ground arith

revoke_ok_conn :
    (now : ℕ) (id : Text) (s s' : Conn Session)
    → revoke now id s ≡ (ok tt, s')
    → s'.rows ≡ revoked_rows now (has_id id) s.rows
unfolding revoke
revoke_ok_conn now id s s' h = ground arith

user_conn :
    (now : ℕ) (user : Text) (s : Conn Session)
    → ((revoke_by_user now user s).1.rows ≡ s.rows)
      ⊎ ((revoke_by_user now user s).1.rows ≡ revoked_rows now (of_user user) s.rows)
unfolding revoke_by_user
user_conn now user s = ground arith

user_ok_conn :
    (now : ℕ) (user : Text) (s s' : Conn Session)
    → revoke_by_user now user s ≡ (ok tt, s')
    → s'.rows ≡ revoked_rows now (of_user user) s.rows
unfolding revoke_by_user
user_ok_conn now user s s' h = ground arith

-- What an adapter's classification owes: a taken id is reported as such.
pub record Classifies (d : Adapter Error) : Type 0 where
  pub taken : d.insert_error (d.violation (codes "auth_sessions.id")) ≡ duplicate

create_taken :
    (d : Adapter Error) (now : ℕ) (x : Session) (s : Conn Session)
    → Classifies d
    → answers s ≡ true
    → count_if (has_id x.id) s.rows ≢ 0
    → (create d now (some x) s).0 ≡ err duplicate
unfolding create
create_taken d now x s c calm n = ground (arith, c.taken)

create_run :
    (d : Adapter Error) (now : ℕ) (x : Session) (s : Conn Session)
    → answers s ≡ true
    → count_if (has_id x.id) s.rows ≡ 0
    → (create d now (some x) s).0 ≡ ok tt
unfolding create
create_run d now x s calm free = ground arith

user_run :
    (now : ℕ) (user : Text) (s : Conn Session)
    → answers s ≡ true
    → (revoke_by_user now user s).0 ≡ ok tt
unfolding revoke_by_user
user_run now user s calm = ground arith

get_answers_conn :
    (id : Text) (s : Conn Session)
    → answers s ≡ true
    → (((x : Session) × (get id s).0 ≡ ok x) ⊎ ((get id s).0 ≡ err not_found))
unfolding get
get_answers_conn id s calm = elim (Option-cases (find (has_id id) s.rows)) [
  | inl e ↦ inr (ground arith)
  | inr (x, e) ↦ inl (x, ground arith)
]

revoke_not_found_conn :
    (now : ℕ) (id : Text) (s s' : Conn Session)
    → revoke now id s ≡ (err not_found, s')
    → find (has_id id) (revoked_rows now (has_id id) s.rows) ≡ none
unfolding revoke disambiguate get
revoke_not_found_conn now id s s' h = ground arith

-- A row that a revocation selects is live.
selected : (b : Bool) (x : Session) → (b && is_live x) ≡ true → (b ≡ true) × (x.revoked_at ≡ none)
selected b x t = ground arith

-- After the update no row of the WHERE clause is live.
revoked_rows_dead :
    (now : ℕ) (p : Session → Bool) (rows : List Session) (y : Session)
    → ((x : Session) → p (record x { revoked_at = some now }) ≡ p x)
    → In y (revoked_rows now p rows)
    → p y ≡ true
    → y.revoked_at ≢ none
revoked_rows_dead now p rows y blind m k =
    let (x, i, e) =
      In-map_if (λ s. p s && is_live s) (λ s. record s { revoked_at = some now }) rows y m in
    λ n. ground (arith, blind x)

pub session_store-IsStore :
    (d : Adapter Error) → Classifies d → IsStore (store d) (λ s. s.rows) answers
session_store-IsStore d c = record {
  create_ok = λ now x s s' h.
      let (rows, free) = create_conn d now x s s' h in
      (
        λ y. rw rows (In-snoc s.rows (stamp now x) y),
        λ y i k. ground (arith, count_if-In (has_id x.id) s.rows y free i, text_eq_iff y.id x.id),
      );
  create_err = create_err_conn d;
  create_free = λ now x s calm free. create_run d now x s calm (
      count_if-none (has_id x.id) s.rows (λ y i. elim (Bool-cases (has_id x.id y)) [
        | inl t ↦ absurd (free y i ((text_eq_iff y.id x.id).0 t))
        | inr n ↦ n
      ]));
  create_duplicate = λ now x y s calm i k.
      create_taken d now x s c calm
        (λ free. ground (arith, count_if-In (has_id x.id) s.rows y free i, text_eq_iff y.id x.id));
  get_view = get_conn;
  get_ok = λ id x s s' h.
      let (i, q) = find-In (has_id id) s.rows x (get_ok_conn id x s s' h) in
      (i, (text_eq_iff x.id id).0 q);
  get_not_found = λ id s s' h x i k.
      ground
        (arith, find-none (has_id id) s.rows x (get_none_conn id s s' h) i, text_eq_iff x.id id);
  get_answers = get_answers_conn;
  revoke_changes = λ now id s. elim (revoke_conn now id s) [
    | inl e ↦ Changes-same _ (revocation now) s.rows (revoke now id s).1.rows e
    | inr e ↦
        Changes-map_if _ (revocation now) s.rows (revoke now id s).1.rows
          (λ x. has_id id x && is_live x)
          (λ x t. let (k, live) = selected (has_id id x) x t in ((text_eq_iff x.id id).0 k, live)) e
  ];
  revoke_ok = λ now id s s' h x m k.
      revoked_rows_dead now (has_id id) s.rows x (λ y. refl)
        (rw (revoke_ok_conn now id s s' h) at m) ((text_eq_iff x.id id).1 k);
  revoke_not_found = λ now id s s' h x m k. ground (
    arith,
    find-none (has_id id) (revoked_rows now (has_id id) s.rows)
        (if has_id id x && is_live x then record x { revoked_at = some now } else x)
        (revoke_not_found_conn now id s s' h)
        (map_if-In (λ y. has_id id y && is_live y) (revocation now) s.rows x m),
    text_eq_iff x.id id,
  );
  revoke_by_user_changes = λ now user s. elim (user_conn now user s) [
    | inl e ↦ Changes-same _ (revocation now) s.rows (revoke_by_user now user s).1.rows e
    | inr e ↦
        Changes-map_if _ (revocation now) s.rows (revoke_by_user now user s).1.rows
          (λ x. of_user user x && is_live x)
          (λ x t.
            let (k, live) = selected (of_user user x) x t in
            ((text_eq_iff x.user_id user).0 k, live))
          e
  ];
  revoke_by_user_answers = user_run;
  revoke_by_user_ok = λ now user s s' h x m k.
      revoked_rows_dead now (of_user user) s.rows x (λ y. refl)
        (rw (user_ok_conn now user s s' h) at m) ((text_eq_iff x.user_id user).1 k);
}
