-- ===== src/Apikey/Sqlite/Contract.antt =====
-- The SQLite store keeps the contract of the interface, whatever faults the driver meets.
use pk_modules.Common.{
  ℕ, ◌≡◌, ◌≢◌, ◌↔◌, inl, inr, true, ◌&&◌, none, some, List, ◌==◌, if◌then◌else◌, sort_by, In, arith,
  Bool-cases, filter, filter-In, In-filter, find-In, find-none, map_if, map_if-In, In-map_if,
  count_if-In, In-snoc, sort_by-In, In-sort_by, sort_by-IsSorted,
}
use pk_modules.Common.Text.{Text, text_eq, text_eq_iff}
use pk_modules.Common.Rows.{count_if-none, Changes-same, Changes-map_if}
use pk_modules.Sql.{Adapter, answers}
use pk_modules.Apikey.{Error}
use pk_modules.Apikey.Store.{Row, stamp, IsStore, IsKey, newer, revocation, mark_use}
use pk_modules.Apikey.Sqlite.{revoke, update_last_used, store, has_id, is_key, is_live}
use pk_modules.Apikey.Sqlite.Calls.{
  is_key_iff, create_conn, create_err_conn, get_by_prefix_conn, get_by_prefix_rows, list_conn,
  list_rows, update_last_used_conn, revocable, revoked_rows, revoke_conn, revoke_ok_conn,
  revoke_not_found_conn, newer-IsOrder, revocable_live, Classifies, create_taken, create_run,
  get_by_prefix_run, list_run, update_last_used_run, get_conn, get_ok_conn, get_none_conn,
  get_answers_conn, use_ok_conn,
}

used_rows :
    (now : ℕ) (tenant id : Text) (at : ℕ) (rows : List Row) (y : Row)
    → In y (map_if (is_key tenant id) (mark_use now at) rows)
    → IsKey tenant id y
    → y.last_used_at ≡ some (if at == 0 then now else at)
used_rows now tenant id at rows y m k =
    let (x, i, e) = In-map_if (is_key tenant id) (mark_use now at) rows y m in
    elim (Bool-cases (is_key tenant id x)) [
      | inl t ↦ ground arith
      | inr t ↦ absurd (ground (arith, is_key_iff tenant id x))
    ]

-- After the revocation's update no row with the key is live.
revoked_rows_dead :
    (now : ℕ) (tenant id : Text) (rows : List Row) (y : Row)
    → In y (revoked_rows now tenant id rows)
    → IsKey tenant id y
    → y.revoked_at ≢ none
revoked_rows_dead now tenant id rows y m k =
    let (x, i, e) =
      In-map_if (revocable tenant id) (λ r. record r { revoked_at = some now }) rows y m in
    λ n. ground (arith, is_key_iff tenant id x, is_key_iff tenant id y)

prefix_rows :
    (p : Text) (rows : List Row) (x : Row)
    → In x (filter (λ r. text_eq r.prefix p) rows) ↔ (In x rows × (x.prefix ≡ p))
prefix_rows p rows x = (
  λ m.
      let (i, q) = In-filter x (λ r. text_eq r.prefix p) rows m in
      (i, (text_eq_iff x.prefix p).0 q),
  λ h. filter-In x (λ r. text_eq r.prefix p) rows h.0 ((text_eq_iff x.prefix p).1 h.1),
)

listed_iff :
    (tenant : Text) (x : Row)
    → ((text_eq x.tenant_id tenant && is_live x) ≡ true)
      ↔ ((x.tenant_id ≡ tenant) × (x.revoked_at ≡ none))
listed_iff tenant x = ground (arith, text_eq_iff x.tenant_id tenant)

tenant_rows :
    (tenant : Text) (rows : List Row) (x : Row)
    → In x (sort_by newer (filter (λ r. text_eq r.tenant_id tenant && is_live r) rows))
      ↔ (In x rows × (x.tenant_id ≡ tenant) × (x.revoked_at ≡ none))
tenant_rows tenant rows x =
    let p = λ (r : Row). text_eq r.tenant_id tenant && is_live r in
    (
      λ m.
          let (i, q) = In-filter x p rows (In-sort_by newer (filter p rows) x m) in
          let (t, l) = (listed_iff tenant x).0 q in (i, t, l),
      λ h.
          sort_by-In newer (filter p rows) x
            (filter-In x p rows h.0 ((listed_iff tenant x).1 (h.1, h.2))),
    )

pub key_store-IsStore : (d : Adapter Error) → Classifies d → IsStore (store d) (λ s. s.rows) answers
key_store-IsStore d c = record {
  create_ok = λ now r r' s s' h.
      let (e, rows, free) = create_conn d now r r' s s' h in
      (
        e,
        λ x. rw (rows, e) (In-snoc s.rows (stamp now r) x),
        λ x i k. ground (arith, count_if-In (has_id r.id) s.rows x free i, text_eq_iff x.id r.id),
      );
  create_err = create_err_conn d;
  create_free = λ now r s calm free. create_run d now r s calm (
      count_if-none (has_id r.id) s.rows (λ x i. elim (Bool-cases (has_id r.id x)) [
        | inl t ↦ absurd (free x i ((text_eq_iff x.id r.id).0 t))
        | inr n ↦ n
      ]));
  create_duplicate = λ now r x s calm i k.
      create_taken d now r s c calm
        (λ free. ground (arith, count_if-In (has_id r.id) s.rows x free i, text_eq_iff x.id r.id));
  get_view = get_conn;
  get_ok = λ tenant id x s s' h.
      let (i, q) = find-In (is_key tenant id) s.rows x (get_ok_conn tenant id x s s' h) in
      (i, (is_key_iff tenant id x).0 q);
  get_not_found = λ tenant id s s' h x i k. ground (
    arith,
    find-none (is_key tenant id) s.rows x (get_none_conn tenant id s s' h) i,
    is_key_iff tenant id x,
  );
  get_answers = get_answers_conn;
  get_by_prefix_view = get_by_prefix_conn;
  get_by_prefix_ok = λ p rs s s' h x. rw (get_by_prefix_rows p rs s s' h) (prefix_rows p s.rows x);
  get_by_prefix_answers =
      λ p s calm. (filter (λ r. text_eq r.prefix p) s.rows, get_by_prefix_run p s calm);
  list_view = list_conn;
  list_ok = λ tenant rs s s' h x. rw (list_rows tenant rs s s' h) (tenant_rows tenant s.rows x);
  list_answers = λ tenant s calm. (
    sort_by newer (filter (λ r. text_eq r.tenant_id tenant && is_live r) s.rows),
    list_run tenant s calm,
  );
  list_sorted = λ tenant rs s s' h. rw (list_rows tenant rs s s' h) (
      sort_by-IsSorted newer-IsOrder
        (filter (λ r. text_eq r.tenant_id tenant && is_live r) s.rows));
  revoke_ok = λ now tenant id s s' h x m k.
      revoked_rows_dead now tenant id s.rows x (rw (revoke_ok_conn now tenant id s s' h) at m) k;
  revoke_err = λ now tenant id s s' h x m k. ground (
    arith,
    find-none (is_key tenant id) (revoked_rows now tenant id s.rows)
        (if revocable tenant id x then record x { revoked_at = some now } else x)
        (revoke_not_found_conn now tenant id s s' h)
        (map_if-In (revocable tenant id) (λ r. record r { revoked_at = some now }) s.rows x m),
    is_key_iff tenant id x,
  );
  revoke_changes = λ now tenant id s. elim (revoke_conn now tenant id s) [
    | inl e ↦ Changes-same _ (revocation now) s.rows (revoke now tenant id s).1.rows e
    | inr e ↦
        Changes-map_if _ (revocation now) s.rows (revoke now tenant id s).1.rows
          (revocable tenant id) (λ x t. revocable_live tenant id x t) e
  ];
  update_last_used_changes = λ now tenant id at s. elim (update_last_used_conn now tenant id at s) [
    | inl e ↦ Changes-same _ (mark_use now at) s.rows (update_last_used now tenant id at s).1.rows e
    | inr e ↦
        Changes-map_if _ (mark_use now at) s.rows (update_last_used now tenant id at s).1.rows
          (is_key tenant id) (λ x t. (is_key_iff tenant id x).0 t) e
  ];
  update_last_used_answers = update_last_used_run;
  update_last_used_ok = λ now tenant id at s s' h x m k.
      used_rows now tenant id at s.rows x (rw (use_ok_conn now tenant id at s s' h) at m) k;
}
