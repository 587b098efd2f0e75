-- ===== src/Notification/Sqlite/Owners.antt =====
-- A write on behalf of one user of a tenant does not touch what belongs to another.
use pk_modules.Common.{
  ℕ, ◌≡◌, ◌⊎◌, refl, ap, inl, inr, false, ◌&&◌, some, [], ◌∷◌, ◌++◌, if◌then◌else◌, ◌==◌, filter,
  map_if, arith,
}
use pk_modules.Common.Rows.{other, filter-snoc, filter-map_if, filter-filter}
use pk_modules.Common.Text.{Text, text_eq, text_eq_iff}
use pk_modules.Sql.{Adapter}
use pk_modules.Notification.{Error, Row, Subscription}
use pk_modules.Notification.Sqlite.{
  Tables, stamp, is_owned, is_key, is_subscriber, is_subscription, create, mark_read,
  add_subscription, remove_subscription,
}

-- A write of the store for a user of a tenant, with its clock reading; it may fail.
pub data Write (a : Adapter Error) (tenant user : Text) : Tables → Tables → Type 0 where
  created :
      (s : Tables) (now : ℕ) (n : Row)
      → n.tenant_id ≡ tenant
      → n.user_id ≡ user
      → Write a tenant user s (create a now (some n) s).1
  marked :
      (s : Tables) (now : ℕ) (id : Text) (at : ℕ)
      → Write a tenant user s (mark_read now tenant user id at s).1
  subscribed :
      (s : Tables) (now : ℕ) (sub : Subscription)
      → sub.tenant_id ≡ tenant
      → sub.user_id ≡ user
      → Write a tenant user s (add_subscription a now (some sub) s).1
  unsubscribed :
      (s : Tables) (id : Text) → Write a tenant user s (remove_subscription tenant user id s).1

create_rows :
    (a : Adapter Error) (now : ℕ) (n : Row) (s : Tables)
    → (((create a now (some n) s).1.notifications ≡ s.notifications)
        ⊎ ((create a now (some n) s).1.notifications ≡ s.notifications ++ stamp now n ∷ []))
      × ((create a now (some n) s).1.subscriptions ≡ s.subscriptions)
unfolding create
create_rows a now n s = (ground arith, ground arith)

mark_read_rows :
    (now : ℕ) (tenant user id : Text) (at : ℕ) (s : Tables)
    → (((mark_read now tenant user id at s).1.notifications ≡ s.notifications)
        ⊎ ((mark_read now tenant user id at s).1.notifications
            ≡ map_if
                (is_key tenant user id)
                (λ n. record n { read_at = some (if at == 0 then now else at) })
                s.notifications))
      × ((mark_read now tenant user id at s).1.subscriptions ≡ s.subscriptions)
unfolding mark_read
mark_read_rows now tenant user id at s = (ground arith, ground arith)

add_subscription_rows :
    (a : Adapter Error) (now : ℕ) (sub : Subscription) (s : Tables)
    → (((add_subscription a now (some sub) s).1.subscriptions ≡ s.subscriptions)
        ⊎ ((add_subscription a now (some sub) s).1.subscriptions
            ≡ s.subscriptions
              ++ (record sub { created_at = if sub.created_at == 0 then now else sub.created_at })
                ∷ []))
      × ((add_subscription a now (some sub) s).1.notifications ≡ s.notifications)
unfolding add_subscription
add_subscription_rows a now sub s = (ground arith, ground arith)

remove_subscription_rows :
    (tenant user id : Text) (s : Tables)
    → (((remove_subscription tenant user id s).1.subscriptions ≡ s.subscriptions)
        ⊎ ((remove_subscription tenant user id s).1.subscriptions
            ≡ filter (other (is_subscription tenant user id)) s.subscriptions))
      × ((remove_subscription tenant user id s).1.notifications ≡ s.notifications)
unfolding remove_subscription
remove_subscription_rows tenant user id s = (ground arith, ground arith)

-- What a tenant's user has of the two tables.
abbrev pub SameOwned : Text → Text → Tables → Tables → Type 0
SameOwned tenant user s t =
    (filter (is_owned tenant user) t.notifications ≡ filter (is_owned tenant user) s.notifications)
    × (filter (is_subscriber tenant user) t.subscriptions
        ≡ filter (is_subscriber tenant user) s.subscriptions)

-- A creation, a mark as read, a subscription and its removal for one user of a tenant, whether or
-- not it succeeds, leaves the notifications and the subscriptions of every other user as they were,
-- in their order: those of the tenant's other users too.
pub Write-SameOwned :
    (a : Adapter Error) (tenant user tenant' user' : Text) {s t : Tables}
    → Write a tenant user s t
    → (text_eq tenant tenant' && text_eq user user') ≡ false
    → SameOwned tenant' user' s t
Write-SameOwned a tenant user tenant' user' (created s now n e k) h =
    let (notes, subs) = create_rows a now n s in
    (
      elim notes [
        | inl q ↦ ap (filter (is_owned tenant' user')) q
        | inr q ↦
            rw q (filter-snoc (is_owned tenant' user') s.notifications (stamp now n) (rw (e, k) h))
      ],
      ap (filter (is_subscriber tenant' user')) subs,
    )
Write-SameOwned a tenant user tenant' user' (marked s now id at) h =
    let (notes, subs) = mark_read_rows now tenant user id at s in
    (
      elim notes [
        | inl q ↦ ap (filter (is_owned tenant' user')) q
        | inr q ↦ rw q (
            filter-map_if (is_owned tenant' user') (is_key tenant user id)
              (λ n. record n { read_at = some (if at == 0 then now else at) }) s.notifications
              (λ x p. ground (arith, text_eq_iff x.tenant_id tenant, text_eq_iff x.user_id user))
              (λ x. refl))
      ],
      ap (filter (is_subscriber tenant' user')) subs,
    )
Write-SameOwned a tenant user tenant' user' (subscribed s now sub e k) h =
    let (subs, notes) = add_subscription_rows a now sub s in
    (
      ap (filter (is_owned tenant' user')) notes,
      elim subs [
        | inl q ↦ ap (filter (is_subscriber tenant' user')) q
        | inr q ↦ rw q (
            filter-snoc (is_subscriber tenant' user') s.subscriptions
              (record sub { created_at = if sub.created_at == 0 then now else sub.created_at })
              (rw (e, k) h))
      ],
    )
Write-SameOwned a tenant user tenant' user' (unsubscribed s id) h =
    let (subs, notes) = remove_subscription_rows tenant user id s in
    (
      ap (filter (is_owned tenant' user')) notes,
      elim subs [
        | inl q ↦ ap (filter (is_subscriber tenant' user')) q
        | inr q ↦ rw q (
            filter-filter (is_subscriber tenant' user') (is_subscription tenant user id)
              s.subscriptions
              (λ x p. ground (arith, text_eq_iff x.tenant_id tenant, text_eq_iff x.user_id user)))
      ],
    )
