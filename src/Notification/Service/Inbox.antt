-- ===== src/Notification/Service/Inbox.antt =====
-- What a created notification leaves in its user's list.
use pk_modules.Common.{
  ℕ, ◌≤◌, ◌≡◌, refl, sym, ap, subst, ◌∙◌, inl, inr, Bool, true, false, Option, none, some, List, [],
  ◌∷◌, ◌++◌, Result, ok, err, map, In, In-append_right, filter, filter-In, count_if, ◌==◌,
  Option-cases, Result-cases, arith,
}
use pk_modules.Common.Int.{ℤ, pos}
use pk_modules.Common.Rows.{In-map, length-filter}
use pk_modules.Common.Text.{Text, text_eq, text_eq_refl}
use pk_modules.Sql.{Adapter}
use pk_modules.Sql.Paging
use pk_modules.Sql.Paging.{page, page-In}
use pk_modules.Notification.{Error, Notification, Row}
use pk_modules.Notification.Sqlite
use pk_modules.Notification.Sqlite.{Tables, stamp, is_owned, newer, store}
use pk_modules.Notification.Service.{
  Codec, Channel, Service, World, data_text_of, data_of_text, to_store, from_store, in_app,
  with_defaults, create, get_by_user,
}
use pk_modules.Notification.Service.Dispatch.{
  Delivered, skipped, sent, done, IsOutcome, create-IsOutcome,
}

-- A channel that is not the module's leaves the table of notifications alone.
unfoldable pub IsApart : {V : Type 0} → Channel Tables V → Type 0
IsApart {V = V} c =
    (now : ℕ) (n : Notification V) (s : Tables) → (c.send now n s).1.notifications ≡ s.notifications

-- The printer and the parser of JSON agree on a map, and print no empty text.
pub record IsEncoded {V : Type 0} (codec : Codec V) (d : List (Text × V)) : Type 0 where
  pub nonempty : (t : Text) → codec.marshal d ≡ some t → text_eq t [] ≡ false
  pub unmarshal-marshal : (t : Text) → codec.marshal d ≡ some t → codec.unmarshal t ≡ some d

data_of_text-data_text_of :
    {V : Type 0} (codec : Codec V) (d : List (Text × V)) (t : Text)
    → IsEncoded codec d
    → data_text_of codec d ≡ ok t
    → data_of_text codec t ≡ d
unfolding data_text_of data_of_text text_eq
data_of_text-data_text_of codec [] t law h = let e : t ≡ [] = cc in rw e refl
data_of_text-data_text_of codec (x ∷ d) t law h = elim (Option-cases (codec.marshal (x ∷ d))) [
  | inl e ↦ absurd (ground (arith, h, e))
  | inr (y, e) ↦
      let same : y ≡ t = ground (arith, h, e) in
      let printed : codec.marshal (x ∷ d) ≡ some t = e ∙ ap some same in
      rw (law.nonempty t printed, law.unmarshal-marshal t printed) refl
]

from_store-to_store :
    {V : Type 0} (codec : Codec V) (n : Notification V) (r : Row)
    → IsEncoded codec n.data_of
    → to_store codec n ≡ ok r
    → from_store codec r ≡ n
unfolding to_store from_store
from_store-to_store codec n r law h = elim (Result-cases (data_text_of codec n.data_of)) [
  | inr (e, k) ↦ absurd (ground (arith, h, k))
  | inl (t, k) ↦
      let row : r ≡ record {
        id = n.id;
        tenant_id = n.tenant_id;
        user_id = n.user_id;
        title = n.title;
        body = n.body;
        category = n.category;
        severity = n.severity;
        data_text = t;
        read_at = none;
        emitted_at = n.emitted_at;
      } =
        ground (arith, h, k) in
      rw (row, data_of_text-data_text_of codec n.data_of t law k) refl
]

-- What the delivery of the in-app channel writes.
in_app_rows :
    {V : Type 0} (a : Adapter Error) (codec : Codec V) (now : ℕ) (n : Notification V) (s t : Tables)
    → (in_app codec (store a)).send now n s ≡ (ok tt, t)
    → (r : Row) × (to_store codec n ≡ ok r)
      × (t.notifications ≡ s.notifications ++ stamp now r ∷ [])
unfolding in_app Sqlite.create
in_app_rows a codec now n s t h = elim (Result-cases (to_store codec n)) [
  | inr (e, k) ↦ absurd (ground (arith, h, k))
  | inl (r, k) ↦ (r, k, ground (arith, h, k))
]

module _ {V : Type 0} (now : ℕ) (n : Notification V) where
  first_sent :
      (c : Channel Tables V) (cs : List (Option (Channel Tables V))) (s u : Tables)
      → Delivered now n (some c ∷ cs) s u
      → (t : Tables) × (c.send now n s ≡ (ok tt, t)) × Delivered now n cs t u
  first_sent c cs s u (sent {t = t} h d) = (t, h, d)

  Delivered-apart :
      (cs : List (Option (Channel Tables V))) (s u : Tables)
      → Delivered now n cs s u
      → ((c : Channel Tables V) → In (some c) cs → IsApart c)
      → u.notifications ≡ s.notifications
  unfolding IsApart
  Delivered-apart [] s u done apart = refl
  Delivered-apart (none ∷ cs) s u (skipped d) apart =
      Delivered-apart cs s u d (λ c m. apart c (inr m))
  Delivered-apart (some c ∷ cs) s u (sent {t = t} h d) apart =
      Delivered-apart cs t u d (λ x m. apart x (inr m))
      ∙ ap (λ (q : Result Error (Unit {0}) × Tables). q.1.notifications) (sym h)
      ∙ apart c (inl refl) now n s

from_store_fields :
    {V : Type 0} (codec : Codec V) (r : Row) (n : Notification V)
    → from_store codec r ≡ n
    → (r.tenant_id ≡ n.tenant_id) × (r.user_id ≡ n.user_id) × (r.emitted_at ≡ n.emitted_at)
unfolding from_store
from_store_fields {V = V} codec r n h = (
  ap (λ (x : Notification V). x.tenant_id) h,
  ap (λ (x : Notification V). x.user_id) h,
  ap (λ (x : Notification V). x.emitted_at) h,
)

stamped : (now : ℕ) (r : Row) → (r.emitted_at == 0) ≡ false → stamp now r ≡ r
stamped now r h = rw h refl

module _ {V : Type 0} (a : Adapter Error) (codec : Codec V)
    (extra : List (Option (Channel Tables V))) (audited : Bool) (unix_nano : ℕ → Text) where
  -- The service of the module: the in-app channel, then those that were added.
  abbrev pub svc : Service Tables V
  svc = record {
    store = store a;
    channels = some (in_app codec (store a)) ∷ extra;
    audited = audited;
    codec = codec;
    unix_nano = unix_nano;
  }

  -- The connection without faults to come.
  abbrev pub calm : World Tables → World Tables
  calm w = record w { conn = record w.conn { faults = [] } }

  abbrev pub listed : Result Error (List (Notification V)) → List (Notification V)
  listed (ok ns) = ns
  listed (err e) = []

  calm_listed :
      (tenant user : Text) (limit : ℤ) (w : World Tables)
      → listed (get_by_user svc tenant user limit (pos 0) (calm w)).0
        ≡ map (from_store codec) (
            page newer
              (Paging.clamp_limit 100 limit)
              0
              (filter (is_owned tenant user) w.conn.notifications))
  unfolding get_by_user Sqlite.get_by_user Paging.clamp_offset
  calm_listed tenant user limit w = refl

  created :
      (now clock : ℕ) (given n : Notification V) (w w' : World Tables)
      → create svc now clock (some given) w ≡ (ok n, w')
      → (n ≡ with_defaults svc now given) × Delivered clock n svc.channels w.conn w'.conn
  created now clock given n w w' h =
      let o : IsOutcome svc now clock given w (ok n) w' =
        subst
          (λ (q : Result Error (Notification V) × World Tables).
            IsOutcome svc now clock given w q.0 q.1)
          h (create-IsOutcome svc now clock given w) in
      (o.0, o.1)

  emitted_given :
      (now : ℕ) (given : Notification V)
      → (now == 0) ≡ false
      → ((with_defaults svc now given).emitted_at == 0) ≡ false
  unfolding with_defaults
  emitted_given now given h = ground arith

  listed_row :
      (given : Notification V) (r : Row) (w : World Tables) (limit : ℤ)
      → r.tenant_id ≡ given.tenant_id
      → r.user_id ≡ given.user_id
      → In r w.conn.notifications
      → count_if (is_owned given.tenant_id given.user_id) w.conn.notifications
        ≤ Paging.clamp_limit 100 limit
      → In (from_store codec r) (
          map (from_store codec) (
            page newer
              (Paging.clamp_limit 100 limit)
              0
              (filter (is_owned given.tenant_id given.user_id) w.conn.notifications)))
  listed_row given r w limit tenant user i room =
      let mine = is_owned given.tenant_id given.user_id in
      let owned : mine r ≡ true =
        rw (tenant, user, text_eq_refl given.tenant_id, text_eq_refl given.user_id) refl in
      let rows = filter mine w.conn.notifications in
      let size = Paging.clamp_limit 100 limit in
      In-map (from_store codec) r (page newer size 0 rows) (
        page-In newer size rows r (omega (arith, room, length-filter mine w.conn.notifications))
          (filter-In r mine w.conn.notifications i owned))

  -- A notification that Create accepted is in its user's list: GetByUser from the first one returns
  -- it with its defaults and its data, whatever the other channels did, if the limit leaves room for
  -- all of the user's notifications. It is assumed that the clock does not read the zero time, that
  -- the other channels leave the table of notifications alone, that JSON keeps the data, and that the
  -- driver reports no fault at the later call.
  pub create-get_by_user :
      (now clock : ℕ) (given n : Notification V) (w w' : World Tables)
      → create svc now clock (some given) w ≡ (ok n, w')
      → (now == 0) ≡ false
      → ((c : Channel Tables V) → In (some c) extra → IsApart c)
      → IsEncoded codec given.data_of
      → (limit : ℤ)
      → count_if (is_owned given.tenant_id given.user_id) w'.conn.notifications
        ≤ Paging.clamp_limit 100 limit
      → (n ≡ with_defaults svc now given)
        × In n (listed (get_by_user svc given.tenant_id given.user_id limit (pos 0) (calm w')).0)
  unfolding with_defaults
  create-get_by_user now clock given n w w' h time apart law limit room =
      let (same, delivered) = created now clock given n w w' h in
      let (t, first, rest) =
        first_sent clock n (in_app codec (store a)) extra w.conn w'.conn delivered in
      let (r, stored, rows) = in_app_rows a codec clock n w.conn t first in
      let encoded = subst (λ (x : Notification V). IsEncoded codec x.data_of) (sym same) law in
      let read = from_store-to_store codec n r encoded stored in
      let (tenant, user, time') = from_store_fields codec r n read in
      let emitted : (n.emitted_at == 0) ≡ false = rw same (emitted_given now given time) in
      let written : In r w'.conn.notifications =
        rw (Delivered-apart clock n extra t w'.conn rest apart, rows)
          (rw (stamped clock r (rw time' emitted))
            (In-append_right r w.conn.notifications (r ∷ []) (inl refl))) in
      (
        same,
        rw (calm_listed given.tenant_id given.user_id limit w') (
            subst
              (λ (x : Notification V). In x (
                map (from_store codec) (
                  page newer (Paging.clamp_limit 100 limit) 0
                    (filter (is_owned given.tenant_id given.user_id) w'.conn.notifications))))
              read
              (listed_row given r w' limit (tenant ∙ ap (λ (x : Notification V). x.tenant_id) same)
                (user ∙ ap (λ (x : Notification V). x.user_id) same) written room)),
      )
