-- ===== src/Tests/Notices.antt =====
-- pkg/notification at concrete tables.
use pk_modules.Common.{
  ℕ, ◌≤◌, ◌≡◌, inl, inr, refl, false, true, ◌&&◌, Option, none, some, List, [], ◌∷◌, ok, err, In,
  count_if, arith,
}
use pk_modules.Common.Int.{pos}
use pk_modules.Common.Text.{Text, codes, is_blank, text_eq}
use pk_modules.Sql.{Adapter}
use pk_modules.Sql.Paging
use pk_modules.Notification.{Error, Notification, deliver}
use pk_modules.Notification.Sqlite
use pk_modules.Notification.Sqlite.{Tables, sqlite, is_owned}
use pk_modules.Notification.Sqlite.Owners.{Write, SameOwned, Write-SameOwned}
use pk_modules.Notification.Service.{
  Codec, Channel, World, create, dispatch, attempt, in_app, to_store, data_text_of, with_defaults,
  generate_id, shorten, is_severity, get_by_user,
}
use pk_modules.Notification.Service.Dispatch.{IsOutcome, create-IsOutcome}
use pk_modules.Notification.Service.Inbox.{
  IsApart, IsEncoded, svc, calm, listed, create-get_by_user,
}
use pk_modules.Tests.Fixtures.{driver}

abbrev adapter : Adapter Error
adapter = sqlite driver

-- A toy printer of maps from names to bytes, and a parser that knows two maps.
abbrev codec : Codec ℕ
codec = record { marshal = λ d. some (codes "{k}"); unmarshal = λ t. some ((codes "k", 5) ∷ []) }

-- A channel of another module, which sends nothing and reports an error.
abbrev mail : Channel Tables ℕ
mail = record { name = codes "mail"; send = λ now n s. (err Error.marshal_failed, s) }

abbrev push : Channel Tables ℕ
push = record { name = codes "push"; send = λ now n s. (ok tt, s) }

abbrev unix_nano : ℕ → Text
unix_nano n = codes "7"

abbrev welcome : Notification ℕ
welcome = record {
  id = [];
  tenant_id = codes "t";
  user_id = codes "ann";
  title = codes "Welcome";
  body = [];
  category = [];
  severity = [];
  data_of = (codes "k", 5) ∷ [];
  emitted_at = 0;
}

abbrev welcomed : Notification ℕ
welcomed = record welcome { id = codes "7-t-ann"; severity = codes "info"; emitted_at = 7 }

abbrev empty : World Tables
empty = record {
  conn = record { notifications = []; subscriptions = []; faults = [] };
  events = [];
}

abbrev extra : List (Option (Channel Tables ℕ))
extra = none ∷ some push ∷ []

abbrev after : World Tables
after = (create (svc adapter codec extra true unix_nano) 7 0 (some welcome) empty).1

created :
    create (svc adapter codec extra true unix_nano) 7 0 (some welcome) empty ≡ (ok welcomed, after)
unfolding create is_blank is_severity text_eq with_defaults generate_id shorten dispatch attempt
    in_app to_store data_text_of Sqlite.create count_if
created = refl

extra-IsApart : (c : Channel Tables ℕ) → In (some c) extra → IsApart c
unfolding IsApart
extra-IsApart c (inl e) = absurd (cc)
extra-IsApart c (inr (inl e)) = let same : c ≡ push = cc in rw same (λ now n s. refl)
extra-IsApart c (inr (inr m)) = elim m [ ]

welcome-IsEncoded : IsEncoded codec welcome.data_of
unfolding text_eq
welcome-IsEncoded = record { nonempty = λ t e. ground arith; unmarshal-marshal = λ t e. refl }

room :
    count_if (is_owned (codes "t") (codes "ann")) after.conn.notifications
    ≤ Paging.clamp_limit 100 (pos 10)
unfolding create is_blank is_severity text_eq with_defaults generate_id shorten dispatch attempt
    in_app to_store data_text_of Sqlite.create count_if Paging.clamp_limit
room = omega arith

create-get_by_user_example :
    (welcomed ≡ with_defaults (svc adapter codec extra true unix_nano) 7 welcome)
    × In welcomed (
        listed adapter codec extra true unix_nano
          (get_by_user
            (svc adapter codec extra true unix_nano)
            (codes "t")
            (codes "ann")
            (pos 10)
            (pos 0)
            (calm adapter codec extra true unix_nano after)).0)
create-get_by_user_example =
    create-get_by_user adapter codec extra true unix_nano 7 0 welcome welcomed empty after created
      refl extra-IsApart welcome-IsEncoded (pos 10) room

-- The channel that fails stops the loop before the one after it.
create-IsOutcome_example :
    IsOutcome
      (svc adapter codec (some mail ∷ some push ∷ []) true unix_nano)
      7
      0
      welcome
      empty
      (create
        (svc adapter codec (some mail ∷ some push ∷ []) true unix_nano)
        7
        0
        (some welcome)
        empty).0
      (create
        (svc adapter codec (some mail ∷ some push ∷ []) true unix_nano)
        7
        0
        (some welcome)
        empty).1
create-IsOutcome_example =
    create-IsOutcome (svc adapter codec (some mail ∷ some push ∷ []) true unix_nano) 7 0 welcome
      empty

mail_failed :
    (create
      (svc adapter codec (some mail ∷ some push ∷ []) true unix_nano)
      7
      0
      (some welcome)
      empty).0
    ≡ err (deliver (codes "mail") Error.marshal_failed)
unfolding create is_blank is_severity text_eq with_defaults generate_id shorten dispatch attempt
    in_app to_store data_text_of Sqlite.create count_if
mail_failed = refl

-- Bob's attempt to mark Ann's notification as read.
others : (text_eq (codes "t") (codes "t") && text_eq (codes "bob") (codes "ann")) ≡ false
unfolding text_eq
others = refl

Write-SameOwned_example :
    SameOwned
      (codes "t")
      (codes "ann")
      after.conn
      (Sqlite.mark_read 9 (codes "t") (codes "bob") (codes "7-t-ann") 9 after.conn).1
Write-SameOwned_example =
    Write-SameOwned adapter (codes "t") (codes "bob") (codes "t") (codes "ann")
      (Write.marked after.conn 9 (codes "7-t-ann") 9) others
