-- ===== src/Notification/Service/Dispatch.antt =====
-- The order of the deliveries of Create, and what the first error leaves.
use pk_modules.Common.{
  ℕ, ◌≡◌, ◌⊎◌, refl, sym, ap, subst, inl, inr, true, false, Option, none, some, List, [], ◌∷◌, ◌++◌,
  Result, ok, err, if◌then◌else◌, Action, pure, ◌>>◌, Bool-cases,
}
use pk_modules.Common.Rows.{append_nil}
use pk_modules.Common.Text.{codes, is_blank}
use pk_modules.Notification.{Error, Notification, deliver}
use pk_modules.Notification.Service.{
  Channel, Service, World, Event, attempt, dispatch, stored, is_severity, with_defaults, emit,
  create,
}

module _ {S V : Type 0} (now : ℕ) (n : Notification V) where
  -- Every channel was sent the notification, in order, and none failed; a nil channel is passed over.
  pub data Delivered : List (Option (Channel S V)) → S → S → Type 0 where
    done : {s : S} → Delivered [] s s
    skipped :
        {cs : List (Option (Channel S V))} {s t : S} → Delivered cs s t → Delivered (none ∷ cs) s t
    sent :
        {c : Channel S V} {cs : List (Option (Channel S V))} {s t u : S}
        → c.send now n s ≡ (ok tt, t)
        → Delivered cs t u
        → Delivered (some c ∷ cs) s u

  -- The first channel that failed, after deliveries to all before it and to none after it.
  pub record IsFailure (cs : List (Option (Channel S V))) (e : Error) (s t : S) : Type 0 where
    pub before : List (Option (Channel S V))
    pub channel : Channel S V
    pub after : List (Option (Channel S V))
    pub split : cs ≡ before ++ some channel ∷ after
    pub middle : S
    pub delivered : Delivered before s middle
    pub reason : Error
    pub failed : channel.send now n middle ≡ (err reason, t)
    pub named : e ≡ deliver channel.name reason

  abbrev pub IsDispatch : List (Option (Channel S V)) → S → Result Error (Unit {0}) → S → Type 0
  IsDispatch cs s (ok _) t = Delivered cs s t
  IsDispatch cs s (err e) t = IsFailure cs e s t

  later :
      (c : Channel S V) (cs : List (Option (Channel S V))) (s t u : S) (r : Result Error (Unit {0}))
      → c.send now n s ≡ (ok tt, t)
      → IsDispatch cs t r u
      → IsDispatch (some c ∷ cs) s r u
  later c cs s t u (ok _) h d = sent h d
  later c cs s t u (err e) h f = record {
    before = some c ∷ f.before;
    channel = f.channel;
    after = f.after;
    split = ap (◌∷◌ (some c)) f.split;
    middle = f.middle;
    delivered = sent h f.delivered;
    reason = f.reason;
    failed = f.failed;
    named = f.named;
  }

  passed :
      (cs : List (Option (Channel S V))) (s u : S) (r : Result Error (Unit {0}))
      → IsDispatch cs s r u
      → IsDispatch (none ∷ cs) s r u
  passed cs s u (ok _) d = skipped d
  passed cs s u (err e) f = record {
    before = none ∷ f.before;
    channel = f.channel;
    after = f.after;
    split = ap (◌∷◌ none) f.split;
    middle = f.middle;
    delivered = skipped f.delivered;
    reason = f.reason;
    failed = f.failed;
    named = f.named;
  }

  -- The first channel fails, or the rest follows its delivery.
  attempted :
      (c : Channel S V) (cs : List (Option (Channel S V))) (s t : S) (r : Result Error (Unit {0}))
      → c.send now n s ≡ (r, t)
      → IsDispatch cs t (dispatch cs now n t).0 (dispatch cs now n t).1
      → IsDispatch
          (some c ∷ cs)
          s
          (dispatch (some c ∷ cs) now n s).0
          (dispatch (some c ∷ cs) now n s).1
  unfolding dispatch attempt
  attempted c cs s t (ok _) h d =
      rw h (later c cs s t (dispatch cs now n t).1 (dispatch cs now n t).0 h d)
  attempted c cs s t (err e) h d = rw h (record {
    before = [];
    channel = c;
    after = cs;
    split = refl;
    middle = s;
    delivered = done;
    reason = e;
    failed = h;
    named = refl;
  })

  pub dispatch-IsDispatch :
      (cs : List (Option (Channel S V))) (s : S)
      → IsDispatch cs s (dispatch cs now n s).0 (dispatch cs now n s).1
  unfolding dispatch
  dispatch-IsDispatch [] s = done
  dispatch-IsDispatch (none ∷ cs) s =
      passed cs s (dispatch cs now n s).1 (dispatch cs now n s).0 (dispatch-IsDispatch cs s)
  dispatch-IsDispatch (some c ∷ cs) s =
      attempted c cs s (c.send now n s).1 (c.send now n s).0 refl
        (dispatch-IsDispatch cs (c.send now n s).1)

module _ {S V : Type 0} (svc : Service S V) where
  -- The audit event of a dispatch, where an emitter is wired.
  abbrev pub dispatched : Notification V → List Event
  dispatched n =
      if svc.audited
      then (record {
        action = codes "notification.dispatched";
        resource = codes "notification:" ++ n.id;
        user_id = n.user_id;
        severity = n.severity;
        category = n.category;
      })
        ∷ []
      else []

  -- What Create promises for its result and the states before and after.
  abbrev pub IsOutcome :
      ℕ → ℕ → Notification V → World S → Result Error (Notification V) → World S → Type 0
  IsOutcome now clock given w (ok n) w' =
      (n ≡ with_defaults svc now given)
      × Delivered clock n svc.channels w.conn w'.conn
      × (w'.events ≡ w.events ++ dispatched n)
  IsOutcome now clock given w (err e) w' =
      (w'.events ≡ w.events)
      × ((w'.conn ≡ w.conn)
            × ((is_blank given.tenant_id ≡ true)
                ⊎ (is_blank given.user_id ≡ true)
                ⊎ (is_severity (with_defaults svc now given).severity ≡ false))
          ⊎ IsFailure clock (with_defaults svc now given) svc.channels e w.conn w'.conn)

  emitted :
      (n : Notification V) (w : World S)
      → ((emit svc n (codes "notification.dispatched") w).1.events ≡ w.events ++ dispatched n)
        × ((emit svc n (codes "notification.dispatched") w).1.conn ≡ w.conn)
  unfolding emit
  emitted n w = elim (Bool-cases svc.audited) [
    | inl e ↦ rw e (refl, refl)
    | inr e ↦ rw e (sym (append_nil w.events), refl)
  ]

  settled :
      (now clock : ℕ) (given : Notification V) (w : World S) (t : S) (r : Result Error (Unit {0}))
      → dispatch svc.channels clock (with_defaults svc now given) w.conn ≡ (r, t)
      → IsDispatch clock (with_defaults svc now given) svc.channels w.conn r t
      → (let after : Action Error (World S) (Notification V) =
            stored svc (dispatch svc.channels clock (with_defaults svc now given))
            >> (emit svc (with_defaults svc now given) (codes "notification.dispatched")
                >> pure (with_defaults svc now given)) in
          IsOutcome now clock given w (after w).0 (after w).1)
  unfolding emit
  settled now clock given w t (ok _) h d =
      let n = with_defaults svc now given in
      let (events, conn) = emitted n (record w { conn = t }) in
      rw h (refl, subst (Delivered clock n svc.channels w.conn) (sym conn) d, events)
  settled now clock given w t (err e) h f = rw h (refl, inr f)

  -- Create, whether it returns nil or an error. Where it returns nil, the notification with its
  -- defaults was delivered by every channel in order, and one audit event was emitted after that if
  -- an emitter is wired. Where it returns an error there is no event, and either the tenant or the
  -- user is blank or the severity is not one of the three, and nothing was sent; or the error is that
  -- of the first channel that failed, with its name, after deliveries by all before it, and none was
  -- tried after it.
  pub create-IsOutcome :
      (now clock : ℕ) (given : Notification V) (w : World S)
      → IsOutcome now clock given w
          (create svc now clock (some given) w).0
          (create svc now clock (some given) w).1
  unfolding create emit
  create-IsOutcome now clock given w = elim (Bool-cases (is_blank given.tenant_id)) [
    | inl e ↦ rw e (refl, inl (refl, inl e))
    | inr e ↦ elim (Bool-cases (is_blank given.user_id)) [
      | inl k ↦ rw (e, k) (refl, inl (refl, inr (inl k)))
      | inr k ↦ elim (Bool-cases (is_severity (with_defaults svc now given).severity)) [
        | inr l ↦ rw (e, k, l) (refl, inl (refl, inr (inr l)))
        | inl l ↦
            let (r, t) = dispatch svc.channels clock (with_defaults svc now given) w.conn in
            rw (e, k, l)
              (settled now clock given w t r refl
                (dispatch-IsDispatch clock (with_defaults svc now given) svc.channels w.conn))
      ]
    ]
  ]
