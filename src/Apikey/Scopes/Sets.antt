-- ===== src/Apikey/Scopes/Sets.antt =====
-- Go maps that are used as sets of texts, as lists of their members.
use pk_modules.Common.{
  ◌≡◌, refl, inl, inr, true, List, [], ◌∷◌, ◌++◌, if◌then◌else◌, In, arith, Bool-cases,
}
use pk_modules.Common.Text.{Text, text_eq, text_eq_iff, text_eq_refl}
use pk_modules.Apikey.Scopes.{has}

pub has-In : (set : List Text) (s : Text) → has set s ≡ true → In s set
unfolding has
has-In [] s h = absurd (cc)
has-In (t ∷ set) s h = elim (Bool-cases (text_eq t s)) [
  | inl e ↦ inl (rw ((text_eq_iff t s).0 e))
  | inr e ↦ inr (has-In set s (rw e at h))
]

pub In-has : (set : List Text) (s : Text) → In s set → has set s ≡ true
unfolding has
In-has [] s m = elim m [ ]
In-has (t ∷ set) s (inl e) = rw (e, text_eq_refl t)
In-has (t ∷ set) s (inr m) = elim (Bool-cases (text_eq t s)) [
  | inl e ↦ rw e
  | inr e ↦ rw e (In-has set s m)
]

pub has-append :
    (xs ys : List Text) (s : Text) → has (xs ++ ys) s ≡ (if has xs s then true else has ys s)
unfolding has
has-append [] ys s = refl
has-append (x ∷ xs) ys s = ground (arith, has-append xs ys s)

-- Two sets with the same members answer alike.
pub has_cong :
    (xs ys : List Text) (s : Text) → (In s xs → In s ys) → (In s ys → In s xs) → has xs s ≡ has ys s
has_cong xs ys s f g = elim (Bool-cases (has xs s)) [
  | inl e ↦ rw (e, In-has ys s (f (has-In xs s e)))
  | inr e ↦ elim (Bool-cases (has ys s)) [
    | inl k ↦ absurd (ground (arith, In-has xs s (g (has-In ys s k))))
    | inr k ↦ rw (e, k)
  ]
]
