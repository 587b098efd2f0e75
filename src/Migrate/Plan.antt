-- ===== src/Migrate/Plan.antt =====
-- What `validate` accepts, and the migrations that a ledger leaves to apply.
use pk_modules.Common.{
  ℕ, suc, ◌≡◌, ◌↔◌, refl, true, false, Option, none, some, List, [], ◌∷◌, ok, ◌==◌, All, filter,
  count_if, arith,
}
use pk_modules.Common.Text.{
  Text, is_blank, text_eq, text_lt, text_eq_iff, text_lt_trans, text_lt_irrefl,
}
use pk_modules.Migrate.{
  Migration, Entry, seen_name, out_of_order, validate_loop, validate, is_entry,
}

-- Every name is above the one before it.
abbrev pub Ascending : Option Migration → List Migration → Type 0
Ascending previous [] = Unit
Ascending none (m ∷ ms) = Ascending (some m) ms
Ascending (some p) (m ∷ ms) = (text_lt p.name m.name ≡ true) × Ascending (some m) ms

-- The migrations have names and SQL, and strictly ascending names.
abbrev pub IsPlan : Option Migration → List Migration → Type 0
IsPlan previous ms =
    All (λ m. (is_blank m.name ≡ false) × (is_blank m.sql ≡ false)) ms × Ascending previous ms

-- Every name seen is the previous one or below it.
abbrev Covers : Option Migration → List Migration → Type 0
Covers none seen = seen ≡ []
Covers (some p) seen = (t : Text) → text_lt p.name t ≡ true → seen_name seen t ≡ false

Covers-cons :
    (previous : Option Migration) (seen : List Migration) (m : Migration)
    → Covers previous seen
    → out_of_order previous m ≡ false
    → Covers (some m) (m ∷ seen)
unfolding seen_name out_of_order
Covers-cons none seen m c h t k = ground (arith, c, text_eq_iff m.name t, text_lt_irrefl m.name)
Covers-cons (some p) seen m c h t k =
    ground (arith, c t, text_lt_trans p.name m.name t, text_eq_iff m.name t, text_lt_irrefl m.name)

Covers-seen :
    (previous : Option Migration) (seen : List Migration) (m : Migration)
    → Covers previous seen
    → out_of_order previous m ≡ false
    → seen_name seen m.name ≡ false
unfolding seen_name out_of_order
Covers-seen none seen m c h = rw c refl
Covers-seen (some p) seen m c h = c m.name (ground arith)

validate_loop-IsPlan :
    (i : ℕ) (seen : List Migration) (previous : Option Migration) (ms : List Migration)
    → validate_loop i seen previous ms ≡ ok tt
    → IsPlan previous ms
unfolding validate_loop out_of_order
validate_loop-IsPlan i seen none [] h = (tt, tt)
validate_loop-IsPlan i seen (some p) [] h = (tt, tt)
validate_loop-IsPlan i seen none (m ∷ ms) h =
    let (a, b) = validate_loop-IsPlan (suc i) (m ∷ seen) (some m) ms (ground arith) in
    (((ground arith, ground arith), a), b)
validate_loop-IsPlan i seen (some p) (m ∷ ms) h =
    let (a, b) = validate_loop-IsPlan (suc i) (m ∷ seen) (some m) ms (ground arith) in
    (((ground arith, ground arith), a), (ground arith, b))

IsPlan-validate_loop :
    (i : ℕ) (seen : List Migration) (previous : Option Migration) (ms : List Migration)
    → Covers previous seen
    → IsPlan previous ms
    → validate_loop i seen previous ms ≡ ok tt
unfolding validate_loop out_of_order
IsPlan-validate_loop i seen previous [] c h = refl
IsPlan-validate_loop i seen none (m ∷ ms) c h =
    let fresh = Covers-seen none seen m c refl in
    let rest =
      IsPlan-validate_loop (suc i) (m ∷ seen) (some m) ms (Covers-cons none seen m c refl)
        (h.0.1, h.1) in
    rw (h.0.0.0, h.0.0.1, fresh) rest
IsPlan-validate_loop i seen (some p) (m ∷ ms) c h =
    let order : out_of_order (some p) m ≡ false = rw h.1.0 refl in
    let fresh = Covers-seen (some p) seen m c order in
    let rest =
      IsPlan-validate_loop (suc i) (m ∷ seen) (some m) ms (Covers-cons (some p) seen m c order)
        (h.0.1, h.1.1) in
    rw (h.0.0.0, h.0.0.1, fresh, h.1.0) rest

-- `validate` accepts a set of migrations exactly when every one has a name and some SQL and the
-- names strictly ascend in the order of the list.
pub validate-IsPlan : (ms : List Migration) → (validate ms ≡ ok tt) ↔ IsPlan none ms
unfolding validate
validate-IsPlan ms = (validate_loop-IsPlan 0 [] none ms, IsPlan-validate_loop 0 [] none ms refl)

-- The names of a plan are distinct.
abbrev pub Distinct : List Migration → Type 0
Distinct [] = Unit
Distinct (m ∷ ms) = All (λ n. text_eq m.name n.name ≡ false) ms × Distinct ms

Ascending-above :
    (name : Text) (p : Migration) (ms : List Migration)
    → ((t : Text) → text_lt p.name t ≡ true → text_lt name t ≡ true)
    → Ascending (some p) ms
    → All (λ n. text_eq name n.name ≡ false) ms
Ascending-above name p [] f h = tt
Ascending-above name p (m ∷ ms) f h = (
  ground (arith, f m.name h.0, text_eq_iff name m.name, text_lt_irrefl name),
  Ascending-above name m ms (λ t k. f t (text_lt_trans p.name m.name t h.0 k)) h.1,
)

pub Ascending-Distinct :
    (previous : Option Migration) (ms : List Migration) → Ascending previous ms → Distinct ms
Ascending-Distinct previous [] h = tt
Ascending-Distinct none (m ∷ ms) h =
    (Ascending-above m.name m ms (λ t k. k) h, Ascending-Distinct (some m) ms h)
Ascending-Distinct (some p) (m ∷ ms) h =
    (Ascending-above m.name m ms (λ t k. k) h.1, Ascending-Distinct (some m) ms h.1)

-- The migrations of which the ledger has no row for the module.
unfoldable pub pending : Text → List Entry → List Migration → List Migration
pending module_name rows = filter (λ m. count_if (is_entry module_name m.name) rows == 0)
