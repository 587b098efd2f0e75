-- ===== src/Http.antt =====
-- What the HTTP handlers share: a request as they read it, their answers, and the helpers of
-- pkg/portslib/httpinput.go and pkg/portslib/requestactor.go. A handler returns an answer, or the
-- status of an error; the text of an error is not modelled. The principal of pk-core, the decoding of
-- a path segment of pk-shared and that of the body are parts of the request.
use pk_modules.Common.{
  arith, ◌≡◌, ℕ, ◌*◌, ◌+◌, ◌-◌, Bool, true, false, ◌&&◌, ◌||◌, Option, none, some, [], ◌∷◌, Result,
  ok, err, Action, ◌==◌, if◌then◌else◌, leb, length, drop,
}
use pk_modules.Common.Int.{ℤ, pos, negsuc, is_positive}
use pk_modules.Common.Keeps.{Keeps}
use pk_modules.Common.Text.{Text, codes, trim_space, text_eq, has_prefix}

pub data Method : Type 0 where
  get post put delete other : Method

-- `identity.PrincipalFromContext(r.Context())`
pub record Principal : Type 0 where
  pub tenant_id : Text
  pub subject : Text
  pub anonymous : Bool
  pub has_scope : Text → Bool

-- `body` is what DecodeJSONBody makes of the request's body, none for an error; `decode` is
-- `pathsegment.DecodeOpaqueID`.
pub record Request (B : Type 0) : Type 0 where
  pub method : Method
  pub path : Text
  pub query : Text → Text
  pub body : Option B
  pub principal : Principal
  pub decode : Text → Option Text

-- A status with the value that is written as JSON, if any.
pub record Answer (A : Type 0) : Type 0 where
  pub status : ℕ
  pub body : Option A

abbrev pub write_json : {A : Type 0} → ℕ → A → Answer A
write_json status v = record { status = status; body = some v }

abbrev pub no_content : {A : Type 0} → Answer A
no_content = record { status = 204; body = none }

-- A call whose error becomes a status.
unfoldable pub or_status : {E S A : Type 0} → (E → ℕ) → Action E S A → Action ℕ S A
or_status f m s = let (r, s') = m s in (elim r [ ok a ↦ ok a | err e ↦ err (f e) ], s')

pub Keeps-or_status :
    {E S A : Type 0} (P : S → Type 0) (f : E → ℕ) (m : Action E S A)
    → Keeps P m
    → Keeps P (or_status f m)
unfolding or_status
Keeps-or_status P f m h s p = h s p

-- `strings.TrimPrefix(s, prefix)`
unfoldable pub trim_prefix : Text → Text → Text
unfolding has_prefix
trim_prefix s prefix = if has_prefix s prefix then drop (length prefix) s else s

-- `strings.Cut(s, "/")`, without its third result
unfoldable pub cut_slash : Text → Text × Text
cut_slash [] = ([], [])
cut_slash (c ∷ t) =
    let (before, after) = cut_slash t in if c == 47 then ([], t) else (c ∷ before, after)

-- `EntityIDFromPath`
unfoldable pub entity_id_from_path : (Text → Option Text) → Text → Text → Option (Text × Text)
unfolding trim_prefix cut_slash
entity_id_from_path decode path prefix =
    let rest = trim_prefix (trim_prefix path prefix) (codes "/") in
    if text_eq rest []
    then some ([], [])
    else (let (segment, verb) = cut_slash rest in
        elim (decode segment) [ none ↦ none | some id ↦ some (id, verb) ])

-- The digits of a number, after those read before; none for another byte.
unfoldable pub digits : ℕ → Text → Option ℕ
digits n [] = some n
digits n (c ∷ t) =
    let rest = digits (n * 10 + (c - 48)) t in if leb 48 c && leb c 57 then rest else none

unfoldable pub unsigned : Text → Option ℕ
unfolding digits
unsigned [] = none
unsigned (c ∷ t) = digits 0 (c ∷ t)

abbrev max_int : ℕ
max_int = 9223372036854775807

-- A sign and a magnitude, within the range of a 64-bit int.
unfoldable pub signed : Bool → ℕ → Option ℤ
signed true n =
    if leb n (max_int + 1) then some (if n == 0 then pos 0 else negsuc (n - 1)) else none
signed false n = if leb n max_int then some (pos n) else none

-- `strconv.Atoi`
unfoldable pub atoi : Text → Option ℤ
unfolding unsigned signed
atoi [] = none
atoi (c ∷ t) =
    if c == 45
    then elim (unsigned t) [ none ↦ none | some n ↦ signed true n ]
    else elim (unsigned (if c == 43 then t else c ∷ t)) [ none ↦ none | some n ↦ signed false n ]

abbrev is_negative : ℤ → Bool
is_negative (pos n) = false
is_negative (negsuc n) = true

-- `ParsePagination`; an error is none
unfoldable pub parse_pagination : (Text → Text) → Option (ℤ × ℤ)
unfolding atoi
parse_pagination query =
    let raw = query (codes "limit") in
    let limit : Option ℤ =
      if text_eq raw []
      then some (pos 0)
      else elim (atoi raw) [ none ↦ none | some n ↦ if is_positive n then some n else none ] in
    let raw_offset = query (codes "offset") in
    let offset : Option ℤ = if text_eq raw_offset [] then some (pos 0) else elim (atoi raw_offset) [
      | none ↦ none
      | some n ↦ if is_negative n then none else some n
    ] in
    elim limit [ none ↦ none | some l ↦ elim offset [ none ↦ none | some o ↦ some (l, o) ] ]

-- `tenantOf` of the handlers: the principal's tenant, or 401.
unfoldable pub tenant_of : Principal → Result ℕ Text
tenant_of p =
    let tenant = trim_space p.tenant_id in if text_eq tenant [] then err 401 else ok tenant

pub tenant_of_lem :
    (p : Principal) (tenant : Text) → tenant_of p ≡ ok tenant → tenant ≡ trim_space p.tenant_id
unfolding tenant_of
tenant_of_lem p tenant h = ground arith

-- `RequestActor`: the principal's tenant and subject, or 401.
unfoldable pub request_actor : Principal → Result ℕ (Text × Text)
request_actor p =
    let tenant = trim_space p.tenant_id in
    let subject = trim_space p.subject in
    if text_eq tenant [] || text_eq subject [] then err 401 else ok (tenant, subject)
