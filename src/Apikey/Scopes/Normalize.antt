-- ===== src/Apikey/Scopes/Normalize.antt =====
-- What normalizeScopes accepts and returns.
use pk_modules.Common.{
  ◌+◌, ◌≤◌, ◌≡◌, refl, inl, inr, true, false, none, List, [], ◌∷◌, ◌++◌, map, ok, if◌then◌else◌,
  length, All, arith, Bool-cases, Option-cases, All-snoc, ap, suc,
}
use pk_modules.Common.Text.{Text, trim_space, text_eq_iff}
use pk_modules.Apikey.Scopes.Sets.{has-append}
use pk_modules.Apikey.Scopes.{has, refusal, normalize_loop, normalize_scopes}

-- A scope that a key may carry: not empty, of at most 100 bytes, not reserved, and allowed.
pub record IsGrantable (allowed : List Text) (s : Text) : Type 0 where
  pub accepted : refusal s ≡ none
  pub listed : has allowed s ≡ true

-- No text stands twice.
abbrev pub IsDistinct : List Text → Type 0
IsDistinct [] = Unit
IsDistinct (s ∷ l) = (has l s ≡ false) × IsDistinct l

IsDistinct-snoc :
    (l : List Text) (s : Text) → IsDistinct l → has l s ≡ false → IsDistinct (l ++ s ∷ [])
unfolding has
IsDistinct-snoc [] s h n = (refl, tt)
IsDistinct-snoc (t ∷ l) s h n =
    ground
      (arith, has-append l (s ∷ []) t, IsDistinct-snoc l s h.1, text_eq_iff t s, text_eq_iff s t)

length-snoc : (l : List Text) (s : Text) → length (l ++ s ∷ []) ≡ suc (length l)
length-snoc [] s = refl
length-snoc (t ∷ l) s = ap suc (length-snoc l s)

-- The result of a run that began with the output `out`: each scope once, each grantable, and
-- exactly the scopes that were there or were requested, trimmed.
pub record IsResult (allowed scopes out result : List Text) : Type 0 where
  pub distinct : IsDistinct result
  pub grantable : All (IsGrantable allowed) result
  pub covers :
      (s : Text) → has result s ≡ (if has out s then true else has (map trim_space scopes) s)

module _ (allowed : List Text) where
  normalize_loop-IsResult :
      (scopes seen out result : List Text)
      → ((s : Text) → has seen s ≡ has out s)
      → IsDistinct out
      → All (IsGrantable allowed) out
      → normalize_loop allowed scopes seen out ≡ ok result
      → IsResult allowed scopes out result
  unfolding normalize_loop has
  normalize_loop-IsResult [] seen out result same d g h =
      let e : out ≡ result = ground arith in
      rw (← e) (record { distinct = d; grantable = g; covers = λ s. ground arith })
  normalize_loop-IsResult (x ∷ scopes) seen out result same d g h =
      elim (Option-cases (refusal (trim_space x))) [
        | inr (e, p) ↦ absurd (ground arith)
        | inl p ↦ elim (Bool-cases (has allowed (trim_space x))) [
          | inr a ↦ absurd (ground arith)
          | inl a ↦ elim (Bool-cases (has seen (trim_space x))) [
            | inl w ↦
                let r = normalize_loop-IsResult scopes seen out result same d g (ground arith) in
                record {
                  distinct = r.distinct;
                  grantable = r.grantable;
                  covers = λ s. ground (arith, r.covers s, same s, text_eq_iff (trim_space x) s);
                }
            | inr w ↦
                let n : has out (trim_space x) ≡ false = ground (arith, same (trim_space x)) in
                let r =
                  normalize_loop-IsResult scopes (trim_space x ∷ seen) (out ++ trim_space x ∷ [])
                    result (λ s. ground (arith, same s, has-append out (trim_space x ∷ []) s))
                    (IsDistinct-snoc out (trim_space x) d n)
                    (All-snoc (IsGrantable allowed) out (trim_space x) g
                      (record { accepted = p; listed = a }))
                    (ground arith) in
                record {
                  distinct = r.distinct;
                  grantable = r.grantable;
                  covers = λ s. ground (arith, r.covers s, has-append out (trim_space x ∷ []) s);
                }
          ]
        ]
      ]

  -- A scope of the request that is not grantable ends the run with an error.
  normalize_loop_total :
      (scopes seen out : List Text)
      → All (λ s. IsGrantable allowed (trim_space s)) scopes
      → (result : List Text) × (normalize_loop allowed scopes seen out ≡ ok result)
  unfolding normalize_loop
  normalize_loop_total [] seen out h = (out, refl)
  normalize_loop_total (x ∷ scopes) seen out h = elim (Bool-cases (has seen (trim_space x))) [
    | inl w ↦
        let (r, e) = normalize_loop_total scopes seen out h.1 in
        (r, ground (arith, h.0.accepted, h.0.listed))
    | inr w ↦
        let (r, e) =
          normalize_loop_total scopes (trim_space x ∷ seen) (out ++ trim_space x ∷ []) h.1 in
        (r, ground (arith, h.0.accepted, h.0.listed))
  ]

  length-normalize_loop :
      (scopes seen out result : List Text)
      → normalize_loop allowed scopes seen out ≡ ok result
      → length result ≤ length out + length scopes
  unfolding normalize_loop
  length-normalize_loop [] seen out result h =
      let e : out ≡ result = ground arith in rw (← e) (omega arith)
  length-normalize_loop (x ∷ scopes) seen out result h = ground (
    arith,
    length-normalize_loop scopes seen out result,
    length-normalize_loop scopes (trim_space x ∷ seen) (out ++ trim_space x ∷ []) result,
    length-snoc out (trim_space x),
  )

  -- When normalizeScopes returns a list, it holds each trimmed scope of the request and no other
  -- text, no scope twice, each of them non-empty, at most 100 bytes long, not reserved and in the
  -- service's vocabulary; it has at most 50 entries.
  pub normalize_scopes_sound :
      (scopes result : List Text)
      → normalize_scopes allowed scopes ≡ ok result
      → IsResult allowed scopes [] result × (length result ≤ 50)
  unfolding normalize_scopes
  normalize_scopes_sound scopes result h =
      let n : length scopes ≤ 50 = ground arith in
      let e : normalize_loop allowed scopes [] [] ≡ ok result = ground arith in
      (
        normalize_loop-IsResult scopes [] [] result (λ s. refl) tt tt e,
        omega (arith, length-normalize_loop scopes [] [] result e),
      )

  -- normalizeScopes accepts every request of at most 50 scopes that are grantable once trimmed.
  pub normalize_scopes_complete :
      (scopes : List Text)
      → length scopes ≤ 50
      → All (λ s. IsGrantable allowed (trim_space s)) scopes
      → (result : List Text) × (normalize_scopes allowed scopes ≡ ok result)
  unfolding normalize_scopes
  normalize_scopes_complete scopes n h =
      let (r, e) = normalize_loop_total scopes [] [] h in (r, ground arith)
