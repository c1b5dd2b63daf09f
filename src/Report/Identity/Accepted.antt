-- ===== src/Report/Identity/Accepted.antt =====
-- The run identifiers that report/coordination/identity.go accepts.
use go_specs.Prelude.{
  ℕ, suc, ◌≤◌, ◌≡◌, ◌≢◌, ◌↔◌, ◌⊎◌, refl, sym, subst, arith, Option, some, Bool, true, false, none,
  [], ◌∷◌, length, All, Bool-cases, Option-cases, inl, inr, ltb,
}
use go_specs.Prelude.Fallible.{ok}
use go_specs.Prelude.Text.{Text, text_eq, is_blank}
use go_specs.Prelude.Text.Pieces.{text_eq_iff}
use go_specs.Report.Identity.{
  is_run_id_byte, first_refused, is_traversal, permitted, validate_run_id,
}

-- [A-Za-z0-9_.-], letter by letter.
abbrev pub IsRunIdByte : ℕ → Type 0
IsRunIdByte b =
    ((65 ≤ b) × (b ≤ 90))
    ⊎ (((97 ≤ b) × (b ≤ 122)) ⊎ (((48 ≤ b) × (b ≤ 57)) ⊎ ((b ≡ 95) ⊎ ((b ≡ 46) ⊎ (b ≡ 45)))))

is_run_id_byte_iff : (b : ℕ) → (is_run_id_byte b ≡ true) ↔ IsRunIdByte b
unfolding is_run_id_byte
is_run_id_byte_iff b = (λ h. ground arith, λ h. ground arith)

All-change : {P Q : ℕ → Type 0} → ((b : ℕ) → P b → Q b) → (s : Text) → All P s → All Q s
All-change f [] h = tt
All-change f (b ∷ s) h = (f b h.0, All-change f s h.1)

-- ^[A-Za-z0-9_.-]{1,128}$, and neither "." nor "..".
abbrev pub IsRunId : Text → Type 0
IsRunId s =
    (1 ≤ length s) × (length s ≤ 128) × All IsRunIdByte s × (s ≢ b'.' ∷ []) × (s ≢ b'.' ∷ b'.' ∷ [])

first_refused-All :
    (test : ℕ → Bool) (i : ℕ) (s : Text)
    → (first_refused test i s ≡ none) ↔ All (λ (b : ℕ). test b ≡ true) s
unfolding first_refused
first_refused-All test i [] = (λ e. tt, λ u. refl)
first_refused-All test i (b ∷ s) =
    let (to, from) = first_refused-All test (suc i) s in
    elim (Bool-cases (test b)) [
      | inl e ↦ rw e (λ n. (refl, to n), λ h. from h.1)
      | inr e ↦ rw e (λ n. absurd cc, λ h. absurd cc)
    ]

-- What passes the test for traversal.
is_traversal-false :
    (s : Text) → (is_traversal s ≡ false) ↔ ((s ≢ b'.' ∷ []) × (s ≢ b'.' ∷ b'.' ∷ []))
unfolding is_traversal
is_traversal-false s =
    let one = text_eq_iff s (b'.' ∷ []) in
    let two = text_eq_iff s (b'.' ∷ b'.' ∷ []) in
    elim (Bool-cases (text_eq s (b'.' ∷ []))) [
      | inl e ↦ rw e (λ h. absurd cc, λ h. absurd (h.0 (one.0 e)))
      | inr e ↦ elim (Bool-cases (text_eq s (b'.' ∷ b'.' ∷ []))) [
        | inl f ↦ rw (e, f) (λ h. absurd cc, λ h. absurd (h.1 (two.0 f)))
        | inr f ↦
            rw (e, f)
              (
                λ h. ((λ same. let t = one.1 same in cc), (λ same. let t = two.1 same in cc)),
                λ h. refl,
              )
      ]
    ]

permitted-ok :
    (s : Text)
    → (permitted s (first_refused is_run_id_byte 0 s) ≡ ok s)
      ↔ (All (λ (b : ℕ). is_run_id_byte b ≡ true) s × (is_traversal s ≡ false))
unfolding permitted
permitted-ok s =
    let (to, from) = first_refused-All is_run_id_byte 0 s in
    elim (Option-cases (first_refused is_run_id_byte 0 s)) [
      | inl e ↦ elim (Bool-cases (is_traversal s)) [
        | inl t ↦ rw (e, t) (λ h. absurd cc, λ h. absurd cc)
        | inr t ↦ rw (e, t) (λ h. (to e, refl), λ h. refl)
      ]
      | inr (i, e) ↦ rw e (λ h. absurd cc, λ h. let missing = from h.0 in absurd cc)
    ]

is_blank-false : (s : Text) → (is_blank s ≡ false) ↔ (1 ≤ length s)
unfolding is_blank
is_blank-false [] = (λ e. absurd cc, λ h. absurd (omega (arith, h)))
is_blank-false (c ∷ s) = (λ e. omega arith, λ h. refl)

accepted_iff : (s : Text) → (validate_run_id s ≡ ok s) ↔ IsRunId s
unfolding validate_run_id
accepted_iff s =
    let (to, from) = permitted-ok s in
    let full = is_blank-false s in
    let apart = is_traversal-false s in
    let reads = All-change (λ b. (is_run_id_byte_iff b).0) s in
    let passes = All-change (λ b. (is_run_id_byte_iff b).1) s in
    elim (Bool-cases (is_blank s)) [
      | inl e ↦ rw e (λ h. absurd cc, λ h. let f = full.1 h.0 in absurd cc)
      | inr e ↦ elim (Bool-cases (ltb 128 (length s))) [
        | inl f ↦ rw (e, f) (λ h. absurd cc, λ h. absurd (ground (arith, f, h.1)))
        | inr f ↦
            rw (e, f)
              (
                λ h.
                    let (all, calm) = to h in
                    let (one, two) = apart.0 calm in
                    (full.0 e, ground (arith, f), reads all, one, two),
                λ h. from (passes h.2, apart.1 (h.3, h.4)),
              )
      ]
    ]

permitted-same : (s t : Text) (at : Option ℕ) → permitted s at ≡ ok t → t ≡ s
unfolding permitted
permitted-same s t (some i) h = absurd cc
permitted-same s t none h = elim (Bool-cases (is_traversal s)) [
  | inl e ↦ let refused = rw e at h in absurd cc
  | inr e ↦ let accepted : ok s ≡ ok t = rw e at h in cc
]

returned_same : (s t : Text) → validate_run_id s ≡ ok t → t ≡ s
unfolding validate_run_id
returned_same s t h = elim (Bool-cases (is_blank s)) [
  | inl e ↦ let refused = rw e at h in absurd cc
  | inr e ↦ elim (Bool-cases (ltb 128 (length s))) [
    | inl f ↦ let refused = rw (e, f) at h in absurd cc
    | inr f ↦ permitted-same s t (first_refused is_run_id_byte 0 s) (rw (e, f) at h)
  ]
]

-- An identifier is accepted, as t, exactly when it has 1 to 128 bytes, each an ASCII letter, a digit or
-- one of _ . and -, it is neither "." nor "..", and t is the identifier as it was given.
pub validate_run_id-IsRunId : (s t : Text) → (validate_run_id s ≡ ok t) ↔ (IsRunId s × (t ≡ s))
validate_run_id-IsRunId s t =
    let (to, from) = accepted_iff s in
    (
      λ h.
          let same = returned_same s t h in
          (to (subst (λ (r : Text). validate_run_id s ≡ ok r) same h), same),
      λ h. subst (λ (r : Text). validate_run_id s ≡ ok r) (sym h.1) (from h.0),
    )
