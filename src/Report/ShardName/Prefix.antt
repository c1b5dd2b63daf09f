-- ===== src/Report/ShardName/Prefix.antt =====
-- The readable prefix of report/coordination/shardname.go.
use go_specs.Prelude.{
  ℕ, zero, suc, ◌+◌, ◌≤◌, ◌≡◌, refl, sym, ap, ◌∙◌, arith, true, false, Option, none, some, [], ◌∷◌,
  ◌++◌, length, length-append, ltb, take, drop, append_assoc, ==_iff, Bool-cases, inl, inr, ◌==◌,
  if◌then◌else◌,
}
use go_specs.Prelude.Text.{Text}
use go_specs.Report.Identity.{is_run_id_byte}
use go_specs.Report.ShardName.{
  sanitize_byte, sanitize, width_of, cut_at, take_to, bound_prefix, sanitized_prefix,
}

not_percent : (c : ℕ) → is_run_id_byte c ≡ true → (c == b'%') ≡ false
not_percent c h = elim (Bool-cases (c == b'%')) [
  | inl e ↦
      let same : c ≡ b'%' = (==_iff c b'%').0 e in
      let refused : is_run_id_byte b'%' ≡ false = unfold is_run_id_byte in refl in
      let safe = rw same at h in absurd cc
  | inr e ↦ e
]

-- A byte that the loop counts with the width that it has.
cut_at-byte :
    (c used : ℕ) (s : Text)
    → cut_at used 0 (sanitize_byte c ++ s) ≡ (
        if ltb 40 (used + length (sanitize_byte c))
        then some used
        else cut_at (used + length (sanitize_byte c)) 0 s)
unfolding cut_at sanitize_byte width_of
cut_at-byte c used s = elim (Bool-cases (c == b'/')) [
  | inl e ↦ rw e refl
  | inr e ↦ elim (Bool-cases (is_run_id_byte c)) [
    | inl f ↦ rw (e, f, not_percent c f) refl
    | inr f ↦ rw (e, f) refl
  ]
]

-- The bytes that fit are those of whole bytes of the path.
IsCut : ℕ → Text → Option ℕ → Type 0
IsCut used path none = used + length (sanitize path) ≤ 40
IsCut used path (some n) = (k : ℕ) × (n ≡ used + length (sanitize (take k path))) × (n ≤ 40)

IsCut-cons :
    (used c : ℕ) (path : Text) (at : Option ℕ)
    → IsCut (used + length (sanitize_byte c)) path at
    → IsCut used (c ∷ path) at
unfolding IsCut sanitize
IsCut-cons used c path none h = omega (arith, h, length-append (sanitize_byte c) (sanitize path))
IsCut-cons used c path (some n) (k, e, h) =
    (suc k, omega (arith, e, length-append (sanitize_byte c) (sanitize (take k path))), h)

cut_at-IsCut :
    (used : ℕ) (path : Text) → used ≤ 40 → IsCut used path (cut_at used 0 (sanitize path))
unfolding sanitize
cut_at-IsCut used [] h = unfold cut_at IsCut in omega (arith, h)
cut_at-IsCut used (c ∷ path) h =
    let n = length (sanitize_byte c) in
    rw (cut_at-byte c used (sanitize path)) (elim (Bool-cases (ltb 40 (used + n))) [
      | inl e ↦ rw e (unfold IsCut in (0, omega arith, h))
      | inr e ↦
          let fits : used + n ≤ 40 = ground (arith, e) in
          rw e (
            IsCut-cons used c path (cut_at (used + n) 0 (sanitize path))
              (cut_at-IsCut (used + n) path fits))
    ])

take-length_append : (a b : Text) → take (length a) (a ++ b) ≡ a
take-length_append [] b = refl
take-length_append (c ∷ a) b = ap (◌∷◌ c) (take-length_append a b)

take-all : (s : Text) → take (length s) s ≡ s
take-all [] = refl
take-all (c ∷ s) = ap (◌∷◌ c) (take-all s)

sanitize-take-drop :
    (k : ℕ) (path : Text) → sanitize (take k path) ++ sanitize (drop k path) ≡ sanitize path
unfolding sanitize
sanitize-take-drop zero path = refl
sanitize-take-drop (suc k) [] = refl
sanitize-take-drop (suc k) (c ∷ path) =
    append_assoc (sanitize_byte c) (sanitize (take k path)) (sanitize (drop k path))
    ∙ ap (sanitize_byte c ++◌) (sanitize-take-drop k path)

take_to-IsCut :
    (path : Text) (at : Option ℕ)
    → IsCut 0 path at
    → (k : ℕ) × (take_to (sanitize path) at ≡ sanitize (take k path))
      × (length (sanitize (take k path)) ≤ 40)
unfolding IsCut take_to
take_to-IsCut path none h =
    let whole = take-all path in (length path, ap sanitize (sym whole), rw whole (omega (arith, h)))
take_to-IsCut path (some n) (k, e, h) =
    let taken = sanitize (take k path) in
    let size : n ≡ length taken = omega (arith, e) in
    (
      k,
      rw size (
          ap (take (length taken)) (sym (sanitize-take-drop k path))
          ∙ take-length_append taken (sanitize (drop k path))),
      omega (arith, size, h),
    )

-- The prefix spells out a beginning of the path, byte by byte, in at most 40 bytes.
pub sanitized_prefix-take :
    (path : Text)
    → (k : ℕ) × (sanitized_prefix path ≡ sanitize (take k path))
      × (length (sanitized_prefix path) ≤ 40)
unfolding sanitized_prefix bound_prefix
sanitized_prefix-take path =
    let (k, e, h) =
      take_to-IsCut path (cut_at 0 0 (sanitize path)) (cut_at-IsCut 0 path (omega arith)) in
    (k, e, rw e h)
