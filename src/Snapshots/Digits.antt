-- ===== src/Snapshots/Digits.antt =====
-- snapshots/normalize.go: what the two loops over the zeros leave.
use mathlib.Core.List.{reverse, reverse-append}
use go_specs.Prelude.{
  ℕ, ◌+◌, ◌-◌, ◌*◌, ◌/◌, ◌%◌, ◌≤◌, ◌<◌, none, some, [], ◌∷◌, ◌++◌, append-nil, append_assoc, ◌≡◌,
  subst, sym, ap, ◌∙◌, inl, inr, arith, Bool-cases, ◌==◌,
}
use go_specs.Prelude.Text.{Text, is_digit, parse_digits, itoa}
use go_specs.Prelude.Text.Decimal.{itoa-snoc, itoa-digit}
use go_specs.Snapshots.{drop_leading}

read_digit :
    (m n c : ℕ) (s : Text)
    → parse_digits m (c ∷ s) ≡ some n
    → (d : ℕ) × (d < 10) × (d + 48 ≡ c) × (parse_digits (m * 10 + d) s ≡ some n)
unfolding parse_digits is_digit
read_digit m n c s h = elim (Bool-cases (is_digit c)) [
  | inl e ↦
      let low : 48 ≤ c = ground arith in
      let high : c ≤ 57 = ground arith in (c - 48, omega arith, omega arith, rw e at h)
  | inr e ↦ let none_read : none ≡ some n = rw e at h in cc
]

itoa-read : (m n : ℕ) (s : Text) → 0 < m → parse_digits m s ≡ some n → itoa m ++ s ≡ itoa n
unfolding parse_digits
itoa-read m n [] positive h = let e : m ≡ n = cc in append-nil (itoa m) ∙ ap itoa e
itoa-read m n (c ∷ s) positive h =
    let (d, small, e, rest) = read_digit m n c s h in
    ap (λ (k : ℕ). itoa m ++ k ∷ s) (sym e)
    ∙ sym (append_assoc (itoa m) ((d + 48) ∷ []) s)
    ∙ ap (λ (t : Text). t ++ s) (sym (itoa-snoc m d positive small))
    ∙ itoa-read (m * 10 + d) n s (omega arith) rest

one_digit : (d n : ℕ) → parse_digits (0 * 10 + d) [] ≡ some n → d ≡ n
unfolding parse_digits
one_digit d n h = let e : 0 * 10 + d ≡ n = cc in omega arith

-- Without its leading zeros, a run of digits is its value as strconv.Itoa writes it.
pub drop_leading-itoa :
    (n c : ℕ) (s : Text) → parse_digits 0 (c ∷ s) ≡ some n → drop_leading (c ∷ s) ≡ itoa n
unfolding drop_leading
drop_leading-itoa n c [] h =
    let (d, small, e, rest) = read_digit 0 n c [] h in
    let same : d ≡ n = one_digit d n rest in
    ap (λ (k : ℕ). k ∷ []) (sym e) ∙ sym (itoa-digit d small) ∙ ap itoa same
drop_leading-itoa n c (c' ∷ s) h =
    let (d, small, e, rest) = read_digit 0 n c (c' ∷ s) h in
    let alone : 0 * 10 + d ≡ d = omega arith in
    let later = subst (λ (k : ℕ). parse_digits k (c' ∷ s) ≡ some n) alone rest in
    elim (Bool-cases (c == b'0')) [
      | inl z ↦
          let nothing : d ≡ 0 = ground arith in
          rw z (drop_leading-itoa n c' s (rw nothing at later))
      | inr z ↦ rw z (
          ap (λ (k : ℕ). k ∷ c' ∷ s) (sym e)
          ∙ ap (λ (t : Text). t ++ c' ∷ s) (sym (itoa-digit d small))
          ∙ itoa-read d n (c' ∷ s) (ground arith) later)
    ]

pub reverse-itoa_digit : (n : ℕ) → n < 10 → reverse (itoa n) ≡ (n + 48) ∷ []
reverse-itoa_digit n h = rw (itoa-digit n h)

pub reverse-itoa : (n : ℕ) → 10 ≤ n → reverse (itoa n) ≡ (n % 10 + 48) ∷ reverse (itoa (n / 10))
reverse-itoa n h =
    let value : n ≡ n / 10 * 10 + n % 10 = omega arith in
    ap (λ (k : ℕ). reverse (itoa k)) value
    ∙ ap reverse (itoa-snoc (n / 10) (n % 10) (omega arith) (omega arith))
    ∙ reverse-append (itoa (n / 10)) ((n % 10 + 48) ∷ [])
