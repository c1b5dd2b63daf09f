-- ===== src/Prelude/Text/Decimal.antt =====
-- Decimal numbers are read back as they were written.
use Prim.Native.Nat.{ℕ, zero, suc, ◌+◌, ◌-◌, ◌*◌, ◌/◌, ◌%◌, ◌^◌, ◌≤◌, ◌<◌}
use mathlib.Core.Bool.{false}
use mathlib.Core.List.{[], ◌∷◌, ◌++◌}
use mathlib.Core.Option.{some}
use mathlib.Core.Logic.{inl, inr}
use mathlib.Core.Path.{◌≡◌, refl, sym, ap, ◌∙◌}
use native.Mathlib.Omega.{arith}
use go_specs.Prelude.Tests.{lt→ltb, ◌==◌, Bool-cases}
use go_specs.Prelude.Lists.{All}
use go_specs.Prelude.Int.{pos}
use go_specs.Prelude.Text.{Text, parse_digits, parse_nat, atoi, digits, itoa}

digit_step :
    (m d : ℕ) (rest : Text)
    → d < 10
    → parse_digits m ((d + 48) ∷ rest) ≡ parse_digits (m * 10 + d) rest
unfolding parse_digits
digit_step m d rest h = let e : d + 48 - 48 ≡ d = omega arith in rw e (ground arith)

parse_digits-digits :
    (fuel n : ℕ) (rest : Text)
    → n < fuel
    → parse_digits 0 (digits fuel n rest) ≡ parse_digits n rest
unfolding digits
parse_digits-digits zero n rest h = elim h [ ]
parse_digits-digits (suc fuel) n rest h =
    let value : n / 10 * 10 + n % 10 ≡ n = omega arith in
    let step =
      digit_step (n / 10) (n % 10) rest (omega arith) ∙ ap (λ (k : ℕ). parse_digits k rest) value in
    elim (Bool-cases (n / 10 == 0)) [
      | inl e ↦
          let small : 0 * 10 + n % 10 ≡ n = ground arith in
          rw e
            (digit_step 0 (n % 10) rest (omega arith) ∙ ap (λ (k : ℕ). parse_digits k rest) small)
      | inr e ↦
          rw e (parse_digits-digits fuel (n / 10) ((n % 10 + 48) ∷ rest) (ground arith) ∙ step)
    ]

-- A code point of a decimal digit.
abbrev pub IsDigit : ℕ → Type 0
IsDigit c = (48 ≤ c) × (c ≤ 57)

digits-IsDigit : (fuel n : ℕ) (rest : Text) → All IsDigit rest → All IsDigit (digits fuel n rest)
unfolding digits
digits-IsDigit zero n rest h = h
digits-IsDigit (suc fuel) n rest h =
    let more = digits-IsDigit fuel (n / 10) ((n % 10 + 48) ∷ rest) (omega arith, h) in
    elim (Bool-cases (n / 10 == 0)) [ inl e ↦ rw e (omega arith, h) | inr e ↦ rw e more ]

pub itoa-IsDigit : (n : ℕ) → All IsDigit (itoa n)
unfolding itoa
itoa-IsDigit n = digits-IsDigit (suc n) n [] tt

digits-cons :
    (fuel n : ℕ) (c : ℕ) (rest : Text) → (d : ℕ) × (s : Text) × (digits fuel n (c ∷ rest) ≡ d ∷ s)
unfolding digits
digits-cons zero n c rest = (c, rest, refl)
digits-cons (suc fuel) n c rest =
    let (d, s, e) = digits-cons fuel (n / 10) (n % 10 + 48) (c ∷ rest) in
    elim (Bool-cases (n / 10 == 0)) [
      | inl z ↦ (n % 10 + 48, c ∷ rest, rw z)
      | inr z ↦ (d, s, rw z e)
    ]

pub itoa-cons : (n : ℕ) → (d : ℕ) × (s : Text) × (itoa n ≡ d ∷ s)
unfolding itoa
itoa-cons n =
    let (d, s, e) = digits-cons n (n / 10) (n % 10 + 48) [] in
    elim (Bool-cases (n / 10 == 0)) [
      | inl z ↦ (n % 10 + 48, [], unfold digits in rw z)
      | inr z ↦ (d, s, unfold digits in rw z e)
    ]

pub parse_nat-itoa : (n : ℕ) → parse_nat (itoa n) ≡ some n
parse_nat-itoa n =
    let (d, s, e) = itoa-cons n in
    let parsed : parse_digits 0 (itoa n) ≡ some n =
      unfold itoa parse_digits in parse_digits-digits (suc n) n [] (omega arith) in
    rw e (unfold parse_nat in rw e at parsed)

atoi-digit :
    (d : ℕ) (s : Text) (n : ℕ)
    → parse_nat (d ∷ s) ≡ some n
    → 48 ≤ d
    → n < 2 ^ 63
    → atoi (d ∷ s) ≡ some (pos n)
unfolding atoi
atoi-digit d s n p first h =
    let minus : (d == b'-') ≡ false = ground arith in
    let plus : (d == b'+') ≡ false = ground arith in rw (minus, plus, p, lt→ltb n (2 ^ 63) h)

-- A 64-bit number is read back.
pub atoi-itoa : (n : ℕ) → n < 2 ^ 63 → atoi (itoa n) ≡ some (pos n)
atoi-itoa n h =
    let (d, s, e) = itoa-cons n in
    let first : All IsDigit (d ∷ s) = rw e at (itoa-IsDigit n) in
    rw e (atoi-digit d s n (rw e at (parse_nat-itoa n)) first.0.0 h)

digits-append : (fuel n : ℕ) (s t : Text) → digits fuel n (s ++ t) ≡ digits fuel n s ++ t
unfolding digits
digits-append zero n s t = refl
digits-append (suc fuel) n s t =
    let later = digits-append fuel (n / 10) ((n % 10 + 48) ∷ s) t in
    elim (Bool-cases (n / 10 == 0)) [ inl e ↦ rw e | inr e ↦ rw e later ]

digits-fuel : (f g n : ℕ) (rest : Text) → n < f → n < g → digits f n rest ≡ digits g n rest
unfolding digits
digits-fuel zero g n rest h k = elim h [ ]
digits-fuel (suc f) zero n rest h k = elim k [ ]
digits-fuel (suc f) (suc g) n rest h k = elim (Bool-cases (n / 10 == 0)) [
  | inl e ↦ rw e
  | inr e ↦ rw e (digits-fuel f g (n / 10) ((n % 10 + 48) ∷ rest) (ground arith) (ground arith))
]

-- The last digit of a number is written last.
pub itoa-snoc : (m d : ℕ) → 0 < m → d < 10 → itoa (m * 10 + d) ≡ itoa m ++ (d + 48) ∷ []
unfolding itoa
itoa-snoc m d h k =
    let quotient : (m * 10 + d) / 10 ≡ m = omega arith in
    let remainder : (m * 10 + d) % 10 ≡ d = omega arith in
    let more : (m == 0) ≡ false = ground arith in
    unfold digits in
    simp (quotient, remainder, more)
      (digits-fuel (m * 10 + d) (suc m) m ((d + 48) ∷ []) (omega arith) (omega arith)
        ∙ digits-append (suc m) m [] ((d + 48) ∷ []))

-- A number of one digit.
pub itoa-digit : (d : ℕ) → d < 10 → itoa d ≡ (d + 48) ∷ []
unfolding itoa digits
itoa-digit d h =
    let quotient : d / 10 ≡ 0 = omega arith in
    let remainder : d % 10 ≡ d = omega arith in simp (quotient, remainder) refl

pub itoa-injective : (j k : ℕ) → itoa j ≡ itoa k → j ≡ k
itoa-injective j k h =
    let same : some j ≡ some k = sym (parse_nat-itoa j) ∙ ap parse_nat h ∙ parse_nat-itoa k in cc
