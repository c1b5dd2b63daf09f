-- ===== src/Snapshots/Canonical.antt =====
-- snapshots/normalize.go: the canonical form of a number that is read.
use mathlib.Core.List.{reverse, reverse-reverse}
use native.Mathlib.Numerals.{unary_clauses}
use native.Mathlib.Nat.{mul_assoc}
use go_specs.Prelude.{
  ℕ, zero, suc, ◌+◌, ◌*◌, ◌/◌, ◌%◌, ◌^◌, ◌≤◌, ◌<◌, Bool, false, some, [], ◌∷◌, ◌++◌, ℤ, ◌≡◌, refl,
  sym, ap, ◌∙◌, inl, inr, arith, Bool-cases, ◌==◌, if◌then◌else◌, ltb,
}
use go_specs.Prelude.Text.{Text, parse_nat, itoa, text_eq}
use go_specs.Prelude.Text.Decimal.{itoa-digit, parse_nat-itoa}
use go_specs.Prelude.Text.Pieces.{text_eq_iff}
use go_specs.Snapshots.{
  Literal, drop_leading, drop_trailing, next_exponent, exponent_text, canonical, reduce,
}
use go_specs.Snapshots.Digits.{reverse-itoa_digit, reverse-itoa}

-- An exponent raised so many times.
abbrev pub raised : ℕ → ℤ → ℤ
raised zero e = e
raised (suc k) e = raised k (next_exponent e)

-- A number that ends in no zero, and the zeros that were taken off.
pub record Scaled (n : ℕ) : Type 0 where
  pub kept : ℕ
  pub zeros : ℕ
  pub value : kept * 10 ^ zeros ≡ n
  pub ends : 0 < kept % 10

pub pow_step : (m k : ℕ) → m * 10 ^ suc k ≡ m * 10 ^ k * 10
pow_step m k = simp unary_clauses (sym (mul_assoc m (10 ^ k) 10))

stop_trailing :
    (c : ℕ) (s : Text) (e : ℤ) → (c == b'0') ≡ false → drop_trailing (c ∷ s) e ≡ (c ∷ s, e)
unfolding drop_trailing
stop_trailing c [] e h = refl
stop_trailing c (d ∷ s) e h = rw h

go_trailing :
    (n : ℕ) (e : ℤ)
    → drop_trailing (b'0' ∷ reverse (itoa n)) e ≡ drop_trailing (reverse (itoa n)) (next_exponent e)
unfolding drop_trailing
go_trailing n e = elim (Bool-cases (ltb n 10)) [
  | inl h ↦ rw (reverse-itoa_digit n (ground arith))
  | inr h ↦ rw (reverse-itoa n (ground arith))
]

drop_trailing-ends :
    (n : ℕ) (e : ℤ) → 0 < n % 10 → drop_trailing (reverse (itoa n)) e ≡ (reverse (itoa n), e)
drop_trailing-ends n e ends = elim (Bool-cases (ltb n 10)) [
  | inl h ↦ rw (reverse-itoa_digit n (ground arith)) (stop_trailing (n + 48) [] e (ground arith))
  | inr h ↦
      rw (reverse-itoa n (ground arith))
        (stop_trailing (n % 10 + 48) (reverse (itoa (n / 10))) e (ground arith))
]

drop_trailing-tens :
    (n : ℕ) (e : ℤ)
    → n % 10 ≡ 0
    → 0 < n
    → drop_trailing (reverse (itoa n)) e ≡ drop_trailing (reverse (itoa (n / 10))) (next_exponent e)
drop_trailing-tens n e ends positive =
    let zero_digit : n % 10 + 48 ≡ b'0' = omega arith in
    ap (λ (t : Text). drop_trailing t e)
      (reverse-itoa n (omega arith) ∙ ap (λ (c : ℕ). c ∷ reverse (itoa (n / 10))) zero_digit)
    ∙ go_trailing (n / 10) e

-- The loop leaves the number without its zeros, and raises the exponent by one for each.
pub drop_trailing-Scaled :
    (fuel n : ℕ) (e : ℤ)
    → n < fuel
    → 0 < n
    → (s : Scaled n) × (drop_trailing (reverse (itoa n)) e
        ≡ (reverse (itoa s.kept), raised s.zeros e))
drop_trailing-Scaled zero n e h positive = elim h [ ]
drop_trailing-Scaled (suc fuel) n e h positive = elim (Bool-cases (n % 10 == 0)) [
  | inl tens ↦
      let (s, left) =
        drop_trailing-Scaled fuel (n / 10) (next_exponent e) (ground arith) (ground arith) in
      let step = pow_step s.kept s.zeros in
      let found = s.value in
      (
        record {
          kept = s.kept;
          zeros = suc s.zeros;
          value = step ∙ ap (λ (k : ℕ). k * 10) found ∙ ground arith;
          ends = s.ends;
        },
        drop_trailing-tens n e (ground arith) positive ∙ left,
      )
  | inr other ↦ (
    record { kept = n; zeros = 0; value = omega arith; ends = ground arith },
    drop_trailing-ends n e (ground arith),
  )
]

-- How the canonical form is written.
unfoldable pub written : Bool → ℕ → ℤ → Text
unfolding exponent_text
written negative m e = (if negative then b'-' ∷ [] else []) ++ (itoa m ++ b'e' ∷ exponent_text e)

itoa-nonzero : (m : ℕ) → 0 < m → text_eq (itoa m) (b'0' ∷ []) ≡ false
itoa-nonzero m h = elim (Bool-cases (text_eq (itoa m) (b'0' ∷ []))) [
  | inl e ↦
      let zero_text : itoa m ≡ b'0' ∷ [] = (text_eq_iff (itoa m) (b'0' ∷ [])).0 e in
      let none_left : some m ≡ some 0 =
        sym (parse_nat-itoa m)
        ∙ ap parse_nat (zero_text ∙ sym (itoa-digit 0 (omega arith)))
        ∙ parse_nat-itoa 0 in
      let nothing : m ≡ 0 = cc in let impossible : 1 ≤ 0 = omega arith in elim impossible [ ]
  | inr e ↦ e
]

pub reduce-itoa :
    (l : Literal) (n : ℕ)
    → drop_leading l.digits ≡ itoa n
    → 0 < n
    → (s : Scaled n) × (reduce l ≡ written l.negative s.kept (raised s.zeros l.exponent))
unfolding reduce canonical written
reduce-itoa l n h positive =
    let (s, left) = drop_trailing-Scaled (suc n) n l.exponent (omega arith) positive in
    let ends = s.ends in
    (s, simp (h, left, reverse-reverse (itoa s.kept), itoa-nonzero s.kept (omega arith)) refl)

pub reduce-zero : (l : Literal) → drop_leading l.digits ≡ itoa 0 → reduce l ≡ b'0' ∷ []
unfolding reduce canonical
reduce-zero l h = simp (h, itoa-digit 0 (omega arith)) (unfold drop_trailing text_eq in refl)
