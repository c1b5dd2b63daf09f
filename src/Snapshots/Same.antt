-- ===== src/Snapshots/Same.antt =====
-- snapshots/normalize.go: when two numbers have one canonical form.

use go_specs.Prelude.{
  ℕ, zero, suc, ◌+◌, ◌*◌, ◌^◌, ◌≤◌, ◌<◌, Bool, some, [], ◌∷◌, ℤ, ◌≡◌, ◌≢◌, ◌↔◌, sym, ap, ◌∙◌, arith,
}
use go_specs.Prelude.Text.{Text, parse_nat, itoa}
use go_specs.Snapshots.{Literal, drop_leading, read_literal, canonicalize_number}
use go_specs.Snapshots.Digits.{drop_leading-itoa}
use go_specs.Snapshots.Canonical.{Scaled, raised, written, reduce-itoa, reduce-zero}
use go_specs.Snapshots.Scale.{
  kept_unique, raised-raised, raised-cancel, scaled_add, scaled_positive,
}
use go_specs.Snapshots.Written.{written-injective, written-nonzero}

-- A literal with its value and its scale above another.
pub record Reads (literal : Text) (negative : Bool) (n : ℕ) (exponent : ℤ) : Type 0 where
  pub parts : Literal
  pub read : read_literal literal ≡ some parts
  pub sign : parts.negative ≡ negative
  pub number : parse_nat parts.digits ≡ some n
  pub scale : parts.exponent ≡ exponent

value-itoa : (s : Text) (n : ℕ) → parse_nat s ≡ some n → drop_leading s ≡ itoa n
unfolding parse_nat
value-itoa [] n h = let impossible : 1 ≤ 0 = cc in elim impossible [ ]
value-itoa (c ∷ s) n h = drop_leading-itoa n c s h

-- What a literal that is read becomes.
pub canonicalize_number-zero :
    (a : Text) (negative : Bool) (e : ℤ) → Reads a negative 0 e → canonicalize_number a ≡ b'0' ∷ []
unfolding canonicalize_number
canonicalize_number-zero a negative e r =
    rw (r.read) (reduce-zero r.parts (value-itoa r.parts.digits 0 r.number))

pub canonicalize_number-written :
    (a : Text) (negative : Bool) (n : ℕ) (e : ℤ)
    → Reads a negative n e
    → 0 < n
    → (s : Scaled n) × (canonicalize_number a ≡ written negative s.kept (raised s.zeros e))
unfolding canonicalize_number
canonicalize_number-written a negative n e r positive =
    let (s, found) = reduce-itoa r.parts n (value-itoa r.parts.digits n r.number) positive in
    let sign = r.sign in
    let scale = r.scale in
    (
      s,
      rw (r.read) (
          found
          ∙ ap (λ (b : Bool). written b s.kept (raised s.zeros r.parts.exponent)) sign
          ∙ ap (λ (x : ℤ). written negative s.kept (raised s.zeros x)) scale),
    )

same_written :
    (a b : Text) (negative : Bool) (m n i j : ℕ) (e : ℤ)
    → Reads a negative m (raised i e)
    → Reads b negative n (raised j e)
    → 0 < m
    → 0 < n
    → (canonicalize_number a ≡ canonicalize_number b) ↔ (m * 10 ^ i ≡ n * 10 ^ j)
same_written a b negative m n i j e r t some_a some_b =
    let (s, left) = canonicalize_number-written a negative m (raised i e) r some_a in
    let (u, right) = canonicalize_number-written b negative n (raised j e) t some_b in
    let first = ap (λ (k : ℕ). k * 10 ^ i) (sym s.value) ∙ scaled_add s.kept s.zeros i in
    let second = ap (λ (k : ℕ). k * 10 ^ j) (sym u.value) ∙ scaled_add u.kept u.zeros j in
    (
      λ h.
          let (kept, scale) =
            written-injective negative s.kept u.kept (raised s.zeros (raised i e))
              (raised u.zeros (raised j e)) (sym left ∙ h ∙ right) in
          let level =
            raised-cancel (i + s.zeros) (j + u.zeros) e
              (sym (raised-raised s.zeros i e) ∙ scale ∙ raised-raised u.zeros j e) in
          let level' : s.zeros + i ≡ u.zeros + j = omega arith in
          first
          ∙ ap (λ (k : ℕ). k * 10 ^ (s.zeros + i)) kept
          ∙ ap (λ (z : ℕ). u.kept * 10 ^ z) level'
          ∙ sym second,
      λ h.
          let (kept, level) =
            kept_unique s.kept u.kept (s.zeros + i) (u.zeros + j) s.ends u.ends
              (sym first ∙ h ∙ second) in
          let level' : i + s.zeros ≡ j + u.zeros = omega arith in
          left
          ∙ ap (λ (k : ℕ). written negative k (raised s.zeros (raised i e))) kept
          ∙ ap (written negative u.kept) (
              raised-raised s.zeros i e
              ∙ ap (λ (k : ℕ). raised k e) level'
              ∙ sym (raised-raised u.zeros j e))
          ∙ sym right,
    )

zero_apart :
    (a b : Text) (negative : Bool) (n : ℕ) (d e : ℤ)
    → Reads a negative 0 d
    → Reads b negative n e
    → 0 < n
    → canonicalize_number a ≢ canonicalize_number b
zero_apart a b negative n d e r t positive h =
    let (s, right) = canonicalize_number-written b negative n e t positive in
    written-nonzero negative s.kept (raised s.zeros e)
      (sym right ∙ sym h ∙ canonicalize_number-zero a negative d r)

zero_iff :
    (a b : Text) (negative : Bool) (n i j : ℕ) (d e : ℤ)
    → Reads a negative 0 d
    → Reads b negative n e
    → 0 < n
    → (canonicalize_number a ≡ canonicalize_number b) ↔ (0 * 10 ^ i ≡ n * 10 ^ j)
zero_iff a b negative n i j d e r t positive =
    let some_value = scaled_positive n j positive in
    (
      λ h. absurd (zero_apart a b negative n d e r t positive h),
      λ h. let impossible : 1 ≤ 0 = omega arith in elim impossible [ ],
    )

-- Two literals of one sign that read_literal takes apart, whose digits are the numbers m and n and whose
-- exponents stand i and j above one exponent e, have the same canonical form exactly when m times 10
-- to the i is n times 10 to the j.
pub canonicalize_number_iff :
    (a b : Text) (negative : Bool) (m n i j : ℕ) (e : ℤ)
    → Reads a negative m (raised i e)
    → Reads b negative n (raised j e)
    → (canonicalize_number a ≡ canonicalize_number b) ↔ (m * 10 ^ i ≡ n * 10 ^ j)
canonicalize_number_iff a b negative zero zero i j e r t = (
  λ h. omega arith,
  λ h.
      canonicalize_number-zero a negative (raised i e) r
      ∙ sym (canonicalize_number-zero b negative (raised j e) t),
)
canonicalize_number_iff a b negative zero (suc n) i j e r t =
    zero_iff a b negative (suc n) i j (raised i e) (raised j e) r t (omega arith)
canonicalize_number_iff a b negative (suc m) zero i j e r t =
    let flipped = zero_iff b a negative (suc m) j i (raised j e) (raised i e) t r (omega arith) in
    (λ h. sym (flipped.0 (sym h)), λ h. sym (flipped.1 (sym h)))
canonicalize_number_iff a b negative (suc m) (suc n) i j e r t =
    same_written a b negative (suc m) (suc n) i j e r t (omega arith) (omega arith)
