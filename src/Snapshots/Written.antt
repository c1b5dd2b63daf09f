-- ===== src/Snapshots/Written.antt =====
-- snapshots/normalize.go: a canonical form can be read back.

use go_specs.Prelude.{
  ℕ, suc, ◌≤◌, ◌<◌, Bool, true, false, Option, some, [], ◌∷◌, ◌++◌, length, length-append, All, ℤ,
  pos, negsuc, ◌≡◌, ◌≢◌, subst, sym, ap, ◌∙◌, arith,
}
use go_specs.Prelude.Text.{Text, itoa, cut}
use go_specs.Prelude.Text.Decimal.{IsDigit, itoa-IsDigit, itoa-cons, itoa-injective}
use go_specs.Prelude.Text.Pieces.{cut-append}
use go_specs.Snapshots.{exponent_text}
use go_specs.Snapshots.Canonical.{written}

minus_apart : (n : ℕ) (s : Text) → itoa n ≢ b'-' ∷ s
minus_apart n s h =
    let digits : All IsDigit (b'-' ∷ s) = subst (All IsDigit) h (itoa-IsDigit n) in
    let low : 48 ≤ b'-' = digits.0.0 in let impossible : 1 ≤ 0 = omega arith in elim impossible [ ]

exponent_text-injective : (a b : ℤ) → exponent_text a ≡ exponent_text b → a ≡ b
unfolding exponent_text
exponent_text-injective (pos n) (pos m) h = ap pos (itoa-injective n m h)
exponent_text-injective (pos n) (negsuc m) h = absurd (minus_apart n (itoa (suc m)) h)
exponent_text-injective (negsuc n) (pos m) h = absurd (minus_apart m (itoa (suc n)) (sym h))
exponent_text-injective (negsuc n) (negsuc m) h =
    let same : suc n ≡ suc m = itoa-injective (suc n) (suc m) (ground arith) in
    let fewer : n ≡ m = omega arith in ap negsuc fewer

no_e : (s : Text) → All IsDigit s → All (λ c. c ≢ b'e') s
no_e [] h = tt
no_e (c ∷ s) h = (
  λ e. let high : c ≤ 57 = h.0.1 in let impossible : 1 ≤ 0 = omega arith in elim impossible [ ],
  no_e s h.1,
)

parts_injective :
    (m n : ℕ) (s t : Text) → itoa m ++ b'e' ∷ s ≡ itoa n ++ b'e' ∷ t → (m ≡ n) × (s ≡ t)
parts_injective m n s t h =
    let same : ◌≡◌ {A = Option (Text × Text)} (some (itoa m, s)) (some (itoa n, t)) =
      sym (cut-append b'e' (itoa m) s (no_e (itoa m) (itoa-IsDigit m)))
      ∙ ap (cut b'e') h
      ∙ cut-append b'e' (itoa n) t (no_e (itoa n) (itoa-IsDigit n)) in
    let left : itoa m ≡ itoa n = cc in let right : s ≡ t = cc in (itoa-injective m n left, right)

pub written-injective :
    (negative : Bool) (m n : ℕ) (a b : ℤ)
    → written negative m a ≡ written negative n b
    → (m ≡ n) × (a ≡ b)
unfolding written
written-injective false m n a b h =
    let (same, level) = parts_injective m n (exponent_text a) (exponent_text b) h in
    (same, exponent_text-injective a b level)
written-injective true m n a b h =
    let rest : itoa m ++ b'e' ∷ exponent_text a ≡ itoa n ++ b'e' ∷ exponent_text b = ground arith in
    let (same, level) = parts_injective m n (exponent_text a) (exponent_text b) rest in
    (same, exponent_text-injective a b level)

length-itoa : (m : ℕ) → 0 < length (itoa m)
length-itoa m = let (d, s, e) = itoa-cons m in rw e (omega arith)

length-written : (negative : Bool) (m : ℕ) (e : ℤ) → 1 < length (written negative m e)
unfolding written
length-written false m e =
    let some_digits = length-itoa m in
    rw (length-append (itoa m) (b'e' ∷ exponent_text e)) (omega arith)
length-written true m e =
    let some_digits = length-itoa m in
    rw (length-append (itoa m) (b'e' ∷ exponent_text e)) (omega arith)

pub written-nonzero : (negative : Bool) (m : ℕ) (e : ℤ) → written negative m e ≢ b'0' ∷ []
written-nonzero negative m e h =
    let long : 1 < 1 = subst (λ (t : Text). 1 < length t) h (length-written negative m e) in
    let impossible : 1 ≤ 0 = omega arith in elim impossible [ ]
