-- ===== src/Snapshots/Scale.antt =====
-- snapshots/normalize.go: exponents that are raised, and numbers times powers of ten.

use go_specs.Prelude.{
  ℕ, zero, suc, ◌+◌, ◌*◌, ◌%◌, ◌^◌, ◌≤◌, ◌<◌, pos_part, neg_part, ℤ, pos, negsuc, ◌≡◌, refl, sym,
  ap, ◌∙◌, arith,
}
use go_specs.Snapshots.{next_exponent}
use go_specs.Snapshots.Canonical.{raised, pow_step}

pub kept_unique :
    (m n a b : ℕ) → 0 < m % 10 → 0 < n % 10 → m * 10 ^ a ≡ n * 10 ^ b → (m ≡ n) × (a ≡ b)
kept_unique m n zero zero h k e = (omega arith, refl)
kept_unique m n zero (suc b) h k e =
    let step = pow_step n b in let impossible : 1 ≤ 0 = omega arith in elim impossible [ ]
kept_unique m n (suc a) zero h k e =
    let step = pow_step m a in let impossible : 1 ≤ 0 = omega arith in elim impossible [ ]
kept_unique m n (suc a) (suc b) h k e =
    let left = pow_step m a in
    let right = pow_step n b in
    let (same, level) = kept_unique m n a b h k (omega arith) in (same, ap suc level)

pub raised-raised : (k j : ℕ) (e : ℤ) → raised k (raised j e) ≡ raised (j + k) e
raised-raised k zero e = let sum : 0 + k ≡ k = omega arith in rw sum
raised-raised k (suc j) e =
    let sum : suc j + k ≡ suc (j + k) = omega arith in rw sum (raised-raised k j (next_exponent e))

next_exponent-parts :
    (e : ℤ) → pos_part (next_exponent e) + neg_part e ≡ pos_part e + neg_part (next_exponent e) + 1
unfolding next_exponent
next_exponent-parts (pos n) = omega arith
next_exponent-parts (negsuc zero) = refl
next_exponent-parts (negsuc (suc n)) = omega arith

raised-parts :
    (k : ℕ) (e : ℤ) → pos_part (raised k e) + neg_part e ≡ pos_part e + neg_part (raised k e) + k
raised-parts zero e = omega arith
raised-parts (suc k) e =
    let step = next_exponent-parts e in let later = raised-parts k (next_exponent e) in omega arith

pub raised-cancel : (a b : ℕ) (e : ℤ) → raised a e ≡ raised b e → a ≡ b
raised-cancel a b e h =
    let left = raised-parts a e in
    let right = raised-parts b e in
    let up : pos_part (raised a e) ≡ pos_part (raised b e) = ap pos_part h in
    let down : neg_part (raised a e) ≡ neg_part (raised b e) = ap neg_part h in omega arith

pub scaled_add : (m a b : ℕ) → m * 10 ^ a * 10 ^ b ≡ m * 10 ^ (a + b)
scaled_add m a zero = let sum : a + 0 ≡ a = omega arith in rw sum (omega arith)
scaled_add m a (suc b) =
    let sum : a + suc b ≡ suc (a + b) = omega arith in
    rw sum (
      pow_step (m * 10 ^ a) b
      ∙ ap (λ (k : ℕ). k * 10) (scaled_add m a b)
      ∙ sym (pow_step m (a + b)))

pub scaled_positive : (n k : ℕ) → 0 < n → 0 < n * 10 ^ k
scaled_positive n zero h = omega arith
scaled_positive n (suc k) h =
    let step = pow_step n k in let later = scaled_positive n k h in omega arith
