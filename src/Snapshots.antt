-- ===== src/Snapshots.antt =====
-- snapshots/normalize.go: the canonical form of a number in a snapshot. The exponent is within 32 bits
-- where it is read, and no literal is so long that its scale leaves the 64 bits of the source.
pub mod Digits
pub mod Canonical
pub mod Scale
pub mod Written
pub mod Same
use mathlib.Core.List.{reverse}
use go_specs.Prelude.{
  ℕ, zero, suc, ◌+◌, ◌-◌, ◌^◌, Bool, true, false, ◌&&◌, Option, none, some, [], ◌∷◌, ◌++◌, length,
  ℤ, pos, negsuc, ltb, ◌==◌, ◌||◌, if◌then◌else◌,
}
use go_specs.Prelude.Text.{Text, text_eq, cut, is_digit, atoi, itoa}

-- strconv.ParseInt in base 10 into 32 bits
in_32_bits : Option ℤ → Option ℤ
in_32_bits none = none
in_32_bits (some (pos n)) = if ltb n (2 ^ 31) then some (pos n) else none
in_32_bits (some (negsuc n)) = if ltb n (2 ^ 31) then some (negsuc n) else none

before_exponent : ℕ → Option (Text × Text) → Option (Text × Text)
before_exponent c none = none
before_exponent c (some (mantissa, exponent)) = some (c ∷ mantissa, exponent)

-- The texts before and after the first e or E.
cut_exponent : Text → Option (Text × Text)
unfolding before_exponent
cut_exponent [] = none
cut_exponent (c ∷ s) =
    let rest = cut_exponent s in
    if c == b'e' || c == b'E' then some ([], s) else before_exponent c rest

only_digits : Text → Bool
unfolding is_digit
only_digits [] = true
only_digits (c ∷ s) = is_digit c && only_digits s

minus : ℤ → ℕ → ℤ
minus (pos n) k = if ltb n k then negsuc (k - n - 1) else pos (n - k)
minus (negsuc n) k = negsuc (n + k)

-- exponent++
unfoldable pub next_exponent : ℤ → ℤ
next_exponent (pos n) = pos (suc n)
next_exponent (negsuc zero) = pos 0
next_exponent (negsuc (suc n)) = negsuc n

-- A literal that the function takes apart: its sign, its digits and its scale.
pub record Literal : Type 0 where
  pub negative : Bool
  pub digits : Text
  pub exponent : ℤ

unfoldable checked : Bool → Text → ℤ → Option Literal
unfolding only_digits
checked negative [] exponent = none
checked negative (c ∷ s) exponent =
    if only_digits (c ∷ s)
    then some (record { negative = negative; digits = c ∷ s; exponent = exponent })
    else none

at_point : Bool → Text → ℤ → Option (Text × Text) → Option Literal
unfolding checked minus
at_point negative mantissa exponent none = checked negative mantissa exponent
at_point negative mantissa exponent (some (whole, fraction)) =
    checked negative (whole ++ fraction) (minus exponent (length fraction))

with_exponent : Bool → Text → Option ℤ → Option Literal
unfolding at_point cut
with_exponent negative mantissa none = none
with_exponent negative mantissa (some exponent) =
    at_point negative mantissa exponent (cut b'.' mantissa)

at_exponent : Bool → Text → Option (Text × Text) → Option Literal
unfolding with_exponent in_32_bits atoi
at_exponent negative s none = with_exponent negative s (some (pos 0))
at_exponent negative s (some (mantissa, exponent)) =
    with_exponent negative mantissa (in_32_bits (atoi exponent))

-- The first half of canonicalizeNumber; `none` where it returns the literal itself.
unfoldable pub read_literal : Text → Option Literal
unfolding at_exponent cut_exponent
read_literal [] = at_exponent false [] (cut_exponent [])
read_literal (c ∷ s) =
    if c == b'-'
    then at_exponent true s (cut_exponent s)
    else if c == b'+'
    then at_exponent false s (cut_exponent s)
    else at_exponent false (c ∷ s) (cut_exponent (c ∷ s))

-- The loop over the leading zeros.
unfoldable drop_leading : Text → Text
drop_leading [] = []
drop_leading (c ∷ []) = c ∷ []
drop_leading (c ∷ d ∷ s) = let rest = drop_leading (d ∷ s) in if c == b'0' then rest else c ∷ d ∷ s

-- The loop over the trailing zeros, on the reversed digits.
unfoldable drop_trailing : Text → ℤ → Text × ℤ
unfolding next_exponent
drop_trailing [] e = ([], e)
drop_trailing (c ∷ []) e = (c ∷ [], e)
drop_trailing (c ∷ d ∷ s) e =
    let rest = drop_trailing (d ∷ s) (next_exponent e) in if c == b'0' then rest else (c ∷ d ∷ s, e)

exponent_text : ℤ → Text
unfolding itoa
exponent_text (pos n) = itoa n
exponent_text (negsuc n) = b'-' ∷ itoa (suc n)

-- What follows the loops.
unfoldable canonical : Bool → Text → ℤ → Text
unfolding exponent_text text_eq
canonical negative digits e =
    if text_eq digits (b'0' ∷ [])
    then b'0' ∷ []
    else (if negative then b'-' ∷ [] else []) ++ (digits ++ b'e' ∷ exponent_text e)

unfoldable reduce : Literal → Text
unfolding drop_trailing drop_leading canonical
reduce l =
    let (reversed, e) = drop_trailing (reverse (drop_leading l.digits)) l.exponent in
    canonical l.negative (reverse reversed) e

or_literal : Text → Option Literal → Text
unfolding reduce
or_literal literal none = literal
or_literal literal (some l) = reduce l

unfoldable pub canonicalize_number : Text → Text
unfolding or_literal read_literal
canonicalize_number literal = or_literal literal (read_literal literal)
