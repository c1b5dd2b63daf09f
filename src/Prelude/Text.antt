-- ===== src/Prelude/Text.antt =====
-- Go's `strings` and `strconv` where the repository calls them. A text is the list of its code points.
pub mod Decimal
pub mod Pieces
pub mod Lines
use Prim.Native.Char.{code}
use Prim.Native.Nat.{ℕ, zero, suc, ◌+◌, ◌-◌, ◌*◌, ◌/◌, ◌%◌, ◌^◌}
use Prim.Native.String.{String}
use mathlib.Core.Bool.{Bool, true, false, ◌&&◌, ◌||◌, not}
use mathlib.Core.List.{List, [], ◌∷◌, ◌++◌, reverse}
use mathlib.Core.Option.{Option, none, some}
use go_specs.Prelude.Tests.{ltb, leb, ◌==◌, if◌then◌else◌}
use go_specs.Prelude.Int.{ℤ, pos, negsuc}

abbrev pub Text : Type 0
Text = List ℕ

abbrev pub codes : String → Text
codes String.[] = []
codes (String.◌∷◌ c s) = code c ∷ codes s

unfoldable pub text_eq : Text → Text → Bool
text_eq [] [] = true
text_eq (a ∷ s) (b ∷ t) = a == b && text_eq s t
text_eq _ _ = false

-- unicode.IsSpace
unfoldable pub is_space : ℕ → Bool
is_space c =
    (leb 9 c && leb c 13)
    || (c == 32
        || (c == 0x85
            || (c == 0xa0
                || (c == 0x1680
                    || ((leb 0x2000 c && leb c 0x200a)
                        || (c == 0x2028
                            || (c == 0x2029 || (c == 0x202f || (c == 0x205f || c == 0x3000)))))))))

trim_left : Text → Text
unfolding is_space
trim_left [] = []
trim_left (c ∷ s) = let rest = trim_left s in if is_space c then rest else c ∷ s

-- strings.TrimSpace
unfoldable pub trim_space : Text → Text
unfolding trim_left
trim_space s = reverse (trim_left (reverse (trim_left s)))

-- strings.CutPrefix
unfoldable pub cut_prefix : Text → Text → Option Text
cut_prefix s [] = some s
cut_prefix [] (p ∷ ps) = none
cut_prefix (c ∷ s) (p ∷ ps) = let rest = cut_prefix s ps in if c == p then rest else none

map_before : ℕ → Option (Text × Text) → Option (Text × Text)
map_before c none = none
map_before c (some (a, b)) = some (c ∷ a, b)

-- strings.Cut at a separator of one code point
unfoldable pub cut : ℕ → Text → Option (Text × Text)
unfolding map_before
cut sep [] = none
cut sep (c ∷ s) = let rest = cut sep s in if c == sep then some ([], s) else map_before c rest

-- strings.HasPrefix
unfoldable pub has_prefix : Text → Text → Bool
has_prefix s [] = true
has_prefix [] (p ∷ ps) = false
has_prefix (c ∷ s) (p ∷ ps) = c == p && has_prefix s ps

unfoldable pub is_blank : Text → Bool
is_blank [] = true
is_blank (c ∷ s) = false

-- strings.TrimRight of one code point
unfoldable pub trim_right : ℕ → Text → Text
unfolding is_blank
trim_right sep [] = []
trim_right sep (c ∷ s) =
    let rest = trim_right sep s in if is_blank rest && c == sep then [] else c ∷ rest

put_before : ℕ → Text × Text → Text × Text
put_before c (a, b) = (c ∷ a, b)

-- The text before and after the last separator: strings.LastIndex and the two slices
unfoldable pub cut_last : ℕ → Text → Option (Text × Text)
unfolding put_before
cut_last sep [] = none
cut_last sep (c ∷ s) = elim (cut_last sep s) [
  | some parts ↦ some (put_before c parts)
  | none ↦ if c == sep then some ([], s) else none
]

add_field : Text → List Text → List Text
add_field [] words = words
add_field (c ∷ word) words = (c ∷ word) ∷ words

-- The first word, which may be empty, and the other words.
split_fields : Text → Text × List Text
unfolding add_field is_space
split_fields [] = ([], [])
split_fields (c ∷ s) =
    let (word, words) = split_fields s in
    if is_space c then ([], add_field word words) else (c ∷ word, words)

-- strings.Fields
unfoldable pub fields : Text → List Text
unfolding split_fields
fields s = let (word, words) = split_fields s in add_field word words

add_to_first : ℕ → List Text → List Text
add_to_first c [] = (c ∷ []) ∷ []
add_to_first c (part ∷ parts) = (c ∷ part) ∷ parts

-- strings.Split at a separator of one code point
unfoldable pub split : ℕ → Text → List Text
unfolding add_to_first
split sep [] = [] ∷ []
split sep (c ∷ s) = let parts = split sep s in if c == sep then [] ∷ parts else add_to_first c parts

-- strings.Join with a separator of one code point
unfoldable pub join : ℕ → List Text → Text
join sep [] = []
join sep (part ∷ []) = part
join sep (part ∷ next ∷ parts) = part ++ sep ∷ join sep (next ∷ parts)

unfoldable pub is_digit : ℕ → Bool
is_digit c = leb 48 c && leb c 57

-- The value of a run of decimal digits, after the digits that gave `n`.
unfoldable pub parse_digits : ℕ → Text → Option ℕ
unfolding is_digit
parse_digits n [] = some n
parse_digits n (c ∷ s) =
    let rest = parse_digits (n * 10 + (c - 48)) s in if is_digit c then rest else none

-- At least one digit.
unfoldable pub parse_nat : Text → Option ℕ
unfolding parse_digits
parse_nat [] = none
parse_nat (c ∷ s) = parse_digits 0 (c ∷ s)

in_range_pos : Option ℕ → Option ℤ
in_range_pos none = none
in_range_pos (some n) = if ltb n (2 ^ 63) then some (pos n) else none

in_range_neg : Option ℕ → Option ℤ
in_range_neg none = none
in_range_neg (some zero) = some (pos 0)
in_range_neg (some (suc n)) = if ltb n (2 ^ 63) then some (negsuc n) else none

-- strconv.Atoi into a 64-bit `int`; `none` is its error
unfoldable pub atoi : Text → Option ℤ
unfolding parse_nat in_range_pos in_range_neg
atoi [] = none
atoi (c ∷ s) =
    if c == b'-'
    then in_range_neg (parse_nat s)
    else if c == b'+'
    then in_range_pos (parse_nat s)
    else in_range_pos (parse_nat (c ∷ s))

digits : ℕ → ℕ → Text → Text
digits zero n rest = rest
digits (suc fuel) n rest =
    let more = digits fuel (n / 10) ((n % 10 + 48) ∷ rest) in
    if n / 10 == 0 then (n % 10 + 48) ∷ rest else more

-- strconv.Itoa at a number that is not negative
unfoldable pub itoa : ℕ → Text
unfolding digits
itoa n = digits (suc n) n []
