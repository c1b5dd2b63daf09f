-- ===== src/Assert/Listing.antt =====
-- The bounded listings of assert/quantified_matchers.go, and the words of its messages.
use go_specs.Prelude.{ℤ, pos, negsuc}
use go_specs.Prelude.{
  ℕ, suc, ◌+◌, ◌-◌, List, [], ◌∷◌, ◌++◌, map, length, take, ltb, leb, ◌==◌, if◌then◌else◌,
}
use go_specs.Prelude.Text.{Text, codes, itoa}
use go_specs.Assert.Matcher.{join_with}

-- quantifiedListLimit
abbrev limit : ℕ
limit = 10

-- elementListing: at most ten parts, and the number of the others.
pub record ElementListing : Type 0 where
  pub parts : List Text
  pub extra : ℕ

abbrev pub no_listing : ElementListing
no_listing = record { parts = []; extra = 0 }

unfoldable pub add_listing : Text → ElementListing → ElementListing
add_listing text l =
    if leb limit (length l.parts)
    then record l { extra = suc l.extra }
    else record l { parts = l.parts ++ text ∷ [] }

unfoldable pub count_listing : ElementListing → ℕ
count_listing l = length l.parts + l.extra

unfoldable pub joined : Text → ElementListing → Text
unfolding join_with itoa
joined sep l =
    let text = join_with sep l.parts in
    if ltb 0 l.extra
    then text ++ (sep ++ (codes "... " ++ (itoa l.extra ++ codes " more not shown")))
    else text

-- "[0 2 5]"
unfoldable pub indices_string : List ℕ → Text
unfolding join_with itoa
indices_string indices =
    let shown = codes "[" ++ join_with (codes " ") (map itoa (take limit indices)) in
    if ltb limit (length indices)
    then shown ++ (codes " ... " ++ (itoa (length indices - limit) ++ codes " more not shown]"))
    else shown ++ codes "]"

unfoldable pub count_of : ℕ → Text → Text
unfolding itoa
count_of n noun =
    let text = itoa n ++ (codes " " ++ noun) in if n == 1 then text else text ++ codes "s"

-- An int in decimal.
unfoldable pub int_text : ℤ → Text
unfolding itoa
int_text (pos n) = itoa n
int_text (negsuc n) = b'-' ∷ itoa (suc n)
