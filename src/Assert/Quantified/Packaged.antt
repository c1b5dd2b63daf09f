-- ===== src/Assert/Quantified/Packaged.antt =====
-- The quantified matchers of assert/quantified_matchers.go as matchers.
use go_specs.Prelude.{Bool, true, false, Option, some, List, ◌++◌, eq_ℤ, pos, if◌then◌else◌}
use go_specs.Prelude.Text.{Text, codes}
use go_specs.Assert.Matcher.{Matcher, Verdict, describe_matcher}
use go_specs.Assert.Listing.{int_text}
use go_specs.Assert.Quantified.{
  QuantifiedMatcher, Quantifier, quant_every, quant_any, quant_none, quant_exactly, quant_at_least,
  quant_at_most, quantified_evaluate,
}

counted : {S V : Type 0} → QuantifiedMatcher S V → Text → Text
unfolding int_text describe_matcher
counted q qualifier =
    qualifier
    ++ (codes " "
        ++ (int_text q.n
            ++ ((if eq_ℤ q.n (pos 1) then codes " element is " else codes " elements are ")
                ++ describe_matcher q.sub)))

describe_kind : {S V : Type 0} → QuantifiedMatcher S V → Quantifier → Text
unfolding counted describe_matcher
describe_kind q quant_every = codes "every element is " ++ describe_matcher q.sub
describe_kind q quant_any = codes "some element is " ++ describe_matcher q.sub
describe_kind q quant_none = codes "no element is " ++ describe_matcher q.sub
describe_kind q quant_exactly = counted q (codes "exactly")
describe_kind q quant_at_least = counted q (codes "at least")
describe_kind q quant_at_most = counted q (codes "at most")

unfoldable pub describe_quantified : {S V : Type 0} → QuantifiedMatcher S V → Text
unfolding describe_kind
describe_quantified q = describe_kind q q.kind

unfoldable pub only_matched : {S : Type 0} → Verdict × S → Bool × S
only_matched ((matched, failure), s) = (matched, s)

unfoldable pub only_message : {S : Type 0} → Text → Verdict × S → Text × S
only_message name ((true, failure), s) =
    (name ++ codes ": the collection matched, there is no failure to report", s)
only_message name ((false, failure), s) = (failure, s)

module _ {S V : Type 0} (quote : Text → Text) (user_value : V → Text)
    (elements : V → Option (List V)) (not_list : Text → V → Text) where
  unfoldable pub quantified_match : QuantifiedMatcher S V → V → S → Bool × S
  unfolding only_matched quantified_evaluate
  quantified_match q v s =
      only_matched (quantified_evaluate quote user_value elements not_list q v s)

  unfoldable pub quantified_message : QuantifiedMatcher S V → V → S → Text × S
  unfolding only_message quantified_evaluate
  quantified_message q v s =
      only_message q.name (quantified_evaluate quote user_value elements not_list q v s)

  unfoldable pub quantified_matcher : QuantifiedMatcher S V → Matcher S V
  unfolding quantified_match quantified_message quantified_evaluate describe_quantified
  quantified_matcher q = record {
    is_nil = false;
    match_value = quantified_match q;
    failure_message = quantified_message q;
    evaluator = some (quantified_evaluate quote user_value elements not_list q);
    description = some (describe_quantified q);
    type_name = codes "*assert.quantifiedMatcher";
  }
