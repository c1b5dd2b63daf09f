-- ===== src/Assert/Ordered/Packaged.antt =====
-- The ordered matchers of assert/quantified_matchers.go as matchers.
use go_specs.Prelude.{Bool, false, Option, some, List}
use go_specs.Prelude.Text.{Text, codes}
use go_specs.Assert.Matcher.{Matcher}
use go_specs.Assert.Quantified.Packaged.{only_matched, only_message}
use go_specs.Assert.Ordered.{OrderedMatcher, describe_ordered, ordered_evaluate}

module _ {S V : Type 0} (quote : Text → Text) (user_value : V → Text)
    (elements : V → Option (List V)) (not_list : Text → V → Text) where
  unfoldable pub ordered_match : OrderedMatcher S V → V → S → Bool × S
  unfolding only_matched ordered_evaluate
  ordered_match o v s = only_matched (ordered_evaluate quote user_value elements not_list o v s)

  unfoldable pub ordered_message : OrderedMatcher S V → V → S → Text × S
  unfolding only_message ordered_evaluate
  ordered_message o v s =
      only_message o.name (ordered_evaluate quote user_value elements not_list o v s)

  unfoldable pub ordered_matcher : OrderedMatcher S V → Matcher S V
  unfolding ordered_match ordered_message ordered_evaluate describe_ordered
  ordered_matcher o = record {
    is_nil = false;
    match_value = ordered_match o;
    failure_message = ordered_message o;
    evaluator = some (ordered_evaluate quote user_value elements not_list o);
    description = some (describe_ordered o);
    type_name = codes "*assert.orderedMatcher";
  }
