-- ===== src/Assert/Matcher.antt =====
-- assert/evaluate.go and the interfaces of assert/matcher.go and composite_matchers.go. A call of a
-- matcher may change the world, a state that is passed along; a value and how it is shown are parameters.
use go_specs.Prelude.{
  ℕ, Bool, true, false, Option, none, some, List, [], ◌∷◌, ◌++◌, map, if◌then◌else◌,
}
use go_specs.Prelude.Text.{Text, codes, itoa}

-- Matched, and the message when it did not.
abbrev pub Verdict : Type 0
Verdict = Bool × Text

-- A Matcher with the optional interfaces Evaluator and Describer. `is_nil` is the answer of
-- isNilMatcher, and `type_name` what %T prints.
pub record Matcher (S V : Type 0) : Type 0 where
  pub is_nil : Bool
  pub match_value : V → S → Bool × S
  pub failure_message : V → S → Text × S
  pub evaluator : Option (V → S → Verdict × S)
  pub description : Option Text
  pub type_name : Text

-- nilMatcherFailure
unfoldable pub nil_matcher_failure : Text
nil_matcher_failure = codes "nil matcher (never matches)"

or_text : Option Text → Text → Text
or_text none other = other
or_text (some text) other = text

unfoldable pub describe_matcher : {S V : Type 0} → Matcher S V → Text
unfolding or_text
describe_matcher m = if m.is_nil then codes "<nil>" else or_text m.description m.type_name

unfoldable pub describe_entries : {S V : Type 0} → List (Matcher S V) → List Text
unfolding describe_matcher
describe_entries ms = map describe_matcher ms

-- strings.Join
unfoldable pub join_with : Text → List Text → Text
join_with sep [] = []
join_with sep (part ∷ []) = part
join_with sep (part ∷ next ∷ parts) = part ++ (sep ++ join_with sep (next ∷ parts))

-- "#N: "
unfoldable pub at_position : ℕ → Text → Text
unfolding itoa
at_position i text = b'#' ∷ (itoa i ++ (codes ": " ++ text))

module _ {S V : Type 0} where
  failed : V → Matcher S V → Bool × S → Verdict × S
  failed v m (true, s) = ((true, []), s)
  failed v m (false, s) = let (text, t) = m.failure_message v s in ((false, text), t)

  evaluate_with : V → Matcher S V → Option (V → S → Verdict × S) → S → Verdict × S
  unfolding failed
  evaluate_with v m none s = failed v m (m.match_value v s)
  evaluate_with v m (some evaluate_self) s = evaluate_self v s

  -- Evaluate
  unfoldable pub evaluate : Matcher S V → V → S → Verdict × S
  unfolding evaluate_with nil_matcher_failure
  evaluate m v s =
      if m.is_nil then ((false, nil_matcher_failure), s) else evaluate_with v m m.evaluator s
