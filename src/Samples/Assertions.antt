-- ===== src/Samples/Assertions.antt =====
-- Matchers of small numbers, alone and combined.
use go_specs.Prelude.{
  ℕ, ◌+◌, ◌≡◌, ◌↔◌, refl, arith, Bool, true, false, Option, none, some, List, [], ◌∷◌, pos, ltb,
  Bool-cases, inl, inr,
}
use go_specs.Prelude.Text.{Text, codes, itoa}
use go_specs.Assert.Matcher.{Matcher, evaluate}
use go_specs.Assert.Composite.{all_matcher, any_matcher}
use go_specs.Assert.Composite.Judged.{
  IsJudge, AreJudges, every_test, some_test, all_matcher-IsJudge, any_matcher-IsJudge,
}
use go_specs.Assert.Composite.Messages.{Explains, all_matcher-Explains, any_matcher-Explains}
use go_specs.Assert.Composite.Cost.{Costs, total}
use go_specs.Assert.Quantified.{at_least_n_elements, quantified_evaluate, quant_at_least}
use go_specs.Assert.Quantified.Counted.{quantifies, count_test, quantified_evaluate-count}
use go_specs.Assert.Ordered.{contain_elements_in_order, ordered_evaluate}
use go_specs.Assert.Ordered.Greedy.{IsFoundIn, contain_elements_in_order-IsFoundIn}

-- Each number that is asked for is counted in the state.
abbrev less_than : ℕ → ℕ → Matcher ℕ ℕ
less_than step k = record {
  is_nil = false;
  match_value = λ v s. (ltb v k, s + step);
  failure_message = λ v s. (codes "too big", s);
  evaluator = none;
  description = none;
  type_name = codes "*lessThan";
}

abbrev quiet : ℕ → Matcher ℕ ℕ
quiet k = record (less_than 0 k) { match_value = λ v s. (ltb v k, s) }

abbrev unquoted : Text → Text
unquoted text = text

less_than-evaluate : (k v s : ℕ) → (text : Text) × (evaluate (quiet k) v s ≡ ((ltb v k, text), s))
unfolding evaluate
less_than-evaluate k v s = elim (Bool-cases (ltb v k)) [
  | inl e ↦ ([], rw e refl)
  | inr e ↦ (codes "too big", rw e refl)
]

less_than-IsJudge : (k : ℕ) → IsJudge (quiet k) (λ v. ltb v k)
less_than-IsJudge k = (refl, λ v s. let (text, e) = less_than-evaluate k v s in (refl, text, e))

abbrev pair_of_matchers : List (Matcher ℕ ℕ)
pair_of_matchers = quiet 5 ∷ quiet 3 ∷ []

abbrev pair_of_tests : List (ℕ → Bool)
pair_of_tests = (λ v. ltb v 5) ∷ (λ v. ltb v 3) ∷ []

pair-AreJudges : AreJudges pair_of_matchers pair_of_tests
pair-AreJudges = (less_than-IsJudge 5, (less_than-IsJudge 3, tt))

all_matcher-IsJudge_example :
    IsJudge (all_matcher unquoted itoa pair_of_matchers) (every_test pair_of_tests)
all_matcher-IsJudge_example =
    all_matcher-IsJudge unquoted itoa pair_of_matchers pair_of_tests pair-AreJudges

any_matcher-IsJudge_example :
    IsJudge (any_matcher unquoted itoa pair_of_matchers) (some_test pair_of_tests)
any_matcher-IsJudge_example =
    any_matcher-IsJudge unquoted itoa pair_of_matchers pair_of_tests pair-AreJudges

less_than-Costs : (k : ℕ) → Costs (less_than 1 k) 1
unfolding evaluate
less_than-Costs k v s = elim (Bool-cases (ltb v k)) [
  | inl e ↦ rw e (omega arith, omega arith)
  | inr e ↦ rw e (omega arith, omega arith)
]

less_than-Explains : (k : ℕ) → Explains (less_than 1 k) 0
less_than-Explains k v s = omega arith

all_matcher-Explains_example :
    Costs (all_matcher unquoted itoa (less_than 1 5 ∷ less_than 1 3 ∷ [])) (total (1 ∷ 1 ∷ []))
    × Explains
        (all_matcher unquoted itoa (less_than 1 5 ∷ less_than 1 3 ∷ []))
        (total (1 ∷ 1 ∷ []) + total (0 ∷ 0 ∷ []))
all_matcher-Explains_example =
    all_matcher-Explains unquoted itoa (less_than 1 5 ∷ less_than 1 3 ∷ []) (1 ∷ 1 ∷ [])
      (0 ∷ 0 ∷ []) (less_than-Costs 5, (less_than-Costs 3, tt))
      (less_than-Explains 5, (less_than-Explains 3, tt))

any_matcher-Explains_example :
    Costs (any_matcher unquoted itoa (less_than 1 5 ∷ less_than 1 3 ∷ [])) (total (1 ∷ 1 ∷ []))
    × Explains
        (any_matcher unquoted itoa (less_than 1 5 ∷ less_than 1 3 ∷ []))
        (total (1 ∷ 1 ∷ []) + total (0 ∷ 0 ∷ []))
any_matcher-Explains_example =
    any_matcher-Explains unquoted itoa (less_than 1 5 ∷ less_than 1 3 ∷ []) (1 ∷ 1 ∷ [])
      (0 ∷ 0 ∷ []) (less_than-Costs 5, (less_than-Costs 3, tt))
      (less_than-Explains 5, (less_than-Explains 3, tt))

-- Every number is read as the same list.
abbrev elements : ℕ → Option (List ℕ)
elements v = some (1 ∷ 4 ∷ 2 ∷ [])

abbrev not_list : Text → ℕ → Text
not_list name v = name

quantified_evaluate-count_example :
    (text : Text) × (quantified_evaluate unquoted itoa elements not_list
        (at_least_n_elements (pos 2) (quiet 3))
        9
        0
      ≡ ((quantifies quant_at_least 2 (count_test (λ v. ltb v 3) (1 ∷ 4 ∷ 2 ∷ [])) 3, text), 0))
unfolding at_least_n_elements
quantified_evaluate-count_example =
    quantified_evaluate-count unquoted itoa elements not_list
      (at_least_n_elements (pos 2) (quiet 3)) (λ v. ltb v 3) 2 9 (1 ∷ 4 ∷ 2 ∷ []) 0
      (less_than-IsJudge 3) refl refl

contain_elements_in_order-IsFoundIn_example :
    ((ordered_evaluate unquoted itoa elements not_list
        (contain_elements_in_order pair_of_matchers)
        9
        0).0.0
      ≡ true)
    ↔ IsFoundIn pair_of_tests (1 ∷ 4 ∷ 2 ∷ [])
contain_elements_in_order-IsFoundIn_example =
    contain_elements_in_order-IsFoundIn unquoted itoa elements not_list pair_of_matchers
      pair_of_tests 9 (1 ∷ 4 ∷ 2 ∷ []) 0 pair-AreJudges refl
