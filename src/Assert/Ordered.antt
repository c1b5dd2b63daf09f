-- ===== src/Assert/Ordered.antt =====
-- assert/quantified_matchers.go: HaveElementsInOrder and ContainElementsInOrder. How a value is read as
-- a list of elements, and shown, are parameters.
pub mod Packaged
pub mod Greedy
use go_specs.Prelude.{
  ℕ, zero, suc, ◌+◌, ◌-◌, Bool, true, false, not, ◌&&◌, Option, none, some, List, [], ◌∷◌, ◌++◌,
  length, ltb, ◌==◌, if◌then◌else◌,
}
use go_specs.Prelude.Text.{Text, codes, itoa, is_blank}
use go_specs.Assert.Matcher.{
  Matcher, Verdict, nil_matcher_failure, describe_matcher, describe_entries, join_with, at_position,
  evaluate,
}
use go_specs.Assert.Listing.{
  ElementListing, no_listing, add_listing, count_listing, joined, count_of,
}

pub record OrderedMatcher (S V : Type 0) : Type 0 where
  pub name : Text
  pub exact : Bool
  pub ms : List (Matcher S V)

unfoldable pub have_elements_in_order : {S V : Type 0} → List (Matcher S V) → OrderedMatcher S V
have_elements_in_order ms = record { name = codes "HaveElementsInOrder"; exact = true; ms = ms }

unfoldable pub contain_elements_in_order : {S V : Type 0} → List (Matcher S V) → OrderedMatcher S V
contain_elements_in_order ms = record {
  name = codes "ContainElementsInOrder";
  exact = false;
  ms = ms;
}

unfoldable pub describe_ordered : {S V : Type 0} → OrderedMatcher S V → Text
unfolding join_with describe_entries
describe_ordered o =
    (if o.exact then codes "elements in order " else codes "containing in order ")
    ++ (codes "[" ++ (join_with (codes ", ") (describe_entries o.ms) ++ codes "]"))

nil_entries : {S V : Type 0} → ℕ → List (Matcher S V) → List Text
unfolding at_position nil_matcher_failure
nil_entries i [] = []
nil_entries i (m ∷ ms) =
    let rest = nil_entries (suc i) ms in
    if m.is_nil then at_position i nil_matcher_failure ∷ rest else rest

missing_from : {S V : Type 0} → ℕ → List (Matcher S V) → ElementListing → ElementListing
unfolding add_listing describe_matcher
missing_from i [] l = l
missing_from i (m ∷ ms) l =
    missing_from (suc i) ms
      (add_listing (b'#' ∷ (itoa i ++ (codes " (" ++ (describe_matcher m ++ codes ")")))) l)

where_text : Option ℕ → Text
unfolding itoa
where_text none = codes "from index 0"
where_text (some i) = codes "after index " ++ itoa i

module _ {V : Type 0} (user_value : V → Text) where
  element_text : ℕ → V → Text
  element_text i element = b'[' ∷ (itoa i ++ (codes "] " ++ user_value element))

  unexpected_from : ℕ → List V → ElementListing → ElementListing
  unfolding add_listing element_text
  unexpected_from i [] l = l
  unexpected_from i (element ∷ rest) l =
      unexpected_from (suc i) rest (add_listing (element_text i element) l)

module _ {V : Type 0} (quote : Text → Text) (user_value : V → Text) where
  failure_text : ℕ → V → Text → Text
  unfolding element_text
  failure_text i element failure =
      element_text user_value i element ++ (codes ": " ++ quote failure)

-- The matchers that wait for their element, the last match, and the misses since.
pub record Search (S V : Type 0) : Type 0 where
  pub waiting : List (Matcher S V)
  pub last_match : Option ℕ
  pub misses : ElementListing

module _ {S V : Type 0} (quote : Text → Text) (user_value : V → Text) where
  noted :
      ℕ
      → V
      → Verdict × S
      → ElementListing
      → (ElementListing → S → ElementListing × S)
      → ElementListing × S
  unfolding failure_text add_listing
  noted i element ((true, failure), s) l rest = rest l s
  noted i element ((false, failure), s) l rest =
      rest (add_listing (failure_text quote user_value i element failure) l) s

  -- The failures of the paired positions.
  paired_failures : ℕ → List (Matcher S V) → List V → ElementListing → S → ElementListing × S
  unfolding noted evaluate
  paired_failures i [] es l s = (l, s)
  paired_failures i (m ∷ ms) [] l s = (l, s)
  paired_failures i (m ∷ ms) (element ∷ es) l s =
      noted i element (evaluate m element s) l (paired_failures (suc i) ms es)

  -- What is wrong with the number of the elements.
  length_texts : ℕ → List (Matcher S V) → List V → List Text
  unfolding missing_from unexpected_from joined count_of
  length_texts i [] [] = []
  length_texts i [] (element ∷ es) =
      (codes "expected "
        ++ (count_of i (codes "element")
            ++ (codes ", got "
                ++ (itoa (i + length (element ∷ es))
                    ++ (codes " — unexpected "
                        ++ joined (codes ", ")
                            (unexpected_from user_value i (element ∷ es) no_listing))))))
      ∷ []
  length_texts i (m ∷ ms) [] =
      (codes "expected "
        ++ (count_of (i + length (m ∷ ms)) (codes "element")
            ++ (codes ", got "
                ++ (itoa i
                    ++ (codes " — missing "
                        ++ ((if ltb 1 (length (m ∷ ms))
                              then codes "matchers "
                              else codes "matcher ")
                            ++ joined (codes ", ") (missing_from (suc i) (m ∷ ms) no_listing)))))))
      ∷ []
  length_texts i (m ∷ ms) (element ∷ es) = length_texts (suc i) ms es

  exact_verdict : OrderedMatcher S V → List V → ElementListing × S → Verdict × S
  unfolding count_listing joined length_texts join_with
  exact_verdict o es (l, s) =
      let paired = if ltb (length es) (length o.ms) then length es else length o.ms in
      let failed =
        (itoa (count_listing l)
          ++ (codes " of "
              ++ (itoa paired ++ (codes " positions failed — " ++ joined (codes "; ") l))))
        ∷ [] in
      if length es == length o.ms && count_listing l == 0 then ((true, []), s) else (
        (
          false,
          o.name
              ++ (codes ": "
                  ++ join_with (codes "; ")
                      (length_texts 0 o.ms es ++ (if ltb 0 (count_listing l) then failed else []))),
        ),
        s,
      )

  evaluate_exact : OrderedMatcher S V → List V → S → Verdict × S
  unfolding exact_verdict paired_failures
  evaluate_exact o es s = exact_verdict o es (paired_failures 0 o.ms es no_listing s)

  asked :
      ℕ
      → V
      → Matcher S V
      → List (Matcher S V)
      → Option ℕ
      → ElementListing
      → Verdict × S
      → (List (Matcher S V) → Option ℕ → ElementListing → S → Search S V × S)
      → Search S V × S
  unfolding failure_text add_listing
  asked i element m ms last l ((true, failure), s) rest = rest ms (some i) no_listing s
  asked i element m ms last l ((false, failure), s) rest =
      rest (m ∷ ms) last (add_listing (failure_text quote user_value i element failure) l) s

  -- The loop of evaluateSubsequence: it ends when no matcher waits.
  search_elements : ℕ → List V → List (Matcher S V) → Option ℕ → ElementListing → S → Search S V × S
  unfolding asked evaluate
  search_elements i [] ms last l s = (record { waiting = ms; last_match = last; misses = l }, s)
  search_elements i (element ∷ es) [] last l s =
      (record { waiting = []; last_match = last; misses = l }, s)
  search_elements i (element ∷ es) (m ∷ ms) last l s =
      asked i element m ms last l (evaluate m element s) (search_elements (suc i) es)

  search_verdict : OrderedMatcher S V → List (Matcher S V) → Search S V → Verdict
  unfolding where_text describe_matcher joined count_listing
  search_verdict o [] found = (true, [])
  search_verdict o (m ∷ ms) found =
      let total = length o.ms in
      let next = total - length (m ∷ ms) in
      (
        false,
        o.name
            ++ (codes ": matched "
                ++ (itoa next
                    ++ (codes " of "
                        ++ (itoa total
                            ++ (codes " matchers in order; matcher #"
                                ++ (itoa (suc next)
                                    ++ (codes " ("
                                        ++ (describe_matcher m
                                            ++ (codes ") matched no element "
                                                ++ (where_text found.last_match
                                                    ++ (if ltb 0 (count_listing found.misses)
                                                        then codes " — "
                                                          ++ joined (codes "; ") found.misses
                                                        else []))))))))))),
      )

  searched : OrderedMatcher S V → Search S V × S → Verdict × S
  unfolding search_verdict
  searched o (found, s) = (search_verdict o found.waiting found, s)

  evaluate_subsequence : OrderedMatcher S V → List V → S → Verdict × S
  unfolding searched search_elements
  evaluate_subsequence o es s = searched o (search_elements 0 es o.ms none no_listing s)

  module _ (elements : V → Option (List V)) (not_list : Text → V → Text) where
    on_elements : OrderedMatcher S V → V → Option (List V) → S → Verdict × S
    unfolding evaluate_exact evaluate_subsequence
    on_elements o v none s = ((false, not_list o.name v), s)
    on_elements o v (some es) s =
        if o.exact then evaluate_exact o es s else evaluate_subsequence o es s

    unless_nil : OrderedMatcher S V → V → List Text → S → Verdict × S
    unfolding on_elements join_with
    unless_nil o v [] s = on_elements o v (elements v) s
    unless_nil o v (part ∷ parts) s =
        ((false, o.name ++ (codes ": " ++ join_with (codes "; ") (part ∷ parts))), s)

    unfoldable pub ordered_evaluate : OrderedMatcher S V → V → S → Verdict × S
    unfolding unless_nil nil_entries
    ordered_evaluate o v s = unless_nil o v (nil_entries 1 o.ms) s
