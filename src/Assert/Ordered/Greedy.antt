-- ===== src/Assert/Ordered/Greedy.antt =====
-- The ordered matchers of assert/quantified_matchers.go: taking the first element that matches finds a
-- subsequence whenever there is one.
use go_specs.Prelude.{
  ℕ, suc, ◌≡◌, ◌↔◌, refl, ap, ◌∙◌, Bool, true, false, Option, none, some, List, [], ◌∷◌, Bool-cases,
  inl, inr,
}
use go_specs.Prelude.Text.{Text}
use go_specs.Assert.Matcher.{Matcher, evaluate}
use go_specs.Assert.Composite.Judged.{AreJudges}
use go_specs.Assert.Listing.{ElementListing, no_listing, add_listing}
use go_specs.Assert.Ordered.{
  OrderedMatcher, contain_elements_in_order, Search, nil_entries, asked, search_elements,
  search_verdict, searched, evaluate_subsequence, on_elements, unless_nil, ordered_evaluate,
  failure_text,
}

-- The tests hold of elements in this order, with any others between them.
pub data IsFoundIn {V : Type 0} : List (V → Bool) → List V → Type 0 where
  nothing : {es : List V} → IsFoundIn [] es
  skipped :
      {tests : List (V → Bool)} {v : V} {es : List V}
      → IsFoundIn tests es
      → IsFoundIn tests (v ∷ es)
  taken :
      {test : V → Bool} {tests : List (V → Bool)} {v : V} {es : List V}
      → test v ≡ true
      → IsFoundIn tests es
      → IsFoundIn (test ∷ tests) (v ∷ es)

IsFoundIn-tail :
    {V : Type 0} {test : V → Bool} {tests : List (V → Bool)} {es : List V}
    → IsFoundIn (test ∷ tests) es
    → IsFoundIn tests es
IsFoundIn-tail (skipped h) = skipped (IsFoundIn-tail h)
IsFoundIn-tail (taken e h) = skipped h

IsFoundIn-empty :
    {V : Type 0} {test : V → Bool} {tests : List (V → Bool)} → IsFoundIn (test ∷ tests) [] → ⊥
IsFoundIn-empty f = elim f [ ]

-- The first element may as well be taken.
IsFoundIn-first :
    {V : Type 0} {test : V → Bool} {tests : List (V → Bool)} {v : V} {es : List V}
    → IsFoundIn (test ∷ tests) (v ∷ es)
    → IsFoundIn tests es
IsFoundIn-first (skipped h) = IsFoundIn-tail h
IsFoundIn-first (taken e h) = h

IsFoundIn-later :
    {V : Type 0} {test : V → Bool} {tests : List (V → Bool)} {v : V} {es : List V}
    → test v ≡ false
    → IsFoundIn (test ∷ tests) (v ∷ es)
    → IsFoundIn (test ∷ tests) es
IsFoundIn-later n (skipped h) = h
IsFoundIn-later n (taken e h) = absurd cc

abbrev is_none : {A : Type 0} → List A → Bool
is_none [] = true
is_none (a ∷ l) = false

module _ {S V : Type 0} (quote : Text → Text) (user_value : V → Text) where
  Waits : List (V → Bool) → List V → Search S V → Type 0
  Waits tests es found = (is_none found.waiting ≡ true) ↔ IsFoundIn tests es

  asked-as :
      (i : ℕ) (v : V) (m : Matcher S V) (ms : List (Matcher S V)) (last : Option ℕ)
      (l : ElementListing) (said : Text) (s : S) (es : List V) (a b : Bool)
      → evaluate m v s ≡ ((a, said), s)
      → a ≡ b
      → asked quote user_value i v m ms last l
          (evaluate m v s)
          (search_elements quote user_value (suc i) es)
        ≡ asked quote user_value i v m ms last l
            ((b, said), s)
            (search_elements quote user_value (suc i) es)
  asked-as i v m ms last l said s es a b evaluated same =
      ap
        (λ r.
          asked quote user_value i v m ms last l r (search_elements quote user_value (suc i) es))
        (evaluated ∙ ap (λ (c : Bool). ((c, said), s)) same)

  search_elements-Waits :
      (es : List V) (i : ℕ) (ms : List (Matcher S V)) (tests : List (V → Bool)) (last : Option ℕ)
      (l : ElementListing) (s : S)
      → AreJudges ms tests
      → (found : Search S V) × (search_elements quote user_value i es ms last l s ≡ (found, s))
        × Waits tests es found
  unfolding search_elements Waits asked
  search_elements-Waits [] i [] [] last l s h = (_, refl, (λ e. nothing, λ f. refl))
  search_elements-Waits [] i (m ∷ ms) (test ∷ tests) last l s h =
      (_, refl, (λ e. absurd cc, λ f. absurd (IsFoundIn-empty f)))
  search_elements-Waits (v ∷ es) i [] [] last l s h = (_, refl, (λ e. nothing, λ f. refl))
  search_elements-Waits es i (m ∷ ms) [] last l s h = absurd h
  search_elements-Waits es i [] (test ∷ tests) last l s h = absurd h
  search_elements-Waits (v ∷ es) i (m ∷ ms) (test ∷ tests) last l s h =
      let (matched, said, evaluated) = h.0.1 v s in
      elim (Bool-cases (test v)) [
        | inl e ↦
            let (found, later, (to, from)) =
              search_elements-Waits es (suc i) ms tests (some i) no_listing s h.1 in
            (
              found,
              asked-as i v m ms last l said s es (test v) true evaluated e ∙ later,
              (λ x. taken e (to x), λ f. from (IsFoundIn-first f)),
            )
        | inr e ↦
            let (found, later, (to, from)) =
              search_elements-Waits es (suc i) (m ∷ ms) (test ∷ tests) last
                (add_listing (failure_text quote user_value i v said) l) s h in
            (
              found,
              asked-as i v m ms last l said s es (test v) false evaluated e ∙ later,
              (λ x. skipped (to x), λ f. from (IsFoundIn-later e f)),
            )
      ]

  search_verdict-waiting :
      (o : OrderedMatcher S V) (ms : List (Matcher S V)) (found : Search S V)
      → (search_verdict quote user_value o ms found).0 ≡ is_none ms
  unfolding search_verdict
  search_verdict-waiting o [] found = refl
  search_verdict-waiting o (m ∷ ms) found = refl

  nil_entries-none :
      (i : ℕ) (ms : List (Matcher S V)) (tests : List (V → Bool))
      → AreJudges ms tests
      → nil_entries i ms ≡ []
  unfolding nil_entries
  nil_entries-none i [] [] h = refl
  nil_entries-none i (m ∷ ms) [] h = absurd h
  nil_entries-none i [] (test ∷ tests) h = absurd h
  nil_entries-none i (m ∷ ms) (test ∷ tests) h =
      let later = nil_entries-none (suc i) ms tests h.1 in simp (h.0.0, later) refl

  -- For a collection and child matchers that judge by tests: ContainElementsInOrder matches exactly when
  -- the tests hold, in their order, of elements of the collection, each element for at most one test.
  pub contain_elements_in_order-IsFoundIn :
      (elements : V → Option (List V)) (not_list : Text → V → Text) (ms : List (Matcher S V))
      (tests : List (V → Bool)) (v : V) (es : List V) (s : S)
      → AreJudges ms tests
      → elements v ≡ some es
      → ((ordered_evaluate quote user_value elements not_list
            (contain_elements_in_order ms)
            v
            s).0.0
          ≡ true)
        ↔ IsFoundIn tests es
  unfolding ordered_evaluate contain_elements_in_order
  contain_elements_in_order-IsFoundIn elements not_list ms tests v es s h list =
      let (found, e, waits) = search_elements-Waits es 0 ms tests none no_listing s h in
      simp (nil_entries-none 1 ms tests h) (
        unfold unless_nil on_elements in
        simp list (
          unfold evaluate_subsequence in
          simp e (
            unfold searched Waits in
            simp (search_verdict-waiting (contain_elements_in_order ms) found.waiting found)
              waits)))
