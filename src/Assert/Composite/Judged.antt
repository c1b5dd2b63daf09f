-- ===== src/Assert/Composite/Judged.antt =====
-- Match and Evaluate of assert/composite_matchers.go both decide the logical combination.
use go_specs.Prelude.{
  ℕ, suc, ◌≡◌, refl, Bool, true, false, not, ◌&&◌, ◌||◌, none, List, [], ◌∷◌, ◌++◌, Bool-cases, inl,
  inr,
}
use go_specs.Prelude.Text.{Text, codes}
use go_specs.Assert.Matcher.{Matcher, evaluate, at_position}
use go_specs.Assert.Composite.{
  not_matcher, not_match, not_evaluate, not_verdict, flip, all_matcher, all_match, if_matched,
  all_parts, note_part, all_evaluate, parts_verdict, any_matcher, empty_text, part_of, any_match,
  any_match_from, any_loop, unless_matched, first_nil, any_evaluate, nil_verdict, any_pass,
  any_verdict,
}

-- A matcher that is not nil, judges each value by a test and leaves the world as it is, both when it
-- is asked by Match and by Evaluate.
abbrev pub IsJudge : {S V : Type 0} → Matcher S V → (V → Bool) → Type 0
IsJudge {S = S} {V = V} m test =
    (m.is_nil ≡ false)
    × ((v : V) (s : S)
        → (m.match_value v s ≡ (test v, s))
          × (text : Text) × (evaluate m v s ≡ ((test v, text), s)))

abbrev is_empty : List Text → Bool
is_empty [] = true
is_empty (part ∷ parts) = false

abbrev pub every_test : {V : Type 0} → List (V → Bool) → V → Bool
every_test [] v = true
every_test (test ∷ tests) v = test v && every_test tests v

abbrev pub some_test : {V : Type 0} → List (V → Bool) → V → Bool
some_test [] v = false
some_test (test ∷ tests) v = test v || some_test tests v

-- The matchers judge by the tests, one by one.
abbrev pub AreJudges : {S V : Type 0} → List (Matcher S V) → List (V → Bool) → Type 0
AreJudges [] [] = Unit
AreJudges (m ∷ ms) (test ∷ tests) = IsJudge m test × AreJudges ms tests
AreJudges _ _ = ⊥

module _ {S V : Type 0} (quote : Text → Text) (user_value : V → Text) where
  not_verdict-IsJudge :
      (m : Matcher S V) (v : V) (b : Bool) (s : S)
      → (text : Text) × (not_verdict quote user_value m v (b, s) ≡ ((not b, text), s))
  unfolding not_verdict
  not_verdict-IsJudge m v true s = (_, refl)
  not_verdict-IsJudge m v false s = ([], refl)

  -- Not judges by the negation.
  pub not_matcher-IsJudge :
      (m : Matcher S V) (test : V → Bool)
      → IsJudge m test
      → IsJudge (not_matcher quote user_value m) (λ v. not (test v))
  not_matcher-IsJudge m test (there, judge) = (
    unfold not_matcher in refl,
    λ v s.
        let (matched, said, evaluated) = judge v s in
        let (text, e) = not_verdict-IsJudge m v (test v) s in
        (
          unfold not_matcher not_match in simp (there, matched) (unfold flip in refl),
          text,
          unfold evaluate not_matcher not_evaluate in simp (there, matched) e,
        ),
  )

  all_match-test :
      (ms : List (Matcher S V)) (tests : List (V → Bool)) (v : V) (s : S)
      → AreJudges ms tests
      → all_match quote user_value ms v s ≡ (every_test tests v, s)
  unfolding all_match if_matched
  all_match-test [] [] v s h = refl
  all_match-test (m ∷ ms) [] v s h = absurd h
  all_match-test [] (test ∷ tests) v s h = absurd h
  all_match-test (m ∷ ms) (test ∷ tests) v s h =
      let (matched, said, evaluated) = h.0.1 v s in
      let later = all_match-test ms tests v s h.1 in
      elim (Bool-cases (test v)) [
        | inl e ↦ simp (h.0.0, matched, e, later) refl
        | inr e ↦ simp (h.0.0, matched, e) refl
      ]

  -- The parts are none exactly when every test holds.
  all_parts-test :
      (i : ℕ) (ms : List (Matcher S V)) (tests : List (V → Bool)) (v : V) (s : S)
      → AreJudges ms tests
      → (parts : List Text) × (all_parts quote user_value i ms v s ≡ (parts, s))
        × (is_empty parts ≡ every_test tests v)
  unfolding all_parts note_part
  all_parts-test i [] [] v s h = ([], refl, refl)
  all_parts-test i (m ∷ ms) [] v s h = absurd h
  all_parts-test i [] (test ∷ tests) v s h = absurd h
  all_parts-test i (m ∷ ms) (test ∷ tests) v s h =
      let (matched, said, evaluated) = h.0.1 v s in
      let (parts, later, ends) = all_parts-test (suc i) ms tests v s h.1 in
      elim (Bool-cases (test v)) [
        | inl e ↦ (parts, simp (evaluated, e, later) refl, simp (e, ends) refl)
        | inr e ↦ (
          part_of quote user_value i m said ∷ parts,
          simp (evaluated, e, later) refl,
          simp e refl,
        )
      ]

  parts_verdict-test :
      (name : Text) (parts : List Text) (s : S)
      → (text : Text) × (parts_verdict quote user_value name (parts, s)
          ≡ ((is_empty parts, text), s))
  unfolding parts_verdict
  parts_verdict-test name [] s = ([], refl)
  parts_verdict-test name (part ∷ parts) s = (_, refl)

  -- All judges by the conjunction.
  pub all_matcher-IsJudge :
      (ms : List (Matcher S V)) (tests : List (V → Bool))
      → AreJudges ms tests
      → IsJudge (all_matcher quote user_value ms) (every_test tests)
  all_matcher-IsJudge ms tests h = (
    unfold all_matcher in refl,
    λ v s.
        let (parts, e, ends) = all_parts-test 1 ms tests v s h in
        let (text, f) = parts_verdict-test (codes "All: ") parts s in
        (
          unfold all_matcher in all_match-test ms tests v s h,
          text,
          unfold evaluate all_matcher all_evaluate in simp (e, f, ends) refl,
        ),
  )

  first_nil-none :
      (i : ℕ) (ms : List (Matcher S V)) (tests : List (V → Bool))
      → AreJudges ms tests
      → first_nil quote user_value i ms ≡ none
  unfolding first_nil
  first_nil-none i [] [] h = refl
  first_nil-none i (m ∷ ms) [] h = absurd h
  first_nil-none i [] (test ∷ tests) h = absurd h
  first_nil-none i (m ∷ ms) (test ∷ tests) h =
      let later = first_nil-none (suc i) ms tests h.1 in simp (h.0.0, later) refl

  any_loop-test :
      (ms : List (Matcher S V)) (tests : List (V → Bool)) (v : V) (s : S)
      → AreJudges ms tests
      → any_loop quote user_value ms v s ≡ (some_test tests v, s)
  unfolding any_loop unless_matched
  any_loop-test [] [] v s h = refl
  any_loop-test (m ∷ ms) [] v s h = absurd h
  any_loop-test [] (test ∷ tests) v s h = absurd h
  any_loop-test (m ∷ ms) (test ∷ tests) v s h =
      let (matched, said, evaluated) = h.0.1 v s in
      let later = any_loop-test ms tests v s h.1 in
      elim (Bool-cases (test v)) [
        | inl e ↦ simp (matched, e) refl
        | inr e ↦ simp (matched, e, later) refl
      ]

  any_pass-test :
      (i : ℕ) (ms : List (Matcher S V)) (tests : List (V → Bool)) (v : V) (parts : List Text)
      (s : S)
      → AreJudges ms tests
      → (text : Text) × (any_pass quote user_value i ms v parts s ≡ ((some_test tests v, text), s))
  unfolding any_pass any_verdict
  any_pass-test i [] [] v parts s h = (_, refl)
  any_pass-test i (m ∷ ms) [] v parts s h = absurd h
  any_pass-test i [] (test ∷ tests) v parts s h = absurd h
  any_pass-test i (m ∷ ms) (test ∷ tests) v parts s h =
      let (matched, said, evaluated) = h.0.1 v s in
      elim (Bool-cases (test v)) [
        | inl e ↦ ([], simp (evaluated, e) refl)
        | inr e ↦
            let (text, later) =
              any_pass-test (suc i) ms tests v (parts ++ at_position i (quote said) ∷ []) s h.1 in
            (text, simp (evaluated, e) (simp later refl))
      ]

  any_evaluate-test :
      (ms : List (Matcher S V)) (tests : List (V → Bool)) (v : V) (s : S)
      → AreJudges ms tests
      → (text : Text) × (any_evaluate quote user_value ms v s ≡ ((some_test tests v, text), s))
  any_evaluate-test [] [] v s h = (empty_text, unfold any_evaluate in refl)
  any_evaluate-test [] (test ∷ tests) v s h = absurd h
  any_evaluate-test (m ∷ ms) tests v s h =
      let (text, e) = any_pass-test 1 (m ∷ ms) tests v [] s h in
      (text, unfold any_evaluate nil_verdict in simp (first_nil-none 1 (m ∷ ms) tests h) e)

  -- Any judges by the disjunction.
  pub any_matcher-IsJudge :
      (ms : List (Matcher S V)) (tests : List (V → Bool))
      → AreJudges ms tests
      → IsJudge (any_matcher quote user_value ms) (some_test tests)
  any_matcher-IsJudge ms tests h = (
    unfold any_matcher in refl,
    λ v s.
        let (text, e) = any_evaluate-test ms tests v s h in
        (
          unfold any_matcher any_match any_match_from in
              simp (first_nil-none 1 ms tests h) (any_loop-test ms tests v s h),
          text,
          unfold evaluate any_matcher in e,
        ),
  )
