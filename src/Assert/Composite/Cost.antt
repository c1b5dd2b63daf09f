-- ===== src/Assert/Composite/Cost.antt =====
-- What Match and Evaluate of the combinators of assert/composite_matchers.go ask. The state counts calls.
use go_specs.Prelude.{
  ℕ, suc, ◌+◌, ◌≤◌, ◌≡◌, refl, arith, Bool, true, false, Option, none, some, List, [], ◌∷◌,
  Bool-cases, inl, inr, ◌++◌,
}
use go_specs.Prelude.Text.{Text, codes}
use go_specs.Assert.Matcher.{Matcher, Verdict, evaluate, at_position}
use go_specs.Assert.Composite.{
  all_matcher, all_match, if_matched, all_parts, note_part, all_evaluate, parts_verdict,
  any_matcher, any_match, any_match_from, any_loop, unless_matched, first_nil, any_evaluate,
  nil_verdict, any_pass, any_verdict,
}

-- Whatever the value, neither Match nor Evaluate adds more than `k` to the count.
abbrev pub Costs : {V : Type 0} → Matcher ℕ V → ℕ → Type 0
Costs {V = V} m k = (v : V) (s : ℕ) → ((m.match_value v s).1 ≤ s + k) × ((evaluate m v s).1 ≤ s + k)

abbrev pub total : List ℕ → ℕ
total [] = 0
total (k ∷ ks) = k + total ks

-- The costs of the matchers, one by one.
abbrev pub AreCosts : {V : Type 0} → List (Matcher ℕ V) → List ℕ → Type 0
AreCosts [] [] = Unit
AreCosts (m ∷ ms) (k ∷ ks) = Costs m k × AreCosts ms ks
AreCosts _ _ = ⊥

module _ {V : Type 0} (quote : Text → Text) (user_value : V → Text) where
  if_matched-cost :
      (r : Bool × ℕ) (rest : ℕ → Bool × ℕ) (s k n : ℕ)
      → r.1 ≤ s + k
      → ((t : ℕ) → (rest t).1 ≤ t + n)
      → (if_matched quote user_value r rest).1 ≤ s + (k + n)
  unfolding if_matched
  if_matched-cost (true, t) rest s k n h later = let last = later t in omega (arith, h, last)
  if_matched-cost (false, t) rest s k n h later = omega (arith, h)

  all_match-cost :
      (ms : List (Matcher ℕ V)) (ks : List ℕ) (v : V) (s : ℕ)
      → AreCosts ms ks
      → (all_match quote user_value ms v s).1 ≤ s + total ks
  unfolding all_match
  all_match-cost [] [] v s h = omega arith
  all_match-cost (m ∷ ms) [] v s h = absurd h
  all_match-cost [] (k ∷ ks) v s h = absurd h
  all_match-cost (m ∷ ms) (k ∷ ks) v s h = elim (Bool-cases m.is_nil) [
    | inl e ↦ simp e (omega arith)
    | inr e ↦ simp e (
        if_matched-cost (m.match_value v s) (all_match quote user_value ms v) s k (total ks)
          (h.0 v s).0 (λ t. all_match-cost ms ks v t h.1))
  ]

  note_part-cost :
      (i : ℕ) (m : Matcher ℕ V) (r : Verdict × ℕ) (rest : ℕ → List Text × ℕ) (s k n : ℕ)
      → r.1 ≤ s + k
      → ((t : ℕ) → (rest t).1 ≤ t + n)
      → (note_part quote user_value i m r rest).1 ≤ s + (k + n)
  unfolding note_part
  note_part-cost i m ((true, text), t) rest s k n h later =
      let last = later t in omega (arith, h, last)
  note_part-cost i m ((false, text), t) rest s k n h later =
      let last = later t in omega (arith, h, last)

  all_parts-cost :
      (i : ℕ) (ms : List (Matcher ℕ V)) (ks : List ℕ) (v : V) (s : ℕ)
      → AreCosts ms ks
      → (all_parts quote user_value i ms v s).1 ≤ s + total ks
  unfolding all_parts
  all_parts-cost i [] [] v s h = omega arith
  all_parts-cost i (m ∷ ms) [] v s h = absurd h
  all_parts-cost i [] (k ∷ ks) v s h = absurd h
  all_parts-cost i (m ∷ ms) (k ∷ ks) v s h =
      note_part-cost i m (evaluate m v s) (all_parts quote user_value (suc i) ms v) s k (total ks)
        (h.0 v s).1 (λ t. all_parts-cost (suc i) ms ks v t h.1)

  parts_verdict-state :
      (name : Text) (r : List Text × ℕ) → (parts_verdict quote user_value name r).1 ≡ r.1
  unfolding parts_verdict
  parts_verdict-state name ([], s) = refl
  parts_verdict-state name (part ∷ parts, s) = refl

  -- Neither Match nor Evaluate of All adds more to the count than its entries do together.
  pub all_matcher-Costs :
      (ms : List (Matcher ℕ V)) (ks : List ℕ)
      → AreCosts ms ks
      → Costs (all_matcher quote user_value ms) (total ks)
  all_matcher-Costs ms ks h v s = (
    unfold all_matcher in all_match-cost ms ks v s h,
    unfold evaluate all_matcher all_evaluate in
        rw (parts_verdict-state (codes "All: ") (all_parts quote user_value 1 ms v s))
          (all_parts-cost 1 ms ks v s h),
  )

  unless_matched-cost :
      (r : Bool × ℕ) (rest : ℕ → Bool × ℕ) (s k n : ℕ)
      → r.1 ≤ s + k
      → ((t : ℕ) → (rest t).1 ≤ t + n)
      → (unless_matched quote user_value r rest).1 ≤ s + (k + n)
  unfolding unless_matched
  unless_matched-cost (true, t) rest s k n h later = omega (arith, h)
  unless_matched-cost (false, t) rest s k n h later = let last = later t in omega (arith, h, last)

  any_loop-cost :
      (ms : List (Matcher ℕ V)) (ks : List ℕ) (v : V) (s : ℕ)
      → AreCosts ms ks
      → (any_loop quote user_value ms v s).1 ≤ s + total ks
  unfolding any_loop
  any_loop-cost [] [] v s h = omega arith
  any_loop-cost (m ∷ ms) [] v s h = absurd h
  any_loop-cost [] (k ∷ ks) v s h = absurd h
  any_loop-cost (m ∷ ms) (k ∷ ks) v s h =
      unless_matched-cost (m.match_value v s) (any_loop quote user_value ms v) s k (total ks)
        (h.0 v s).0 (λ t. any_loop-cost ms ks v t h.1)

  any_match_from-cost :
      (nil_at : Option ℕ) (ms : List (Matcher ℕ V)) (ks : List ℕ) (v : V) (s : ℕ)
      → AreCosts ms ks
      → (any_match_from quote user_value nil_at ms v s).1 ≤ s + total ks
  unfolding any_match_from
  any_match_from-cost none ms ks v s h = any_loop-cost ms ks v s h
  any_match_from-cost (some i) ms ks v s h = omega arith

  any_verdict-cost :
      (parts : List Text) (r : Verdict × ℕ) (i : ℕ) (rest : List Text → ℕ → Verdict × ℕ) (s k n : ℕ)
      → r.1 ≤ s + k
      → ((more : List Text) (t : ℕ) → (rest more t).1 ≤ t + n)
      → (any_verdict quote user_value parts r i rest).1 ≤ s + (k + n)
  unfolding any_verdict
  any_verdict-cost parts ((true, text), t) i rest s k n h later = omega (arith, h)
  any_verdict-cost parts ((false, text), t) i rest s k n h later =
      let last = later (parts ++ at_position i (quote text) ∷ []) t in omega (arith, h, last)

  any_pass-cost :
      (i : ℕ) (ms : List (Matcher ℕ V)) (ks : List ℕ) (v : V) (parts : List Text) (s : ℕ)
      → AreCosts ms ks
      → (any_pass quote user_value i ms v parts s).1 ≤ s + total ks
  unfolding any_pass
  any_pass-cost i [] [] v parts s h = omega arith
  any_pass-cost i (m ∷ ms) [] v parts s h = absurd h
  any_pass-cost i [] (k ∷ ks) v parts s h = absurd h
  any_pass-cost i (m ∷ ms) (k ∷ ks) v parts s h =
      any_verdict-cost parts (evaluate m v s) i (any_pass quote user_value (suc i) ms v) s k
        (total ks) (h.0 v s).1 (λ more t. any_pass-cost (suc i) ms ks v more t h.1)

  nil_verdict-cost :
      (nil_at : Option ℕ) (ms : List (Matcher ℕ V)) (ks : List ℕ) (v : V) (s : ℕ)
      → AreCosts ms ks
      → (nil_verdict quote user_value nil_at ms v s).1 ≤ s + total ks
  unfolding nil_verdict
  nil_verdict-cost none ms ks v s h = any_pass-cost 1 ms ks v [] s h
  nil_verdict-cost (some i) ms ks v s h = omega arith

  any_evaluate-cost :
      (ms : List (Matcher ℕ V)) (ks : List ℕ) (v : V) (s : ℕ)
      → AreCosts ms ks
      → (any_evaluate quote user_value ms v s).1 ≤ s + total ks
  unfolding any_evaluate
  any_evaluate-cost [] ks v s h = omega arith
  any_evaluate-cost (m ∷ ms) ks v s h =
      nil_verdict-cost (first_nil quote user_value 1 (m ∷ ms)) (m ∷ ms) ks v s h

  -- Neither Match nor Evaluate of Any adds more to the count than its entries do together.
  pub any_matcher-Costs :
      (ms : List (Matcher ℕ V)) (ks : List ℕ)
      → AreCosts ms ks
      → Costs (any_matcher quote user_value ms) (total ks)
  any_matcher-Costs ms ks h v s = (
    unfold any_matcher any_match in
        any_match_from-cost (first_nil quote user_value 1 ms) ms ks v s h,
    unfold evaluate any_matcher in any_evaluate-cost ms ks v s h,
  )
