-- ===== src/Assert/Composite/Messages.antt =====
-- What FailureMessage of the combinators of assert/composite_matchers.go asks: it judges the entries
-- again, and an entry that fails is asked for its own message.
use go_specs.Prelude.{
  ℕ, suc, ◌+◌, ◌≤◌, ◌≡◌, refl, arith, Bool, true, false, Option, none, some, List, [], ◌∷◌,
  Bool-cases, inl, inr,
}
use go_specs.Prelude.Text.{Text}
use go_specs.Assert.Matcher.{Matcher}
use go_specs.Assert.Composite.{
  all_matcher, all_message, any_matcher, any_message, any_message_from, any_name, first_nil,
  again_text, parts_again, part_again,
}
use go_specs.Assert.Composite.Cost.{Costs, AreCosts, total, all_matcher-Costs, any_matcher-Costs}

-- Whatever the value, FailureMessage adds no more than `k` to the count.
abbrev pub Explains : {V : Type 0} → Matcher ℕ V → ℕ → Type 0
Explains {V = V} m k = (v : V) (s : ℕ) → (m.failure_message v s).1 ≤ s + k

abbrev pub AreExplained : {V : Type 0} → List (Matcher ℕ V) → List ℕ → Type 0
AreExplained [] [] = Unit
AreExplained (m ∷ ms) (k ∷ ks) = Explains m k × AreExplained ms ks
AreExplained _ _ = ⊥

module _ {V : Type 0} (quote : Text → Text) (user_value : V → Text) where
  part_again-cost :
      (i : ℕ) (m : Matcher ℕ V) (v : V) (r : Bool × ℕ) (rest : ℕ → List Text × ℕ) (s j k n : ℕ)
      → r.1 ≤ s + j
      → Explains m k
      → ((t : ℕ) → (rest t).1 ≤ t + n)
      → (part_again quote user_value i m v r rest).1 ≤ s + (j + k + n)
  unfolding part_again
  part_again-cost i m v (true, t) rest s j k n h says later =
      let last = later t in omega (arith, h, last)
  part_again-cost i m v (false, t) rest s j k n h says later =
      let told = says v t in
      let last = later (m.failure_message v t).1 in omega (arith, h, told, last)

  parts_again-cost :
      (i : ℕ) (ms : List (Matcher ℕ V)) (js ks : List ℕ) (v : V) (s : ℕ)
      → AreCosts ms js
      → AreExplained ms ks
      → (parts_again quote user_value i ms v s).1 ≤ s + (total js + total ks)
  unfolding parts_again
  parts_again-cost i [] [] [] v s h g = omega arith
  parts_again-cost i [] (j ∷ js) ks v s h g = absurd h
  parts_again-cost i [] [] (k ∷ ks) v s h g = absurd g
  parts_again-cost i (m ∷ ms) [] ks v s h g = absurd h
  parts_again-cost i (m ∷ ms) (j ∷ js) [] v s h g = absurd g
  parts_again-cost i (m ∷ ms) (j ∷ js) (k ∷ ks) v s h g =
      let later : (t : ℕ)
          → (parts_again quote user_value (suc i) ms v t).1 ≤ t + (total js + total ks) =
        λ t. parts_again-cost (suc i) ms js ks v t h.1 g.1 in
      elim (Bool-cases m.is_nil) [
        | inl e ↦ let skip = later s in simp e (omega (arith, skip))
        | inr e ↦
            let asked =
              part_again-cost i m v (m.match_value v s) (parts_again quote user_value (suc i) ms v)
                s j k (total js + total ks) (h.0 v s).0 g.0 later in
            simp e (omega (arith, asked))
      ]

  again_text-state :
      (name : Text) (r : List Text × ℕ) → (again_text quote user_value name r).1 ≡ r.1
  unfolding again_text
  again_text-state name ([], s) = refl
  again_text-state name (part ∷ parts, s) = refl

  all_message-cost :
      (ms : List (Matcher ℕ V)) (js ks : List ℕ) (v : V) (s : ℕ)
      → AreCosts ms js
      → AreExplained ms ks
      → (all_message quote user_value ms v s).1 ≤ s + (total js + total ks)
  unfolding all_message
  all_message-cost [] js ks v s h g = omega arith
  all_message-cost (m ∷ ms) js ks v s h g =
      rw (again_text-state _ (parts_again quote user_value 1 (m ∷ ms) v s))
        (parts_again-cost 1 (m ∷ ms) js ks v s h g)

  any_message_from-cost :
      (nil_at : Option ℕ) (ms : List (Matcher ℕ V)) (js ks : List ℕ) (v : V) (s : ℕ)
      → AreCosts ms js
      → AreExplained ms ks
      → (any_message_from quote user_value nil_at ms v s).1 ≤ s + (total js + total ks)
  unfolding any_message_from
  any_message_from-cost (some i) ms js ks v s h g = omega arith
  any_message_from-cost none ms js ks v s h g =
      rw (again_text-state any_name (parts_again quote user_value 1 ms v s))
        (parts_again-cost 1 ms js ks v s h g)

  any_message-cost :
      (ms : List (Matcher ℕ V)) (js ks : List ℕ) (v : V) (s : ℕ)
      → AreCosts ms js
      → AreExplained ms ks
      → (any_message quote user_value ms v s).1 ≤ s + (total js + total ks)
  unfolding any_message
  any_message-cost [] js ks v s h g = omega arith
  any_message-cost (m ∷ ms) js ks v s h g =
      any_message_from-cost (first_nil quote user_value 1 (m ∷ ms)) (m ∷ ms) js ks v s h g

  -- Where the i-th entry adds at most j_i to the count in Match and in Evaluate, and k_i in
  -- FailureMessage: Match and Evaluate of All add at most the sum of the j_i, and its
  -- FailureMessage at most the sum of the j_i and of the k_i.
  pub all_matcher-Explains :
      (ms : List (Matcher ℕ V)) (js ks : List ℕ)
      → AreCosts ms js
      → AreExplained ms ks
      → Costs (all_matcher quote user_value ms) (total js)
        × Explains (all_matcher quote user_value ms) (total js + total ks)
  all_matcher-Explains ms js ks h g = (
    all_matcher-Costs quote user_value ms js h,
    λ v s. unfold all_matcher in all_message-cost ms js ks v s h g,
  )

  -- Where the i-th entry adds at most j_i to the count in Match and in Evaluate, and k_i in
  -- FailureMessage: Match and Evaluate of Any add at most the sum of the j_i, and its
  -- FailureMessage at most the sum of the j_i and of the k_i.
  pub any_matcher-Explains :
      (ms : List (Matcher ℕ V)) (js ks : List ℕ)
      → AreCosts ms js
      → AreExplained ms ks
      → Costs (any_matcher quote user_value ms) (total js)
        × Explains (any_matcher quote user_value ms) (total js + total ks)
  any_matcher-Explains ms js ks h g = (
    any_matcher-Costs quote user_value ms js h,
    λ v s. unfold any_matcher in any_message-cost ms js ks v s h g,
  )
