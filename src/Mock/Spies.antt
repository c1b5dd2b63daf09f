-- ===== src/Mock/Spies.antt =====
-- mock/spy.go: the questions that a test asks a spy.
use go_specs.Prelude.{
  ℕ, zero, suc, ◌≡◌, ◌↔◌, refl, Bool, true, false, ◌&&◌, Option, none, some, List, [], ◌∷◌, arith,
  get_elem?, length, ◌==◌, if◌then◌else◌, Bool-cases, inl, inr,
}
use go_specs.Mock.Model.{ArgMatcher, matches}

found : (b c : Bool) → b ≡ true → (if b then true else c) ≡ true
found true c h = refl
found false c h = ground arith

later-found : (b c : Bool) → c ≡ true → (if b then true else c) ≡ true
later-found true c h = refl
later-found false c h = h

not_here : (b c : Bool) → b ≡ false → (if b then true else c) ≡ true → c ≡ true
not_here true c e h = ground arith
not_here false c e h = h

module _ {V : Type 0} where
  -- The loop over the matchers; the arguments are as many.
  unfoldable pub all_match : List (Option (ArgMatcher V)) → List V → Bool
  all_match [] vs = true
  all_match (m ∷ ms) [] = false
  all_match (none ∷ ms) (v ∷ vs) = false
  all_match (some m ∷ ms) (v ∷ vs) = matches m v && all_match ms vs

  unfoldable pub is_call : List (Option (ArgMatcher V)) → List V → Bool
  unfolding all_match
  is_call ms args = length args == length ms && all_match ms args

  -- CalledWith
  unfoldable pub called_with : List (Option (ArgMatcher V)) → List (List V) → Bool
  unfolding is_call
  called_with ms [] = false
  called_with ms (args ∷ calls) =
      let later = called_with ms calls in if is_call ms args then true else later

  called_with-call :
      (ms : List (Option (ArgMatcher V))) (calls : List (List V)) (k : ℕ) (args : List V)
      → get_elem? calls k ≡ some args
      → is_call ms args ≡ true
      → called_with ms calls ≡ true
  unfolding called_with
  called_with-call ms [] k args e h = ground arith
  called_with-call ms (a ∷ calls) zero args e h =
      found (is_call ms a) (called_with ms calls) (ground (arith, e, h))
  called_with-call ms (a ∷ calls) (suc k) args e h =
      later-found (is_call ms a) (called_with ms calls) (called_with-call ms calls k args e h)

  call-called_with :
      (ms : List (Option (ArgMatcher V))) (calls : List (List V))
      → called_with ms calls ≡ true
      → (k : ℕ) × (args : List V) × (get_elem? calls k ≡ some args) × (is_call ms args ≡ true)
  unfolding called_with
  call-called_with ms [] h = ground arith
  call-called_with ms (a ∷ calls) h = elim (Bool-cases (is_call ms a)) [
    | inl here ↦ (0, a, refl, here)
    | inr not ↦
        let (k, args, e, g) =
          call-called_with ms calls (not_here (is_call ms a) (called_with ms calls) not h) in
        (suc k, args, e, g)
  ]

  -- CalledWith holds exactly if some recorded call has as many arguments as there are matchers, and
  -- each of its arguments matches.
  pub called_with_iff :
      (ms : List (Option (ArgMatcher V))) (calls : List (List V))
      → (called_with ms calls ≡ true)
        ↔ ((k : ℕ) × (args : List V) × (get_elem? calls k ≡ some args) × (is_call ms args ≡ true))
  called_with_iff ms calls =
      (call-called_with ms calls, λ (k, args, e, h). called_with-call ms calls k args e h)
