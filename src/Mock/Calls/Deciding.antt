-- ===== src/Mock/Calls/Deciding.antt =====
-- Which expectation a call of mock/controller.go goes to.
use go_specs.Prelude.{
  ℕ, ◌≡◌, refl, Bool, true, false, ◌&&◌, Option, none, some, List, [], ◌∷◌, ◌++◌, arith, All,
  Bool-cases, inl, inr,
}
use go_specs.Mock.Model.{Expectation, Reason, prohibits, has_capacity}
use go_specs.Mock.Calls.{
  is_match, at, first_match, prefer, Decision, forbidden, claimed, unexpected, decide,
}

module _ {V : Type 0} where
  -- An expectation that the call passes over: it does not match, or lacks the property.
  abbrev pub PassedOver : (Expectation V → Bool) → List (Expectation V) → ℕ × Option Reason → Type 0
  PassedOver test heap (p, r) = (is_match r && at test heap p) ≡ false

  -- `p` is the first of the list that matches and has the property.
  pub record IsFirst (test : Expectation V → Bool) (heap : List (Expectation V))
      (matched : List (ℕ × Option Reason)) (p : ℕ) : Type 0 where
    pub before : List (ℕ × Option Reason)
    pub after : List (ℕ × Option Reason)
    pub splits : matched ≡ before ++ (p, none) ∷ after
    pub holds : at test heap p ≡ true
    pub passed : All (PassedOver test heap) before

  pub first_match-none :
      (test : Expectation V → Bool) (heap : List (Expectation V))
      (matched : List (ℕ × Option Reason))
      → first_match test heap matched ≡ none
      → All (PassedOver test heap) matched
  unfolding first_match
  first_match-none test heap [] h = tt
  first_match-none test heap ((p, r) ∷ rest) h =
      (ground arith, first_match-none test heap rest (ground arith))

  pub first_match-IsFirst :
      (test : Expectation V → Bool) (heap : List (Expectation V))
      (matched : List (ℕ × Option Reason)) {p : ℕ}
      → first_match test heap matched ≡ some p
      → IsFirst test heap matched p
  unfolding first_match
  first_match-IsFirst test heap [] h = cc
  first_match-IsFirst test heap ((q, some r) ∷ rest) h =
      let f = first_match-IsFirst test heap rest h in
      record {
        before = (q, some r) ∷ f.before;
        after = f.after;
        splits = rw f.splits;
        holds = f.holds;
        passed = (refl, f.passed);
      }
  first_match-IsFirst test heap ((q, none) ∷ rest) {p} h = elim (Bool-cases (at test heap q)) [
    | inl held ↦
        let e : q ≡ p = ground arith in
        record { before = []; after = rest; splits = rw e; holds = rw (← e) held; passed = tt }
    | inr lacks ↦
        let f = first_match-IsFirst test heap rest (ground arith) in
        record {
          before = (q, none) ∷ f.before;
          after = f.after;
          splits = rw f.splits;
          holds = f.holds;
          passed = (lacks, f.passed);
        }
  ]

  -- What the code promises of each outcome.
  abbrev pub Promises : List (Expectation V) → List (ℕ × Option Reason) → Decision → Type 0
  Promises heap matched (forbidden p) = IsFirst prohibits heap matched p
  Promises heap matched (claimed p) =
      IsFirst has_capacity heap matched p × All (PassedOver prohibits heap) matched
  Promises heap matched unexpected =
      All (PassedOver has_capacity heap) matched × All (PassedOver prohibits heap) matched

  prefer-Promises :
      (heap : List (Expectation V)) (matched : List (ℕ × Option Reason)) (ban taker : Option ℕ)
      → first_match prohibits heap matched ≡ ban
      → first_match has_capacity heap matched ≡ taker
      → Promises heap matched (prefer ban taker)
  unfolding prefer
  prefer-Promises heap matched (some p) taker h k = first_match-IsFirst prohibits heap matched h
  prefer-Promises heap matched none (some p) h k =
      (first_match-IsFirst has_capacity heap matched k, first_match-none prohibits heap matched h)
  prefer-Promises heap matched none none h k =
      (first_match-none has_capacity heap matched k, first_match-none prohibits heap matched h)

  -- A call goes to the first matching prohibition if there is one; else to the first matching
  -- expectation that has capacity, and no matching one prohibits; and it is unexpected only if no
  -- matching expectation prohibits or has capacity.
  pub decide-Promises :
      (heap : List (Expectation V)) (matched : List (ℕ × Option Reason))
      → Promises heap matched (decide heap matched)
  unfolding decide
  decide-Promises heap matched =
      prefer-Promises heap matched (first_match prohibits heap matched)
        (first_match has_capacity heap matched) refl refl
