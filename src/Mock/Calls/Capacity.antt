-- ===== src/Mock/Calls/Capacity.antt =====
-- Counting the calls of mock/controller.go.
use go_specs.Prelude.{
  ℕ, zero, suc, ◌+◌, String, ◌≡◌, Bool, true, Option, some, List, [], ◌∷◌, ◌∙◌, arith, All, length,
  length-append, get_elem?, set, Option-cases, pos, negsuc, ◌≤ℤ◌, ◌⊎◌, inl, inr, All-set,
}
use mathlib.Core.Path.{ap₂}
use go_specs.Mock.Model.{Expectation, Reason, bounds, has_capacity}
use go_specs.Mock.Controller.{
  Controller, RecordedCall, forbidden_call, unexpected_call, record_call,
}
use go_specs.Mock.Calls.{
  at, explain, take_call, Decision, decide, forbidden, claimed, unexpected, claim, settle, call,
  reasons, expectations_of,
}
use go_specs.Mock.Calls.Deciding.{Promises, decide-Promises}

-- The calls that all expectations have taken.
unfoldable pub total_got : {V : Type 0} → List (Expectation V) → ℕ
total_got [] = 0
total_got (e ∷ es) = e.got + total_got es

module _ {V : Type 0} where
  total_got-set :
      (heap : List (Expectation V)) (p : ℕ) (e e' : Expectation V)
      → get_elem? heap p ≡ some e
      → total_got (set heap p e') + e.got ≡ total_got heap + e'.got
  unfolding total_got
  total_got-set [] p e e' h = cc
  total_got-set (d ∷ heap) zero e e' h = let f : d.got ≡ e.got = ground arith in omega arith
  total_got-set (d ∷ heap) (suc p) e e' h = omega (arith, total_got-set heap p e e' h)

  -- A call at a position that has capacity finds an expectation there.
  at-some :
      (test : Expectation V → Bool) (heap : List (Expectation V)) (p : ℕ)
      → at test heap p ≡ true
      → (e : Expectation V) × (get_elem? heap p ≡ some e) × (test e ≡ true)
  unfolding at
  at-some test heap p h = elim (Option-cases (get_elem? heap p)) [
    | inl n ↦ cc
    | inr (e, g) ↦ (e, g, ground arith)
  ]

  -- A maximum that has not been passed.
  abbrev pub IsWithin : Expectation V → Type 0
  IsWithin e = ((bounds e).1 ≤ℤ negsuc 0) ⊎ (pos e.got ≤ℤ (bounds e).1)

  take_call-IsWithin :
      (seq : ℕ) (e : Expectation V) → has_capacity e ≡ true → IsWithin (take_call seq e)
  unfolding take_call has_capacity
  take_call-IsWithin seq e h = ground arith

  -- A claim takes exactly one call on one expectation, or reports exactly one error.
  settle_accounts :
      (name : String) (rc : RecordedCall V) (matched : List (ℕ × Option Reason)) (c : Controller V)
      (d : Decision)
      → Promises c.heap matched d
      → let after = (settle name rc matched c d).1 in
        total_got after.heap + length after.errors ≡ suc (total_got c.heap + length c.errors)
  unfolding settle
  settle_accounts name rc matched c (forbidden p) h =
      omega (arith, length-append c.errors (forbidden_call name rc.args p ∷ []))
  settle_accounts name rc matched c unexpected h =
      omega
        (arith, length-append c.errors (unexpected_call name rc.args (explain c.heap matched) ∷ []))
  settle_accounts name rc matched c (claimed p) h =
      let (e, g, cap) = at-some has_capacity c.heap p h.0.holds in
      rw (g, settle)
        (unfold take_call in omega (arith, total_got-set c.heap p e (take_call rc.seq e) g))

  settle-IsWithin :
      (name : String) (rc : RecordedCall V) (matched : List (ℕ × Option Reason)) (c : Controller V)
      (d : Decision)
      → Promises c.heap matched d
      → All IsWithin c.heap
      → All IsWithin (settle name rc matched c d).1.heap
  unfolding settle
  settle-IsWithin name rc matched c (forbidden p) h k = k
  settle-IsWithin name rc matched c unexpected h k = k
  settle-IsWithin name rc matched c (claimed p) h k =
      let (e, g, cap) = at-some has_capacity c.heap p h.0.holds in
      rw (g, settle)
        (All-set IsWithin c.heap p (take_call rc.seq e) k (take_call-IsWithin rc.seq e cap))

  heap-record_call :
      (name : String) (args : List V) (b : Bool) (c : Controller V)
      → (record_call name args b c).1.heap ≡ c.heap
  unfolding record_call
  heap-record_call name args b c = ground arith

  errors-record_call :
      (name : String) (args : List V) (b : Bool) (c : Controller V)
      → (record_call name args b c).1.errors ≡ c.errors
  unfolding record_call
  errors-record_call name args b c = ground arith

  -- Every call is accounted for: it adds exactly one to the calls that expectations have taken, or
  -- exactly one error to the test, and never both.
  pub call_accounts :
      (name : String) (args : List V) (c : Controller V)
      → let after = (call name args c).1 in
        total_got after.heap + length after.errors ≡ suc (total_got c.heap + length c.errors)
  unfolding call claim
  call_accounts name args c =
      let (rc, c') = record_call name args true c in
      let matched = reasons c'.heap rc.args (expectations_of name c') in
      settle_accounts name rc matched c' (decide c'.heap matched) (decide-Promises c'.heap matched)
      ∙ ap₂ (λ heap errors. suc (total_got heap + length errors))
          (heap-record_call name args true c) (errors-record_call name args true c)

  -- If no expectation has been taken more often than its maximum allows, that still holds after any
  -- call: a call is never claimed by an expectation at its maximum.
  pub call-IsWithin :
      (name : String) (args : List V) (c : Controller V)
      → All IsWithin c.heap
      → All IsWithin (call name args c).1.heap
  unfolding call claim
  call-IsWithin name args c h =
      let (rc, c') = record_call name args true c in
      let matched = reasons c'.heap rc.args (expectations_of name c') in
      settle-IsWithin name rc matched c' (decide c'.heap matched) (decide-Promises c'.heap matched)
        (rw heap-record_call h)
