-- ===== src/Mock/Log.antt =====
-- The global call log of mock/controller.go over any sequence of operations.
pub mod Entries
use go_specs.Prelude.{
  ℕ, suc, ◌+◌, ◌^◌, ◌<◌, ◌≤◌, String, ◌≡◌, refl, Bool, true, false, Option, List, [], ◌∷◌, ◌++◌,
  arith, length, length-append, insert,
}
use native.Mathlib.Nat.{add-zero}
use mathlib.Core.Path.{subst}
use go_specs.Mock.Model.{Expectation, Reason}
use go_specs.Mock.Controller.{
  Controller, next_seq, recorded, add_expectation, declared, RecordedCall, ExpectArg,
  new_controller, record_call, spy, spy_call, method, expect, in_order, reset, update_expectation,
  update_method,
}
use go_specs.Mock.Calls.{claim, call, reasons, expectations_of}
use go_specs.Mock.Verify.{verify}

-- What a test does with a controller.
pub data Event (V : Type 0) : Type 0 where
  method_event : String → Event V
  expect_event : String → String → List (ExpectArg V) → Event V
  configure_event : ℕ → (Expectation V → Expectation V) → Event V
  call_event : String → List V → Event V
  spy_event : String → List V → Event V
  order_event : List (Option ℕ) → Event V
  reset_event verify_event : Event V

module _ {V : Type 0} (values_equal : V → V → Bool) where
  unfoldable pub step : Event V → Controller V → Controller V
  step (method_event name) c = (method name c).1
  step (expect_event name site args) c = (expect values_equal name site args c).1
  step (configure_event p f) c = update_expectation p f c
  step (call_event name args) c = (call name args c).1
  step (spy_event name args) c = spy_call name args c
  step (order_event exps) c = in_order exps c
  step reset_event c = reset c
  step verify_event c = verify c

  unfoldable pub run : List (Event V) → Controller V → Controller V
  unfolding step
  run [] c = c
  run (e ∷ es) c = run es (step e c)

-- Numbered from `k` on, without gaps.
abbrev pub Numbered : {V : Type 0} → ℕ → List (RecordedCall V) → Type 0
Numbered k [] = Unit
Numbered k (rc ∷ rcs) = (rc.seq ≡ k) × Numbered (suc k) rcs

pub record IsDense {V : Type 0} (n : ℕ) (c : Controller V) : Type 0 where
  pub counted : c.seq ≡ length c.calls
  pub numbered : Numbered 1 c.calls
  -- there were no more calls than operations
  pub bounded : length c.calls ≤ n

module _ {V : Type 0} where
  Numbered-append :
      (k : ℕ) (rcs : List (RecordedCall V)) (rc : RecordedCall V)
      → Numbered k rcs
      → rc.seq ≡ k + length rcs
      → Numbered k (rcs ++ rc ∷ [])
  Numbered-append k [] rc h e = (omega arith, tt)
  Numbered-append k (r ∷ rcs) rc h e = (h.0, Numbered-append (suc k) rcs rc h.1 (omega arith))

  IsDense-more : {n : ℕ} {c : Controller V} → IsDense n c → IsDense (suc n) c
  IsDense-more h = record {
    counted = h.counted;
    numbered = h.numbered;
    bounded = omega (arith, h.bounded);
  }

  -- Two states with the same log.
  IsDense-same :
      {n : ℕ} {c d : Controller V} → d.seq ≡ c.seq → d.calls ≡ c.calls → IsDense n c → IsDense n d
  IsDense-same e f h = record {
    counted = rw (e, f) h.counted;
    numbered = rw f h.numbered;
    bounded = rw f h.bounded;
  }

  pub update_method-log :
      (name : String) (f : _) (c : Controller V)
      → ((update_method name f c).seq ≡ c.seq) × ((update_method name f c).calls ≡ c.calls)
  unfolding update_method
  update_method-log name f c = ground arith

  pub record_call_log :
      (name : String) (args : List V) (b : Bool) (c : Controller V)
      → ((record_call name args b c).1.seq ≡ next_seq c.seq)
        × ((record_call name args b c).1.calls ≡ c.calls ++ recorded name args c ∷ [])
  unfolding record_call
  record_call_log name args b c = ground arith

  record_call-IsDense :
      (name : String) (args : List V) (b : Bool) {n : ℕ} (c : Controller V)
      → suc n < 2 ^ 64
      → IsDense n c
      → IsDense (suc n) (record_call name args b c).1
  record_call-IsDense name args b c small h =
      let seq : next_seq c.seq ≡ suc (length c.calls) = omega (arith, h.counted, h.bounded) in
      let (e, f) = record_call_log name args b c in
      let len = length-append c.calls (recorded name args c ∷ []) in
      record {
        counted = rw (e, f) (omega arith);
        numbered = rw f (Numbered-append 1 c.calls (recorded name args c) h.numbered (omega arith));
        bounded = rw f (omega (arith, h.bounded));
      }

  pub claim_log :
      (name : String) (rc : RecordedCall V) (matched : List (ℕ × Option Reason)) (c : Controller V)
      → ((claim name rc matched c).1.seq ≡ c.seq) × ((claim name rc matched c).1.calls ≡ c.calls)
  unfolding claim
  claim_log name rc matched c = ground arith

  call-IsDense :
      (name : String) (args : List V) {n : ℕ} (c : Controller V)
      → suc n < 2 ^ 64
      → IsDense n c
      → IsDense (suc n) (call name args c).1
  unfolding call
  call-IsDense name args c small h =
      let (rc, c') = record_call name args true c in
      let (e, f) = claim_log name rc (reasons c'.heap rc.args (expectations_of name c')) c' in
      IsDense-same e f (record_call-IsDense name args true c small h)

  spy_call-IsDense :
      (name : String) (args : List V) {n : ℕ} (c : Controller V)
      → suc n < 2 ^ 64
      → IsDense n c
      → IsDense (suc n) (spy_call name args c)
  unfolding spy_call spy
  spy_call-IsDense name args c small h =
      record_call-IsDense name args false
        (record (spy name c).1 {
          spies = insert name ((spy name c).0 ++ args ∷ []) (spy name c).1.spies;
        })
        small (IsDense-same (unfold spy in ground arith) (unfold spy in ground arith) h)

module _ {V : Type 0} (values_equal : V → V → Bool) where
  step-IsDense :
      (e : Event V) {n : ℕ} (c : Controller V)
      → suc n < 2 ^ 64
      → IsDense n c
      → IsDense (suc n) (step values_equal e c)
  unfolding step
  step-IsDense (method_event name) c small h =
      IsDense-more
        (IsDense-same {c = c} (unfold method in ground arith) (unfold method in ground arith) h)
  step-IsDense (expect_event name site args) c small h =
      let p = length c.heap in
      let (e, f) =
        update_method-log name (add_expectation p)
          (record c { heap = c.heap ++ declared values_equal name site args ∷ [] }) in
      unfold expect in IsDense-more (IsDense-same e f h)
  step-IsDense (configure_event p f) c small h = IsDense-more (
      IsDense-same {c = c} (unfold update_expectation in ground arith)
        (unfold update_expectation in ground arith) h)
  step-IsDense (call_event name args) c small h = call-IsDense name args c small h
  step-IsDense (spy_event name args) c small h = spy_call-IsDense name args c small h
  step-IsDense (order_event exps) c small h =
      IsDense-more (IsDense-same {c = c} (unfold in_order in refl) (unfold in_order in refl) h)
  step-IsDense reset_event c small h =
      unfold reset in record { counted = refl; numbered = tt; bounded = omega arith }
  step-IsDense verify_event c small h =
      IsDense-more
        (IsDense-same {c = c} (unfold verify in ground arith) (unfold verify in ground arith) h)

  run-IsDense :
      (es : List (Event V)) {n : ℕ} (c : Controller V)
      → n + length es < 2 ^ 64
      → IsDense n c
      → IsDense (n + length es) (run values_equal es c)
  unfolding run
  run-IsDense [] c small h = rw add-zero h
  run-IsDense (e ∷ es) {n = n} c small h =
      let next : suc n + length es ≡ n + suc (length es) = omega arith in
      subst (λ m. IsDense m (run values_equal es (step values_equal e c))) next
        (run-IsDense es {n = suc n} (step values_equal e c) (omega arith)
          (step-IsDense e c (omega arith) h))

  -- After fewer than 2^64 operations on a new controller, the calls of its global log are numbered
  -- 1, 2, 3, … without a gap.
  pub run-Numbered :
      (es : List (Event V))
      → length es < 2 ^ 64
      → Numbered 1 (run values_equal es new_controller).calls
  unfolding new_controller
  run-Numbered es small =
      let start : IsDense {V = V} 0 new_controller = record {
        counted = refl;
        numbered = tt;
        bounded = omega arith;
      } in
      let whole : length es < 2 ^ 64 → 0 + length es < 2 ^ 64 = λ h. omega arith in
      let dense : IsDense {V = V} (0 + length es) (run values_equal es new_controller) =
        run-IsDense es {n = 0} new_controller (whole small) start in
      dense.numbered
