-- ===== src/Mock/Log/Entries.antt =====
-- Which calls the global log of mock/controller.go holds.
use go_specs.Prelude.{
  ◌^◌, ◌<◌, String, ◌≡◌, refl, ap, ◌∙◌, Bool, true, false, List, [], ◌∷◌, ◌++◌, arith, length, map,
  insert,
}
use mathlib.Core.List.{map-append}
use go_specs.Mock.Controller.{
  Controller, add_expectation, declared, RecordedCall, new_controller, record_call, spy, spy_call,
  method, expect, in_order, reset, update_expectation, recorded,
}
use go_specs.Mock.Calls.{call, reasons, expectations_of}
use go_specs.Mock.Verify.{verify}
use go_specs.Mock.Log.{
  Event, method_event, expect_event, configure_event, call_event, spy_event, order_event,
  reset_event, verify_event, step, run, Numbered, run-Numbered, record_call_log, claim_log,
  update_method-log,
}

-- Whose call it was, of a method or a spy, and its arguments.
abbrev pub entry : {V : Type 0} → RecordedCall V → String × List V
entry rc = (rc.method, rc.args)

abbrev pub entries : {V : Type 0} → Controller V → List (String × List V)
entries c = map entry c.calls

-- What one operation makes of the calls since the last Reset.
abbrev pub noted : {V : Type 0} → Event V → List (String × List V) → List (String × List V)
noted (call_event name args) past = past ++ (name, args) ∷ []
noted (spy_event name args) past = past ++ (name, args) ∷ []
noted reset_event past = []
noted (method_event name) past = past
noted (expect_event name site args) past = past
noted (configure_event p f) past = past
noted (order_event exps) past = past
noted verify_event past = past

-- The calls since the last Reset, of operations that follow `past`.
abbrev pub since_reset :
    {V : Type 0} → List (Event V) → List (String × List V) → List (String × List V)
since_reset [] past = past
since_reset (e ∷ es) past = since_reset es (noted e past)

module _ {V : Type 0} where
  record_call-entries :
      (name : String) (args : List V) (b : Bool) (c : Controller V)
      → entries (record_call name args b c).1 ≡ entries c ++ (name, args) ∷ []
  record_call-entries name args b c =
      ap (map entry) (record_call_log name args b c).1
      ∙ map-append entry c.calls (recorded name args c ∷ [])

  call-entries :
      (name : String) (args : List V) (c : Controller V)
      → entries (call name args c).1 ≡ entries c ++ (name, args) ∷ []
  unfolding call
  call-entries name args c =
      let (rc, c') = record_call name args true c in
      ap (map entry) (claim_log name rc (reasons c'.heap rc.args (expectations_of name c')) c').1
      ∙ record_call-entries name args true c

  spy-calls : (name : String) (c : Controller V) → (spy name c).1.calls ≡ c.calls
  unfolding spy
  spy-calls name c = ground arith

  spy_call-entries :
      (name : String) (args : List V) (c : Controller V)
      → entries (spy_call name args c) ≡ entries c ++ (name, args) ∷ []
  unfolding spy_call
  spy_call-entries name args c =
      record_call-entries name args false (record (spy name c).1 {
        spies = insert name ((spy name c).0 ++ args ∷ []) (spy name c).1.spies;
      })
      ∙ ap (λ (calls : List (RecordedCall V)). map entry calls ++ (name, args) ∷ [])
          (spy-calls name c)

module _ {V : Type 0} (values_equal : V → V → Bool) where
  step-entries :
      (e : Event V) (c : Controller V) → entries (step values_equal e c) ≡ noted e (entries c)
  unfolding step
  step-entries (call_event name args) c = call-entries name args c
  step-entries (spy_event name args) c = spy_call-entries name args c
  step-entries reset_event c = unfold reset in refl
  step-entries (method_event name) c =
      let same : (method name c).1.calls ≡ c.calls = unfold method in ground arith in
      ap (map entry) same
  step-entries (expect_event name site args) c =
      let p = length c.heap in
      let same =
        (update_method-log name (add_expectation p)
          (record c { heap = c.heap ++ declared values_equal name site args ∷ [] })).1 in
      unfold expect in ap (map entry) same
  step-entries (configure_event p f) c =
      let same : (update_expectation p f c).calls ≡ c.calls =
        unfold update_expectation in ground arith in
      ap (map entry) same
  step-entries (order_event exps) c = unfold in_order in refl
  step-entries verify_event c =
      let same : (verify c).calls ≡ c.calls = unfold verify in ground arith in ap (map entry) same

  run-entries :
      (es : List (Event V)) (c : Controller V)
      → entries (run values_equal es c) ≡ since_reset es (entries c)
  unfolding run
  run-entries [] c = refl
  run-entries (e ∷ es) c =
      run-entries es (step values_equal e c) ∙ ap (since_reset es) (step-entries e c)

  -- After fewer than 2^64 operations on a new controller, the global log holds exactly the calls since
  -- the last Reset, of methods and of spies, in order and with their arguments, and they are numbered
  -- 1, 2, 3, … without a gap.
  pub run-since_reset :
      (es : List (Event V))
      → length es < 2 ^ 64
      → (entries (run values_equal es new_controller) ≡ since_reset es [])
        × Numbered 1 (run values_equal es new_controller).calls
  unfolding new_controller
  run-since_reset es small = (run-entries es new_controller, run-Numbered values_equal es small)
