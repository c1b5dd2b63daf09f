-- ===== src/Samples/Mocks.antt =====
-- Expectations, calls and a controller of the mock package, with numbers as values.
use go_specs.Prelude.{
  ℕ, ◌≡◌, ◌↔◌, refl, false, none, some, List, [], ◌∷◌, pos, ◌==◌, arith, All, inr,
}
use go_specs.Mock.Model.{
  Expectation, any_matcher, equal, count_default, count_exact, wrong_argument, bounds,
}
use go_specs.Mock.Controller.{Controller, new_controller, plain}
use go_specs.Mock.Calls.{call, decide}
use go_specs.Mock.Calls.Deciding.{Promises, decide-Promises}
use go_specs.Mock.Calls.Capacity.{IsWithin, call-IsWithin}
use go_specs.Mock.Verify.{verify}
use go_specs.Mock.Verify.Silence.{AllMet, InOrder, verify_silent}
use go_specs.Mock.Log.Entries.{entries, since_reset, run-since_reset}
use go_specs.Mock.Log.{
  Event, expect_event, call_event, spy_event, reset_event, verify_event, run, Numbered,
}

-- Any one argument, once.
abbrev once : Expectation ℕ
once = record {
  method = "Save";
  matchers = some any_matcher ∷ [];
  site = "a_test.go:1";
  kind = count_default;
  min = pos 0;
  max = pos 0;
  responses = (7 ∷ []) ∷ (8 ∷ []) ∷ [];
  do_fn = none;
  got = 0;
  first_seq = 0;
}

-- Never with the argument 3.
abbrev never_three : Expectation ℕ
never_three = record once {
  matchers = some (equal ◌==◌ 3) ∷ [];
  kind = count_exact;
  responses = [];
}

abbrev two_expectations : List (Expectation ℕ)
two_expectations = once ∷ never_three ∷ []

-- A controller with two expectations of one method.
abbrev guarded : Controller ℕ
guarded = record {
  seq = 0;
  methods = ("Save", record { name = "Save"; exps = 0 ∷ 1 ∷ []; calls = [] }) ∷ [];
  names = "Save" ∷ [];
  spies = [];
  calls = [];
  orders = (0 ∷ 1 ∷ []) ∷ [];
  verified = false;
  heap = two_expectations;
  captured = [];
  errors = [];
}

decide-Promises_example :
    Promises two_expectations
      ((0, none) ∷ (1, some (wrong_argument 0)) ∷ [])
      (decide two_expectations ((0, none) ∷ (1, some (wrong_argument 0)) ∷ []))
decide-Promises_example =
    decide-Promises two_expectations ((0, none) ∷ (1, some (wrong_argument 0)) ∷ [])

call-IsWithin_example : All IsWithin (call "Save" (9 ∷ []) guarded).1.heap
unfolding bounds
call-IsWithin_example =
    call-IsWithin "Save" (9 ∷ []) guarded (inr (omega arith), (inr (omega arith), tt))

verify_silent_example :
    ((verify guarded).errors ≡ guarded.errors)
    ↔ (AllMet guarded guarded.names × All (InOrder guarded) guarded.orders)
verify_silent_example = verify_silent guarded refl

abbrev six_events : List (Event ℕ)
six_events =
    call_event "Save" (1 ∷ [])
    ∷ reset_event
    ∷ expect_event "Save" "a_test.go:3" (plain 2 ∷ [])
    ∷ call_event "Save" (2 ∷ [])
    ∷ spy_event "seen" (2 ∷ [])
    ∷ verify_event
    ∷ []

run-since_reset_example :
    (entries (run ◌==◌ six_events new_controller) ≡ since_reset six_events [])
    × Numbered 1 (run ◌==◌ six_events new_controller).calls
run-since_reset_example = run-since_reset ◌==◌ six_events (omega arith)

abbrev two_calls : List (List ℕ)
two_calls = (1 ∷ []) ∷ (1 ∷ 2 ∷ []) ∷ []
