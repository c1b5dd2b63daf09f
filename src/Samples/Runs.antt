-- ===== src/Samples/Runs.antt =====
-- Runs of a spec whose steps are numbers: 2 panics, the others return.
use go_specs.Prelude.{
  ◌==◌, if◌then◌else◌, ℕ, ◌≡◌, refl, Bool, true, false, none, some, List, [], ◌∷◌, ◌++◌, arith,
}
use mathlib.Core.List.{reverse}
use go_specs.Prelude.Text.{codes}
use go_specs.Suite.Program.{Group, body}
use go_specs.Runner.Hooks.{
  Stop, returned, panicked, Context, run_spec_with_hooks, run_before, run_body,
}
use go_specs.Runner.Hooks.Order.{traced, IsPrefix, run_spec_with_hooks-order}
use go_specs.Runner.Hooks.Message.{run_spec_with_hooks-after_panicked}
use go_specs.Runner.Observer.{new_observer}
use go_specs.Runner.Groups.{Executor, Outcome, going, ended, run_groups}
use go_specs.Runner.Groups.Unstarted.{all_names}
use go_specs.Runner.Groups.Accounts.{Accounts, run_groups-Accounts}

abbrev stop_of : ℕ → Stop
stop_of f = if f == 2 then panicked (codes "boom") else returned

-- The state is whether the spec has failed; a task reports its own panic, and there is no cleanup.
abbrev numbered : Context Bool ℕ
numbered = record {
  step = λ f s. (stop_of f, s);
  fail_fast = λ s. true;
  has_failed = λ s. s;
  report_panic = λ m s. true;
  settle_tasks = λ last s. (codes "task", s);
  run_cleanups = λ s. ([], s);
}

run_spec_with_hooks-order_example :
    (ran : List ℕ) × ((run_spec_with_hooks
        (traced numbered)
        (1 ∷ 2 ∷ [])
        4
        (2 ∷ 1 ∷ [])
        (false, [])).state.1
      ≡ ran ++ reverse (2 ∷ 1 ∷ []))
    × IsPrefix numbered ran ((1 ∷ 2 ∷ []) ++ 4 ∷ [])
run_spec_with_hooks-order_example =
    run_spec_with_hooks-order numbered (1 ∷ 2 ∷ []) 4 (2 ∷ 1 ∷ []) false
      ((λ s e. ground arith), ((λ s e. ground arith), tt))

run_spec_with_hooks-after_panicked_example :
    (run_spec_with_hooks numbered (1 ∷ []) 1 (1 ∷ 2 ∷ []) false).message
    ≡ codes "panic in after hook" ++ (codes ": " ++ codes "boom")
unfolding run_body run_before
run_spec_with_hooks-after_panicked_example =
    run_spec_with_hooks-after_panicked numbered (1 ∷ []) 1 (1 ∷ 2 ∷ []) 2 (1 ∷ []) false false false
      (codes "boom") refl refl refl

-- Every spec fails, and the run stops at the first failure.
abbrev failing : Executor Bool ℕ
failing = record {
  fail_fast = λ s. true;
  has_failed = λ s. s;
  reset_failure = λ s. false;
  execute = λ g f i s.
      (some (record { message = codes "no"; ran = true; failed = true; skipped = false }), true);
}

abbrev is_ended : Outcome Bool → Bool
is_ended (ended s o) = true
is_ended (going s o) = false

abbrev pair_of : ℕ → Group ℕ
pair_of fn = record {
  before = [];
  specs = body fn ∷ body fn ∷ [];
  names = codes "x" ∷ codes "y" ∷ [];
  full_names = [];
  scope_names = [];
  after = [];
  hook_key = [];
  parallel_batch = false;
  skipped = codes "s" ∷ [];
  skipped_scope_names = [];
  pending_specs = codes "p" ∷ [];
  pending_spec_scope_names = [];
}

run_groups-Accounts_example :
    Accounts failing new_observer
      (run_groups failing (pair_of 1 ∷ pair_of 2 ∷ []) false new_observer)
      (all_names (pair_of 1 ∷ pair_of 2 ∷ []))
run_groups-Accounts_example =
    run_groups-Accounts failing (pair_of 1 ∷ pair_of 2 ∷ []) false new_observer (refl, (refl, tt))

-- Every spec ends the run.
abbrev ending : Executor Bool ℕ
ending = record failing { execute = λ g f i s. (none, true) }

ending-ended : is_ended (run_groups ending (pair_of 1 ∷ []) false new_observer) ≡ true
unfolding run_groups
ending-ended = refl
