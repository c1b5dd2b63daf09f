-- ===== src/Runner/Hooks.antt =====
-- `runSpecWithHooks` and the functions under it of specs/runner.go, and `recoverSpecFailure` of
-- specs/panic_report.go. What a step does, and what the tasks and cleanups of a spec do, is the
-- interface `Context`; the stack traces that go with the messages are left out.
pub mod Order
pub mod Message
use go_specs.Prelude.{ℕ, Bool, true, false, List, [], ◌∷◌, ◌++◌, ◌&&◌, if◌then◌else◌}
use mathlib.Core.List.{reverse}
use go_specs.Prelude.Text.{Text, codes}
use go_specs.Suite.Labels.{is_empty}

-- How a call ends: it returns, it panics with an abort that the backend recorded already
-- (`isExpectedAbort`) or with a value, or it ends the goroutine (`runtime.Goexit`).
pub data Stop : Type 0 where
  returned expected_abort goexit : Stop
  panicked : Text → Stop

pub record Context (S F : Type 0) : Type 0 where
  pub step : F → S → Stop × S
  pub fail_fast : S → Bool
  pub has_failed : S → Bool
  -- `reportRecoveredPanic`
  pub report_panic : Text → S → S
  -- `settleTasks`, with its argument closeAfter, and `runCleanups`: both return a message
  pub settle_tasks : Bool → S → Text × S
  pub run_cleanups : S → Text × S

-- How a spec ended, its message, and the state.
pub record Outcome (S : Type 0) : Type 0 where
  pub stop : Stop
  pub message : Text
  pub state : S

-- `if message == "" { message = m }`
unfoldable pub first_message : Text → Text → Text
unfolding is_empty
first_message m n = elim (is_empty m) [ true ↦ n | false ↦ m ]

module _ {S F : Type 0} (c : Context S F) where
  open c use {step, fail_fast, has_failed, report_panic, settle_tasks, run_cleanups}

  -- recoverSpecFailure
  unfoldable pub recover_spec_failure : Text → Stop → S → Text × S
  recover_spec_failure label (panicked value) s =
      let message = label ++ (codes ": " ++ value) in (message, report_panic message s)
  recover_spec_failure label _ s = ([], s)

  -- One pass of the loop of runAfterRecoveredFrom, given the rest of the loop. A hook that ends the
  -- goroutine takes the deferred call with it.
  unfoldable pub pass : Stop → Text → S → Outcome S → Outcome S
  unfolding first_message
  pass goexit message s rest = record { stop = goexit; message = []; state = s }
  pass _ message s rest = record rest { message = first_message message rest.message }

  -- runAfterRecoveredFrom, on the hooks in the order in which they run
  unfoldable pub run_after_recovered : List F → S → Outcome S
  unfolding recover_spec_failure pass
  run_after_recovered [] s = record { stop = returned; message = []; state = s }
  run_after_recovered (a ∷ hooks) s =
      let (stop, s') = step a s in
      let (message, s'') = recover_spec_failure (codes "panic in after hook") stop s' in
      pass stop message s' (run_after_recovered hooks s'')

  -- The last settle of the tasks, then the cleanups.
  unfoldable pub wind_up : Stop → Text → S → Outcome S
  unfolding first_message
  wind_up stop message s =
      let (m, s') = settle_tasks true s in
      let (n, s'') = run_cleanups s' in
      record { stop = stop; message = first_message (first_message message m) n; state = s'' }

  unfoldable pub wind_up_unless_gone : Stop → Text → Stop → Text → S → Outcome S
  unfolding wind_up first_message
  wind_up_unless_gone stop message goexit m s = record {
    stop = goexit;
    message = message;
    state = s;
  }
  wind_up_unless_gone stop message _ m s = wind_up stop (first_message message m) s

  -- A recovered panic does not go on; the goroutine that ends does.
  abbrev pub after_recover : Stop → Stop
  after_recover goexit = goexit
  after_recover _ = returned

  -- The deferred call where a before hook or the body did not return.
  unfoldable pub unwind : List F → Stop → S → Outcome S
  unfolding recover_spec_failure run_after_recovered wind_up_unless_gone first_message
  unwind hooks stop s =
      let (message, s') = recover_spec_failure (codes "panic") stop s in
      let (m, s'') = settle_tasks false s' in
      let o = run_after_recovered hooks s'' in
      wind_up_unless_gone (after_recover stop) (first_message message m) o.stop o.message o.state

  -- The deferred call where an after hook panicked: its message takes the place of the one so far.
  unfoldable pub unwind_after : List F → Stop → S → Outcome S
  unfolding recover_spec_failure run_after_recovered wind_up_unless_gone
  unwind_after hooks stop s =
      let (message, s') = recover_spec_failure (codes "panic in after hook") stop s in
      let o = run_after_recovered hooks s' in
      wind_up_unless_gone returned message o.stop o.message o.state

  -- One pass of the loop over the after hooks.
  unfoldable pub after_hook : Stop → Text → List F → S → Outcome S → Outcome S
  unfolding wind_up unwind_after
  after_hook returned message hooks s rest = rest
  after_hook goexit message hooks s rest = wind_up goexit message s
  after_hook stop message hooks s rest = unwind_after hooks stop s

  -- The loop over the after hooks.
  unfoldable pub run_after : List F → Text → S → Outcome S
  unfolding wind_up after_hook
  run_after [] message s = wind_up returned message s
  run_after (a ∷ hooks) message s =
      let (stop, s') = step a s in after_hook stop message hooks s' (run_after hooks message s')

  -- One pass of the loop over the before hooks.
  unfoldable pub before_hook : Stop → S → Stop × Bool × S → Stop × Bool × S
  before_hook returned s rest = if fail_fast s && has_failed s then (returned, true, s) else rest
  before_hook stop s rest = (stop, false, s)

  -- The before hooks: how they stopped, and whether to skip the body.
  unfoldable pub run_before : List F → S → Stop × Bool × S
  unfolding before_hook
  run_before [] s = (returned, false, s)
  run_before (b ∷ hooks) s = let (stop, s') = step b s in before_hook stop s' (run_before hooks s')

  unfoldable pub run_body : F → Stop × Bool × S → Stop × S
  run_body fn (returned, false, s) = step fn s
  run_body fn (stop, skip, s) = (stop, s)

  finish_spec : List F → Stop × S → Outcome S
  unfolding unwind run_after
  finish_spec hooks (returned, s) = let (m, s') = settle_tasks false s in run_after hooks m s'
  finish_spec hooks (stop, s) = unwind hooks stop s

  -- runSpecWithHooks
  unfoldable pub run_spec_with_hooks : List F → F → List F → S → Outcome S
  unfolding run_before run_body finish_spec
  run_spec_with_hooks before fn after s =
      finish_spec (reverse after) (run_body fn (run_before before s))
