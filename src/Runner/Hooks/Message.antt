-- ===== src/Runner/Hooks/Message.antt =====
-- Whose failure message `runSpecWithHooks` of specs/runner.go gives the spec.
use go_specs.Prelude.{ℕ, ◌≡◌, refl, ap, ◌∙◌, false, List, ◌∷◌, ◌++◌}
use mathlib.Core.List.{reverse}
use go_specs.Prelude.Text.{Text, codes}
use go_specs.Suite.Labels.{is_empty}
use go_specs.Runner.Hooks.{
  Stop, returned, expected_abort, goexit, panicked, Context, recover_spec_failure, first_message,
  wind_up, wind_up_unless_gone, unwind, unwind_after, run_after, after_hook, run_before, run_body,
  finish_spec, run_spec_with_hooks,
}

module _ {S F : Type 0} (c : Context S F) where
  wind_up_unless_gone-keeps :
      (stop : Stop) (x : ℕ) (m : Text) (stop' : Stop) (m' : Text) (s : S)
      → (wind_up_unless_gone c stop (x ∷ m) stop' m' s).message ≡ x ∷ m
  unfolding wind_up_unless_gone wind_up first_message is_empty
  wind_up_unless_gone-keeps stop x m goexit m' s = refl
  wind_up_unless_gone-keeps stop x m returned m' s = refl
  wind_up_unless_gone-keeps stop x m expected_abort m' s = refl
  wind_up_unless_gone-keeps stop x m (panicked v) m' s = refl

  -- Where a before hook or the body panics with a value, that panic is the spec's message, whatever
  -- the tasks, the after hooks and the cleanups report later.
  pub run_spec_with_hooks-panicked :
      (before : List F) (fn : F) (after : List F) (s s' : S) (v : Text)
      → run_body c fn (run_before c before s) ≡ (panicked v, s')
      → (run_spec_with_hooks c before fn after s).message ≡ codes "panic" ++ (codes ": " ++ v)
  unfolding run_spec_with_hooks finish_spec unwind recover_spec_failure first_message is_empty
  run_spec_with_hooks-panicked before fn after s s' v e =
      ap (λ r. (finish_spec c (reverse after) r).message) e
      ∙ wind_up_unless_gone-keeps returned _ _ _ _ _

  -- Where the body returned and the first after hook to run panics with a value, that panic is the
  -- spec's message, whatever the wait for the spec's tasks reported before it.
  pub run_spec_with_hooks-after_panicked :
      (before : List F) (fn : F) (after : List F) (a : F) (hooks : List F) (s s' s'' : S) (v : Text)
      → run_body c fn (run_before c before s) ≡ (returned, s')
      → reverse after ≡ a ∷ hooks
      → c.step a (c.settle_tasks false s').1 ≡ (panicked v, s'')
      → (run_spec_with_hooks c before fn after s).message
        ≡ codes "panic in after hook" ++ (codes ": " ++ v)
  unfolding run_spec_with_hooks finish_spec run_after after_hook unwind_after recover_spec_failure
  run_spec_with_hooks-after_panicked before fn after a hooks s s' s'' v e f g =
      ap (λ r. (finish_spec c (reverse after) r).message) e
      ∙ ap (λ h. (finish_spec c h (returned, s')).message) f
      ∙ ap
          (λ r.
            (after_hook c r.0 (c.settle_tasks false s').0 hooks r.1
              (run_after c hooks (c.settle_tasks false s').0 r.1)).message)
          g
      ∙ wind_up_unless_gone-keeps returned _ _ _ _ _
