-- ===== src/Runner/Hooks/Order.antt =====
-- Which steps `runSpecWithHooks` of specs/runner.go runs, and in which order.
use go_specs.Prelude.{
  ◌≡◌, ◌≢◌, refl, sym, ap, ◌∙◌, Bool, true, false, List, [], ◌∷◌, ◌++◌, ◌&&◌, append_assoc,
  append-nil, All, Bool-cases, inl, inr,
}
use mathlib.Core.List.{reverse, reverse_aux}
use go_specs.Prelude.Text.{Text, codes}
use go_specs.Runner.Hooks.{
  first_message, Stop, returned, expected_abort, goexit, panicked, Context, Outcome,
  recover_spec_failure, pass, after_hook, before_hook, run_after_recovered, wind_up,
  wind_up_unless_gone, after_recover, unwind, unwind_after, run_after, run_before, run_body,
  finish_spec, run_spec_with_hooks,
}

module _ {S F : Type 0} (c : Context S F) where
  -- The context that also writes down each step that it runs.
  unfoldable pub traced : Context (S × List F) F
  traced = record {
    step = λ f s. let (stop, s') = c.step f s.0 in (stop, (s', s.1 ++ f ∷ []));
    fail_fast = λ s. c.fail_fast s.0;
    has_failed = λ s. c.has_failed s.0;
    report_panic = λ m s. (c.report_panic m s.0, s.1);
    settle_tasks = λ last s. let (m, s') = c.settle_tasks last s.0 in (m, (s', s.1));
    run_cleanups = λ s. let (m, s') = c.run_cleanups s.0 in (m, (s', s.1));
  }

  -- The step never ends the goroutine.
  abbrev pub Stays : F → Type 0
  Stays f = (s : S) → (c.step f s).0 ≢ goexit

  wind_up-trace :
      (stop : Stop) (m : Text) (s : S × List F) → (wind_up traced stop m s).state.1 ≡ s.1
  unfolding wind_up traced
  wind_up-trace stop m s = refl

  recover-trace :
      (label : Text) (stop : Stop) (s : S × List F)
      → (recover_spec_failure traced label stop s).1.1 ≡ s.1
  unfolding recover_spec_failure traced
  recover-trace label returned s = refl
  recover-trace label expected_abort s = refl
  recover-trace label goexit s = refl
  recover-trace label (panicked v) s = refl

  pass-trace :
      (stop : Stop) (m : Text) (s : S × List F) (rest : Outcome (S × List F))
      → stop ≢ goexit
      → ((pass traced stop m s rest).state.1 ≡ rest.state.1)
        × ((pass traced stop m s rest).stop ≡ rest.stop)
  unfolding pass
  pass-trace goexit m s rest h = absurd (h refl)
  pass-trace returned m s rest h = (refl, refl)
  pass-trace expected_abort m s rest h = (refl, refl)
  pass-trace (panicked v) m s rest h = (refl, refl)

  -- All the hooks run, and the call returns.
  run_after_recovered-trace :
      (hooks : List F) (s : S × List F)
      → All Stays hooks
      → ((run_after_recovered traced hooks s).state.1 ≡ s.1 ++ hooks)
        × ((run_after_recovered traced hooks s).stop ≡ returned)
  unfolding run_after_recovered traced
  run_after_recovered-trace [] s h = (sym (append-nil s.1), refl)
  run_after_recovered-trace (a ∷ hooks) s h =
      let (stop, s') = traced.step a s in
      let (m, s'') = recover_spec_failure traced (codes "panic in after hook") stop s' in
      let (e, r) = run_after_recovered-trace hooks s'' h.1 in
      let (e', r') = pass-trace stop m s' (run_after_recovered traced hooks s'') (h.0 s.0) in
      (
        e'
            ∙ e
            ∙ ap (◌++ hooks) (recover-trace (codes "panic in after hook") stop s')
            ∙ append_assoc s.1 (a ∷ []) hooks,
        r' ∙ r,
      )

  wind_up_unless_gone-trace :
      (stop : Stop) (m : Text) (stop' : Stop) (m' : Text) (s : S × List F)
      → (wind_up_unless_gone traced stop m stop' m' s).state.1 ≡ s.1
  unfolding wind_up_unless_gone wind_up traced
  wind_up_unless_gone-trace stop m goexit m' s = refl
  wind_up_unless_gone-trace stop m returned m' s = refl
  wind_up_unless_gone-trace stop m expected_abort m' s = refl
  wind_up_unless_gone-trace stop m (panicked v) m' s = refl

  unwind-trace :
      (hooks : List F) (stop : Stop) (s : S × List F)
      → All Stays hooks
      → (unwind traced hooks stop s).state.1 ≡ s.1 ++ hooks
  unfolding unwind traced
  unwind-trace hooks stop s h =
      let (m, s') = recover_spec_failure traced (codes "panic") stop s in
      let (n, s'') = traced.settle_tasks false s' in
      let o = run_after_recovered traced hooks s'' in
      wind_up_unless_gone-trace (after_recover traced stop) (first_message m n) o.stop o.message
        o.state
      ∙ (run_after_recovered-trace hooks s'' h).0
      ∙ ap (◌++ hooks) (recover-trace (codes "panic") stop s)

  unwind_after-trace :
      (hooks : List F) (stop : Stop) (s : S × List F)
      → All Stays hooks
      → (unwind_after traced hooks stop s).state.1 ≡ s.1 ++ hooks
  unfolding unwind_after
  unwind_after-trace hooks stop s h =
      let (m, s') = recover_spec_failure traced (codes "panic in after hook") stop s in
      let o = run_after_recovered traced hooks s' in
      wind_up_unless_gone-trace returned m o.stop o.message o.state
      ∙ (run_after_recovered-trace hooks s' h).0
      ∙ ap (◌++ hooks) (recover-trace (codes "panic in after hook") stop s)

  after_hook-trace :
      (stop : Stop) (m : Text) (hooks : List F) (s : S × List F) (rest : Outcome (S × List F))
      → stop ≢ goexit
      → All Stays hooks
      → rest.state.1 ≡ s.1 ++ hooks
      → (after_hook traced stop m hooks s rest).state.1 ≡ s.1 ++ hooks
  unfolding after_hook
  after_hook-trace goexit m hooks s rest n h e = absurd (n refl)
  after_hook-trace returned m hooks s rest n h e = e
  after_hook-trace expected_abort m hooks s rest n h e = unwind_after-trace hooks expected_abort s h
  after_hook-trace (panicked v) m hooks s rest n h e = unwind_after-trace hooks (panicked v) s h

  run_after-trace :
      (hooks : List F) (m : Text) (s : S × List F)
      → All Stays hooks
      → (run_after traced hooks m s).state.1 ≡ s.1 ++ hooks
  unfolding run_after traced
  run_after-trace [] m s h = wind_up-trace returned m s ∙ sym (append-nil s.1)
  run_after-trace (a ∷ hooks) m s h =
      let (stop, s') = traced.step a s in
      after_hook-trace stop m hooks s' (run_after traced hooks m s') (h.0 s.0) h.1
        (run_after-trace hooks m s' h.1)
      ∙ append_assoc s.1 (a ∷ []) hooks

  -- Whether a run of before hooks that goes on to the body has left none of them.
  abbrev Complete : Stop → Bool → List F → Type 0
  Complete returned false rest = rest ≡ []
  Complete _ _ rest = Unit

  -- The log grew by a first part of the steps.
  abbrev RanSome : List F → Stop × Bool × (S × List F) → List F → Type 0
  RanSome log r steps =
      (ran : List F) × (rest : List F) × (r.2.1 ≡ log ++ ran)
      × (ran ++ rest ≡ steps)
      × Complete r.0 r.1 rest

  before_hook-trace :
      (b : F) (hooks : List F) (stop : Stop) (s : S × List F) (log : List F)
      (rest : Stop × Bool × (S × List F))
      → s.1 ≡ log ++ b ∷ []
      → RanSome s.1 rest hooks
      → RanSome log (before_hook traced stop s rest) (b ∷ hooks)
  unfolding before_hook traced
  before_hook-trace b hooks returned s log rest e (ran, left, f, g, h) =
      elim (Bool-cases (c.fail_fast s.0 && c.has_failed s.0)) [
        | inl stops ↦ rw stops (b ∷ [], hooks, e, refl, tt)
        | inr goes ↦
            rw goes
              (b ∷ ran, left, f ∙ ap (◌++ ran) e ∙ append_assoc log (b ∷ []) ran, ap (b ∷◌) g, h)
      ]
  before_hook-trace b hooks goexit s log rest e r = (b ∷ [], hooks, e, refl, tt)
  before_hook-trace b hooks expected_abort s log rest e r = (b ∷ [], hooks, e, refl, tt)
  before_hook-trace b hooks (panicked v) s log rest e r = (b ∷ [], hooks, e, refl, tt)

  run_before-trace :
      (hooks : List F) (s : S × List F) → RanSome s.1 (run_before traced hooks s) hooks
  unfolding run_before traced
  run_before-trace [] s = ([], [], sym (append-nil s.1), refl, refl)
  run_before-trace (b ∷ hooks) s =
      let (stop, s') = traced.step b s in
      before_hook-trace b hooks stop s' s.1 (run_before traced hooks s') refl
        (run_before-trace hooks s')

  -- `xs` is a first part of `ys`.
  abbrev pub IsPrefix : List F → List F → Type 0
  IsPrefix xs ys = (rest : List F) × (xs ++ rest ≡ ys)

  stopped-trace :
      (fn : F) (before : List F) (s : S × List F) (log : List F) (ran rest : List F)
      → s.1 ≡ log ++ ran
      → ran ++ rest ≡ before
      → (now : List F) × (s.1 ≡ log ++ now) × IsPrefix now (before ++ fn ∷ [])
  stopped-trace fn before s log ran rest e f =
      (ran, e, (rest ++ fn ∷ [], sym (append_assoc ran rest (fn ∷ [])) ∙ ap (◌++ fn ∷ []) f))

  run_body-trace :
      (fn : F) (before : List F) (r : Stop × Bool × (S × List F)) (log : List F)
      → RanSome log r before
      → (now : List F) × ((run_body traced fn r).1.1 ≡ log ++ now)
        × IsPrefix now (before ++ fn ∷ [])
  unfolding run_body traced
  run_body-trace fn before (returned, false, s) log (ran, rest, e, f, g) = (
    ran ++ fn ∷ [],
    ap (◌++ fn ∷ []) e ∙ append_assoc log ran (fn ∷ []),
    (
      [],
      append-nil (ran ++ fn ∷ [])
          ∙ ap (◌++ fn ∷ []) (sym (append-nil ran) ∙ ap (ran ++◌) (sym g) ∙ f),
    ),
  )
  run_body-trace fn before (returned, true, s) log (ran, rest, e, f, g) =
      stopped-trace fn before s log ran rest e f
  run_body-trace fn before (goexit, skip, s) log (ran, rest, e, f, g) =
      stopped-trace fn before s log ran rest e f
  run_body-trace fn before (expected_abort, skip, s) log (ran, rest, e, f, g) =
      stopped-trace fn before s log ran rest e f
  run_body-trace fn before (panicked v, skip, s) log (ran, rest, e, f, g) =
      stopped-trace fn before s log ran rest e f

  finish_spec-trace :
      (hooks : List F) (stop : Stop) (s : S × List F)
      → All Stays hooks
      → (finish_spec traced hooks (stop, s)).state.1 ≡ s.1 ++ hooks
  unfolding finish_spec traced
  finish_spec-trace hooks returned s h =
      let (m, s') = traced.settle_tasks false s in run_after-trace hooks m s' h
  finish_spec-trace hooks goexit s h = unwind-trace hooks goexit s h
  finish_spec-trace hooks expected_abort s h = unwind-trace hooks expected_abort s h
  finish_spec-trace hooks (panicked v) s h = unwind-trace hooks (panicked v) s h

  All-reverse_aux : (xs ys : List F) → All Stays xs → All Stays ys → All Stays (reverse_aux xs ys)
  All-reverse_aux [] ys h g = g
  All-reverse_aux (x ∷ xs) ys h g = All-reverse_aux xs (x ∷ ys) h.1 (h.0, g)

  -- Where no after hook of the spec ends its goroutine, the steps that a spec runs are first some of
  -- its before hooks and its body, in that order from the first, and then all of its after hooks, the
  -- last one first, each once: whichever steps panic, whichever before hooks or body end the
  -- goroutine, whether fail-fast skips the body, and whatever the tasks and cleanups do.
  pub run_spec_with_hooks-order :
      (before : List F) (fn : F) (after : List F) (s : S)
      → All Stays after
      → (ran : List F) × ((run_spec_with_hooks traced before fn after (s, [])).state.1
          ≡ ran ++ reverse after)
        × IsPrefix ran (before ++ fn ∷ [])
  unfolding run_spec_with_hooks
  run_spec_with_hooks-order before fn after s h =
      let r = run_before traced before (s, []) in
      let (ran, e, p) = run_body-trace fn before r [] (run_before-trace before (s, [])) in
      let (stop, s') = run_body traced fn r in
      (
        ran,
        finish_spec-trace (reverse after) stop s' (All-reverse_aux after [] h tt)
            ∙ ap (◌++ reverse after) e,
        p,
      )
