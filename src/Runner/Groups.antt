-- ===== src/Runner/Groups.antt =====
-- `runGroups` and the functions under it of specs/runner.go, with a reporter attached. How one spec
-- runs is the interface `Executor`: `runSpecWithHooks` in place, or inside a subtest of testing.T.
-- What the step of a parallel batch reports of its own specs is left out.
pub mod Events
pub mod Unstarted
pub mod Accounts
use go_specs.Prelude.{
  ℕ, suc, Bool, true, false, not, ◌&&◌, Option, none, some, List, [], ◌∷◌, ◌++◌, ℤ, pos, get_elem?,
  if◌then◌else◌,
}
use go_specs.Prelude.Text.{Text}
use go_specs.Suite.Program.{Group, SpecStep, SpecMark, spec_path, skipped_path, pending_path}
use go_specs.Runner.Observer.{
  Observer, SpecStart, SpecResult, DeclaredKind, declared_none, declared_skip, declared_pending,
  started, finish_locked, spec_skipped, spec_pending, spec_unstarted,
}

-- What running a spec reports back.
pub record Run : Type 0 where
  pub message : Text
  pub ran : Bool
  pub failed : Bool
  pub skipped : Bool

pub record Executor (S F : Type 0) : Type 0 where
  pub fail_fast : S → Bool
  pub has_failed : S → Bool
  pub reset_failure : S → S
  -- the spec with this index in the group; `none` where it ends the whole run by `t.Fatalf`, which
  -- failUnsupportedSpecBodyParallel calls, so that no call of the runner returns
  pub execute : Group F → SpecStep F → ℕ → S → Option Run × S

-- The runner's calls that return, and a run that was ended within them.
pub data Outcome (S : Type 0) : Type 0 where
  going : S → Observer → Outcome S
  ended : S → Observer → Outcome S

abbrev pub result_of : Run → SpecResult
result_of r = record {
  failed = r.failed;
  filtered = not r.ran;
  skipped = r.skipped;
  message = r.message;
}

-- A loop over a list with its indices.
unfoldable pub report_each : (ℕ → Text → Observer → Observer) → ℕ → List Text → Observer → Observer
report_each f i [] o = o
report_each f i (name ∷ names) o = report_each f (suc i) names (f i name o)

module _ {S F : Type 0} (x : Executor S F) where
  open x use {fail_fast, has_failed, reset_failure, execute}

  abbrev start_at : Group F → ℕ → Text → SpecStart
  start_at g i name = record { name = name; path = spec_path g (pos i) }

  -- reportSkipped
  unfoldable pub report_skipped : Group F → Observer → Observer
  unfolding report_each
  report_skipped g o =
      report_each (λ i name. spec_skipped record { name = name; path = skipped_path g (pos i) }) 0
        g.skipped o

  -- reportPending
  unfoldable pub report_pending : Group F → Observer → Observer
  unfolding report_each
  report_pending g o =
      report_each (λ i name. spec_pending record { name = name; path = pending_path g (pos i) }) 0
        g.pending_specs o

  -- reportSpecsUnstartedFrom, on the specs from index i on
  unfoldable pub report_specs_unstarted : Group F → ℕ → List (SpecStep F) → Observer → Observer
  report_specs_unstarted g i [] o = o
  report_specs_unstarted g i (s ∷ specs) o = elim (get_elem? g.names i) [
    | none ↦ o
    | some name ↦
        report_specs_unstarted g (suc i) specs (spec_unstarted (start_at g i name) declared_none o)
  ]

  -- One group of reportGroupsUnstarted.
  unfoldable pub report_group_unstarted : Group F → Observer → Observer
  unfolding report_specs_unstarted report_each
  report_group_unstarted g o =
      let o1 =
        report_each
          (λ i name.
            spec_unstarted record { name = name; path = skipped_path g (pos i) } declared_skip)
          0 g.skipped o in
      let o2 =
        report_each
          (λ i name.
            spec_unstarted record { name = name; path = pending_path g (pos i) } declared_pending)
          0 g.pending_specs o1 in
      report_specs_unstarted g 0 g.specs o2

  -- reportGroupsUnstarted
  unfoldable pub report_groups_unstarted : List (Group F) → Observer → Observer
  unfolding report_group_unstarted
  report_groups_unstarted [] o = o
  report_groups_unstarted (g ∷ groups) o =
      report_groups_unstarted groups (report_group_unstarted g o)

  -- A spec that the group has a name for is reported before and after its run.
  unfoldable pub report_started : Option Text → Group F → ℕ → Observer → Observer
  unfolding started
  report_started none g i o = o
  report_started (some name) g i o = started (start_at g i name) o

  unfoldable pub report_finished : Option Text → Group F → ℕ → Run → Observer → Observer
  unfolding finish_locked
  report_finished none g i r o = o
  report_finished (some name) g i r o = finish_locked (start_at g i name) (result_of r) o

  -- What the loop does with a spec that came back, before the other specs.
  unfoldable pub after_spec :
      Group F
      → ℕ
      → List (SpecStep F)
      → Option Run × S
      → Observer
      → (S → Observer → Outcome S)
      → Outcome S
  unfolding report_finished report_specs_unstarted
  after_spec g i specs (none, s) o rest = ended s o
  after_spec g i specs (some r, s) o rest =
      let o' = report_finished (get_elem? g.names i) g i r o in
      let on = rest s o' in
      if fail_fast s && r.failed then going s (report_specs_unstarted g (suc i) specs o') else on

  -- runSpecsRecovered, from index i on
  unfoldable pub run_specs : Group F → ℕ → List (SpecStep F) → S → Observer → Outcome S
  unfolding report_started after_spec
  run_specs g i [] s o = going s o
  run_specs g i (f ∷ specs) s o =
      after_spec g i specs (execute g f i (reset_failure s))
        (report_started (get_elem? g.names i) g i o) (run_specs g (suc i) specs)

  -- runGroup
  unfoldable pub run_group : Group F → S → Observer → Outcome S
  unfolding report_skipped report_pending run_specs
  run_group g s o = run_specs g 0 g.specs s (report_pending g (report_skipped g o))

  abbrev pub stops : S → Bool
  stops s = fail_fast s && has_failed s

  -- What the loop does after a group, before the other groups.
  unfoldable pub after_group : List (Group F) → Outcome S → (S → Observer → Outcome S) → Outcome S
  unfolding report_groups_unstarted
  after_group groups (ended s o) rest = ended s o
  after_group groups (going s o) rest =
      let on = rest s o in if stops s then going s (report_groups_unstarted groups o) else on

  -- runGroups
  unfoldable pub run_groups : List (Group F) → S → Observer → Outcome S
  unfolding run_group report_groups_unstarted after_group
  run_groups [] s o = going s o
  run_groups (g ∷ groups) s o =
      let on = after_group groups (run_group g s o) (run_groups groups) in
      if stops s then going s (report_groups_unstarted (g ∷ groups) o) else on

abbrev pub mark_start : SpecMark → SpecStart
mark_start m = record { name = m.name; path = some (m.path ++ m.name ∷ []) }

abbrev pub filtered_out : SpecResult
filtered_out = record { failed = false; filtered = true; skipped = false; message = [] }

-- reportFocusExcluded
unfoldable pub report_focus_excluded : List SpecMark → Observer → Observer
unfolding started finish_locked
report_focus_excluded [] o = o
report_focus_excluded (m ∷ marks) o =
    report_focus_excluded marks
      (finish_locked (mark_start m) filtered_out (started (mark_start m) o))
