-- ===== src/Runner/Groups/Accounts.antt =====
-- That `runGroups` of specs/runner.go reports every spec of its groups.
use go_specs.Prelude.{
  ℕ, suc, ◌≡◌, refl, sym, ap, ◌∙◌, Bool, true, false, Option, none, some, List, [], ◌∷◌, ◌++◌, pos,
  get_elem?, length, if◌then◌else◌, append_assoc, All, arith, ◌&&◌,
}
use go_specs.Prelude.Text.{Text}
use go_specs.Suite.Program.{Group, SpecStep, spec_path}
use go_specs.Runner.Observer.{Observer, SpecStart, started, finish_locked}
use go_specs.Runner.Groups.{
  Executor, Run, result_of, report_skipped, report_pending, report_specs_unstarted,
  report_groups_unstarted, report_started, report_finished, after_spec, after_group, Outcome, going,
  ended, run_specs, run_group, run_groups,
}
use go_specs.Runner.Groups.Events.{
  Reports, none_more, and_then, skipped-Reports, pending-Reports, run-Reports, started-Reports,
  each-Reports,
}
use go_specs.Runner.Groups.Unstarted.{
  From, From-here, From-next, From-start, IsNamed, names_of, all_names, specs_unstarted-Reports,
  groups_unstarted-Reports,
}

module _ {S F : Type 0} (x : Executor S F) where
  -- An outcome accounts for `names`: they are all reported when the calls return; when the run was ended,
  -- a spec ended it, and exactly the names before it are reported.
  abbrev pub Accounts : Observer → Outcome S → List Text → Type 0
  Accounts o (going s o') names = Reports o o' names
  Accounts o (ended s o') names =
      (done : List Text) × (name : Text) × (left : List Text) × (names ≡ done ++ name ∷ left)
      × Reports o o' done
      × ((g : Group F) × (f : SpecStep F) × (i : ℕ) × (t : S) × ((x.execute g f i t).0 ≡ none))

  if-Accounts :
      (b : Bool) (p q : Outcome S) (o : Observer) (names : List Text)
      → Accounts o p names
      → Accounts o q names
      → Accounts o (if b then p else q) names
  if-Accounts true p q o names h g = h
  if-Accounts false p q o names h g = g

  -- What was reported before stands in front.
  Accounts-after :
      (o o' : Observer) (p : Outcome S) (xs ys : List Text)
      → Reports o o' xs
      → Accounts o' p ys
      → Accounts o p (xs ++ ys)
  Accounts-after o o' (going s o'') xs ys h g = and_then o o' o'' xs ys h g
  Accounts-after o o' (ended s o'') xs ys h (done, name, left, e, told, cause) = (
    xs ++ done,
    name,
    left,
    ap (xs ++◌) e ∙ sym (append_assoc xs done (name ∷ left)),
    and_then o o' o'' xs done h told,
    cause,
  )

  -- More names follow those of an outcome.
  Accounts-more :
      (o : Observer) (s : S) (o' : Observer) (xs ys : List Text)
      → Accounts o (ended s o') xs
      → Accounts o (ended s o') (xs ++ ys)
  Accounts-more o s o' xs ys (done, name, left, e, told, cause) =
      (done, name, left ++ ys, ap (◌++ ys) e ∙ append_assoc done (name ∷ left) ys, told, cause)

  after_spec-Accounts :
      (g : Group F) (f : SpecStep F) (i : ℕ) (t : S) (specs : List (SpecStep F))
      (r : Option Run × S) (n : Text) (names : List Text) (o : Observer)
      (rest : S → Observer → Outcome S)
      → x.execute g f i t ≡ r
      → get_elem? g.names i ≡ some n
      → ((o' : Observer) → Reports o' (report_specs_unstarted x g (suc i) specs o') names)
      → ((s : S) (o' : Observer) → Accounts o' (rest s o') names)
      → Accounts o
          (after_spec x g i specs r (report_started x (get_elem? g.names i) g i o) rest)
          (n ∷ names)
  unfolding after_spec report_started report_finished
  after_spec-Accounts g f i t specs (none, s) n names o rest e named skipping later = rw named (
    [],
    n,
    names,
    refl,
    started-Reports record { name = n; path = spec_path g (pos i) } o,
    (g, f, i, t, ap (λ (r : Option Run × S). r.0) e),
  )
  after_spec-Accounts g f i t specs (some r, s) n names o rest e named skipping later =
      let start : SpecStart = record { name = n; path = spec_path g (pos i) } in
      let o' = finish_locked start (result_of r) (started start o) in
      let head = run-Reports start (result_of r) o in
      rw named (
        if-Accounts (x.fail_fast s && r.failed)
          (going s (report_specs_unstarted x g (suc i) specs o')) (rest s o') o (n ∷ names)
          (and_then o o' (report_specs_unstarted x g (suc i) specs o') (n ∷ []) names head
            (skipping o'))
          (Accounts-after o o' (rest s o') (n ∷ []) names head (later s o')))

  run_specs-Accounts :
      (g : Group F) (i : ℕ) (specs : List (SpecStep F)) (names : List Text) (s : S) (o : Observer)
      → From g.names i names
      → length names ≡ length specs
      → Accounts o (run_specs x g i specs s o) names
  unfolding run_specs
  run_specs-Accounts g i [] [] s o h e = none_more o
  run_specs-Accounts g i (f ∷ specs) [] s o h e = absurd (omega arith)
  run_specs-Accounts g i [] (n ∷ names) s o h e = absurd (omega arith)
  run_specs-Accounts g i (f ∷ specs) (n ∷ names) s o h e =
      let next = From-next g.names i n names h in
      let left : length names ≡ length specs = omega (arith, e) in
      after_spec-Accounts g f i (x.reset_failure s) specs (x.execute g f i (x.reset_failure s)) n
        names o (run_specs x g (suc i) specs) refl (From-here g.names i (n ∷ names) h)
        (λ o'. specs_unstarted-Reports x g (suc i) specs names o' next left)
        (λ s' o'. run_specs-Accounts g (suc i) specs names s' o' next left)

  run_group-Accounts :
      (g : Group F) (s : S) (o : Observer) → IsNamed g → Accounts o (run_group x g s o) (names_of g)
  unfolding run_group report_skipped report_pending
  run_group-Accounts g s o h =
      let o1 = report_skipped x g o in
      let o2 = report_pending x g o1 in
      let p = run_specs x g 0 g.specs s o2 in
      Accounts-after o o1 p g.skipped (g.pending_specs ++ g.names)
        (each-Reports _ 0 g.skipped o (λ i name o. skipped-Reports _ o))
        (Accounts-after o1 o2 p g.pending_specs g.names
          (each-Reports _ 0 g.pending_specs o1 (λ i name o. pending-Reports _ o))
          (run_specs-Accounts g 0 g.specs g.names s o2 (From-start g.names) h))

  after_group-Accounts :
      (groups : List (Group F)) (p : Outcome S) (o : Observer) (xs : List Text)
      (rest : S → Observer → Outcome S)
      → All IsNamed groups
      → Accounts o p xs
      → ((s : S) (o' : Observer) → Accounts o' (rest s o') (all_names groups))
      → Accounts o (after_group x groups p rest) (xs ++ all_names groups)
  unfolding after_group
  after_group-Accounts groups (ended s o') o xs rest h head later =
      Accounts-more o s o' xs (all_names groups) head
  after_group-Accounts groups (going s o') o xs rest h head later =
      if-Accounts (x.fail_fast s && x.has_failed s) (going s (report_groups_unstarted x groups o'))
        (rest s o') o (xs ++ all_names groups)
        (and_then o o' (report_groups_unstarted x groups o') xs (all_names groups) head
          (groups_unstarted-Reports x groups o' h))
        (Accounts-after o o' (rest s o') xs (all_names groups) head (later s o'))

  -- For groups with one name per spec, also where fail-fast stops the run before, between or within the
  -- groups. When the calls return, the events added finish exactly the skipped, pending and other names
  -- of all groups, each once and in order, and the totals count each of them once, as entered or as
  -- unstarted. They do not return only when a spec ends the run, and then exactly the names before one
  -- of the names are finished and counted so.
  pub run_groups-Accounts :
      (groups : List (Group F)) (s : S) (o : Observer)
      → All IsNamed groups
      → Accounts o (run_groups x groups s o) (all_names groups)
  unfolding run_groups
  run_groups-Accounts [] s o h = none_more o
  run_groups-Accounts (g ∷ groups) s o h =
      if-Accounts (x.fail_fast s && x.has_failed s)
        (going s (report_groups_unstarted x (g ∷ groups) o))
        (after_group x groups (run_group x g s o) (run_groups x groups)) o (all_names (g ∷ groups))
        (groups_unstarted-Reports x (g ∷ groups) o h)
        (after_group-Accounts groups (run_group x g s o) o (names_of g) (run_groups x groups) h.1
          (run_group-Accounts g s o h.0) (λ s' o'. run_groups-Accounts groups s' o' h.1))
