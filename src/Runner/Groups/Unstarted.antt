-- ===== src/Runner/Groups/Unstarted.antt =====
-- What the runner of specs/runner.go reports of the specs that it does not start.
use go_specs.Prelude.{ℕ, suc, ◌+◌, ◌≡◌, ap, List, [], ◌∷◌, ◌++◌, pos, get_elem?, length, All, arith}
use mathlib.Core.Path.{subst}
use go_specs.Prelude.Text.{Text}
use go_specs.Suite.Program.{Group, SpecStep, spec_path, skipped_path, pending_path}
use go_specs.Runner.Observer.{
  Observer, SpecStart, declared_none, declared_skip, declared_pending, spec_unstarted,
}
use go_specs.Runner.Groups.{
  Executor, report_each, report_specs_unstarted, report_group_unstarted, report_groups_unstarted,
}
use go_specs.Runner.Groups.Events.{Reports, none_more, and_then, unstarted-Reports, each-Reports}

-- `rest` is what `names` holds from index i on.
abbrev pub From : List Text → ℕ → List Text → Type 0
From names i rest = (k : ℕ) → get_elem? names (i + k) ≡ get_elem? rest k

pub From-here :
    (names : List Text) (i : ℕ) (rest : List Text)
    → From names i rest
    → get_elem? names i ≡ get_elem? rest 0
From-here names i rest h =
    let e : i + 0 ≡ i = omega arith in subst (λ j. get_elem? names j ≡ get_elem? rest 0) e (h 0)

pub From-next :
    (names : List Text) (i : ℕ) (name : Text) (rest : List Text)
    → From names i (name ∷ rest)
    → From names (suc i) rest
From-next names i name rest h k =
    let e : i + suc k ≡ suc i + k = omega arith in
    subst (λ j. get_elem? names j ≡ get_elem? rest k) e (h (suc k))

-- A group of its own specs, with one name for each.
abbrev pub IsNamed : {F : Type 0} → Group F → Type 0
IsNamed g = length g.names ≡ length g.specs

abbrev pub names_of : {F : Type 0} → Group F → List Text
names_of g = g.skipped ++ (g.pending_specs ++ g.names)

abbrev pub all_names : {F : Type 0} → List (Group F) → List Text
all_names [] = []
all_names (g ∷ groups) = names_of g ++ all_names groups

pub From-start : (names : List Text) → From names 0 names
From-start names k = let e : 0 + k ≡ k = omega arith in ap (get_elem? names) e

module _ {S F : Type 0} (x : Executor S F) where
  pub specs_unstarted-Reports :
      (g : Group F) (i : ℕ) (specs : List (SpecStep F)) (names : List Text) (o : Observer)
      → From g.names i names
      → length names ≡ length specs
      → Reports o (report_specs_unstarted x g i specs o) names
  unfolding report_specs_unstarted
  specs_unstarted-Reports g i [] [] o h e = none_more o
  specs_unstarted-Reports g i (s ∷ specs) [] o h e = ground arith
  specs_unstarted-Reports g i [] (n ∷ names) o h e = ground arith
  specs_unstarted-Reports g i (s ∷ specs) (n ∷ names) o h e =
      rw (From-here g.names i (n ∷ names) h, report_specs_unstarted)
        (let e1 : SpecStart = record { name = n; path = spec_path g (pos i) } in
          let o' = spec_unstarted e1 declared_none o in
          and_then o o' (report_specs_unstarted x g (suc i) specs o') (n ∷ []) names
            (unstarted-Reports e1 declared_none o)
            (specs_unstarted-Reports g (suc i) specs names o' (From-next g.names i n names h)
              (omega (arith, e))))

  pub group_unstarted-Reports :
      (g : Group F) (o : Observer)
      → IsNamed g
      → Reports o (report_group_unstarted x g o) (names_of g)
  unfolding report_group_unstarted
  group_unstarted-Reports g o h =
      let skip : ℕ → Text → Observer → Observer = λ i name.
        spec_unstarted record { name = name; path = skipped_path g (pos i) } declared_skip in
      let mark : ℕ → Text → Observer → Observer = λ i name.
        spec_unstarted record { name = name; path = pending_path g (pos i) } declared_pending in
      let o1 = report_each skip 0 g.skipped o in
      let o2 = report_each mark 0 g.pending_specs o1 in
      let o3 = report_specs_unstarted x g 0 g.specs o2 in
      and_then o o1 o3 g.skipped (g.pending_specs ++ g.names)
        (each-Reports skip 0 g.skipped o (λ i name o. unstarted-Reports _ _ o))
        (and_then o1 o2 o3 g.pending_specs g.names
          (each-Reports mark 0 g.pending_specs o1 (λ i name o. unstarted-Reports _ _ o))
          (specs_unstarted-Reports g 0 g.specs g.names o2 (From-start g.names) h))

  pub groups_unstarted-Reports :
      (groups : List (Group F)) (o : Observer)
      → All IsNamed groups
      → Reports o (report_groups_unstarted x groups o) (all_names groups)
  unfolding report_groups_unstarted
  groups_unstarted-Reports [] o h = none_more o
  groups_unstarted-Reports (g ∷ groups) o h =
      let o' = report_group_unstarted x g o in
      and_then o o' (report_groups_unstarted x groups o') (names_of g) (all_names groups)
        (group_unstarted-Reports g o h.0) (groups_unstarted-Reports groups o' h.1)
