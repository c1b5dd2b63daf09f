-- ===== src/Suite/Program.antt =====
-- specs/program.go: the compiled program. A step is the parameter `F`, what the source holds as a
-- `func(*Context)`; the closures that the compiler makes are data here.
use go_specs.Prelude.{
  ℕ, Bool, true, false, Option, none, some, List, [], ◌∷◌, ◌++◌, ℤ, pos, negsuc, get_elem?,
}
use go_specs.Prelude.Text.{Text}
use go_specs.Suite.Labels.{is_empty}

-- The steps of one ItParallel spec: `runAll` of them, or `runParallelSpec` with its hooks.
pub data ParallelSteps (F : Type 0) : Type 0 where
  run_all : List F → ParallelSteps F
  run_parallel_spec : List F → F → List F → ParallelSteps F

-- One entry of `group.specs`: a body, or the batch that `parallelStep` runs.
pub data SpecStep (F : Type 0) : Type 0 where
  body : F → SpecStep F
  parallel_step : List (ParallelSteps F) → List Text → List (List Text) → SpecStep F

-- The builder's scope key: id and hook counts of each open scope. The source prints it as a text.
abbrev pub HookKey : Type 0
HookKey = List (ℕ × ℕ × ℕ)

pub record Group (F : Type 0) : Type 0 where
  pub before : List F
  pub specs : List (SpecStep F)
  pub names : List Text
  pub full_names : List Text
  pub scope_names : List (List Text)
  pub after : List F
  pub hook_key : HookKey
  pub parallel_batch : Bool
  pub skipped : List Text
  pub skipped_scope_names : List (List Text)
  pub pending_specs : List Text
  pub pending_spec_scope_names : List (List Text)

-- A mark of a spec that focus excluded: its name, and its path without the name.
pub record SpecMark : Type 0 where
  pub name : Text
  pub path : List Text

pub record Program (F : Type 0) : Type 0 where
  pub groups : List (Group F)
  pub focused_names : List Text
  pub focus_excluded_count : ℕ
  pub focus_excluded : List SpecMark

-- specName, and the bounds checks of the path methods: an index out of range yields nothing
unfoldable pub spec_name : List Text → ℤ → Text
spec_name names (pos i) = elim (get_elem? names i) [ none ↦ [] | some n ↦ n ]
spec_name names (negsuc i) = []

path_of : List Text → List (List Text) → ℤ → Option (List Text)
path_of names scope_names (negsuc i) = none
path_of names scope_names (pos i) = elim (get_elem? names i) [
  | none ↦ none
  | some n ↦ elim (get_elem? scope_names i) [
    | none ↦ some (n ∷ [])
    | some scopes ↦ some (scopes ++ n ∷ [])
  ]
]

module _ {F : Type 0} where
  unfoldable pub spec_path : Group F → ℤ → Option (List Text)
  unfolding path_of
  spec_path g i = path_of g.names g.scope_names i

  unfoldable pub skipped_path : Group F → ℤ → Option (List Text)
  unfolding path_of
  skipped_path g i = path_of g.skipped g.skipped_scope_names i

  unfoldable pub pending_path : Group F → ℤ → Option (List Text)
  unfolding path_of
  pending_path g i = path_of g.pending_specs g.pending_spec_scope_names i

  -- The breadcrumb, or the leaf name where there is none.
  unfoldable pub subtest_name : Group F → ℤ → Text
  subtest_name g i =
      let full = spec_name g.full_names i in
      elim (is_empty full) [ true ↦ spec_name g.names i | false ↦ full ]
