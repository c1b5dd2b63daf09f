-- ===== src/Suite/Builder/Compile.antt =====
-- `finalize` and `Build` of specs/builder.go: from the declared items to the program's groups.
-- The group that the next spec may join, `groups[curIdx]`, is the last one. The inner loop over
-- adjacent parallel items is the field `batch`, which the next other item or the end closes.
pub mod View
pub mod Kept
pub mod Views
pub mod Marks
pub mod Again
use go_specs.Prelude.{
  ℕ, suc, ◌+◌, Bool, true, false, ◌&&◌, ◌||◌, not, Option, none, some, List, [], ◌∷◌, ◌++◌, ◌==◌,
  length, drop, if◌then◌else◌,
}
use go_specs.Prelude.Text.{Text}
use go_specs.Suite.Program.{
  Program, Group, SpecStep, body, parallel_step, ParallelSteps, run_all, HookKey, SpecMark,
}
use go_specs.Suite.Declared.{
  Builder, SpecItem, SpecKind, kind_normal, kind_skip, kind_focus, kind_parallel, kind_pending,
}
use go_specs.Suite.Builder.{resolve_report_paths}

unfoldable pub key_eq : HookKey → HookKey → Bool
key_eq [] [] = true
key_eq ((i, b, a) ∷ k) ((j, c, d) ∷ l) = i == j && (b == c && (a == d && key_eq k l))
key_eq _ _ = false

unfoldable pub is_focus : SpecKind → Bool
is_focus kind_focus = true
is_focus _ = false

module _ {F : Type 0} where
  -- The filter of a suite with a focused spec.
  unfoldable pub focused : List (SpecItem F) → List (SpecItem F)
  unfolding is_focus
  focused [] = []
  focused (i ∷ items) = let rest = focused items in if is_focus i.kind then i ∷ rest else rest

  unfoldable pub focused_names : List (SpecItem F) → List Text
  unfolding is_focus
  focused_names [] = []
  focused_names (i ∷ items) =
      let rest = focused_names items in if is_focus i.kind then i.full_name ∷ rest else rest

  unfoldable pub excluded : List (SpecItem F) → List SpecMark
  unfolding is_focus
  excluded [] = []
  excluded (i ∷ items) =
      let rest = excluded items in
      if is_focus i.kind then rest else record { name = i.name; path = i.scope_names } ∷ rest

-- Names with their scope names, not yet attached to a group.
pub record Buffer : Type 0 where
  pub names : List Text
  pub scope_names : List (List Text)

abbrev pub no_names : Buffer
no_names = record { names = []; scope_names = [] }

abbrev pub buffer : Buffer → Text → List Text → Buffer
buffer u name scopes = record {
  names = u.names ++ name ∷ [];
  scope_names = u.scope_names ++ scopes ∷ [];
}

pub record Batch (F : Type 0) : Type 0 where
  pub steps : List (ParallelSteps F)
  pub names : List Text
  pub scope_names : List (List Text)

pub record Compiler (F : Type 0) : Type 0 where
  pub groups : List (Group F)
  -- whether `curIdx` is not -1
  pub open_group : Option (Group F)
  pub batch : Option (Batch F)
  pub skips : Buffer
  pub pendings : Buffer

pub is_nil : List Text → Bool
is_nil [] = true
is_nil (t ∷ ts) = false

module _ {F : Type 0} where
  unfoldable pub new_compiler : Compiler F
  new_compiler = record {
    groups = [];
    open_group = none;
    batch = none;
    skips = no_names;
    pendings = no_names;
  }

  abbrev pub attached : Group F → Buffer → Buffer → Group F
  attached g skips pendings = record g {
    skipped = g.skipped ++ skips.names;
    skipped_scope_names = g.skipped_scope_names ++ skips.scope_names;
    pending_specs = g.pending_specs ++ pendings.names;
    pending_spec_scope_names = g.pending_spec_scope_names ++ pendings.scope_names;
  }

  abbrev pub bare_group : Group F
  bare_group = record {
    before = [];
    specs = [];
    names = [];
    full_names = [];
    scope_names = [];
    after = [];
    hook_key = [];
    parallel_batch = false;
    skipped = [];
    skipped_scope_names = [];
    pending_specs = [];
    pending_spec_scope_names = [];
  }

  -- `curIdx = -1`
  unfoldable pub close_group : Compiler F → Compiler F
  close_group c = elim c.open_group [
    | none ↦ c
    | some g ↦ record c { groups = c.groups ++ g ∷ []; open_group = none }
  ]

  -- The group of a parallel batch; its one spec reports the real ones itself, so it has no names.
  unfoldable pub close_batch : Compiler F → Compiler F
  close_batch c = elim c.batch [
    | none ↦ c
    | some p ↦
        let g = record bare_group {
          specs = parallel_step p.steps p.names p.scope_names ∷ [];
          parallel_batch = true;
        } in
        record c {
          groups = c.groups ++ attached g c.skips c.pendings ∷ [];
          batch = none;
          skips = no_names;
          pendings = no_names;
        }
  ]

  add_skip : SpecItem F → Compiler F → Compiler F
  unfolding close_batch
  add_skip i c =
      let c' = close_batch c in record c' { skips = buffer c'.skips i.name i.scope_names }

  add_pending : SpecItem F → Compiler F → Compiler F
  unfolding close_batch
  add_pending i c =
      let c' = close_batch c in record c' { pendings = buffer c'.pendings i.name i.scope_names }

  unfoldable pub extend : Option (Batch F) → SpecItem F → ParallelSteps F → Batch F
  extend none i steps = record {
    steps = steps ∷ [];
    names = i.name ∷ [];
    scope_names = i.scope_names ∷ [];
  }
  extend (some p) i steps = record {
    steps = p.steps ++ steps ∷ [];
    names = p.names ++ i.name ∷ [];
    scope_names = p.scope_names ++ i.scope_names ∷ [];
  }

  -- An item without steps has the empty list of them.
  abbrev pub steps_of : Option (ParallelSteps F) → ParallelSteps F
  steps_of none = run_all []
  steps_of (some steps) = steps

  add_parallel : SpecItem F → Compiler F → Compiler F
  unfolding close_group extend
  add_parallel i c =
      let c' = close_group c in record c' { batch = some (extend c'.batch i (steps_of i.steps)) }

  abbrev pub joined : Group F → SpecItem F → F → Group F
  joined g i fn = record g {
    specs = g.specs ++ body fn ∷ [];
    names = g.names ++ i.name ∷ [];
    full_names = g.full_names ++ i.full_name ∷ [];
    scope_names = g.scope_names ++ i.scope_names ∷ [];
  }

  abbrev pub fresh : SpecItem F → Group F
  fresh i = record bare_group { before = i.before; after = i.after; hook_key = i.hook_key }

  -- Whether the spec may join the open group.
  joins : Option (Group F) → SpecItem F → Bool
  joins none i = false
  joins (some g) i = key_eq g.hook_key i.hook_key

  place : SpecItem F → F → Compiler F → Compiler F
  unfolding close_group joins
  place i fn c = elim (joins c.open_group i) [
    | true ↦ elim c.open_group [
      | none ↦ c
      | some g ↦ record c {
        open_group = some (attached (joined g i fn) c.skips c.pendings);
        skips = no_names;
        pendings = no_names;
      }
    ]
    | false ↦ record (close_group c) {
      open_group = some (attached (joined (fresh i) i fn) c.skips c.pendings);
      skips = no_names;
      pendings = no_names;
    }
  ]

  -- A normal or focused item always has a body.
  add_spec : Option F → SpecItem F → Compiler F → Compiler F
  unfolding close_batch place
  add_spec none i c = c
  add_spec (some fn) i c = place i fn (close_batch c)

  by_kind : SpecKind → SpecItem F → Compiler F → Compiler F
  unfolding add_skip add_pending add_parallel add_spec
  by_kind kind_skip i c = add_skip i c
  by_kind kind_pending i c = add_pending i c
  by_kind kind_parallel i c = add_parallel i c
  by_kind kind_normal i c = add_spec i.spec i c
  by_kind kind_focus i c = add_spec i.spec i c

  unfoldable pub add_item : SpecItem F → Compiler F → Compiler F
  unfolding by_kind
  add_item i c = by_kind i.kind i c

  unfoldable pub add_items : List (SpecItem F) → Compiler F → Compiler F
  unfolding add_item
  add_items [] c = c
  add_items (i ∷ items) c = add_items items (add_item i c)

  trailing : Compiler F → List (Group F)
  unfolding is_nil
  trailing c =
      if is_nil c.skips.names && is_nil c.pendings.names
      then []
      else attached bare_group c.skips c.pendings ∷ []

  unfoldable pub finish : Compiler F → List (Group F)
  unfolding close_batch close_group trailing
  finish c = let c' = close_group (close_batch c) in c'.groups ++ trailing c'

  unfoldable pub compile_items : List (SpecItem F) → List (Group F)
  unfolding add_items finish new_compiler
  compile_items items = finish (add_items items new_compiler)

  -- The filter writes over the front of the array that `b.pending` goes on naming in full.
  unfoldable pub overwritten : List (SpecItem F) → List (SpecItem F)
  unfolding focused
  overwritten items = focused items ++ drop (length (focused items)) items

  -- finalize
  unfoldable pub finalize : Builder F → Builder F
  unfolding compile_items focused focused_names excluded overwritten
  finalize b =
      if b.has_focus
      then record b {
        pending = overwritten b.pending;
        program = record {
          groups = compile_items (focused b.pending);
          focused_names = focused_names b.pending;
          focus_excluded_count = length (excluded b.pending);
          focus_excluded = excluded b.pending;
        };
      }
      else record b { program = record b.program { groups = compile_items b.pending } }

  -- Build
  unfoldable pub build : Builder F → Program F × Builder F
  unfolding resolve_report_paths finalize
  build b = let b' = finalize (resolve_report_paths b) in (b'.program, b')
