-- ===== src/Suite/Builder.antt =====
-- specs/builder.go: the declaration of a suite.
-- A Go panic of a late hook is the result `panicked`, with the builder as it was left.
pub mod Compile
use go_specs.Prelude.{
  ℕ, zero, suc, ◌+◌, ◌-◌, Bool, true, false, Option, none, some, List, [], ◌∷◌, ◌++◌, ℤ, pos,
  negsuc, ◌==◌, length, map, if◌then◌else◌,
}
use mathlib.Core.List.{reverse}
use go_specs.Prelude.Text.{Text}
use go_specs.Suite.Labels.{join_subtest_path, compute_scope_labels, resolve_scope_ids}
use go_specs.Suite.Program.{Program, HookKey, ParallelSteps, run_all, run_parallel_spec}
use go_specs.Suite.Declared.{
  Scope, SpecKind, kind_normal, kind_skip, kind_focus, kind_parallel, kind_pending, SpecItem,
  Builder, LateHook, late_before_each, late_after_each, Built, built, panicked, SpecFn,
}

pop : {A : Type 0} → List A → List A
pop [] = []
pop (x ∷ xs) = xs

top_id : List ℕ → ℤ
top_id [] = negsuc 0
top_id (id ∷ ids) = pos id

module _ {F : Type 0} where
  unfoldable pub new_builder : Builder F
  new_builder = record {
    program = record {
      groups = [];
      focused_names = [];
      focus_excluded_count = 0;
      focus_excluded = [];
    };
    scopes = [];
    scope_names = [];
    pending = [];
    has_focus = false;
    next_scope_id = 0;
    report_scope_parent = [];
    report_scope_declared_name = [];
    report_scope_id_stack = [];
  }

  -- emitBefore: outermost scope first
  unfoldable pub emit_before : List (Scope F) → List F
  emit_before [] = []
  emit_before (s ∷ outer) = emit_before outer ++ s.before_each

  -- emitAfter: outermost scope first too; the runners go through it backwards
  unfoldable pub emit_after : List (Scope F) → List F
  emit_after [] = []
  emit_after (s ∷ outer) = emit_after outer ++ s.after_each

  parallel_of : List F → F → List F → ParallelSteps F
  parallel_of before fn [] = run_all (before ++ fn ∷ [])
  parallel_of before fn (a ∷ after) = run_parallel_spec before fn (a ∷ after)

  -- emitSpecSteps
  unfoldable pub emit_spec_steps : List (Scope F) → F → ParallelSteps F
  unfolding parallel_of
  emit_spec_steps scopes fn = parallel_of (emit_before scopes) fn (emit_after scopes)

  -- hookKey
  unfoldable pub hook_key : List (Scope F) → HookKey
  hook_key [] = []
  hook_key (s ∷ outer) = hook_key outer ++ (s.id, length s.before_each, length s.after_each) ∷ []

  -- `b.scopes = append(b.scopes, b.newScope())`
  unfoldable pub push_scope : Builder F → Builder F
  push_scope b = record b {
    scopes =
        record { id = b.next_scope_id; before_each = []; after_each = []; sealed = false }
        ∷ b.scopes;
    next_scope_id = suc b.next_scope_id;
  }

  -- ensureScope
  unfoldable pub ensure_scope : Builder F → Builder F
  unfolding push_scope
  ensure_scope b = elim b.scopes [ [] ↦ push_scope b | s ∷ outer ↦ b ]

  seal_top : List (Scope F) → List (Scope F)
  seal_top [] = []
  seal_top (s ∷ outer) = record s { sealed = true } ∷ outer

  -- sealScope
  unfoldable pub seal_scope : Builder F → Builder F
  unfolding ensure_scope seal_top
  seal_scope b = let b' = ensure_scope b in record b' { scopes = seal_top b'.scopes }

  -- What Describe does before its body.
  unfoldable pub open_scope : Text → Builder F → Builder F
  unfolding seal_scope push_scope top_id
  open_scope name b =
      let b' = seal_scope b in
      let id = length b'.report_scope_declared_name in
      record (push_scope b') {
        report_scope_parent = b'.report_scope_parent ++ top_id b'.report_scope_id_stack ∷ [];
        report_scope_declared_name = b'.report_scope_declared_name ++ name ∷ [];
        report_scope_id_stack = id ∷ b'.report_scope_id_stack;
        scope_names = name ∷ b'.scope_names;
      }

  -- The deferred part of Describe.
  unfoldable pub close_scope : Builder F → Builder F
  unfolding pop
  close_scope b = record b {
    scopes = pop b.scopes;
    scope_names = pop b.scope_names;
    report_scope_id_stack = pop b.report_scope_id_stack;
  }

  close_built : Built F → Built F
  close_built (built b) = built (close_scope b)
  close_built (panicked h b) = panicked h (close_scope b)

  -- Describe: the stacks unwind also when the body panics
  unfoldable pub describe : Text → Option (Builder F → Built F) → Builder F → Built F
  unfolding open_scope close_built
  describe name none b = built b
  describe name (some body) b = close_built (body (open_scope name b))

  -- fullName
  unfoldable pub full_name : Builder F → Text → Text
  full_name b name = join_subtest_path (reverse b.scope_names) name

  add_hook : LateHook → (Scope F → Scope F) → Builder F → List (Scope F) → Built F
  add_hook late f b [] = built b
  add_hook late f b (s ∷ outer) =
      if s.sealed then panicked late b else built (record b { scopes = f s ∷ outer })

  -- BeforeEach
  unfoldable pub before_each : Option F → Builder F → Built F
  unfolding ensure_scope add_hook
  before_each none b = built b
  before_each (some fn) b =
      let b' = ensure_scope b in
      add_hook late_before_each (λ s. record s { before_each = s.before_each ++ fn ∷ [] }) b'
        b'.scopes

  -- AfterEach
  unfoldable pub after_each : Option F → Builder F → Built F
  unfolding ensure_scope add_hook
  after_each none b = built b
  after_each (some fn) b =
      let b' = ensure_scope b in
      add_hook late_after_each (λ s. record s { after_each = s.after_each ++ fn ∷ [] }) b' b'.scopes

  -- What a spec that runs registers.
  running_item : SpecKind → Text → F → Builder F → SpecItem F
  unfolding full_name emit_before emit_after hook_key
  running_item kind name fn b = record {
    kind = kind;
    name = name;
    full_name = full_name b name;
    scope_names = reverse b.scope_names;
    scope_ids = reverse b.report_scope_id_stack;
    before = emit_before b.scopes;
    spec = some fn;
    after = emit_after b.scopes;
    steps = none;
    hook_key = hook_key b.scopes;
  }

  -- What a spec without a body of its own, or a parallel one, registers.
  marked_item : SpecKind → Text → Option (ParallelSteps F) → Builder F → SpecItem F
  marked_item kind name steps b = record {
    kind = kind;
    name = name;
    full_name = [];
    scope_names = reverse b.scope_names;
    scope_ids = reverse b.report_scope_id_stack;
    before = [];
    spec = none;
    after = [];
    steps = steps;
    hook_key = [];
  }

  register : SpecItem F → Builder F → Builder F
  register item b = record b { pending = b.pending ++ item ∷ [] }

  -- It
  unfoldable pub it : Text → Option F → Builder F → Builder F
  unfolding seal_scope running_item register
  it name none b = b
  it name (some fn) b = let b' = seal_scope b in register (running_item kind_normal name fn b') b'

  -- SkipIt
  unfoldable pub skip_it : Text → Builder F → Builder F
  unfolding seal_scope marked_item register
  skip_it name b = let b' = seal_scope b in register (marked_item kind_skip name none b') b'

  -- PendingIt
  unfoldable pub pending_it : Text → Builder F → Builder F
  unfolding seal_scope marked_item register
  pending_it name b = let b' = seal_scope b in register (marked_item kind_pending name none b') b'

  -- FIt
  unfoldable pub f_it : Text → Option F → Builder F → Builder F
  unfolding seal_scope running_item register
  f_it name none b = b
  f_it name (some fn) b =
      let b' = record (seal_scope b) { has_focus = true } in
      register (running_item kind_focus name fn b') b'

  -- ItParallel
  unfoldable pub it_parallel : Text → Option F → Builder F → Builder F
  unfolding seal_scope marked_item register emit_spec_steps
  it_parallel name none b = b
  it_parallel name (some fn) b =
      let b' = seal_scope b in
      register (marked_item kind_parallel name (some (emit_spec_steps b'.scopes fn)) b') b'

  resolve_item : List Text → SpecItem F → SpecItem F
  resolve_item labels item = record item { scope_names = resolve_scope_ids item.scope_ids labels }

  -- resolveReportPaths
  unfoldable pub resolve_report_paths : Builder F → Builder F
  unfolding resolve_item
  resolve_report_paths b =
      let labels = compute_scope_labels b.report_scope_parent b.report_scope_declared_name in
      record b { pending = map (resolve_item labels) b.pending }

-- ItWith
unfoldable pub it_with : {F : Type 0} → Text → SpecFn F → Builder F → Builder F
it_with name f b =
    if f.skip
    then skip_it name b
    else if f.focus
    then f_it name f.fn b
    else if f.pending
    then pending_it name b
    else it name f.fn b
