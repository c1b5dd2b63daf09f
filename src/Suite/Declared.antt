-- ===== src/Suite/Declared.antt =====
-- specs/builder.go and specs/skip.go: what a builder holds. The three slices that are used as stacks
-- are lists with the top first.
use go_specs.Prelude.{ℕ, Bool, Option, List, ℤ}
use go_specs.Prelude.Text.{Text}
use go_specs.Suite.Program.{Program, HookKey, ParallelSteps}

pub record Scope (F : Type 0) : Type 0 where
  pub id : ℕ
  pub before_each : List F
  pub after_each : List F
  pub sealed : Bool

pub data SpecKind : Type 0 where
  kind_normal kind_skip kind_focus kind_parallel kind_pending : SpecKind

pub record SpecItem (F : Type 0) : Type 0 where
  pub kind : SpecKind
  pub name : Text
  pub full_name : Text
  pub scope_names : List Text
  pub scope_ids : List ℕ
  pub before : List F
  pub spec : Option F
  pub after : List F
  pub steps : Option (ParallelSteps F)
  pub hook_key : HookKey

pub record Builder (F : Type 0) : Type 0 where
  pub program : Program F
  -- The three slices that are used as stacks are lists with the top first.
  pub scopes : List (Scope F)
  pub scope_names : List Text
  pub pending : List (SpecItem F)
  pub has_focus : Bool
  pub next_scope_id : ℕ
  pub report_scope_parent : List ℤ
  pub report_scope_declared_name : List Text
  pub report_scope_id_stack : List ℕ

pub data LateHook : Type 0 where
  late_before_each late_after_each : LateHook

pub data Built (F : Type 0) : Type 0 where
  built : Builder F → Built F
  panicked : LateHook → Builder F → Built F

-- SpecFn, what Skip, Focus and Pending return
pub record SpecFn (F : Type 0) : Type 0 where
  pub fn : Option F
  pub skip : Bool
  pub focus : Bool
  pub pending : Bool
