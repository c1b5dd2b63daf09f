-- ===== src/Samples/Suites.antt =====
-- Small suites: their items, the groups that they compile to, their labels and shards.
use go_specs.Prelude.{
  ℕ, suc, ◌≤◌, ◌<◌, ◌≡◌, ◌⊎◌, refl, true, false, Option, none, some, List, [], ◌∷◌, ◌++◌, length,
  drop,
}
use go_specs.Prelude.Text.{Text, codes}
use go_specs.Suite.Labels.{mem_text, candidate, disambiguate_sibling_names, first_free}
use go_specs.Suite.Labels.Search.{first_free_least}
use go_specs.Suite.Labels.Unique.{AreDistinct, AreLabels, disambiguate_unique}
use go_specs.Suite.Program.{Program, Group, HookKey, body}
use go_specs.Suite.Declared.{
  Builder, SpecItem, SpecKind, kind_normal, kind_skip, kind_focus, kind_pending,
}
use go_specs.Suite.Builder.Compile.{compile_items, focused, finalize, is_focus}
use go_specs.Suite.Builder.Compile.Views.{executed, executed-compile_items}
use go_specs.Suite.Builder.Compile.Views as Views
use go_specs.Suite.Builder.Compile.Marks.{
  skipped_in, pending_in, picked, is_skip, is_pending, compile_items_marks,
}
use go_specs.Suite.Builder.Compile.Again.{finalize-again}

abbrev item : SpecKind → Text → Option ℕ → HookKey → List ℕ → List ℕ → SpecItem ℕ
item kind name fn key before after = record {
  kind = kind;
  name = name;
  full_name = name;
  scope_names = [];
  scope_ids = [];
  before = before;
  spec = fn;
  after = after;
  steps = none;
  hook_key = key;
}

-- Two specs with a hook around a skipped and a pending one, then one without hooks and a skipped one.
abbrev six_items : List (SpecItem ℕ)
six_items =
    item kind_normal (codes "a") (some 1) ((0, 1, 1) ∷ []) (8 ∷ []) (9 ∷ [])
    ∷ item kind_skip (codes "b") none [] [] []
    ∷ item kind_pending (codes "c") none [] [] []
    ∷ item kind_normal (codes "d") (some 2) ((0, 1, 1) ∷ []) (8 ∷ []) (9 ∷ [])
    ∷ item kind_normal (codes "e") (some 3) [] [] []
    ∷ item kind_skip (codes "f") none [] [] []
    ∷ []

abbrev hooks_of : HookKey → List ℕ × List ℕ
hooks_of [] = ([], [])
hooks_of (k ∷ key) = (8 ∷ [], 9 ∷ [])

executed-compile_items_example : executed (compile_items six_items) ≡ Views.declared six_items
executed-compile_items_example =
    executed-compile_items hooks_of six_items (refl, (refl, (refl, (refl, (refl, (refl, tt))))))

compile_items_marks_example :
    (skipped_in (compile_items six_items) ≡ picked is_skip (λ i. i.name) six_items)
    × (pending_in (compile_items six_items) ≡ picked is_pending (λ i. i.name) six_items)
compile_items_marks_example = compile_items_marks six_items

-- A spec, and a focused one after it.
abbrev focused_last : Builder ℕ
focused_last = record {
  program = record {
    groups = [];
    focused_names = [];
    focus_excluded_count = 0;
    focus_excluded = [];
  };
  scopes = [];
  scope_names = [];
  pending =
      item kind_normal (codes "a") (some 1) [] [] []
      ∷ item kind_focus (codes "b") (some 2) [] [] []
      ∷ [];
  has_focus = true;
  next_scope_id = 0;
  report_scope_parent = [];
  report_scope_declared_name = [];
  report_scope_id_stack = [];
}

finalize-again_example :
    (finalize (finalize focused_last)).program.groups
    ≡ compile_items (
        focused focused_last.pending
        ++ focused (drop (length (focused focused_last.pending)) focused_last.pending))
finalize-again_example = finalize-again focused_last refl

-- The second time the focused spec is there twice.
focused_twice :
    focused focused_last.pending
      ++ focused (drop (length (focused focused_last.pending)) focused_last.pending)
    ≡ item kind_focus (codes "b") (some 2) [] [] []
      ∷ item kind_focus (codes "b") (some 2) [] [] []
      ∷ []
unfolding focused is_focus
focused_twice = refl

abbrev group_of : ℕ → Group ℕ
group_of fn = record {
  before = 8 ∷ [];
  specs = body fn ∷ [];
  names = codes "x" ∷ [];
  full_names = codes "x" ∷ [];
  scope_names = [] ∷ [];
  after = [];
  hook_key = [];
  parallel_batch = false;
  skipped = codes "s" ∷ [];
  skipped_scope_names = [] ∷ [];
  pending_specs = [];
  pending_spec_scope_names = [];
}

abbrev three_groups : Program ℕ
three_groups = record {
  groups = group_of 1 ∷ group_of 2 ∷ group_of 3 ∷ [];
  focused_names = codes "x" ∷ [];
  focus_excluded_count = 1;
  focus_excluded = record { name = codes "y"; path = [] } ∷ [];
}

-- The literal name `a#2` stands where the second `a` would get it.
abbrev clashing : List Text
clashing = codes "a" ∷ codes "a#2" ∷ codes "a" ∷ []

disambiguate_unique_example :
    ((disambiguate_sibling_names clashing ≡ none) × AreDistinct [] clashing)
    ⊎ ((labels : List Text) × (disambiguate_sibling_names clashing ≡ some labels)
        × AreDistinct [] labels
        × AreLabels [] clashing labels)
disambiguate_unique_example = disambiguate_unique clashing

first_free_least_example :
    (j : ℕ) × (2 ≤ j)
    × (first_free (suc (length clashing)) clashing (codes "a") 2 ≡ some (candidate (codes "a") j))
    × (mem_text (candidate (codes "a") j) clashing ≡ false)
    × ((i : ℕ) → 2 ≤ i → i < j → mem_text (candidate (codes "a") i) clashing ≡ true)
first_free_least_example = first_free_least clashing (codes "a") 2
