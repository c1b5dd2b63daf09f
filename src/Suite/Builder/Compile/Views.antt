-- ===== src/Suite/Builder/Compile/Views.antt =====
-- What the groups of specs/builder.go's `finalize` execute and report, compared with the items.
use go_specs.Prelude.{
  arith, ==_iff, ℕ, ◌≡◌, refl, sym, ap, ◌∙◌, Bool, true, false, Option, none, some, List, [], ◌∷◌,
  ◌++◌, append-nil, All, ◌==◌, ◌&&◌,
}
use mathlib.Core.Path.{ap₂}
use go_specs.Suite.Program.{Group, SpecStep, body, parallel_step, HookKey}
use go_specs.Suite.Declared.{
  SpecItem, SpecKind, kind_normal, kind_skip, kind_focus, kind_parallel, kind_pending,
}
use go_specs.Suite.Builder.Compile.{extend, key_eq, compile_items}
use go_specs.Suite.Builder.Compile.View.{View}
use go_specs.Suite.Builder.Compile.Kept.{view_in, shown_in, compile_items-shown, ran, shown}

both : (a b : Bool) → a && b ≡ true → (a ≡ true) × (b ≡ true)
both true true h = (refl, refl)
both true false h = ground arith
both false b h = ground arith

key_eq-path : (k l : HookKey) → key_eq k l ≡ true → k ≡ l
unfolding key_eq
key_eq-path [] [] h = refl
key_eq-path ((i, b, a) ∷ k) ((j, c, d) ∷ l) h =
    let (ei, h1) = both (i == j) (b == c && (a == d && key_eq k l)) h in
    let (eb, h2) = both (b == c) (a == d && key_eq k l) h1 in
    let (ea, h3) = both (a == d) (key_eq k l) h2 in
    let first : Path (ℕ × ℕ × ℕ) (i, b, a) (j, b, a) = ap (λ x. (x, b, a)) ((==_iff i j).0 ei) in
    let second : Path (ℕ × ℕ × ℕ) (j, b, a) (j, c, a) = ap (λ x. (j, x, a)) ((==_iff b c).0 eb) in
    let third : Path (ℕ × ℕ × ℕ) (j, c, a) (j, c, d) = ap (λ x. (j, c, x)) ((==_iff a d).0 ea) in
    let heads = first ∙ second ∙ third in ap₂ ◌∷◌ heads (key_eq-path k l h3)
key_eq-path [] (x ∷ l) h = ground arith
key_eq-path (x ∷ k) [] h = ground arith

module _ {F : Type 0} where
  runs : List F → List F → List (SpecStep F) → List (List F × F × List F)
  runs before after [] = []
  runs before after (body fn ∷ specs) = (before, fn, after) ∷ runs before after specs
  runs before after (parallel_step steps names scopes ∷ specs) = runs before after specs

  runs-append :
      (before after : List F) (ss ts : List (SpecStep F))
      → runs before after (ss ++ ts) ≡ runs before after ss ++ runs before after ts
  unfolding runs
  runs-append before after [] ts = refl
  runs-append before after (body fn ∷ ss) ts =
      ap ((before, fn, after) ∷◌) (runs-append before after ss ts)
  runs-append before after (parallel_step steps names scopes ∷ ss) ts =
      runs-append before after ss ts

  -- Each spec body of the groups, in order, with the hooks that run before and after it.
  unfoldable pub executed : List (Group F) → List (List F × F × List F)
  unfolding runs
  executed [] = []
  executed (g ∷ gs) = runs g.before g.after g.specs ++ executed gs

  own_run : SpecItem F → Option F → List (List F × F × List F)
  own_run i none = []
  own_run i (some fn) = (i.before, fn, i.after) ∷ []

  own : SpecKind → SpecItem F → List (List F × F × List F)
  unfolding own_run
  own kind_normal i = own_run i i.spec
  own kind_focus i = own_run i i.spec
  own _ i = []

  -- The normal and focused items, each body with its own hooks.
  unfoldable pub declared : List (SpecItem F) → List (List F × F × List F)
  unfolding own
  declared [] = []
  declared (i ∷ items) = own i.kind i ++ declared items

module _ {F : Type 0} (hooks : HookKey → List F × List F) where
  executed_view : View F (List F × F × List F)
  unfolding runs extend
  executed_view = record {
    view = λ g. runs g.before g.after g.specs;
    tail = λ s p. [];
    batch = λ b. [];
    running = λ i fn. (i.before, fn, i.after) ∷ [];
    skipping = λ i. [];
    pending = λ i. [];
    parallel = λ i. [];
    Good = λ i. hooks i.hook_key ≡ (i.before, i.after);
    Fits = λ g. hooks g.hook_key ≡ (g.before, g.after);
    tail-nil = λ s p h. refl;
    tail-skip = λ s p i. refl;
    tail-pending = λ s p i. refl;
    tail-running = λ s p i fn. refl;
    tail-parallel = λ s p i. refl;
    view-bare = refl;
    view-attached = λ g s p. sym (append-nil _);
    view-batch = λ b. refl;
    batch-none = λ i. refl;
    batch-some = λ b i. refl;
    view-joined = λ g i fn good fits same.
        runs-append g.before g.after g.specs (body fn ∷ [])
        ∙ ap (λ h. runs g.before g.after g.specs ++ (h.0, fn, h.1) ∷ [])
            (sym fits ∙ ap hooks (key_eq-path g.hook_key i.hook_key same) ∙ good);
    view-fresh = λ i fn good. refl;
    Fits-joined = λ g i fn s p fits. fits;
    Fits-fresh = λ i fn s p good. good;
  }

  own_run-ran : (i : SpecItem F) (o : Option F) → ran executed_view i o ≡ own_run i o
  unfolding own_run executed_view
  own_run-ran i none = refl
  own_run-ran i (some fn) = refl

  own-shown : (k : SpecKind) (i : SpecItem F) → shown executed_view k i ≡ own k i
  unfolding own executed_view
  own-shown kind_normal i = own_run-ran i i.spec
  own-shown kind_focus i = own_run-ran i i.spec
  own-shown kind_skip i = refl
  own-shown kind_pending i = refl
  own-shown kind_parallel i = refl

  declared-shown_in : (items : List (SpecItem F)) → shown_in executed_view items ≡ declared items
  unfolding shown_in declared
  declared-shown_in [] = refl
  declared-shown_in (i ∷ items) = ap₂ ◌++◌ (own-shown i.kind i) (declared-shown_in items)

  executed-view_in : (gs : List (Group F)) → view_in executed_view gs ≡ executed gs
  unfolding executed executed_view
  executed-view_in [] = refl
  executed-view_in (g ∷ gs) = ap (runs g.before g.after g.specs ++◌) (executed-view_in gs)

  -- Where the hook key of every item determines its hooks, the compiled groups execute the body of
  -- each normal or focused item exactly once, in the order of declaration, and each with exactly the
  -- before and after hooks that the item was declared with, however the items were put into groups.
  pub executed-compile_items :
      (items : List (SpecItem F))
      → All (λ i. hooks i.hook_key ≡ (i.before, i.after)) items
      → executed (compile_items items) ≡ declared items
  unfolding executed_view
  executed-compile_items items keyed =
      sym (executed-view_in (compile_items items))
      ∙ compile_items-shown executed_view items keyed
      ∙ declared-shown_in items
