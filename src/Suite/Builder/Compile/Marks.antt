-- ===== src/Suite/Builder/Compile/Marks.antt =====
-- What specs/builder.go's `finalize` keeps of the items that no group runs by itself: the skipped and
-- the pending names.
use go_specs.Prelude.{
  ◌≡◌, refl, sym, ap, ◌∙◌, Bool, true, false, Option, none, some, List, [], ◌∷◌, ◌++◌, append-nil,
  All, ◌&&◌, arith,
}
use go_specs.Prelude.Text.{Text}
use go_specs.Suite.Program.{Group}
use go_specs.Suite.Declared.{
  SpecItem, SpecKind, kind_normal, kind_skip, kind_focus, kind_parallel, kind_pending,
}
use go_specs.Suite.Builder.Compile.{extend, compile_items, is_nil}
use go_specs.Suite.Builder.Compile.View.{View}
use go_specs.Suite.Builder.Compile.Kept.{view_in, shown_in, compile_items-shown, ran, shown}

no_names_left : (ts us : List Text) → is_nil ts && is_nil us ≡ true → (ts ≡ []) × (us ≡ [])
unfolding is_nil
no_names_left [] [] h = (refl, refl)
no_names_left [] (t ∷ us) h = ground arith
no_names_left (t ∷ ts) us h = ground arith

unfoldable pub is_skip : SpecKind → Bool
is_skip kind_skip = true
is_skip _ = false

unfoldable pub is_pending : SpecKind → Bool
is_pending kind_pending = true
is_pending _ = false

module _ {F : Type 0} where
  module _ {X : Type 0} (test : SpecKind → Bool) (f : SpecItem F → X) where
    -- `f` of the items of the kinds that `test` accepts, in order.
    unfoldable pub picked : List (SpecItem F) → List X
    picked [] = []
    picked (i ∷ items) = elim (test i.kind) [ true ↦ f i ∷ picked items | false ↦ picked items ]

  skip_view : View F Text
  unfolding extend
  skip_view = record {
    view = λ g. g.skipped;
    tail = λ s p. s.names;
    batch = λ b. [];
    running = λ i fn. [];
    skipping = λ i. i.name ∷ [];
    pending = λ i. [];
    parallel = λ i. [];
    Good = λ i. Unit;
    Fits = λ g. Unit;
    tail-nil = λ s p h. (no_names_left s.names p.names h).0;
    tail-skip = λ s p i. refl;
    tail-pending = λ s p i. sym (append-nil s.names);
    tail-running = λ s p i fn. sym (append-nil s.names);
    tail-parallel = λ s p i. sym (append-nil s.names);
    view-bare = refl;
    view-attached = λ g s p. refl;
    view-batch = λ b. refl;
    batch-none = λ i. refl;
    batch-some = λ b i. refl;
    view-joined = λ g i fn good fits same. sym (append-nil g.skipped);
    view-fresh = λ i fn good. refl;
    Fits-joined = λ g i fn s p fits. tt;
    Fits-fresh = λ i fn s p good. tt;
  }

  pending_view : View F Text
  unfolding extend
  pending_view = record {
    view = λ g. g.pending_specs;
    tail = λ s p. p.names;
    batch = λ b. [];
    running = λ i fn. [];
    skipping = λ i. [];
    pending = λ i. i.name ∷ [];
    parallel = λ i. [];
    Good = λ i. Unit;
    Fits = λ g. Unit;
    tail-nil = λ s p h. (no_names_left s.names p.names h).1;
    tail-skip = λ s p i. sym (append-nil p.names);
    tail-pending = λ s p i. refl;
    tail-running = λ s p i fn. sym (append-nil p.names);
    tail-parallel = λ s p i. sym (append-nil p.names);
    view-bare = refl;
    view-attached = λ g s p. refl;
    view-batch = λ b. refl;
    batch-none = λ i. refl;
    batch-some = λ b i. refl;
    view-joined = λ g i fn good fits same. sym (append-nil g.pending_specs);
    view-fresh = λ i fn good. refl;
    Fits-joined = λ g i fn s p fits. tt;
    Fits-fresh = λ i fn s p good. tt;
  }

  All-unit : (items : List (SpecItem F)) → All {0, 0} (λ i. Unit) items
  All-unit [] = tt
  All-unit (i ∷ items) = (tt, All-unit items)

  ran-nothing :
      (v : View F Text) (i : SpecItem F) (o : Option F)
      → ((fn : F) → v.running i fn ≡ [])
      → ran v i o ≡ []
  ran-nothing v i none h = refl
  ran-nothing v i (some fn) h = h fn

  skip-shown :
      (k : SpecKind) (i : SpecItem F) (rest : List Text)
      → shown skip_view k i ++ rest ≡ elim (is_skip k) [ true ↦ i.name ∷ rest | false ↦ rest ]
  unfolding skip_view is_skip
  skip-shown kind_normal i rest = ap (◌++ rest) (ran-nothing skip_view i i.spec (λ fn. refl))
  skip-shown kind_focus i rest = ap (◌++ rest) (ran-nothing skip_view i i.spec (λ fn. refl))
  skip-shown kind_skip i rest = refl
  skip-shown kind_pending i rest = refl
  skip-shown kind_parallel i rest = refl

  pending-shown :
      (k : SpecKind) (i : SpecItem F) (rest : List Text)
      → shown pending_view k i ++ rest ≡ elim (is_pending k) [ true ↦ i.name ∷ rest | false ↦ rest ]
  unfolding pending_view is_pending
  pending-shown kind_normal i rest = ap (◌++ rest) (ran-nothing pending_view i i.spec (λ fn. refl))
  pending-shown kind_focus i rest = ap (◌++ rest) (ran-nothing pending_view i i.spec (λ fn. refl))
  pending-shown kind_skip i rest = refl
  pending-shown kind_pending i rest = refl
  pending-shown kind_parallel i rest = refl

  skips-shown_in :
      (items : List (SpecItem F)) → shown_in skip_view items ≡ picked is_skip (λ i. i.name) items
  unfolding shown_in picked
  skips-shown_in [] = refl
  skips-shown_in (i ∷ items) =
      skip-shown i.kind i (shown_in skip_view items)
      ∙ ap (λ rest. elim (is_skip i.kind) [ true ↦ i.name ∷ rest | false ↦ rest ])
          (skips-shown_in items)

  pendings-shown_in :
      (items : List (SpecItem F))
      → shown_in pending_view items ≡ picked is_pending (λ i. i.name) items
  unfolding shown_in picked
  pendings-shown_in [] = refl
  pendings-shown_in (i ∷ items) =
      pending-shown i.kind i (shown_in pending_view items)
      ∙ ap (λ rest. elim (is_pending i.kind) [ true ↦ i.name ∷ rest | false ↦ rest ])
          (pendings-shown_in items)

  -- The skipped names of all groups, in order.
  unfoldable pub skipped_in : List (Group F) → List Text
  skipped_in [] = []
  skipped_in (g ∷ gs) = g.skipped ++ skipped_in gs

  -- The pending names of all groups, in order.
  unfoldable pub pending_in : List (Group F) → List Text
  pending_in [] = []
  pending_in (g ∷ gs) = g.pending_specs ++ pending_in gs

  skip_view-view_in : (gs : List (Group F)) → view_in skip_view gs ≡ skipped_in gs
  unfolding skipped_in skip_view
  skip_view-view_in [] = refl
  skip_view-view_in (g ∷ gs) = ap (g.skipped ++◌) (skip_view-view_in gs)

  pending_view-view_in : (gs : List (Group F)) → view_in pending_view gs ≡ pending_in gs
  unfolding pending_in pending_view
  pending_view-view_in [] = refl
  pending_view-view_in (g ∷ gs) = ap (g.pending_specs ++◌) (pending_view-view_in gs)

  -- For any items, the compiled groups carry the names of exactly the skipped items as skipped and
  -- those of exactly the pending items as pending, each once and in the order of declaration, also
  -- of those that no spec follows.
  pub compile_items_marks :
      (items : List (SpecItem F))
      → (skipped_in (compile_items items) ≡ picked is_skip (λ i. i.name) items)
        × (pending_in (compile_items items) ≡ picked is_pending (λ i. i.name) items)
  unfolding skip_view pending_view
  compile_items_marks items = (
    sym (skip_view-view_in (compile_items items))
        ∙ compile_items-shown skip_view items (All-unit items)
        ∙ skips-shown_in items,
    sym (pending_view-view_in (compile_items items))
        ∙ compile_items-shown pending_view items (All-unit items)
        ∙ pendings-shown_in items,
  )
