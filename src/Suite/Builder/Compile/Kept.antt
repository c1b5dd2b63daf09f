-- ===== src/Suite/Builder/Compile/Kept.antt =====
-- `finalize` of specs/builder.go loses, repeats and reorders nothing, seen through any view of its
-- groups that meets the laws of `View`.
use go_specs.Prelude.{
  ◌≡◌, refl, sym, ap, ◌∙◌, true, false, inl, inr, Option, none, some, List, [], ◌∷◌, ◌++◌,
  append-nil, append_assoc, ◌&&◌, All, Bool-cases,
}
use mathlib.Core.Path.{subst}
use go_specs.Suite.Program.{Group, parallel_step}
use go_specs.Suite.Declared.{
  SpecItem, SpecKind, kind_normal, kind_skip, kind_focus, kind_parallel, kind_pending,
}
use go_specs.Suite.Builder.Compile.{
  Buffer, no_names, Batch, Compiler, new_compiler, attached, bare_group, close_group, close_batch,
  add_skip, add_pending, add_parallel, joined, fresh, joins, place, add_spec, by_kind, add_item,
  add_items, trailing, finish, compile_items, key_eq, is_nil,
}
use go_specs.Suite.Builder.Compile.View.{View}

module _ {F X : Type 0} (v : View F X) where
  open v use {
    view, tail, batch, running, skipping, pending, parallel, Good, Fits, tail-nil, tail-skip,
    tail-pending, tail-running, tail-parallel, view-bare, view-attached, view-batch, batch-none,
    batch-some, view-joined, view-fresh, Fits-joined, Fits-fresh,
  }

  tail-none : tail no_names no_names ≡ []
  unfolding is_nil
  tail-none = tail-nil no_names no_names refl

  abbrev pub view_in : List (Group F) → List X
  view_in [] = []
  view_in (g ∷ gs) = view g ++ view_in gs

  view_in-append : (gs hs : List (Group F)) → view_in (gs ++ hs) ≡ view_in gs ++ view_in hs
  view_in-append [] hs = refl
  view_in-append (g ∷ gs) hs =
      rw (view_in-append gs hs) (sym (append_assoc (view g) (view_in gs) (view_in hs)))

  abbrev open_view : Option (Group F) → List X
  open_view none = []
  open_view (some g) = view g

  abbrev batch_view : Option (Batch F) → List X
  batch_view none = []
  batch_view (some b) = batch b

  -- All that a compiler holds.
  abbrev seen : Compiler F → List X
  seen c =
      view_in c.groups
      ++ (open_view c.open_group ++ (batch_view c.batch ++ tail c.skips c.pendings))

  abbrev FitsOpen : Option (Group F) → Type 0
  FitsOpen none = Unit
  FitsOpen (some g) = Fits g

  -- A batch and a group to join are never open at once.
  abbrev OneOpen : Option (Batch F) → Option (Group F) → Type 0
  OneOpen none g = Unit
  OneOpen (some b) none = Unit
  OneOpen (some b) (some g) = ⊥

  abbrev compiler :
      List (Group F) → Option (Group F) → Option (Batch F) → Buffer → Buffer → Compiler F
  compiler gs g b s p = record { groups = gs; open_group = g; batch = b; skips = s; pendings = p }

  -- `c'` is sound and holds what `c` held, and `xs`.
  abbrev Adds : Compiler F → Compiler F → List X → Type 0
  Adds c c' xs = (seen c' ≡ seen c ++ xs) × FitsOpen c'.open_group × OneOpen c'.batch c'.open_group

  place-same :
      (gs : List (Group F)) (g : Group F) (s p : Buffer) (i : SpecItem F) (fn : F)
      → key_eq g.hook_key i.hook_key ≡ true
      → place i fn (compiler gs (some g) none s p)
        ≡ compiler gs (some (attached (joined g i fn) s p)) none no_names no_names
  unfolding place joins
  place-same gs g s p i fn same = rw (same, place) refl

  place-other :
      (gs : List (Group F)) (g : Group F) (s p : Buffer) (i : SpecItem F) (fn : F)
      → key_eq g.hook_key i.hook_key ≡ false
      → place i fn (compiler gs (some g) none s p)
        ≡ compiler
            (gs ++ g ∷ [])
            (some (attached (joined (fresh i) i fn) s p))
            none
            no_names
            no_names
  unfolding place joins close_group
  place-other gs g s p i fn other = rw (other, place) refl

  -- With no batch open.
  place-Adds :
      (gs : List (Group F)) (g : Option (Group F)) (s p : Buffer) (i : SpecItem F) (fn : F)
      → Good i
      → FitsOpen g
      → Adds (compiler gs g none s p) (place i fn (compiler gs g none s p)) (running i fn)
  unfolding place
  place-Adds gs none s p i fn good f = (
    simp (view_in-append, view-attached, tail-none, append-nil, append_assoc)
        (rw (view-fresh i fn good, tail-running s p i fn)),
    Fits-fresh i fn s p good,
    tt,
  )
  place-Adds gs (some g) s p i fn good f = elim (Bool-cases (key_eq g.hook_key i.hook_key)) [
    | inl same ↦
        subst (λ c. Adds (compiler gs (some g) none s p) c (running i fn))
          (sym (place-same gs g s p i fn same))
          (
            simp (view-attached, tail-none, append-nil, append_assoc)
                (rw (view-joined g i fn good f same, append_assoc, tail-running s p i fn)),
            Fits-joined g i fn s p f,
            tt,
          )
    | inr other ↦
        subst (λ c. Adds (compiler gs (some g) none s p) c (running i fn))
          (sym (place-other gs g s p i fn other))
          (
            simp (view-attached, tail-none, append-nil, append_assoc, view_in-append)
                (rw (view-fresh i fn good, tail-running s p i fn)),
            Fits-fresh i fn s p good,
            tt,
          )
  ]

  -- What an item must show.
  abbrev pub ran : SpecItem F → Option F → List X
  ran i none = []
  ran i (some fn) = running i fn

  abbrev pub shown : SpecKind → SpecItem F → List X
  shown kind_skip i = skipping i
  shown kind_pending i = pending i
  shown kind_parallel i = parallel i
  shown kind_normal i = ran i i.spec
  shown kind_focus i = ran i i.spec

  add_skip-Adds :
      (i : SpecItem F) (gs : List (Group F)) (g : Option (Group F)) (b : Option (Batch F))
      (s p : Buffer)
      → FitsOpen g
      → OneOpen b g
      → Adds (compiler gs g b s p) (add_skip i (compiler gs g b s p)) (skipping i)
  unfolding add_skip close_batch
  add_skip-Adds i gs none none s p f o = (simp (tail-skip, append_assoc), tt, tt)
  add_skip-Adds i gs (some g) none s p f o = (simp (tail-skip, append_assoc), f, tt)
  add_skip-Adds i gs none (some b) s p f o = (
    simp
        (view_in-append, view-attached, view-batch, tail-skip, tail-none, append-nil, append_assoc),
    tt,
    tt,
  )
  add_skip-Adds i gs (some g) (some b) s p f o = absurd o

  add_pending-Adds :
      (i : SpecItem F) (gs : List (Group F)) (g : Option (Group F)) (b : Option (Batch F))
      (s p : Buffer)
      → FitsOpen g
      → OneOpen b g
      → Adds (compiler gs g b s p) (add_pending i (compiler gs g b s p)) (pending i)
  unfolding add_pending close_batch
  add_pending-Adds i gs none none s p f o = (simp (tail-pending, append_assoc), tt, tt)
  add_pending-Adds i gs (some g) none s p f o = (simp (tail-pending, append_assoc), f, tt)
  add_pending-Adds i gs none (some b) s p f o = (
    simp (
      view_in-append, view-attached, view-batch, tail-pending, tail-none, append-nil, append_assoc,
    ),
    tt,
    tt,
  )
  add_pending-Adds i gs (some g) (some b) s p f o = absurd o

  add_parallel-Adds :
      (i : SpecItem F) (gs : List (Group F)) (g : Option (Group F)) (b : Option (Batch F))
      (s p : Buffer)
      → FitsOpen g
      → OneOpen b g
      → Adds (compiler gs g b s p) (add_parallel i (compiler gs g b s p)) (parallel i)
  unfolding add_parallel close_group
  add_parallel-Adds i gs none none s p f o =
      (simp (append_assoc) (rw (batch-none i, tail-parallel s p i) refl), tt, tt)
  add_parallel-Adds i gs (some g) none s p f o = (
    simp (view_in-append, append-nil, append_assoc) (rw (batch-none i, tail-parallel s p i) refl),
    tt,
    tt,
  )
  add_parallel-Adds i gs none (some b) s p f o =
      (simp (append_assoc) (rw (batch-some b i, append_assoc, tail-parallel s p i) refl), tt, tt)
  add_parallel-Adds i gs (some g) (some b) s p f o = absurd o

  keeps :
      (gs : List (Group F)) (g : Option (Group F)) (b : Option (Batch F)) (s p : Buffer)
      → FitsOpen g
      → OneOpen b g
      → Adds (compiler gs g b s p) (compiler gs g b s p) []
  keeps gs g b s p f o = (sym (append-nil _), f, o)

  place-closed-Adds :
      (i : SpecItem F) (fn : F) (gs : List (Group F)) (g : Option (Group F)) (b : Option (Batch F))
      (s p : Buffer)
      → Good i
      → FitsOpen g
      → OneOpen b g
      → Adds (compiler gs g b s p) (place i fn (close_batch (compiler gs g b s p))) (running i fn)
  unfolding close_batch
  place-closed-Adds i fn gs g none s p good f o = place-Adds gs g s p i fn good f
  place-closed-Adds i fn gs none (some b) s p good f o =
      let (e, fits, one) =
        place-Adds
          (gs
            ++ attached
                (record bare_group {
                  specs = parallel_step b.steps b.names b.scope_names ∷ [];
                  parallel_batch = true;
                })
                s p
              ∷ [])
          none no_names no_names i fn good f in
      (
        e ∙ simp (view_in-append, view-attached, view-batch, tail-none, append-nil, append_assoc),
        fits,
        one,
      )
  place-closed-Adds i fn gs (some g) (some b) s p good f o = absurd o

  add_spec-Adds :
      (fn : Option F) (i : SpecItem F) (gs : List (Group F)) (g : Option (Group F))
      (b : Option (Batch F)) (s p : Buffer)
      → Good i
      → FitsOpen g
      → OneOpen b g
      → Adds (compiler gs g b s p) (add_spec fn i (compiler gs g b s p)) (ran i fn)
  unfolding add_spec
  add_spec-Adds none i gs g b s p good f o = keeps gs g b s p f o
  add_spec-Adds (some fn) i gs g b s p good f o = place-closed-Adds i fn gs g b s p good f o

  by_kind-Adds :
      (k : SpecKind) (i : SpecItem F) (gs : List (Group F)) (g : Option (Group F))
      (b : Option (Batch F)) (s p : Buffer)
      → Good i
      → FitsOpen g
      → OneOpen b g
      → Adds (compiler gs g b s p) (by_kind k i (compiler gs g b s p)) (shown k i)
  unfolding by_kind
  by_kind-Adds kind_skip i gs g b s p good f o = add_skip-Adds i gs g b s p f o
  by_kind-Adds kind_pending i gs g b s p good f o = add_pending-Adds i gs g b s p f o
  by_kind-Adds kind_parallel i gs g b s p good f o = add_parallel-Adds i gs g b s p f o
  by_kind-Adds kind_normal i gs g b s p good f o = add_spec-Adds i.spec i gs g b s p good f o
  by_kind-Adds kind_focus i gs g b s p good f o = add_spec-Adds i.spec i gs g b s p good f o

  unfoldable pub shown_in : List (SpecItem F) → List X
  shown_in [] = []
  shown_in (i ∷ items) = shown i.kind i ++ shown_in items

  add_items-Adds :
      (items : List (SpecItem F)) (c : Compiler F)
      → All Good items
      → FitsOpen c.open_group
      → OneOpen c.batch c.open_group
      → Adds c (add_items items c) (shown_in items)
  unfolding add_items add_item shown_in
  add_items-Adds [] c goods f o = keeps c.groups c.open_group c.batch c.skips c.pendings f o
  add_items-Adds (i ∷ items) c goods f o =
      let (e, fits, one) =
        by_kind-Adds i.kind i c.groups c.open_group c.batch c.skips c.pendings goods.0 f o in
      let (e', fits', one') = add_items-Adds items (add_item i c) goods.1 fits one in
      (
        e' ∙ ap (◌++ shown_in items) e ∙ append_assoc (seen c) (shown i.kind i) (shown_in items),
        fits',
        one',
      )

  trailing-seen : (c : Compiler F) → view_in (trailing c) ≡ tail c.skips c.pendings
  unfolding trailing
  trailing-seen c = elim (Bool-cases (is_nil c.skips.names && is_nil c.pendings.names)) [
    | inl nil ↦ rw (nil, trailing) (sym (tail-nil c.skips c.pendings nil))
    | inr kept ↦ rw (kept, trailing) (simp (view-attached, view-bare, append-nil))
  ]

  finish-seen :
      (gs : List (Group F)) (g : Option (Group F)) (b : Option (Batch F)) (s p : Buffer)
      → OneOpen b g
      → view_in (finish (compiler gs g b s p)) ≡ seen (compiler gs g b s p)
  unfolding finish close_batch close_group
  finish-seen gs none none s p o =
      view_in-append gs (trailing (compiler gs none none s p))
      ∙ ap (view_in gs ++◌) (trailing-seen (compiler gs none none s p))
  finish-seen gs (some g) none s p o =
      simp (view_in-append, trailing-seen, append-nil, append_assoc)
  finish-seen gs none (some b) s p o = simp (
    view_in-append, view-attached, view-batch, trailing-seen, tail-none, append-nil, append_assoc,
  )
  finish-seen gs (some g) (some b) s p o = absurd o

  -- Every item shows in the groups once, in the order of declaration.
  pub compile_items-shown :
      (items : List (SpecItem F)) → All Good items → view_in (compile_items items) ≡ shown_in items
  unfolding compile_items new_compiler
  compile_items-shown items goods =
      let c = add_items items new_compiler in
      let (e, fits, one) = add_items-Adds items new_compiler goods tt tt in
      finish-seen c.groups c.open_group c.batch c.skips c.pendings one
      ∙ e
      ∙ ap (◌++ shown_in items) tail-none
