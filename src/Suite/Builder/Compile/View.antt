-- ===== src/Suite/Builder/Compile/View.antt =====
-- What can be read off the groups of specs/builder.go's `finalize` and compared with its items: the
-- interface between the compiler's invariant and each reading.
use go_specs.Prelude.{◌≡◌, true, none, some, List, [], ◌∷◌, ◌++◌, ◌&&◌}
use go_specs.Suite.Program.{Group, parallel_step}
use go_specs.Suite.Declared.{SpecItem}
use go_specs.Suite.Builder.Compile.{
  Buffer, buffer, Batch, attached, bare_group, extend, steps_of, joined, fresh, key_eq, is_nil,
}

pub record View (F X : Type 0) : Type 1 where
  -- what a group shows, and what the buffered names will add to the next one
  pub view : Group F → List X
  pub tail : Buffer → Buffer → List X
  pub batch : Batch F → List X
  -- what an item must show
  pub running : SpecItem F → F → List X
  pub skipping : SpecItem F → List X
  pub pending : SpecItem F → List X
  pub parallel : SpecItem F → List X
  -- what is assumed of the running items, and kept of the group that they may join
  pub Good : SpecItem F → Type 0
  pub Fits : Group F → Type 0
  pub tail-nil : (s p : Buffer) → is_nil s.names && is_nil p.names ≡ true → tail s p ≡ []
  pub tail-skip :
      (s p : Buffer) (i : SpecItem F)
      → tail (buffer s i.name i.scope_names) p ≡ tail s p ++ skipping i
  pub tail-pending :
      (s p : Buffer) (i : SpecItem F)
      → tail s (buffer p i.name i.scope_names) ≡ tail s p ++ pending i
  pub tail-running :
      (s p : Buffer) (i : SpecItem F) (fn : F) → running i fn ++ tail s p ≡ tail s p ++ running i fn
  pub tail-parallel :
      (s p : Buffer) (i : SpecItem F) → parallel i ++ tail s p ≡ tail s p ++ parallel i
  pub view-bare : view bare_group ≡ []
  pub view-attached : (g : Group F) (s p : Buffer) → view (attached g s p) ≡ view g ++ tail s p
  pub view-batch :
      (b : Batch F)
      → view (record bare_group {
        specs = parallel_step b.steps b.names b.scope_names ∷ [];
        parallel_batch = true;
      })
        ≡ batch b
  pub batch-none : (i : SpecItem F) → batch (extend none i (steps_of i.steps)) ≡ parallel i
  pub batch-some :
      (b : Batch F) (i : SpecItem F)
      → batch (extend (some b) i (steps_of i.steps)) ≡ batch b ++ parallel i
  pub view-joined :
      (g : Group F) (i : SpecItem F) (fn : F)
      → Good i
      → Fits g
      → key_eq g.hook_key i.hook_key ≡ true
      → view (joined g i fn) ≡ view g ++ running i fn
  pub view-fresh : (i : SpecItem F) (fn : F) → Good i → view (joined (fresh i) i fn) ≡ running i fn
  pub Fits-joined :
      (g : Group F) (i : SpecItem F) (fn : F) (s p : Buffer)
      → Fits g
      → Fits (attached (joined g i fn) s p)
  pub Fits-fresh :
      (i : SpecItem F) (fn : F) (s p : Buffer)
      → Good i
      → Fits (attached (joined (fresh i) i fn) s p)
