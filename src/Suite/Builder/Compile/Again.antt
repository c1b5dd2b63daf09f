-- ===== src/Suite/Builder/Compile/Again.antt =====
-- What a second `finalize` of specs/builder.go makes of the items that the first one left.
use go_specs.Prelude.{
  ◌≡◌, refl, ap, ◌∙◌, Bool, true, false, List, [], ◌∷◌, ◌++◌, length, drop, if◌then◌else◌,
}
use go_specs.Suite.Declared.{Builder, SpecItem}
use go_specs.Suite.Builder.Compile.{focused, overwritten, compile_items, finalize, is_focus}

module _ {F : Type 0} where
  if-append :
      (t : Bool) (i : SpecItem F) (xs ys : List (SpecItem F))
      → (if t then i ∷ (xs ++ ys) else (xs ++ ys)) ≡ (if t then i ∷ xs else xs) ++ ys
  if-append true i xs ys = refl
  if-append false i xs ys = refl

  focused-append : (xs ys : List (SpecItem F)) → focused (xs ++ ys) ≡ focused xs ++ focused ys
  unfolding focused
  focused-append [] ys = refl
  focused-append (i ∷ xs) ys =
      ap (λ rest. if is_focus i.kind then i ∷ rest else rest) (focused-append xs ys)
      ∙ if-append (is_focus i.kind) i (focused xs) (focused ys)

  focused-if :
      (i : SpecItem F) (t : Bool) (xs : List (SpecItem F))
      → is_focus i.kind ≡ t
      → focused xs ≡ xs
      → focused (if t then i ∷ xs else xs) ≡ (if t then i ∷ xs else xs)
  unfolding focused
  focused-if i true xs e h = rw e (ap (i ∷◌) h)
  focused-if i false xs e h = h

  focused-focused : (xs : List (SpecItem F)) → focused (focused xs) ≡ focused xs
  unfolding focused
  focused-focused [] = refl
  focused-focused (i ∷ xs) = focused-if i (is_focus i.kind) (focused xs) refl (focused-focused xs)

  -- With a focused spec, a second `finalize` compiles the focused items and after them once more
  -- those focused items that the list had beyond the length of the filtered one.
  pub finalize-again :
      (b : Builder F)
      → b.has_focus ≡ true
      → (finalize (finalize b)).program.groups
        ≡ compile_items (focused b.pending ++ focused (drop (length (focused b.pending)) b.pending))
  unfolding finalize overwritten
  finalize-again b e = rw e (
      ap compile_items (
        focused-append (focused b.pending) (drop (length (focused b.pending)) b.pending)
        ∙ ap (◌++ focused (drop (length (focused b.pending)) b.pending))
            (focused-focused b.pending)))

  -- Without a focused spec, a second `finalize` changes nothing.
  pub finalize_unfocused :
      (b : Builder F) → b.has_focus ≡ false → finalize (finalize b) ≡ finalize b
  unfolding finalize
  finalize_unfocused b e = rw e refl
