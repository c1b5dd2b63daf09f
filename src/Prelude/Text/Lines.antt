-- ===== src/Prelude/Text/Lines.antt =====
-- Splitting a text at newlines, joining lines, and what trimming keeps.
use Prim.Native.Nat.{ℕ}
use mathlib.Core.Bool.{Bool, true, false, ◌&&◌}
use mathlib.Core.List.{List, [], ◌∷◌, ◌++◌, append_assoc, reverse, reverse-cons, reverse-append}
use mathlib.Core.Path.{◌≡◌, refl, ap, ◌∙◌}
use mathlib.Core.Logic.{◌≢◌, inl, inr}
use native.Mathlib.Omega.{arith}
use go_specs.Prelude.Tests.{◌==◌, Bool-cases}
use go_specs.Prelude.Lists.{All}
use go_specs.Prelude.Text.{
  Text, is_space, trim_space, trim_left, trim_right, is_blank, split, add_to_first, join,
}

-- Text of one line.
abbrev pub IsLine : Text → Type 0
IsLine = All (λ (c : ℕ). c ≢ 10)

pub split-line : (a t : Text) → IsLine a → split 10 (a ++ 10 ∷ t) ≡ a ∷ split 10 t
unfolding split add_to_first
split-line [] t h = refl
split-line (c ∷ a) t h =
    let no : (c == 10) ≡ false = ground arith in rw (no, split-line a t h.1) refl

-- Joined lines that another line follows.
pub split-join :
    (l : Text) (lines : List Text) (t : Text)
    → All IsLine (l ∷ lines)
    → split 10 (join 10 (l ∷ lines) ++ 10 ∷ t) ≡ (l ∷ lines) ++ split 10 t
unfolding join
split-join l [] t h = split-line l t h.0
split-join l (next ∷ lines) t h =
    ap (split 10) (append_assoc l (10 ∷ join 10 (next ∷ lines)) (10 ∷ t))
    ∙ (split-line l (join 10 (next ∷ lines) ++ 10 ∷ t) h.0
        ∙ ap (◌∷◌ l) (split-join next lines t h.1))

pub split-cons : (t : Text) → (first : Text) × (rest : List Text) × (split 10 t ≡ first ∷ rest)
unfolding split add_to_first
split-cons [] = ([], [], refl)
split-cons (c ∷ t) =
    let (first, rest, e) = split-cons t in
    elim (Bool-cases (c == 10)) [
      | inl n ↦ ([], split 10 t, rw n refl)
      | inr n ↦ (c ∷ first, rest, rw (n, e) refl)
    ]

-- The first line keeps what stands before it.
pub split-front :
    (a t : Text)
    → IsLine a
    → (first : Text) × (rest : List Text) × (split 10 (a ++ t) ≡ (a ++ first) ∷ rest)
unfolding split add_to_first
split-front [] t h = split-cons t
split-front (c ∷ a) t h =
    let (first, rest, e) = split-front a t h.1 in
    let no : (c == 10) ≡ false = ground arith in (first, rest, rw (no, e) refl)

pub split-IsLine : (t : Text) → All IsLine (split 10 t)
unfolding split add_to_first
split-IsLine [] = (tt, tt)
split-IsLine (c ∷ t) =
    let (first, rest, e) = split-cons t in
    let later : All IsLine (first ∷ rest) = rw e at (split-IsLine t) in
    elim (Bool-cases (c == 10)) [
      | inl n ↦ rw n (tt, split-IsLine t)
      | inr n ↦ rw (n, e) (((λ same. absurd (ground arith)), later.0), later.1)
    ]

-- A text that is not split is one line.
pub IsLine-split : (s : Text) → split 10 s ≡ s ∷ [] → IsLine s
IsLine-split s e = let lines : All IsLine (s ∷ []) = rw e at (split-IsLine s) in lines.0

and_false : (b : Bool) → (b && false) ≡ false
and_false true = refl
and_false false = refl

is_blank-cons : (u : Text) (c : ℕ) (w : Text) → is_blank (u ++ c ∷ w) ≡ false
unfolding is_blank
is_blank-cons [] c w = refl
is_blank-cons (d ∷ u) c w = refl

pub trim_right-keeps :
    (u : Text) (c : ℕ) (v : Text) → c ≢ 10 → (w : Text) × (trim_right 10 (u ++ c ∷ v) ≡ u ++ c ∷ w)
unfolding trim_right is_blank
trim_right-keeps [] c v n =
    let no : (c == 10) ≡ false = ground arith in
    (trim_right 10 v, rw (no, and_false (is_blank (trim_right 10 v))) refl)
trim_right-keeps (d ∷ u) c v n =
    let (w, e) = trim_right-keeps u c v n in (w, rw (e, is_blank-cons u c w) refl)

trim_left-keeps :
    (u : Text) (c : ℕ) → is_space c ≡ false → (z : Text) × (trim_left (u ++ c ∷ []) ≡ z ++ c ∷ [])
unfolding trim_left
trim_left-keeps [] c h = ([], rw h refl)
trim_left-keeps (d ∷ u) c h =
    let (z, e) = trim_left-keeps u c h in
    elim (Bool-cases (is_space d)) [ inl s ↦ (z, rw s e) | inr s ↦ (d ∷ u, rw s refl) ]

-- Trimming keeps a first code point that is no space.
pub trim_space-keeps :
    (c : ℕ) (s : Text) → is_space c ≡ false → (w : Text) × (trim_space (c ∷ s) ≡ c ∷ w)
unfolding trim_space
trim_space-keeps c s h =
    let (z, e) = trim_left-keeps (reverse s) c h in
    let first : trim_left (c ∷ s) ≡ c ∷ s = unfold trim_left in rw h refl in
    (
      reverse z,
      ap (λ (t : Text). reverse (trim_left (reverse t))) first
          ∙ (ap (λ (t : Text). reverse (trim_left t)) (reverse-cons c s)
              ∙ (ap reverse e ∙ reverse-append z (c ∷ []))),
    )
