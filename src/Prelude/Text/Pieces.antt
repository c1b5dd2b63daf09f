-- ===== src/Prelude/Text/Pieces.antt =====
-- Trimming and cutting texts.
use Prim.Native.Nat.{ℕ}
use mathlib.Core.Bool.{true, false}
use mathlib.Core.List.{[], ◌∷◌, ◌++◌, reverse, reverse-reverse, reverse-cons}
use mathlib.Core.Option.{some}
use mathlib.Core.Path.{◌≡◌, refl}
use mathlib.Core.Logic.{◌≢◌, ◌↔◌}
use native.Mathlib.Omega.{arith}
use go_specs.Prelude.Lists.{All, All-append}
use go_specs.Prelude.Text.{
  Text, is_space, split_fields, add_field, fields, trim_left, trim_space, cut, cut_prefix,
  has_prefix, text_eq,
}

-- A code point that is not white space.
abbrev pub IsInk : ℕ → Type 0
IsInk c = is_space c ≡ false

trim_left-ink : (s : Text) → All IsInk s → trim_left s ≡ s
unfolding trim_left
trim_left-ink [] h = refl
trim_left-ink (c ∷ s) h = rw h.0

All-reverse : (s : Text) → All IsInk s → All IsInk (reverse s)
All-reverse [] h = tt
All-reverse (c ∷ s) h =
    rw reverse-cons (All-append IsInk (reverse s) (c ∷ []) (All-reverse s h.1) (h.0, tt))

-- Text without white space is not changed.
pub trim_space-ink : (s : Text) → All IsInk s → trim_space s ≡ s
unfolding trim_space
trim_space-ink s h =
    rw (trim_left-ink s h, trim_left-ink (reverse s) (All-reverse s h)) (reverse-reverse s)

-- The first separator splits.
pub cut-append :
    (sep : ℕ) (a b : Text) → All (λ c. c ≢ sep) a → cut sep (a ++ sep ∷ b) ≡ some (a, b)
unfolding cut
cut-append sep [] b h = ground arith
cut-append sep (c ∷ a) b h = ground (arith, cut-append sep a b h.1)

pub cut_prefix-append : (p s : Text) → cut_prefix (p ++ s) p ≡ some s
unfolding cut_prefix
cut_prefix-append [] s = refl
cut_prefix-append (c ∷ p) s = ground (arith, cut_prefix-append p s)

pub text_eq_iff : (s t : Text) → (text_eq s t ≡ true) ↔ (s ≡ t)
unfolding text_eq
text_eq_iff [] [] = (λ h. refl, λ h. refl)
text_eq_iff [] (b ∷ t) = (λ h. cc, λ h. cc)
text_eq_iff (a ∷ s) [] = (λ h. cc, λ h. cc)
text_eq_iff (a ∷ s) (b ∷ t) =
    let e = text_eq_iff s t in (λ h. ground (arith, e), λ h. ground (arith, e))

pub has_prefix-append : (p s : Text) → has_prefix (p ++ s) p ≡ true
unfolding has_prefix
has_prefix-append [] s = refl
has_prefix-append (c ∷ p) s = ground (arith, has_prefix-append p s)

pub text_eq_ne : (s t : Text) → text_eq s t ≡ false → s ≢ t
text_eq_ne s t h = λ e. let same = (text_eq_iff s t).1 e in cc

split_fields-ink : (s : Text) → All IsInk s → split_fields s ≡ (s, [])
unfolding split_fields
split_fields-ink [] h = refl
split_fields-ink (c ∷ s) h = rw (h.0, split_fields-ink s h.1)

split_fields-append :
    (a b : Text) → All IsInk a → All IsInk b → split_fields (a ++ b' ' ∷ b) ≡ (a, add_field b [])
unfolding split_fields
split_fields-append [] b ha hb = rw (split_fields-ink b hb)
split_fields-append (c ∷ a) b ha hb = rw (ha.0, split_fields-append a b ha.1 hb)

-- Two words are told apart.
pub fields-append :
    (c : ℕ) (a : Text) (d : ℕ) (b : Text)
    → All IsInk (c ∷ a)
    → All IsInk (d ∷ b)
    → fields ((c ∷ a) ++ b' ' ∷ d ∷ b) ≡ (c ∷ a) ∷ (d ∷ b) ∷ []
unfolding fields add_field
fields-append c a d b ha hb = rw (split_fields-append (c ∷ a) (d ∷ b) ha hb)
