-- ===== src/Prelude/Fallible.antt =====
-- A result with an error: Go's pair of a value and an error of which one is set.
use mathlib.Core.Path.{◌≡◌, refl, subst}
use mathlib.Core.Logic.{◌⊎◌, inl, inr}

pub data Fallible (E A : Type 0) : Type 0 where
  err : E → Fallible E A
  ok : A → Fallible E A

-- `if err != nil { return err }` before the rest
unfoldable pub and_then : {E A B : Type 0} → Fallible E A → (A → Fallible E B) → Fallible E B
and_then (err e) rest = err e
and_then (ok a) rest = rest a

pub Fallible-cases :
    {E A : Type 0} (r : Fallible E A) → ((e : E) × (r ≡ err e)) ⊎ ((a : A) × (r ≡ ok a))
Fallible-cases (err e) = inl (e, refl)
Fallible-cases (ok a) = inr (a, refl)

-- What holds of the value, when there is one.
abbrev pub Holds : {E A : Type 0} → (A → Type 0) → Fallible E A → Type 0
Holds P (err e) = Unit
Holds P (ok a) = P a

pub Holds-and_then :
    {E A B : Type 0} (P : A → Type 0) (Q : B → Type 0) (r : Fallible E A) (f : A → Fallible E B)
    → Holds P r
    → ((a : A) → P a → Holds Q (f a))
    → Holds Q (and_then r f)
unfolding and_then
Holds-and_then P Q (err e) f p h = tt
Holds-and_then P Q (ok a) f p h = h a p

pub Holds-any : {E A : Type 0} (r : Fallible E A) → Holds (λ a. Unit) r
Holds-any (err e) = tt
Holds-any (ok a) = tt

pub Holds-ok :
    {E A : Type 0} (P : A → Type 0) (r : Fallible E A) (a : A) → r ≡ ok a → Holds P r → P a
Holds-ok P r a e h = subst (Holds P) e h
