-- ===== src/Prelude/Sort.antt =====
-- sort.Slice by a text, for keys that differ: with equal keys Go leaves the order open.

use mathlib.Core.Bool.{Bool, true, false}
use mathlib.Core.List.{List, [], ◌∷◌}
use mathlib.Core.List.{Permᴰ}
use mathlib.Core.Path.{◌≡◌, refl, ◌∙◌, sym, ap}
use mathlib.Core.Logic.{◌≢◌, inl, inr}
use native.Mathlib.Omega.{arith}
use go_specs.Prelude.Tests.{ltb, ◌==◌, if◌then◌else◌, Bool-cases}
use go_specs.Prelude.Lists.{All}
use go_specs.Prelude.Text.{Text}

-- a < b
unfoldable pub text_lt : Text → Text → Bool
text_lt [] [] = false
text_lt [] (b ∷ t) = true
text_lt (a ∷ s) [] = false
text_lt (a ∷ s) (b ∷ t) =
    let rest = text_lt s t in if ltb a b then true else if a == b then rest else false

text_lt-total : (s t : Text) → s ≢ t → text_lt s t ≡ false → text_lt t s ≡ true
unfolding text_lt
text_lt-total [] [] n h = absurd (n refl)
text_lt-total [] (b ∷ t) n h = cc
text_lt-total (a ∷ s) [] n h = refl
text_lt-total (a ∷ s) (b ∷ t) n h = let later = text_lt-total s t in ground (arith, later)

text_lt-asym : (s t : Text) → text_lt s t ≡ true → text_lt t s ≡ false
unfolding text_lt
text_lt-asym [] [] h = cc
text_lt-asym [] (b ∷ t) h = refl
text_lt-asym (a ∷ s) [] h = cc
text_lt-asym (a ∷ s) (b ∷ t) h = let later = text_lt-asym s t in ground (arith, later)

text_lt_trans : (r s t : Text) → text_lt r s ≡ true → text_lt s t ≡ true → text_lt r t ≡ true
unfolding text_lt
text_lt_trans [] [] t h k = cc
text_lt_trans [] (b ∷ s) [] h k = cc
text_lt_trans [] (b ∷ s) (c ∷ t) h k = refl
text_lt_trans (a ∷ r) [] t h k = cc
text_lt_trans (a ∷ r) (b ∷ s) [] h k = cc
text_lt_trans (a ∷ r) (b ∷ s) (c ∷ t) h k = let later = text_lt_trans r s t in ground (arith, later)

module _ {ℓ} {A : Type ℓ} (key : A → Text) where
  unfoldable pub insert_sorted : A → List A → List A
  insert_sorted a [] = a ∷ []
  insert_sorted a (b ∷ sorted) =
      let later = insert_sorted a sorted in
      if text_lt (key a) (key b) then a ∷ b ∷ sorted else b ∷ later

  unfoldable pub sort_by : List A → List A
  unfolding insert_sorted
  sort_by [] = []
  sort_by (a ∷ items) = insert_sorted a (sort_by items)

  -- No two entries have the same key.
  abbrev pub DistinctKeys : List A → Type 0
  DistinctKeys [] = Unit
  DistinctKeys (a ∷ items) = All (λ b. key a ≢ key b) items × DistinctKeys items

  insert_sorted-lt :
      (a b : A) (sorted : List A)
      → text_lt (key a) (key b) ≡ true
      → insert_sorted a (insert_sorted b sorted) ≡ insert_sorted b (insert_sorted a sorted)
  unfolding insert_sorted
  insert_sorted-lt a b [] h = rw h (rw (text_lt-asym (key a) (key b) h))
  insert_sorted-lt a b (c ∷ sorted) h =
      let back = text_lt-asym (key a) (key b) h in
      let later = insert_sorted-lt a b sorted h in
      elim (Bool-cases (text_lt (key b) (key c))) [
        | inl k ↦ rw (k, h, text_lt_trans (key a) (key b) (key c) h k, back, k)
        | inr k ↦ elim (Bool-cases (text_lt (key a) (key c))) [
          | inl m ↦ rw (k, m, back, k)
          | inr m ↦ rw (k, m, k) (ap (◌∷◌ c) later)
        ]
      ]

  insert_sorted_comm :
      (a b : A) (sorted : List A)
      → key a ≢ key b
      → insert_sorted a (insert_sorted b sorted) ≡ insert_sorted b (insert_sorted a sorted)
  insert_sorted_comm a b sorted n = elim (Bool-cases (text_lt (key a) (key b))) [
    | inl h ↦ insert_sorted-lt a b sorted h
    | inr h ↦ sym (insert_sorted-lt b a sorted (text_lt-total (key a) (key b) n h))
  ]

  Permᴰ-All :
      {xs ys : List A} (a : A)
      → Permᴰ xs ys
      → All (λ b. key a ≢ key b) xs
      → All (λ b. key a ≢ key b) ys
  Permᴰ-All a Permᴰ.nil d = tt
  Permᴰ-All a (Permᴰ.cons e p) d = (λ k. d.0 (k ∙ ap key (sym e)), Permᴰ-All a p d.1)
  Permᴰ-All a (Permᴰ.swap e f) d =
      (λ k. d.1.0 (k ∙ ap key (sym f)), (λ k. d.0 (k ∙ ap key (sym e)), d.1.1))
  Permᴰ-All a (Permᴰ.trans p q) d = Permᴰ-All a q (Permᴰ-All a p d)

  All-same :
      {a b : A} (ys : List A) → a ≡ b → All (λ c. key a ≢ key c) ys → All (λ c. key b ≢ key c) ys
  All-same [] e d = tt
  All-same (y ∷ ys) e d = (λ k. d.0 (ap key e ∙ k), All-same ys e d.1)

  Permᴰ-DistinctKeys : {xs ys : List A} → Permᴰ xs ys → DistinctKeys xs → DistinctKeys ys
  Permᴰ-DistinctKeys Permᴰ.nil d = tt
  Permᴰ-DistinctKeys (Permᴰ.cons {l₂ = l₂} e p) d =
      (All-same l₂ e (Permᴰ-All _ p d.0), Permᴰ-DistinctKeys p d.1)
  Permᴰ-DistinctKeys (Permᴰ.swap {l = l} e f) d = (
    (λ k. d.0.0 (ap key e ∙ (sym k ∙ ap key (sym f))), All-same l f d.1.0),
    (All-same l e d.0.1, d.1.1),
  )
  Permᴰ-DistinctKeys (Permᴰ.trans p q) d = Permᴰ-DistinctKeys q (Permᴰ-DistinctKeys p d)

  -- Sorting forgets the order, when the keys differ.
  pub sort_by-Perm : {xs ys : List A} → Permᴰ xs ys → DistinctKeys xs → sort_by xs ≡ sort_by ys
  unfolding sort_by
  sort_by-Perm Permᴰ.nil d = refl
  sort_by-Perm (Permᴰ.cons e p) d = rw (e, sort_by-Perm p d.1)
  sort_by-Perm (Permᴰ.swap e f) d = rw (sym e, sym f) (insert_sorted_comm _ _ _ d.0.0)
  sort_by-Perm (Permᴰ.trans p q) d = sort_by-Perm p d ∙ sort_by-Perm q (Permᴰ-DistinctKeys p d)

  pub All-insert_sorted {κ} :
      (P : A → Type κ) (a : A) (sorted : List A)
      → P a
      → All P sorted
      → All P (insert_sorted a sorted)
  unfolding insert_sorted
  All-insert_sorted P a [] h hs = (h, tt)
  All-insert_sorted P a (b ∷ sorted) h hs =
      let later = All-insert_sorted P a sorted h hs.1 in
      elim (Bool-cases (text_lt (key a) (key b))) [
        | inl e ↦ rw e (h, hs)
        | inr e ↦ rw e (hs.0, later)
      ]

  pub All-sort_by {κ} : (P : A → Type κ) (items : List A) → All P items → All P (sort_by items)
  unfolding sort_by
  All-sort_by P [] h = tt
  All-sort_by P (a ∷ items) h = All-insert_sorted P a (sort_by items) h.0 (All-sort_by P items h.1)

  -- Every key is less than the later ones.
  abbrev pub Ascending : List A → Type 0
  Ascending [] = Unit
  Ascending (a ∷ items) = All (λ b. text_lt (key a) (key b) ≡ true) items × Ascending items

  All-lt_trans :
      (a b : A) (items : List A)
      → text_lt (key a) (key b) ≡ true
      → All (λ c. text_lt (key b) (key c) ≡ true) items
      → All (λ c. text_lt (key a) (key c) ≡ true) items
  All-lt_trans a b [] h hs = tt
  All-lt_trans a b (c ∷ items) h hs =
      (text_lt_trans (key a) (key b) (key c) h hs.0, All-lt_trans a b items h hs.1)

  insert_sorted-Ascending :
      (a : A) (sorted : List A)
      → All (λ b. key a ≢ key b) sorted
      → Ascending sorted
      → Ascending (insert_sorted a sorted)
  unfolding insert_sorted
  insert_sorted-Ascending a [] d h = (tt, tt)
  insert_sorted-Ascending a (b ∷ sorted) d h = elim (Bool-cases (text_lt (key a) (key b))) [
    | inl e ↦ rw e ((e, All-lt_trans a b sorted e h.0), h)
    | inr e ↦
        let below = text_lt-total (key a) (key b) d.0 e in
        rw e (
          All-insert_sorted (λ c. text_lt (key b) (key c) ≡ true) a sorted below h.0,
          insert_sorted-Ascending a sorted d.1 h.1,
        )
  ]

  pub sort_by-Ascending : (items : List A) → DistinctKeys items → Ascending (sort_by items)
  unfolding sort_by
  sort_by-Ascending [] d = tt
  sort_by-Ascending (a ∷ items) d =
      insert_sorted-Ascending a (sort_by items) (All-sort_by (λ b. key a ≢ key b) items d.0)
        (sort_by-Ascending items d.1)
