-- ===== src/Suite/Labels/Search.antt =====
-- The search for a free label in specs/scope_report_labels.go ends.
use go_specs.Prelude.{
  ℕ, zero, suc, ◌<◌, ◌≤◌, ◌≡◌, ◌≢◌, refl, ap, subst, ◌==◌, ◌∙◌, true, false, none, some, List, [],
  ◌∷◌, ◌++◌, arith, length, if◌then◌else◌, Bool-cases, inl, inr, Option-cases,
}
use go_specs.Prelude.Text.{Text, text_eq, itoa}
use go_specs.Prelude.Text.Decimal.{itoa-injective}
use go_specs.Prelude.Text.Pieces.{text_eq_iff}
use go_specs.Suite.Labels.{mem_text, candidate, first_free}

append_cancel : (n s t : Text) → n ++ s ≡ n ++ t → s ≡ t
append_cancel [] s t h = h
append_cancel (c ∷ n) s t h = append_cancel n s t (ground arith)

candidate-injective : (n : Text) (j k : ℕ) → candidate n j ≡ candidate n k → j ≡ k
candidate-injective n j k h =
    itoa-injective j k
      (let cut : b'#' ∷ itoa j ≡ b'#' ∷ itoa k = append_cancel n _ _ h in ground arith)

erase : Text → List Text → List Text
erase t [] = []
erase t (x ∷ xs) = if text_eq x t then xs else x ∷ erase t xs

length-erase_lt :
    (t : Text) (xs : List Text) → mem_text t xs ≡ true → suc (length (erase t xs)) ≤ length xs
unfolding mem_text erase
length-erase_lt t [] h = cc
length-erase_lt t (x ∷ xs) h = ground (arith, length-erase_lt t xs)

mem-erase : (t u : Text) (xs : List Text) → t ≢ u → mem_text u (erase t xs) ≡ mem_text u xs
unfolding mem_text erase
mem-erase t u [] h = refl
mem-erase t u (x ∷ xs) h = ground (arith, mem-erase t u xs h, text_eq_iff x t, text_eq_iff x u)

first_free-erase :
    (fuel : ℕ) (taken : List Text) (n : Text) (j k : ℕ)
    → j < k
    → first_free fuel (erase (candidate n j) taken) n k ≡ first_free fuel taken n k
unfolding first_free
first_free-erase zero taken n j k h = refl
first_free-erase (suc fuel) taken n j k h = rw (
  mem-erase (candidate n j) (candidate n k) taken
      (λ e. absurd (omega (arith, candidate-injective n j k e))),
  first_free-erase fuel taken n j (suc k) (omega arith),
)

-- A search that fails has met as many taken labels as it made rounds.
first_free-none :
    (fuel : ℕ) (taken : List Text) (n : Text) (k : ℕ)
    → first_free fuel taken n k ≡ none
    → fuel ≤ length taken
first_free-none zero taken n k h = omega arith
first_free-none (suc fuel) taken n k h = elim (Bool-cases (mem_text (candidate n k) taken)) [
  | inl m ↦
      let less : first_free fuel (erase (candidate n k) taken) n (suc k) ≡ none =
        first_free-erase fuel taken n k (suc k) (omega arith)
        ∙ (unfold first_free in ground arith) in
      omega (
        arith,
        first_free-none fuel (erase (candidate n k) taken) n (suc k) less,
        length-erase_lt (candidate n k) taken m,
      )
  | inr m ↦ absurd (unfold first_free in ground arith)
]

-- What is found is not taken.
pub first_free-free :
    (fuel : ℕ) (taken : List Text) (n : Text) (k : ℕ) (label : Text)
    → first_free fuel taken n k ≡ some label
    → mem_text label taken ≡ false
unfolding first_free
first_free-free zero taken n k label h = cc
first_free-free (suc fuel) taken n k label h =
    ground (arith, first_free-free fuel taken n (suc k) label)

-- With one round more than there are taken labels, a free one is found.
pub first_free_total :
    (taken : List Text) (n : Text) (k : ℕ)
    → (label : Text) × (first_free (suc (length taken)) taken n k ≡ some label)
first_free_total taken n k = elim (Option-cases (first_free (suc (length taken)) taken n k)) [
  | inl h ↦ absurd (omega (arith, first_free-none (suc (length taken)) taken n k h))
  | inr found ↦ found
]

-- What is found is the first candidate from k on that is not taken.
first_free-first :
    (fuel : ℕ) (taken : List Text) (n : Text) (k : ℕ) (label : Text)
    → first_free fuel taken n k ≡ some label
    → (j : ℕ) × (k ≤ j)
      × (label ≡ candidate n j)
      × (mem_text (candidate n j) taken ≡ false)
      × ((i : ℕ) → k ≤ i → i < j → mem_text (candidate n i) taken ≡ true)
unfolding first_free
first_free-first zero taken n k label h = absurd cc
first_free-first (suc fuel) taken n k label h = elim (Bool-cases (mem_text (candidate n k) taken)) [
  | inl m ↦
      let (j, above, same, free, others) =
        first_free-first fuel taken n (suc k) label (rw m at h) in
      (
        j,
        omega arith,
        same,
        free,
        λ i low high. elim (Bool-cases (i == k)) [
          | inl e ↦
              let here : k ≡ i = ground arith in
              subst (λ (x : ℕ). mem_text (candidate n x) taken ≡ true) here m
          | inr e ↦ others i (ground arith) high
        ],
      )
  | inr m ↦
      let found : some (candidate n k) ≡ some label = rw m at h in
      let same : label ≡ candidate n k = cc in
      (k, omega arith, same, m, λ i low high. absurd (omega arith))
]

-- With one round more than there are taken labels, the search from k on gives a label, and it is the
-- first of the numbered candidates from k on that is not taken: that one is free, and all candidates
-- between are taken.
pub first_free_least :
    (taken : List Text) (n : Text) (k : ℕ)
    → (j : ℕ) × (k ≤ j)
      × (first_free (suc (length taken)) taken n k ≡ some (candidate n j))
      × (mem_text (candidate n j) taken ≡ false)
      × ((i : ℕ) → k ≤ i → i < j → mem_text (candidate n i) taken ≡ true)
first_free_least taken n k =
    let (label, found) = first_free_total taken n k in
    let (j, above, same, free, others) =
      first_free-first (suc (length taken)) taken n k label found in
    (j, above, found ∙ ap some same, free, others)
