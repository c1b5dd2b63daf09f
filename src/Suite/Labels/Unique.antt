-- ===== src/Suite/Labels/Unique.antt =====
-- The labels that specs/scope_report_labels.go gives to sibling scopes.
use go_specs.Prelude.{
  ℕ, zero, suc, ◌≡◌, refl, ◌⊎◌, inl, inr, true, false, ◌||◌, none, some, List, [], ◌∷◌, ◌++◌,
  append_assoc, ◌∙◌, arith, All, length, Bool-cases, ltb,
}
use mathlib.Core.Path.{subst}
use go_specs.Prelude.Text.{Text}
use go_specs.Prelude.Text.Pieces.{text_eq_iff}
use go_specs.Suite.Labels.{
  mem_text, candidate, first_free, assign_labels, has_duplicate, disambiguate_sibling_names,
}
use go_specs.Suite.Labels.Search.{first_free_total, first_free-free}

-- No label that is not empty stands twice, or in `assigned`.
abbrev pub AreDistinct : List Text → List Text → Type 0
AreDistinct assigned [] = Unit
AreDistinct assigned ([] ∷ labels) = AreDistinct assigned labels
AreDistinct assigned ((c ∷ s) ∷ labels) =
    (mem_text (c ∷ s) assigned ≡ false) × AreDistinct ((c ∷ s) ∷ assigned) labels

-- An empty name stays empty, the first scope of a name keeps it, and a later one has a number.
abbrev pub AreLabels : List Text → List Text → List Text → Type 0
AreLabels seen [] [] = Unit
AreLabels seen [] (l ∷ labels) = ⊥
AreLabels seen (n ∷ names) [] = ⊥
AreLabels seen ([] ∷ names) (l ∷ labels) = (l ≡ []) × AreLabels seen names labels
AreLabels seen ((c ∷ s) ∷ names) (l ∷ labels) =
    (((mem_text (c ∷ s) seen ≡ false) × (l ≡ c ∷ s))
      ⊎ ((mem_text (c ∷ s) seen ≡ true) × ((k : ℕ) × (l ≡ candidate (c ∷ s) k))))
    × AreLabels ((c ∷ s) ∷ seen) names labels

mem-append :
    (t : Text) (xs ys : List Text) → mem_text t (xs ++ ys) ≡ (mem_text t xs || mem_text t ys)
unfolding mem_text
mem-append t [] ys = refl
mem-append t (x ∷ xs) ys = ground (arith, mem-append t xs ys)

first_free-candidate :
    (fuel : ℕ) (taken : List Text) (n : Text) (k : ℕ) (label : Text)
    → first_free fuel taken n k ≡ some label
    → (j : ℕ) × (label ≡ candidate n j)
unfolding first_free
first_free-candidate zero taken n k label h = cc
first_free-candidate (suc fuel) taken n k label h =
    elim (Bool-cases (mem_text (candidate n k) taken)) [
      | inl m ↦ first_free-candidate fuel taken n (suc k) label (ground arith)
      | inr m ↦ (k, ground arith)
    ]

-- An assigned label that is some scope's name was seen as a name.
abbrev IsKept : List Text → List Text → List Text → Type 0
IsKept literal seen assigned =
    (t : Text) → mem_text t assigned ≡ true → mem_text t literal ≡ true → mem_text t seen ≡ true

abbrev Labelling : List Text → List Text → List Text → List Text → Type 0
Labelling literal seen assigned names =
    (labels : List Text) × (assign_labels literal seen assigned names ≡ some labels)
    × AreDistinct assigned labels
    × AreLabels seen names labels

keep_first :
    (literal seen assigned : List Text) (n : Text)
    → IsKept literal seen assigned
    → IsKept literal (n ∷ seen) (n ∷ assigned)
unfolding mem_text
keep_first literal seen assigned n h t a l = ground (arith, h t)

keep_next :
    (literal seen assigned : List Text) (n label : Text)
    → mem_text label literal ≡ false
    → IsKept literal seen assigned
    → IsKept literal (n ∷ seen) (label ∷ assigned)
unfolding mem_text
keep_next literal seen assigned n label f h t a l = ground (arith, h t, text_eq_iff label t)

not_assigned :
    (literal seen assigned : List Text) (t : Text)
    → IsKept literal seen assigned
    → mem_text t literal ≡ true
    → mem_text t seen ≡ false
    → mem_text t assigned ≡ false
not_assigned literal seen assigned t h l f = ground (arith, h t)

module _ (literal seen assigned names : List Text) (c : ℕ) (s : Text) {labels : List Text} where
  assign-empty :
      assign_labels literal seen assigned names ≡ some labels
      → assign_labels literal seen assigned ([] ∷ names) ≡ some ([] ∷ labels)
  unfolding assign_labels
  assign-empty e = rw e

  assign-first :
      mem_text (c ∷ s) seen ≡ false
      → assign_labels literal ((c ∷ s) ∷ seen) ((c ∷ s) ∷ assigned) names ≡ some labels
      → assign_labels literal seen assigned ((c ∷ s) ∷ names) ≡ some ((c ∷ s) ∷ labels)
  unfolding assign_labels
  assign-first m e = rw (m, e)

  assign-next :
      (label : Text)
      → mem_text (c ∷ s) seen ≡ true
      → first_free (suc (length (literal ++ assigned))) (literal ++ assigned) (c ∷ s) 2 ≡ some label
      → assign_labels literal ((c ∷ s) ∷ seen) (label ∷ assigned) names ≡ some labels
      → assign_labels literal seen assigned ((c ∷ s) ∷ names) ≡ some (label ∷ labels)
  unfolding assign_labels
  assign-next label m f e = rw (m, f) (rw e)

candidate_filled : (n : Text) (j : ℕ) → ¬ (◌≡◌ {A = Text} [] (candidate n j))
candidate_filled [] j e = cc
candidate_filled (c ∷ n) j e = cc

candidate-distinct :
    (n : Text) (j : ℕ) (label : Text) (assigned labels : List Text)
    → label ≡ candidate n j
    → mem_text label assigned ≡ false
    → AreDistinct (label ∷ assigned) labels
    → AreDistinct assigned (label ∷ labels)
candidate-distinct n j [] assigned labels e f d = absurd (candidate_filled n j e)
candidate-distinct n j (c ∷ s) assigned labels e f d = (f, d)

assign_labels-AreLabels :
    (literal seen assigned names : List Text)
    → All (λ n. mem_text n literal ≡ true) names
    → IsKept literal seen assigned
    → Labelling literal seen assigned names
assign_labels-AreLabels literal seen assigned [] all kept =
    ([], unfold assign_labels in refl, tt, tt)
assign_labels-AreLabels literal seen assigned ([] ∷ names) all kept =
    let (labels, e, d, a) = assign_labels-AreLabels literal seen assigned names all.1 kept in
    ([] ∷ labels, assign-empty literal seen assigned names 0 [] e, d, (refl, a))
assign_labels-AreLabels literal seen assigned ((c ∷ s) ∷ names) all kept =
    let n : Text = c ∷ s in
    elim (Bool-cases (mem_text n seen)) [
      | inl m ↦
          let (label, found) = first_free_total (literal ++ assigned) n 2 in
          let (j, named) =
            first_free-candidate (suc (length (literal ++ assigned))) (literal ++ assigned) n 2
              label found in
          let free =
            first_free-free (suc (length (literal ++ assigned))) (literal ++ assigned) n 2 label
              found in
          let apart = mem-append label literal assigned in
          let unused : mem_text label literal ≡ false = ground arith in
          let fresh : mem_text label assigned ≡ false = ground arith in
          let (labels, e, d, a) =
            assign_labels-AreLabels literal (n ∷ seen) (label ∷ assigned) names all.1
              (keep_next literal seen assigned n label unused kept) in
          (
            label ∷ labels,
            assign-next literal seen assigned names c s label m found e,
            candidate-distinct n j label assigned labels named fresh d,
            (inr (m, (j, named)), a),
          )
      | inr m ↦
          let (labels, e, d, a) =
            assign_labels-AreLabels literal (n ∷ seen) (n ∷ assigned) names all.1
              (keep_first literal seen assigned n kept) in
          (
            n ∷ labels,
            assign-first literal seen assigned names c s m e,
            (not_assigned literal seen assigned n kept all.0 m, d),
            (inl (m, refl), a),
          )
    ]

All-mem_self : (pre names : List Text) → All (λ n. mem_text n (pre ++ names) ≡ true) names
All-mem_self pre [] = tt
All-mem_self pre (n ∷ names) =
    let here : mem_text n (pre ++ n ∷ names) ≡ true =
      unfold mem_text in ground (arith, mem-append n pre (n ∷ names), (text_eq_iff n n).1 refl) in
    (
      here,
      subst (λ literal. All (λ m. mem_text m literal ≡ true) names)
          (append_assoc pre (n ∷ []) names) (All-mem_self (pre ++ n ∷ []) names),
    )

has_duplicate-distinct :
    (counted names : List Text) → has_duplicate counted names ≡ false → AreDistinct counted names
unfolding has_duplicate
has_duplicate-distinct counted [] h = tt
has_duplicate-distinct counted ([] ∷ names) h = has_duplicate-distinct counted names h
has_duplicate-distinct counted ((c ∷ s) ∷ names) h =
    (ground arith, has_duplicate-distinct ((c ∷ s) ∷ counted) names (ground arith))

few-distinct : (names : List Text) → ltb (length names) 2 ≡ true → AreDistinct [] names
unfolding mem_text
few-distinct [] h = tt
few-distinct ([] ∷ []) h = tt
few-distinct ((c ∷ s) ∷ []) h = (refl, tt)
few-distinct (n ∷ m ∷ names) h = absurd (ground arith)

disambiguate_cases :
    (names : List Text)
    → ((disambiguate_sibling_names names ≡ none) × AreDistinct [] names)
      ⊎ (disambiguate_sibling_names names ≡ assign_labels names [] [] names)
disambiguate_cases names = elim (Bool-cases (ltb (length names) 2)) [
  | inl few ↦ inl (unfold disambiguate_sibling_names in rw few, few-distinct names few)
  | inr many ↦ elim (Bool-cases (has_duplicate [] names)) [
    | inl twice ↦ inr (unfold disambiguate_sibling_names in ground arith)
    | inr once ↦
        inl
          (unfold disambiguate_sibling_names in ground arith, has_duplicate-distinct [] names once)
  ]
]

-- Either nothing is renamed, and then no two names that are not empty are equal; or there is a
-- label for each: an empty name stays empty, the first scope of a name keeps it, each later one gets
-- the name with `#` and a number, and no two labels that are not empty are equal, also where a
-- literal name looks like a numbered one.
pub disambiguate_unique :
    (names : List Text)
    → ((disambiguate_sibling_names names ≡ none) × AreDistinct [] names)
      ⊎ ((labels : List Text) × (disambiguate_sibling_names names ≡ some labels)
          × AreDistinct [] labels
          × AreLabels [] names labels)
disambiguate_unique names =
    let (labels, e, d, a) =
      assign_labels-AreLabels names [] [] names (All-mem_self [] names)
        (λ t m l. unfold mem_text in cc) in
    elim (disambiguate_cases names) [
      | inl same ↦ inl same
      | inr renamed ↦ inr (labels, renamed ∙ e, d, a)
    ]
