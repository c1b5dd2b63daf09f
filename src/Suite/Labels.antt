-- ===== src/Suite/Labels.antt =====
-- specs/scope_report_labels.go and specs/subtest_identity.go: the names of scopes in reports.
-- A Go map that counts is the list of what was counted, and a set is the list of its members.
pub mod Search
pub mod Unique
use go_specs.Prelude.{
  ℕ, zero, suc, ◌+◌, Bool, true, false, ◌&&◌, ◌||◌, not, Option, none, some, List, [], ◌∷◌, ◌++◌, ℤ,
  eq_ℤ, ◌==◌, ltb, leb, length, get_elem?, set, map, if◌then◌else◌,
}
use go_specs.Prelude.Text.{Text, codes, text_eq, itoa}

-- joinSubtestPath
unfoldable pub join_subtest_path : List Text → Text → Text
join_subtest_path [] leaf = leaf
join_subtest_path ([] ∷ scopes) leaf = join_subtest_path scopes leaf
join_subtest_path ((c ∷ s) ∷ scopes) leaf = (c ∷ s) ++ b'/' ∷ join_subtest_path scopes leaf

unfoldable pub mem_text : Text → List Text → Bool
mem_text t [] = false
mem_text t (x ∷ xs) = text_eq x t || mem_text t xs

unfoldable pub is_empty : Text → Bool
is_empty [] = true
is_empty (c ∷ s) = false

-- Whether a name that is not empty stands twice.
has_duplicate : List Text → List Text → Bool
unfolding is_empty
has_duplicate counted [] = false
has_duplicate counted (n ∷ names) =
    let rest = has_duplicate (n ∷ counted) names in
    let skipped = has_duplicate counted names in
    if is_empty n then skipped else (mem_text n counted || rest)

-- The k-th candidate.
abbrev pub candidate : Text → ℕ → Text
candidate n k = n ++ b'#' ∷ itoa k

-- `for k := 2; ; k++`, in at most `fuel` rounds; `none` means that they ran out
unfoldable pub first_free : ℕ → List Text → Text → ℕ → Option Text
first_free zero taken n k = none
first_free (suc fuel) taken n k =
    let rest = first_free fuel taken n (suc k) in
    if mem_text (candidate n k) taken then rest else some (candidate n k)

cons_label : Text → Option (List Text) → Option (List Text)
cons_label t none = none
cons_label t (some labels) = some (t ∷ labels)

-- The second loop of disambiguateSiblingNames.
unfoldable pub assign_labels : List Text → List Text → List Text → List Text → Option (List Text)
unfolding is_empty cons_label
assign_labels literal seen assigned [] = some []
assign_labels literal seen assigned (n ∷ names) =
    let skip = cons_label [] (assign_labels literal seen assigned names) in
    let first = cons_label n (assign_labels literal (n ∷ seen) (n ∷ assigned) names) in
    let free = first_free (suc (length (literal ++ assigned))) (literal ++ assigned) n 2 in
    let next : Option (List Text) = elim free [
      | none ↦ none
      | some label ↦ cons_label label (assign_labels literal (n ∷ seen) (label ∷ assigned) names)
    ] in
    if is_empty n then skip else (if mem_text n seen then next else first)

-- disambiguateSiblingNames: the labels, if there is anything to rename
unfoldable pub disambiguate_sibling_names : List Text → Option (List Text)
unfolding has_duplicate
disambiguate_sibling_names names =
    if ltb (length names) 2
    then none
    else if has_duplicate [] names
    then assign_labels names [] [] names
    else none

-- `labels[id] = resolved[i]`
write_labels : List Text → List ℕ → List Text → List Text
write_labels labels (id ∷ ids) (label ∷ resolved) = write_labels (set labels id label) ids resolved
write_labels labels _ _ = labels

names_at : List Text → List ℕ → List Text
names_at names [] = []
names_at names (id ∷ ids) =
    let rest = names_at names ids in
    elim (get_elem? names id) [ none ↦ [] ∷ rest | some n ↦ n ∷ rest ]

-- applySiblingLabels
unfoldable pub apply_sibling_labels : List Text → List Text → List ℕ → List Text
unfolding write_labels names_at
apply_sibling_labels labels names ids =
    if ltb (length ids) 2 then labels else elim (disambiguate_sibling_names (names_at names ids)) [
      | none ↦ labels
      | some resolved ↦ write_labels labels ids resolved
    ]

-- `childrenByParent[p] = append(childrenByParent[p], id)`
add_child : ℤ → ℕ → List (ℤ × List ℕ) → List (ℤ × List ℕ)
add_child p id [] = (p, id ∷ []) ∷ []
add_child p id ((q, ids) ∷ rest) =
    if eq_ℤ q p then (q, ids ++ id ∷ []) ∷ rest else (q, ids) ∷ add_child p id rest

children_by_parent : ℕ → List ℤ → List (ℤ × List ℕ) → List (ℤ × List ℕ)
unfolding add_child
children_by_parent id [] children = children
children_by_parent id (p ∷ parents) children =
    children_by_parent (suc id) parents (add_child p id children)

-- The groups of siblings are disjoint, so their order does not matter.
label_groups : List Text → List Text → List (ℤ × List ℕ) → List Text
label_groups labels names [] = labels
label_groups labels names ((p, ids) ∷ rest) =
    label_groups (apply_sibling_labels labels names ids) names rest

-- computeScopeLabels
unfoldable pub compute_scope_labels : List ℤ → List Text → List Text
unfolding children_by_parent label_groups
compute_scope_labels scope_parent scope_name =
    label_groups scope_name scope_name (children_by_parent 0 scope_parent [])

-- resolveScopeIDs
unfoldable pub resolve_scope_ids : List ℕ → List Text → List Text
unfolding is_empty
resolve_scope_ids [] labels = []
resolve_scope_ids (id ∷ ids) labels =
    let rest = resolve_scope_ids ids labels in
    elim (get_elem? labels id) [
      | none ↦ rest
      | some label ↦ if is_empty label then rest else label ∷ rest
    ]
