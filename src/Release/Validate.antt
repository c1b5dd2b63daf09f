-- ===== src/Release/Validate.antt =====
-- tools/release/validate.go: the categories of the section `## [Unreleased]`.
pub mod Order
use go_specs.Prelude.{
  ℕ, zero, suc, Bool, true, false, not, ◌||◌, Option, none, some, List, [], ◌∷◌, map, ltb, ◌==◌,
  if◌then◌else◌,
}
use go_specs.Prelude.Fallible.{Fallible, err, ok}
use go_specs.Prelude.Text.{Text, codes, text_eq, trim_space, cut_prefix, has_prefix, split}
use go_specs.Release.Headings.{is_heading}
use go_specs.Release.Changelog.{ChangelogError, no_unreleased_heading, find_unreleased}

unfoldable pub changelog_categories : List Text
changelog_categories =
    map codes ("Added" ∷ "Changed" ∷ "Deprecated" ∷ "Removed" ∷ "Fixed" ∷ "Security" ∷ [])

index_from : ℕ → Text → List Text → Option ℕ
unfolding text_eq
index_from i name [] = none
index_from i name (c ∷ categories) =
    let later = index_from (suc i) name categories in if text_eq c name then some i else later

-- `none` for the source's -1
unfoldable pub category_index : Text → Option ℕ
unfolding index_from changelog_categories
category_index name = index_from 0 name changelog_categories

-- What a line of the section is.
pub data LineKind : Type 0 where
  fence : LineKind
  section : LineKind
  category : ℕ → LineKind
  prose : LineKind

kind_of_index : Option ℕ → LineKind
kind_of_index none = prose
kind_of_index (some i) = category i

kind_of_name : Option Text → LineKind
unfolding kind_of_index category_index trim_space
kind_of_name none = prose
kind_of_name (some name) = kind_of_index (category_index (trim_space name))

unfoldable pub line_kind : Text → LineKind
unfolding kind_of_name has_prefix cut_prefix
line_kind l =
    if has_prefix l (codes "```") || has_prefix l (codes "~~~")
    then fence
    else if is_heading l
    then section
    else kind_of_name (cut_prefix l (codes "### "))

-- The numbers are those of the categories.
pub data Problem : Type 0 where
  appears_twice : ℕ → Problem
  must_come_before : ℕ → ℕ → Problem

-- The categories seen, and the last one that stood in order.
pub record Seen : Type 0 where
  pub seen : List ℕ
  pub last : Option ℕ

is_seen : ℕ → List ℕ → Bool
is_seen i [] = false
is_seen i (j ∷ seen) = j == i || is_seen i seen

place_after : ℕ → Seen → Option ℕ → Option Problem × Seen
place_after i s none = (none, record { seen = i ∷ s.seen; last = some i })
place_after i s (some last) =
    if ltb i last
    then (some (must_come_before i last), record s { seen = i ∷ s.seen })
    else (none, record { seen = i ∷ s.seen; last = some i })

-- One recognized heading.
note_category : ℕ → Seen → Option Problem × Seen
unfolding is_seen place_after
note_category i s = if is_seen i s.seen then (some (appears_twice i), s) else place_after i s s.last

reported : Option Problem → List Problem → List Problem
reported none problems = problems
reported (some p) problems = p ∷ problems

-- The loop over the lines.
unfoldable pub check_lines : Bool → Seen → List LineKind → List Problem
unfolding note_category reported
check_lines fenced s [] = []
check_lines fenced s (fence ∷ lines) = check_lines (not fenced) s lines
check_lines true s (section ∷ lines) = check_lines true s lines
check_lines false s (section ∷ lines) = []
check_lines fenced s (prose ∷ lines) = check_lines fenced s lines
check_lines true s (category i ∷ lines) = check_lines true s lines
check_lines false s (category i ∷ lines) =
    let (problem, t) = note_category i s in reported problem (check_lines false t lines)

check_section : Option (List Text × List Text) → Fallible ChangelogError (List Problem)
unfolding check_lines line_kind
check_section none = err no_unreleased_heading
check_section (some (before, after)) =
    ok (check_lines false (record { seen = []; last = none }) (map line_kind after))

-- The problems that the error joins; none is no error.
unfoldable pub validate_unreleased : Text → Fallible ChangelogError (List Problem)
unfolding check_section find_unreleased split
validate_unreleased content = check_section (find_unreleased (split 10 content))
