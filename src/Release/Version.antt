-- ===== src/Release/Version.antt =====
-- tools/release/version.go: the next version from the commits since the last tag. An int is 64 bits wide.
pub mod Next
pub mod Hotfix
use go_specs.Prelude.{
  ℕ, zero, suc, ◌-◌, ◌^◌, Bool, true, false, ◌&&◌, Option, none, some, List, [], ◌∷◌, ◌++◌, ℤ, pos,
  negsuc, ltb, ◌==◌, eq_ℤ, if◌then◌else◌,
}
use go_specs.Prelude.Fallible.{Fallible, err, ok, and_then}
use go_specs.Prelude.Text.{
  Text, is_blank, codes, trim_space, cut, cut_prefix, split, is_digit, atoi, itoa,
}
use go_specs.Release.Commits.{
  CommitKind, kind_other, kind_feat, kind_breaking, classify_commit, commit_subject,
}

pub record Version : Type 0 where
  pub major : ℤ
  pub minor : ℤ
  pub patch : ℤ

pub data VersionError : Type 0 where
  not_semver : Text → VersionError
  out_of_range : Text → VersionError
  nothing_releasable : VersionError
  disallowed_commits : List Text → VersionError

all_digits : Text → Bool
unfolding is_digit
all_digits [] = true
all_digits (c ∷ s) = is_digit c && all_digits s

-- \d+
is_number : Text → Bool
unfolding all_digits
is_number [] = false
is_number (c ∷ s) = all_digits (c ∷ s)

three_numbers : Text → Option (Text × Text) → Option (Text × (Text × Text))
unfolding is_number
three_numbers major none = none
three_numbers major (some (minor, patch)) =
    if is_number major && (is_number minor && is_number patch)
    then some (major, (minor, patch))
    else none

two_dots : Option (Text × Text) → Option (Text × (Text × Text))
unfolding three_numbers cut
two_dots none = none
two_dots (some (major, rest)) = three_numbers major (cut b'.' rest)

after_v : Option Text → Option (Text × (Text × Text))
unfolding two_dots cut
after_v none = none
after_v (some rest) = two_dots (cut b'.' rest)

-- strictSemver
unfoldable pub strict_semver : Text → Option (Text × (Text × Text))
unfolding after_v cut_prefix
strict_semver tag = after_v (cut_prefix tag (b'v' ∷ []))

in_range : Text → Option ℤ → Fallible VersionError ℤ
in_range s none = err (out_of_range s)
in_range s (some n) = ok n

number : Text → Fallible VersionError ℤ
unfolding atoi in_range
number s = in_range s (atoi s)

numbers : Text → Option (Text × (Text × Text)) → Fallible VersionError Version
unfolding number and_then
numbers tag none = err (not_semver tag)
numbers tag (some (major, (minor, patch))) = and_then (number major) (λ a.
    and_then (number minor)
      (λ b. and_then (number patch) (λ c. ok (record { major = a; minor = b; patch = c }))))

unfoldable pub parse_last_tag : Text → Fallible VersionError Version
unfolding numbers strict_semver
parse_last_tag tag = numbers tag (strict_semver tag)

-- n + 1, which wraps at 64 bits
unfoldable pub next_int : ℤ → ℤ
next_int (pos n) = if ltb (suc n) (2 ^ 63) then pos (suc n) else negsuc (2 ^ 63 - 1)
next_int (negsuc zero) = pos 0
next_int (negsuc (suc n)) = negsuc n

itoa_int : ℤ → Text
unfolding itoa
itoa_int (pos n) = itoa n
itoa_int (negsuc n) = b'-' ∷ itoa (suc n)

unfoldable pub format_tag : Version → Text
unfolding itoa_int
format_tag v = b'v' ∷ (itoa_int v.major ++ b'.' ∷ (itoa_int v.minor ++ b'.' ∷ itoa_int v.patch))

recognize : Text → Option CommitKind → List (Text × CommitKind) → List (Text × CommitKind)
recognize msg none later = later
recognize msg (some kind) later = (msg, kind) ∷ later

-- The records that the loops of both functions do not skip, with their kinds.
unfoldable pub recognized : List Text → List (Text × CommitKind)
unfolding is_blank recognize classify_commit
recognized [] = []
recognized (raw ∷ records) =
    let msg = trim_space raw in
    let later = recognized records in
    if is_blank msg then later else recognize msg (classify_commit msg) later

unfoldable pub rank : CommitKind → ℕ
rank kind_other = 0
rank kind_feat = 1
rank kind_breaking = 2

-- `highest`, with `none` for its -1
unfoldable pub highest : Option CommitKind → List (Text × CommitKind) → Option CommitKind
unfolding rank
highest best [] = best
highest none ((msg, kind) ∷ commits) = highest (some kind) commits
highest (some best) ((msg, kind) ∷ commits) =
    highest (some (if ltb (rank best) (rank kind) then kind else best)) commits

unfoldable pub bump : CommitKind → Version → Version
unfolding next_int
bump kind_breaking v =
    if eq_ℤ v.major (pos 0)
    then record { major = v.major; minor = next_int v.minor; patch = pos 0 }
    else record { major = next_int v.major; minor = pos 0; patch = pos 0 }
bump kind_feat v =
    if eq_ℤ v.major (pos 0)
    then record v { patch = next_int v.patch }
    else record { major = v.major; minor = next_int v.minor; patch = pos 0 }
bump kind_other v = record v { patch = next_int v.patch }

release : Version → Option CommitKind → Fallible VersionError Text
unfolding bump format_tag
release v none = err nothing_releasable
release v (some kind) = ok (format_tag (bump kind v))

unfoldable pub next_version : Text → Text → Fallible VersionError Text
unfolding and_then parse_last_tag release highest recognized split
next_version last raw =
    and_then (parse_last_tag last) (λ v. release v (highest none (recognized (split 0 raw))))

unfoldable pub offending : List (Text × CommitKind) → List Text
unfolding commit_subject
offending [] = []
offending ((msg, kind_other) ∷ commits) = offending commits
offending ((msg, kind_feat) ∷ commits) = commit_subject msg ∷ offending commits
offending ((msg, kind_breaking) ∷ commits) = commit_subject msg ∷ offending commits

release_patch : Version → List (Text × CommitKind) → List Text → Fallible VersionError Text
unfolding format_tag next_int
release_patch v commits (subject ∷ subjects) = err (disallowed_commits (subject ∷ subjects))
release_patch v [] [] = err nothing_releasable
release_patch v (commit ∷ commits) [] = ok (format_tag (record v { patch = next_int v.patch }))

unfoldable pub next_version_patch_only : Text → Text → Fallible VersionError Text
unfolding and_then parse_last_tag release_patch offending recognized split
next_version_patch_only last raw =
    and_then (parse_last_tag last)
      (λ v. let commits = recognized (split 0 raw) in release_patch v commits (offending commits))
