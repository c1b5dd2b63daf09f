-- ===== src/Release/Changelog.antt =====
-- tools/release/changelog.go and info.go: the headings and links of CHANGELOG.md. Positions in the
-- file's lines are the lists before and after them; the regular expressions are read off as scanners.
pub mod Lines
pub mod Again
use mathlib.Core.List.{reverse}
use go_specs.Prelude.{
  ℕ, Bool, true, false, not, ◌&&◌, ◌||◌, Option, none, some, List, [], ◌∷◌, ◌++◌, ◌==◌,
  if◌then◌else◌,
}
use go_specs.Prelude.Fallible.{Fallible, err, ok}
use go_specs.Prelude.Text.{
  Text, codes, text_eq, trim_space, trim_right, cut, cut_prefix, has_prefix, is_blank, split, join,
}
use go_specs.Release.Headings.{
  unreleased, target, is_heading, heading_version, is_link_line, normalize_tag,
}

pub data ChangelogError : Type 0 where
  no_unreleased_heading empty_unreleased no_release_heading : ChangelogError

pub record ChangelogOptions : Type 0 where
  pub version : Text
  pub date : Text
  pub repo : Text
  pub prev : Text

unfoldable pub any_prefix : Text → List Text → Bool
unfolding has_prefix
any_prefix prefix [] = false
any_prefix prefix (l ∷ lines) = has_prefix l prefix || any_prefix prefix lines

also_before : Text → Option (List Text × List Text) → Option (List Text × List Text)
also_before l none = none
also_before l (some (before, after)) = some (l ∷ before, after)

-- The lines before and after the first `## [Unreleased]`.
unfoldable pub find_unreleased : List Text → Option (List Text × List Text)
unfolding also_before text_eq
find_unreleased [] = none
find_unreleased (l ∷ lines) =
    let later = find_unreleased lines in
    if text_eq l unreleased then some ([], lines) else also_before l later

-- The lines before the next heading, and the lines from it on.
unfoldable pub until_heading : List Text → List Text × List Text
unfolding has_prefix
until_heading [] = ([], [])
until_heading (l ∷ lines) =
    let (body, rest) = until_heading lines in
    if is_heading l then ([], l ∷ lines) else (l ∷ body, rest)

or_empty : Option Text → Text
unfolding normalize_tag
or_empty none = []
or_empty (some v) = normalize_tag v

previous : Text → List Text → Text
unfolding or_empty heading_version
previous (c ∷ prev) rest = c ∷ prev
previous [] [] = []
previous [] (l ∷ rest) = or_empty (heading_version l)

drop_blank : List Text → List Text
unfolding trim_space is_blank
drop_blank [] = []
drop_blank (l ∷ lines) =
    let rest = drop_blank lines in if is_blank (trim_space l) then rest else l ∷ lines

-- The links at the front of reversed lines, in their own order, and the lines behind them.
take_links : List Text → List Text → List Text × List Text
unfolding is_link_line trim_space
take_links links [] = (links, [])
take_links links (l ∷ lines) =
    let more = take_links (trim_space l ∷ links) lines in
    if is_link_line (trim_space l) then more else (links, l ∷ lines)

other_links : List Text → List Text
unfolding has_prefix
other_links [] = []
other_links (l ∷ links) =
    let rest = other_links links in if has_prefix l (codes "[Unreleased]:") then rest else l ∷ rest

-- What follows the repository in the link of a version.
compared : Text → Text → Text
compared version [] = codes "/releases/tag/" ++ version
compared version (c ∷ prev) = codes "/compare/" ++ ((c ∷ prev) ++ (codes "..." ++ version))

version_link : ChangelogOptions → Text → Text
unfolding compared
version_link opts prev =
    (b'[' ∷ opts.version)
    ++ (codes "]: https://github.com/" ++ (opts.repo ++ compared opts.version prev))

unreleased_link : ChangelogOptions → Text
unreleased_link opts =
    codes "[Unreleased]: https://github.com/"
    ++ (opts.repo ++ (codes "/compare/" ++ (opts.version ++ codes "...HEAD")))

-- The file of the new lines, with its links written again.
pub rewritten : ChangelogOptions → Text → List Text → Text
unfolding take_links drop_blank trim_right join unreleased_link version_link other_links
rewritten opts prev new_lines =
    let (links, body) = take_links [] (drop_blank (reverse new_lines)) in
    trim_right 10 (join 10 (reverse body))
    ++ 10
      ∷ 10
      ∷ (join 10 (unreleased_link opts ∷ version_link opts prev ∷ other_links links) ++ 10 ∷ [])

-- The new heading, with the date.
pub new_heading : ChangelogOptions → Text
new_heading opts = target opts.version ++ (codes " - " ++ opts.date)

with_unreleased :
    ChangelogOptions → Option (List Text × List Text) → Fallible ChangelogError (Text × Bool)
unfolding until_heading is_blank trim_space join rewritten previous new_heading
with_unreleased opts none = err no_unreleased_heading
with_unreleased opts (some (before, after)) =
    let (body, rest) = until_heading after in
    if is_blank (trim_space (join 10 body))
    then err empty_unreleased
    else ok (
      rewritten opts (previous opts.prev rest)
          (before ++ unreleased ∷ [] ∷ new_heading opts ∷ after),
      true,
    )

-- The new content, and whether it changed.
unfoldable pub rewrite_changelog : Text → ChangelogOptions → Fallible ChangelogError (Text × Bool)
unfolding any_prefix split with_unreleased find_unreleased
rewrite_changelog content opts =
    let lines = split 10 content in
    if any_prefix (target opts.version) lines
    then ok (content, false)
    else with_unreleased opts (find_unreleased lines)
