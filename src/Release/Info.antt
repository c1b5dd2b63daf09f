-- ===== src/Release/Info.antt =====
-- tools/release/info.go: what a released CHANGELOG.md says.
pub mod Latest
use go_specs.Prelude.{◌||◌, Option, none, some, List, [], ◌∷◌, if◌then◌else◌}
use go_specs.Prelude.Fallible.{Fallible, err, ok}
use go_specs.Prelude.Text.{Text, codes, trim_space, cut_prefix, has_prefix, split, join}
use go_specs.Release.Headings.{target, heading_version, normalize_tag}
use go_specs.Release.Changelog.{ChangelogError, no_release_heading, find_unreleased, until_heading}

-- The lines below the first `## [Unreleased]`, or all of them.
below_unreleased : List Text → Option (List Text × List Text) → List Text
below_unreleased lines none = lines
below_unreleased lines (some (before, after)) = after

or_first : Option Text → Fallible ChangelogError Text → Fallible ChangelogError Text
unfolding normalize_tag
or_first none later = later
or_first (some v) later = ok (normalize_tag v)

unfoldable first_version : List Text → Fallible ChangelogError Text
unfolding or_first heading_version
first_version [] = err no_release_heading
first_version (l ∷ lines) = or_first (heading_version l) (first_version lines)

unfoldable pub latest_heading_version : Text → Fallible ChangelogError Text
unfolding split first_version below_unreleased find_unreleased
latest_heading_version content =
    let lines = split 10 content in first_version (below_unreleased lines (find_unreleased lines))

-- strings.TrimPrefix of "v"
bare : Text → Option Text → Text
bare version none = version
bare version (some rest) = rest

-- The lines behind the first one with either prefix.
unfoldable below : Text → Text → List Text → Option (List Text)
unfolding has_prefix
below p q [] = none
below p q (l ∷ lines) =
    let later = below p q lines in if has_prefix l p || has_prefix l q then some lines else later

notes : Option (List Text) → Fallible ChangelogError Text
unfolding trim_space join until_heading
notes none = err no_release_heading
notes (some lines) = let (body, rest) = until_heading lines in ok (trim_space (join 10 body))

unfoldable pub release_notes : Text → Text → Fallible ChangelogError Text
unfolding notes below bare cut_prefix split
release_notes content version = notes (
    below (target version) (target (bare version (cut_prefix version (codes "v"))))
      (split 10 content))
