-- ===== src/Samples/Releases.antt =====
-- Releases of a small changelog.
use go_specs.Prelude.{
  ℕ, ◌≡◌, ◌≢◌, ◌↔◌, refl, arith, true, false, some, List, [], ◌∷◌, ◌++◌, map, All,
}
use go_specs.Prelude.Fallible.{err, ok}
use go_specs.Prelude.Text.{Text, codes, is_blank, split}
use go_specs.Prelude.Text.Lines.{IsLine, IsLine-split}
use go_specs.Release.Version.{
  Version, parse_last_tag, next_version, next_version_patch_only, nothing_releasable,
}
use go_specs.Release.Version.Next.{version_of, IsBefore, next_version-IsBefore}
use go_specs.Release.Version.Hotfix.{
  next_version_patch_only-next_version, next_version-nothing_releasable,
}
use go_specs.Release.Headings.{normalize_tag}
use go_specs.Release.Changelog.{ChangelogOptions, rewrite_changelog, find_unreleased}
use go_specs.Release.Changelog.Again.{rewrite_changelog-again}
use go_specs.Release.Info.{latest_heading_version}
use go_specs.Release.Info.Latest.{latest_heading_version-rewrite}
use go_specs.Release.Validate.{validate_unreleased, line_kind}
use go_specs.Release.Validate.Order.{Increasing, categories, validate_unreleased-Increasing}

abbrev last_tag : Text
last_tag = codes "v0.3.9"

abbrev next_tag : Text
next_tag = codes "v0.4.0"

abbrev commits : Text
commits = codes "feat(cli)!: new flags" ++ 0 ∷ codes "Merge pull request"

abbrev fixes : Text
fixes = codes "fix: a bound"

last_tag-parsed : parse_last_tag last_tag ≡ ok (version_of 0 3 9)
unfolding parse_last_tag
last_tag-parsed = refl

commits-released : next_version last_tag commits ≡ ok next_tag
unfolding next_version
commits-released = refl

next_version-IsBefore_example :
    (w : Version) × (parse_last_tag next_tag ≡ ok w) × IsBefore (version_of 0 3 9) w
next_version-IsBefore_example =
    next_version-IsBefore last_tag commits next_tag 0 3 9 last_tag-parsed (omega arith)
      (omega arith) (omega arith) commits-released

fixes-released : next_version_patch_only last_tag fixes ≡ ok (codes "v0.3.10")
unfolding next_version_patch_only
fixes-released = refl

next_version_patch_only-next_version_example : next_version last_tag fixes ≡ ok (codes "v0.3.10")
next_version_patch_only-next_version_example =
    next_version_patch_only-next_version last_tag fixes (codes "v0.3.10") fixes-released

next_version-nothing_releasable_example :
    (next_version last_tag (codes "wip") ≡ err nothing_releasable)
    ↔ (next_version_patch_only last_tag (codes "wip") ≡ err nothing_releasable)
next_version-nothing_releasable_example = next_version-nothing_releasable last_tag (codes "wip")

abbrev options : ChangelogOptions
options = record { version = next_tag; date = codes "2026-01-31"; repo = codes "a/b"; prev = [] }

abbrev join_lines : List Text → Text
join_lines [] = []
join_lines (l ∷ []) = l
join_lines (l ∷ next ∷ lines) = l ++ 10 ∷ join_lines (next ∷ lines)

abbrev lines : List Text
lines =
    map codes
      ("## [Unreleased]" ∷ "### Added" ∷ "- flags" ∷ "### Fixed" ∷ "## [0.3.9]" ∷ "- old" ∷ [])

abbrev changelog : Text
changelog = join_lines lines

abbrev written : List Text
written = map codes (
    "## [Unreleased]" ∷ "" ∷ "## [v0.4.0] - 2026-01-31" ∷ "### Added" ∷ "- flags" ∷ "### Fixed"
    ∷ "## [0.3.9]" ∷ "- old" ∷ "" ∷ "[Unreleased]: https://github.com/a/b/compare/v0.4.0...HEAD"
    ∷ "[v0.4.0]: https://github.com/a/b/compare/v0.3.9...v0.4.0" ∷ "" ∷ [])

abbrev rewritten_changelog : Text
rewritten_changelog = join_lines written

changelog-rewritten : rewrite_changelog changelog options ≡ ok (rewritten_changelog, true)
unfolding rewrite_changelog
changelog-rewritten = refl

next_tag-IsLine : IsLine next_tag
next_tag-IsLine = IsLine-split next_tag (unfold split in refl)

rewrite_changelog-again_example :
    rewrite_changelog rewritten_changelog options ≡ ok (rewritten_changelog, false)
rewrite_changelog-again_example =
    rewrite_changelog-again changelog rewritten_changelog options next_tag-IsLine
      changelog-rewritten

next_tag-brackets : All (λ (c : ℕ). c ≢ b']') next_tag
next_tag-brackets =
    let v : 118 ≢ 93 = λ e. absurd (omega (arith, e)) in
    let zero_digit : 48 ≢ 93 = λ e. absurd (omega (arith, e)) in
    let dot : 46 ≢ 93 = λ e. absurd (omega (arith, e)) in
    let four : 52 ≢ 93 = λ e. absurd (omega (arith, e)) in
    (v, (zero_digit, (dot, (four, (dot, (zero_digit, tt))))))

latest_heading_version-rewrite_example :
    latest_heading_version rewritten_changelog ≡ ok (normalize_tag next_tag)
latest_heading_version-rewrite_example =
    latest_heading_version-rewrite changelog rewritten_changelog options next_tag-IsLine
      next_tag-brackets (unfold is_blank in refl) changelog-rewritten

abbrev section_lines : List Text
section_lines = map codes ("### Added" ∷ "- flags" ∷ "### Fixed" ∷ "## [0.3.9]" ∷ "- old" ∷ [])

changelog-found : find_unreleased (split 10 changelog) ≡ some ([], section_lines)
unfolding find_unreleased split
changelog-found = refl

validate_unreleased-Increasing_example :
    (validate_unreleased changelog ≡ ok [])
    ↔ Increasing (categories false (map line_kind section_lines))
validate_unreleased-Increasing_example =
    validate_unreleased-Increasing changelog [] section_lines changelog-found
