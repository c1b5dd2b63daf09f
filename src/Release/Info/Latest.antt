-- ===== src/Release/Info/Latest.antt =====
-- The version that tools/release/info.go reads in the file that changelog.go wrote.
use go_specs.Prelude.{ℕ, ◌≡◌, ◌≢◌, ap, true, false, [], ◌∷◌, ◌++◌, All}
use go_specs.Prelude.Fallible.{ok}
use go_specs.Prelude.Text.{Text, is_blank}
use go_specs.Prelude.Text.Lines.{IsLine}
use go_specs.Release.Headings.{target, normalize_tag, heading_version-target}
use go_specs.Release.Changelog.{ChangelogOptions, rewrite_changelog}
use go_specs.Release.Changelog.Again.{rewrite_changelog-HasLines, find_unreleased-first}
use go_specs.Release.Info.{latest_heading_version, below_unreleased, first_version, or_first}

-- The version that was written is the latest one of the file, when it is not empty and has no bracket
-- and no newline.
pub latest_heading_version-rewrite :
    (content result : Text) (opts : ChangelogOptions)
    → IsLine opts.version
    → All (λ (c : ℕ). c ≢ b']') opts.version
    → is_blank opts.version ≡ false
    → rewrite_changelog content opts ≡ ok (result, true)
    → latest_heading_version result ≡ ok (normalize_tag opts.version)
unfolding latest_heading_version
latest_heading_version-rewrite content result opts version bracket full h =
    let (before, first, rest, e, others) =
      rewrite_changelog-HasLines content result opts version h in
    rw e (
      rw (find_unreleased-first before ([] ∷ (target opts.version ++ first) ∷ rest) others) (
        unfold below_unreleased first_version in
        ap (λ o. or_first o (first_version rest))
          (heading_version-target opts.version first bracket full)))
