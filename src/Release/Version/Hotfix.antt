-- ===== src/Release/Version/Hotfix.antt =====
-- NextVersionPatchOnly beside NextVersion, of tools/release/version.go.
use go_specs.Prelude.{
  ◌≡◌, ◌≢◌, ◌↔◌, refl, inl, inr, none, some, List, [], ◌∷◌, if◌then◌else◌, ltb, List-cases,
}
use go_specs.Prelude.Fallible.{err, ok, and_then, Fallible-cases}
use go_specs.Prelude.Text.{Text, split}
use go_specs.Release.Commits.{CommitKind, kind_other, kind_feat, kind_breaking}
use go_specs.Release.Version.{
  Version, nothing_releasable, parse_last_tag, bump, release, release_patch, next_version,
  next_version_patch_only, highest, recognized, offending, rank,
}

highest-other :
    (commits : List (Text × CommitKind))
    → offending commits ≡ []
    → highest (some kind_other) commits ≡ some kind_other
unfolding highest offending rank
highest-other [] h = refl
highest-other ((msg, kind_other) ∷ commits) h = highest-other commits h
highest-other ((msg, kind_feat) ∷ commits) h = absurd cc
highest-other ((msg, kind_breaking) ∷ commits) h = absurd cc

highest-some :
    (best : CommitKind) (commits : List (Text × CommitKind))
    → (kind : CommitKind) × (highest (some best) commits ≡ some kind)
unfolding highest
highest-some best [] = (best, refl)
highest-some best ((msg, kind) ∷ commits) =
    highest-some (if ltb (rank best) (rank kind) then kind else best) commits

release_patch-release :
    (v : Version) (commits : List (Text × CommitKind)) (tag : Text)
    → release_patch v commits (offending commits) ≡ ok tag
    → release v (highest none commits) ≡ ok tag
unfolding release_patch offending
release_patch-release v [] tag h = absurd cc
release_patch-release v ((msg, kind_other) ∷ commits) tag h =
    elim (List-cases (offending commits)) [
      | inl e ↦
          let patched = rw e at h in
          unfold highest release bump in rw (highest-other commits e) patched
      | inr (subject, subjects, e) ↦ let refused = rw e at h in absurd cc
    ]
release_patch-release v ((msg, kind_feat) ∷ commits) tag h = absurd cc
release_patch-release v ((msg, kind_breaking) ∷ commits) tag h = absurd cc

-- What NextVersionPatchOnly gives, NextVersion gives too.
pub next_version_patch_only-next_version :
    (last raw tag : Text)
    → next_version_patch_only last raw ≡ ok tag
    → next_version last raw ≡ ok tag
unfolding next_version_patch_only next_version and_then
next_version_patch_only-next_version last raw tag h = elim (Fallible-cases (parse_last_tag last)) [
  | inl (fault, e) ↦ let refused = rw e at h in absurd cc
  | inr (v, e) ↦ rw e (release_patch-release v (recognized (split 0 raw)) tag (rw e at h))
]

release_patch-some :
    (v : Version) (commit : Text × CommitKind) (commits : List (Text × CommitKind))
    (subjects : List Text)
    → release_patch v (commit ∷ commits) subjects ≢ err nothing_releasable
unfolding release_patch
release_patch-some v commit commits [] = λ h. cc
release_patch-some v commit commits (subject ∷ subjects) = λ h. cc

release-some : (v : Version) (kind : CommitKind) → release v (some kind) ≢ err nothing_releasable
unfolding release
release-some v kind = λ h. cc

release-nothing :
    (v : Version) (commits : List (Text × CommitKind))
    → (release v (highest none commits) ≡ err nothing_releasable)
      ↔ (release_patch v commits (offending commits) ≡ err nothing_releasable)
release-nothing v [] =
    (λ h. unfold release_patch offending in refl, λ h. unfold release highest in refl)
release-nothing v ((msg, kind) ∷ commits) =
    let (best, e) = highest-some kind commits in
    (
      λ h. absurd (release-some v best (unfold highest in rw e at h)),
      λ h. absurd (release_patch-some v (msg, kind) commits (offending ((msg, kind) ∷ commits)) h),
    )

-- Both functions find nothing to release in the same ranges of commits.
pub next_version-nothing_releasable :
    (last raw : Text)
    → (next_version last raw ≡ err nothing_releasable)
      ↔ (next_version_patch_only last raw ≡ err nothing_releasable)
unfolding next_version_patch_only next_version and_then
next_version-nothing_releasable last raw = elim (Fallible-cases (parse_last_tag last)) [
  | inl (fault, e) ↦ rw e (λ h. h, λ h. h)
  | inr (v, e) ↦ rw e (release-nothing v (recognized (split 0 raw)))
]
