-- ===== src/Release/Changelog/Again.antt =====
-- What the file that tools/release/changelog.go wrote says when it is read again.
use go_specs.Prelude.{
  ◌≡◌, refl, sym, ap, ◌∙◌, subst, true, false, Option, none, some, List, [], ◌∷◌, ◌++◌, All,
  All-append, Bool-cases, Option-cases, inl, inr, append_assoc,
}
use go_specs.Prelude.Fallible.{ok}
use go_specs.Prelude.Text.{Text, text_eq, has_prefix, is_blank, trim_space, split, join}
use go_specs.Prelude.Text.Lines.{IsLine, split-IsLine, IsLine-split}
use go_specs.Prelude.Text.Pieces.{text_eq_iff, has_prefix-append}
use go_specs.Release.Headings.{unreleased, target}
use go_specs.Release.Changelog.{
  ChangelogOptions, any_prefix, find_unreleased, also_before, until_heading, previous, rewritten,
  new_heading, with_unreleased, rewrite_changelog,
}
use go_specs.Release.Changelog.Lines.{rewritten-lines}

abbrev pub IsOther : Text → Type 0
IsOther l = text_eq l unreleased ≡ false

-- The first heading is where it was found.
find_unreleased-found :
    (lines before after : List Text)
    → find_unreleased lines ≡ some (before, after)
    → (lines ≡ before ++ unreleased ∷ after) × All IsOther before
unfolding find_unreleased also_before
find_unreleased-found [] before after h = absurd cc
find_unreleased-found (l ∷ lines) before after h = elim (Bool-cases (text_eq l unreleased)) [
  | inl e ↦
      let here = rw e at h in
      let first : [] ≡ before = cc in
      let last : lines ≡ after = cc in
      subst (λ b. (l ∷ lines ≡ b ++ unreleased ∷ after) × All IsOther b) first
        (
          ap (λ (t : Text). t ∷ lines) ((text_eq_iff l unreleased).0 e) ∙ ap (◌∷◌ unreleased) last,
          tt,
        )
  | inr e ↦ elim (Option-cases (find_unreleased lines)) [
    | inl n ↦ let missing = rw (e, n) at h in absurd cc
    | inr ((b, a), f) ↦
        let there = rw (e, f) at h in
        let first : l ∷ b ≡ before = cc in
        let last : a ≡ after = cc in
        let (same, others) = find_unreleased-found lines b a f in
        subst (λ c. (l ∷ lines ≡ c ++ unreleased ∷ after) × All IsOther c) first
          (ap (◌∷◌ l) (same ∙ ap (λ (t : List Text). b ++ unreleased ∷ t) last), (e, others))
  ]
]

pub find_unreleased-first :
    (before after : List Text)
    → All IsOther before
    → find_unreleased (before ++ unreleased ∷ after) ≡ some (before, after)
unfolding find_unreleased also_before
find_unreleased-first [] after h = (unfold text_eq in refl)
find_unreleased-first (l ∷ before) after h = rw (h.0, find_unreleased-first before after h.1) refl

any_prefix-middle :
    (p s : Text) (before after : List Text) → any_prefix p (before ++ (p ++ s) ∷ after) ≡ true
unfolding any_prefix
any_prefix-middle p s [] after = rw (has_prefix-append p s) refl
any_prefix-middle p s (l ∷ before) after =
    let later = any_prefix-middle p s before after in
    elim (Bool-cases (has_prefix l p)) [ inl e ↦ rw e refl | inr e ↦ rw (e, later) refl ]

All-front {ℓ} : {A : Type ℓ} (P : A → Type 0) (xs ys : List A) → All P (xs ++ ys) → All P xs
All-front P [] ys h = tt
All-front P (x ∷ xs) ys h = (h.0, All-front P xs ys h.1)

-- How a file changes.
abbrev IsRewritten : Text → ChangelogOptions → Text → Type 0
IsRewritten content opts result =
    (before : List Text) × (after : List Text) × (prev : Text) × (find_unreleased (split 10 content)
      ≡ some (before, after))
    × (result ≡ rewritten opts prev (before ++ unreleased ∷ [] ∷ new_heading opts ∷ after))

with_unreleased-IsRewritten :
    (content result : Text) (opts : ChangelogOptions) (found : Option (List Text × List Text))
    → find_unreleased (split 10 content) ≡ found
    → with_unreleased opts found ≡ ok (result, true)
    → IsRewritten content opts result
unfolding with_unreleased
with_unreleased-IsRewritten content result opts none e h = absurd cc
with_unreleased-IsRewritten content result opts (some (before, after)) e h =
    let (body, rest) = until_heading after in
    elim (Bool-cases (is_blank (trim_space (join 10 body)))) [
      | inl b ↦ let refused = rw b at h in absurd cc
      | inr b ↦ let written = rw b at h in (before, after, previous opts.prev rest, e, cc)
    ]

rewrite_changelog-IsRewritten :
    (content result : Text) (opts : ChangelogOptions)
    → rewrite_changelog content opts ≡ ok (result, true)
    → IsRewritten content opts result
unfolding rewrite_changelog
rewrite_changelog-IsRewritten content result opts h =
    elim (Bool-cases (any_prefix (target opts.version) (split 10 content))) [
      | inl e ↦ let same = rw e at h in absurd cc
      | inr e ↦
          with_unreleased-IsRewritten content result opts (find_unreleased (split 10 content)) refl
            (rw e at h)
    ]

-- The lines of the result.
abbrev pub HasLines : Text → ChangelogOptions → Type 0
HasLines result opts =
    (before : List Text) × (first : Text) × (rest : List Text) × (split 10 result
      ≡ before ++ unreleased ∷ [] ∷ (target opts.version ++ first) ∷ rest)
    × All IsOther before

unreleased-IsLine : IsLine unreleased
unreleased-IsLine = IsLine-split unreleased (unfold split in refl)

front-lines :
    (opts : ChangelogOptions) (prev : Text) (before after : List Text)
    → All IsLine before
    → IsLine opts.version
    → (first : Text) × (rest : List Text) × (split 10
          (rewritten opts prev (before ++ unreleased ∷ [] ∷ new_heading opts ∷ after))
        ≡ before ++ unreleased ∷ [] ∷ (target opts.version ++ first) ∷ rest)
front-lines opts prev [] after front version =
    rewritten-lines opts prev unreleased ([] ∷ []) after (unreleased-IsLine, (tt, tt)) version
front-lines opts prev (b ∷ before) after front version =
    let top = unreleased ∷ [] ∷ [] in
    let (first, rest, e) =
      rewritten-lines opts prev b (before ++ top) after
        (front.0, All-append IsLine before top front.1 (unreleased-IsLine, (tt, tt))) version in
    (
      first,
      rest,
      ap (λ (l : List Text). split 10 (rewritten opts prev l))
            (sym (append_assoc (b ∷ before) top (new_heading opts ∷ after)))
          ∙ (e ∙ append_assoc (b ∷ before) top ((target opts.version ++ first) ∷ rest)),
    )

pub rewrite_changelog-HasLines :
    (content result : Text) (opts : ChangelogOptions)
    → IsLine opts.version
    → rewrite_changelog content opts ≡ ok (result, true)
    → HasLines result opts
rewrite_changelog-HasLines content result opts version h =
    let (before, after, prev, found, written) =
      rewrite_changelog-IsRewritten content result opts h in
    let (same, others) = find_unreleased-found (split 10 content) before after found in
    let front : All IsLine (before ++ unreleased ∷ after) = rw same at (split-IsLine content) in
    let (first, rest, e) =
      front-lines opts prev before after (All-front IsLine before (unreleased ∷ after) front)
        version in
    (before, first, rest, ap (split 10) written ∙ e, others)

-- A file that was written for a version is not changed when it is written for that version again, when
-- the version has no newline.
pub rewrite_changelog-again :
    (content result : Text) (opts : ChangelogOptions)
    → IsLine opts.version
    → rewrite_changelog content opts ≡ ok (result, true)
    → rewrite_changelog result opts ≡ ok (result, false)
unfolding rewrite_changelog
rewrite_changelog-again content result opts version h =
    let (before, first, rest, e, others) =
      rewrite_changelog-HasLines content result opts version h in
    let top = before ++ unreleased ∷ [] ∷ [] in
    let found =
      ap (any_prefix (target opts.version)) (sym (append_assoc before (unreleased ∷ [] ∷ []) _))
      ∙ any_prefix-middle (target opts.version) first top rest in
    rw (e, found) refl
