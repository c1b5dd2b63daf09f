-- ===== src/Release/Version/Next.antt =====
-- The tag that tools/release/version.go computes is later than the last one.
use go_specs.Prelude.{
  ℕ, suc, ◌^◌, ◌<◌, ◌≡◌, ◌≢◌, refl, sym, ap, ◌∙◌, subst, arith, true, Option, none, some, [], ◌∷◌,
  ◌++◌, pos, All, Bool-cases, inl, inr, lt→ltb, eq_ℤ,
}
use go_specs.Prelude.Fallible.{ok, and_then}
use go_specs.Prelude.Text.{Text, cut, cut_prefix, split, itoa}
use go_specs.Prelude.Text.Decimal.{IsDigit, itoa-IsDigit, itoa-cons, atoi-itoa}
use go_specs.Prelude.Text.Pieces.{cut-append}
use go_specs.Release.Commits.{CommitKind, kind_other, kind_feat, kind_breaking}
use go_specs.Release.Version.{
  Version, parse_last_tag, strict_semver, after_v, two_dots, three_numbers, is_number, all_digits,
  number, in_range, numbers, format_tag, itoa_int, bump, next_int, release, next_version, highest,
  recognized,
}

-- Three numbers that an int holds.
abbrev pub version_of : ℕ → ℕ → ℕ → Version
version_of a b c = record { major = pos a; minor = pos b; patch = pos c }

all_digits-IsDigit : (s : Text) → All IsDigit s → all_digits s ≡ true
unfolding all_digits
all_digits-IsDigit [] h = refl
all_digits-IsDigit (c ∷ s) h = let later = all_digits-IsDigit s h.1 in ground arith

is_number-itoa : (n : ℕ) → is_number (itoa n) ≡ true
is_number-itoa n =
    let (d, s, e) = itoa-cons n in
    rw e (unfold is_number in all_digits-IsDigit (d ∷ s) (rw e at (itoa-IsDigit n)))

not_dot : (s : Text) → All IsDigit s → All (λ c. c ≢ b'.') s
not_dot [] h = tt
not_dot (c ∷ s) h = (λ e. absurd (omega arith), not_dot s h.1)

strict_semver-v : (s : Text) → strict_semver (b'v' ∷ s) ≡ two_dots (cut b'.' s)
unfolding strict_semver after_v cut_prefix
strict_semver-v s = refl

format_tag-version_of :
    (a b c : ℕ)
    → format_tag (version_of a b c) ≡ b'v' ∷ (itoa a ++ b'.' ∷ (itoa b ++ b'.' ∷ itoa c))
unfolding format_tag itoa_int
format_tag-version_of a b c = refl

strict_semver-format :
    (a b c : ℕ) → strict_semver (format_tag (version_of a b c)) ≡ some (itoa a, (itoa b, itoa c))
strict_semver-format a b c =
    let rest = itoa b ++ b'.' ∷ itoa c in
    let first = cut-append b'.' (itoa a) rest (not_dot (itoa a) (itoa-IsDigit a)) in
    let second = cut-append b'.' (itoa b) (itoa c) (not_dot (itoa b) (itoa-IsDigit b)) in
    ap strict_semver (format_tag-version_of a b c)
    ∙ strict_semver-v (itoa a ++ b'.' ∷ rest)
    ∙ ap two_dots first
    ∙ (unfold two_dots in
        ap (three_numbers (itoa a)) second
        ∙ (unfold three_numbers in rw (is_number-itoa a, is_number-itoa b, is_number-itoa c) refl))

number-itoa : (n : ℕ) → n < 2 ^ 63 → number (itoa n) ≡ ok (pos n)
unfolding number in_range
number-itoa n h = ap (in_range (itoa n)) (atoi-itoa n h)

-- A printed version is read back.
pub parse_last_tag-format :
    (a b c : ℕ)
    → a < 2 ^ 63
    → b < 2 ^ 63
    → c < 2 ^ 63
    → parse_last_tag (format_tag (version_of a b c)) ≡ ok (version_of a b c)
unfolding parse_last_tag
parse_last_tag-format a b c ha hb hc =
    rw (strict_semver-format a b c)
      (unfold numbers and_then in rw (number-itoa a ha, number-itoa b hb, number-itoa c hc) refl)

-- The order of versions: by major, then minor, then patch.
pub data IsBefore : Version → Version → Type 0 where
  by_major : {a b c d e f : ℕ} → a < d → IsBefore (version_of a b c) (version_of d e f)
  by_minor : {a b c e f : ℕ} → b < e → IsBefore (version_of a b c) (version_of a e f)
  by_patch : {a b c f : ℕ} → c < f → IsBefore (version_of a b c) (version_of a b f)

next_int-pos : (n : ℕ) → suc n < 2 ^ 63 → next_int (pos n) ≡ pos (suc n)
unfolding next_int
next_int-pos n h = rw (lt→ltb (suc n) (2 ^ 63) h) refl

-- A bump gives a later version that an int holds.
abbrev IsBumped : Version → Version → Type 0
IsBumped v w =
    (a : ℕ) × (b : ℕ) × (c : ℕ) × (w ≡ version_of a b c)
    × (a < 2 ^ 63)
    × (b < 2 ^ 63)
    × (c < 2 ^ 63)
    × IsBefore v (version_of a b c)

bump-IsBumped :
    (kind : CommitKind) (a b c : ℕ)
    → suc a < 2 ^ 63
    → suc b < 2 ^ 63
    → suc c < 2 ^ 63
    → IsBumped (version_of a b c) (bump kind (version_of a b c))
unfolding bump
bump-IsBumped kind_other a b c ha hb hc =
    (a, b, suc c, rw (next_int-pos c hc) refl, omega arith, omega arith, hc, by_patch (omega arith))
bump-IsBumped kind_feat a b c ha hb hc = elim (Bool-cases (eq_ℤ (pos a) (pos 0))) [
  | inl e ↦ (
    a,
    b,
    suc c,
    rw (e, next_int-pos c hc) refl,
    omega arith,
    omega arith,
    hc,
    by_patch (omega arith),
  )
  | inr e ↦ (
    a,
    suc b,
    0,
    rw (e, next_int-pos b hb) refl,
    omega arith,
    hb,
    omega arith,
    by_minor (omega arith),
  )
]
bump-IsBumped kind_breaking a b c ha hb hc = elim (Bool-cases (eq_ℤ (pos a) (pos 0))) [
  | inl e ↦ (
    a,
    suc b,
    0,
    rw (e, next_int-pos b hb) refl,
    omega arith,
    hb,
    omega arith,
    by_minor (omega arith),
  )
  | inr e ↦ (
    suc a,
    0,
    0,
    rw (e, next_int-pos a ha) refl,
    ha,
    omega arith,
    omega arith,
    by_major (omega arith),
  )
]

release-IsBefore :
    (best : Option CommitKind) (tag : Text) (a b c : ℕ)
    → suc a < 2 ^ 63
    → suc b < 2 ^ 63
    → suc c < 2 ^ 63
    → release (version_of a b c) best ≡ ok tag
    → (w : Version) × (parse_last_tag tag ≡ ok w) × IsBefore (version_of a b c) w
unfolding release
release-IsBefore none tag a b c ha hb hc released = absurd cc
release-IsBefore (some kind) tag a b c ha hb hc released =
    let (d, e, f, same, hd, he, hf, before) = bump-IsBumped kind a b c ha hb hc in
    let printed : format_tag (bump kind (version_of a b c)) ≡ tag = cc in
    (
      version_of d e f,
      subst (λ t. parse_last_tag t ≡ ok (version_of d e f)) (sym (ap format_tag same) ∙ printed)
          (parse_last_tag-format d e f hd he hf),
      before,
    )

-- Whenever the last tag is a version whose numbers are below the largest int, and there is something
-- to release, the new tag reads back as a version that comes after the last one.
pub next_version-IsBefore :
    (last raw tag : Text) (a b c : ℕ)
    → parse_last_tag last ≡ ok (version_of a b c)
    → suc a < 2 ^ 63
    → suc b < 2 ^ 63
    → suc c < 2 ^ 63
    → next_version last raw ≡ ok tag
    → (w : Version) × (parse_last_tag tag ≡ ok w) × IsBefore (version_of a b c) w
unfolding next_version
next_version-IsBefore last raw tag a b c parsed ha hb hc released =
    release-IsBefore (highest none (recognized (split 0 raw))) tag a b c ha hb hc
      (unfold and_then in rw parsed at released)
