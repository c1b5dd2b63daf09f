-- ===== src/Release/Headings.antt =====
-- The headings and links of CHANGELOG.md, for tools/release/changelog.go and info.go. The regular
-- expressions are read off as scanners.
use mathlib.Core.Option
use go_specs.Prelude.{
  ℕ, Bool, true, false, not, ◌&&◌, ◌||◌, Option, none, some, [], ◌∷◌, ◌++◌, ◌==◌, ◌≡◌, ◌≢◌, refl,
  ap, ◌∙◌, All, append_assoc, if◌then◌else◌,
}
use go_specs.Prelude.Text.Pieces.{cut-append}
use go_specs.Prelude.Text.{Text, codes, cut, cut_prefix, has_prefix, is_blank}

-- ## [Unreleased]
abbrev pub unreleased : Text
unreleased = 35 ∷ 35 ∷ 32 ∷ 91 ∷ 85 ∷ 110 ∷ 114 ∷ 101 ∷ 108 ∷ 101 ∷ 97 ∷ 115 ∷ 101 ∷ 100 ∷ 93 ∷ []

-- "## [" + version + "]"
abbrev pub target : Text → Text
target version = 35 ∷ 35 ∷ 32 ∷ 91 ∷ (version ++ 93 ∷ [])

-- "## "
abbrev pub is_heading : Text → Bool
is_heading l = has_prefix l (35 ∷ 35 ∷ 32 ∷ [])

not_empty : Option (Text × Text) → Option Text
unfolding is_blank
not_empty none = none
not_empty (some (name, rest)) = if is_blank name then none else some name

after_bracket : Option Text → Option Text
unfolding not_empty cut
after_bracket none = none
after_bracket (some rest) = not_empty (cut b']' rest)

-- headingVersionRe
unfoldable pub heading_version : Text → Option Text
unfolding after_bracket cut_prefix
heading_version l = after_bracket (cut_prefix l (35 ∷ 35 ∷ 32 ∷ 91 ∷ []))

-- \S of a regular expression
is_mark : ℕ → Bool
is_mark c = not (c == 9 || (c == 10 || (c == 12 || (c == 13 || c == 32))))

all_marks : Text → Bool
unfolding is_mark
all_marks [] = true
all_marks (c ∷ s) = is_mark c && all_marks s

is_url_rest : Option Text → Bool
unfolding all_marks
is_url_rest none = false
is_url_rest (some []) = false
is_url_rest (some (c ∷ s)) = all_marks (c ∷ s)

skip_s : Text → Text
skip_s [] = []
skip_s (c ∷ s) = if c == b's' then s else c ∷ s

is_link_rest : Option Text → Bool
unfolding is_url_rest skip_s cut_prefix
is_link_rest none = false
is_link_rest (some rest) = is_url_rest (cut_prefix (skip_s rest) (codes "://"))

is_link_name : Option (Text × Text) → Bool
unfolding is_blank is_link_rest cut_prefix
is_link_name none = false
is_link_name (some (name, rest)) =
    not (is_blank name) && is_link_rest (cut_prefix rest (codes "]: http"))

split_bracket : Text → Option (Text × Text)
unfolding cut
split_bracket s = Option.map (λ (p : Text × Text). (p.0, b']' ∷ p.1)) (cut b']' s)

after_open : Option Text → Bool
unfolding is_link_name split_bracket
after_open none = false
after_open (some rest) = is_link_name (split_bracket rest)

-- linkLineRe
unfoldable pub is_link_line : Text → Bool
unfolding after_open cut_prefix
is_link_line l = after_open (cut_prefix l (91 ∷ []))

unfoldable pub normalize_tag : Text → Text
normalize_tag [] = []
normalize_tag (c ∷ v) = if c == b'v' then c ∷ v else b'v' ∷ c ∷ v

-- The version stands in its own heading.
pub heading_version-target :
    (version rest : Text)
    → All (λ (c : ℕ). c ≢ b']') version
    → is_blank version ≡ false
    → heading_version (target version ++ rest) ≡ some version
unfolding heading_version cut_prefix after_bracket not_empty
heading_version-target version rest h full =
    ap not_empty
      (ap (cut b']') (append_assoc version (93 ∷ []) rest) ∙ cut-append b']' version rest h)
    ∙ rw full refl
