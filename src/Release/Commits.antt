-- ===== src/Release/Commits.antt =====
-- The kinds of commits of tools/release/version.go. The regular expressions are read off as scanners; a
-- commit message is a text.
use mathlib.Core.Option
use go_specs.Prelude.{
  ℕ, ◌+◌, Bool, true, false, not, ◌&&◌, ◌||◌, Option, none, some, List, [], ◌∷◌, map, leb, ◌==◌,
  if◌then◌else◌,
}
use go_specs.Prelude.Text.{Text, codes, text_eq, trim_space, cut, cut_prefix, split}

pub data CommitKind : Type 0 where
  kind_other kind_feat kind_breaking : CommitKind

is_member : Text → List Text → Bool
unfolding text_eq
is_member t [] = false
is_member t (word ∷ words) = text_eq t word || is_member t words

conventional_types : List Text
conventional_types = map codes (
    "feat" ∷ "fix" ∷ "build" ∷ "chore" ∷ "ci" ∷ "docs" ∷ "perf" ∷ "refactor" ∷ "revert" ∷ "style"
    ∷ "test" ∷ [])

ignored_exact : List Text
ignored_exact =
    codes "chore: update benchmark charts [skip ci]" ∷ codes "chore: update benchmark charts" ∷ []

is_upper : ℕ → Bool
is_upper c = leb 65 c && leb c 90

is_letter : ℕ → Bool
unfolding is_upper
is_letter c = is_upper c || (leb 97 c && leb c 122)

-- strings.ToLower of ASCII letters
lower : ℕ → ℕ
unfolding is_upper
lower c = if is_upper c then c + 32 else c

letters : Text → Text × Text
unfolding is_letter
letters [] = ([], [])
letters (c ∷ s) =
    let (word, rest) = letters s in if is_letter c then (c ∷ word, rest) else ([], c ∷ s)

-- (\([^)]*\))?
skip_scope : Text → Option Text
unfolding cut
skip_scope [] = some []
skip_scope (c ∷ s) =
    if c == b'(' then Option.map (λ (p : Text × Text). p.1) (cut b')' s) else some (c ∷ s)

-- (!)?
skip_bang : Text → Bool × Text
skip_bang [] = (false, [])
skip_bang (c ∷ s) = if c == b'!' then (true, s) else (false, c ∷ s)

-- .+
has_description : Option Text → Bool
has_description none = false
has_description (some []) = false
has_description (some (c ∷ s)) = not (c == 10)

after_scope : Text → Option Text → Option (Text × Bool)
unfolding skip_bang has_description cut_prefix
after_scope word none = none
after_scope word (some s) =
    let (bang, rest) = skip_bang s in
    if has_description (cut_prefix rest (codes ": ")) then some (word, bang) else none

after_type : Text × Text → Option (Text × Bool)
unfolding after_scope skip_scope
after_type ([], rest) = none
after_type (c ∷ word, rest) = after_scope (c ∷ word) (skip_scope rest)

-- conventionalSubject: the type and whether `!` follows it
unfoldable pub conventional_subject : Text → Option (Text × Bool)
unfolding after_type letters
conventional_subject s = after_type (letters s)

is_some : Option Text → Bool
is_some none = false
is_some (some s) = true

any_footer : List Text → Bool
unfolding is_some cut_prefix
any_footer [] = false
any_footer (line ∷ lines) =
    (is_some (cut_prefix line (codes "BREAKING CHANGE: "))
      || is_some (cut_prefix line (codes "BREAKING-CHANGE: ")))
    || any_footer lines

-- breakingFooter.MatchString
unfoldable pub breaking_footer : Text → Bool
unfolding any_footer split
breaking_footer msg = any_footer (split 10 msg)

head_line : List Text → Text
head_line [] = []
head_line (line ∷ lines) = line

unfoldable pub commit_subject : Text → Text
unfolding head_line split trim_space
commit_subject msg = trim_space (head_line (split 10 msg))

kind_of : Text → Option (Text × Bool) → Option CommitKind
unfolding lower is_member conventional_types breaking_footer
kind_of msg none = none
kind_of msg (some (word, bang)) =
    let commit_type = map lower word in
    if not (is_member commit_type conventional_types)
    then none
    else if bang || breaking_footer msg
    then some kind_breaking
    else if text_eq commit_type (codes "feat")
    then some kind_feat
    else some kind_other

-- `none` where the source's `valid` is false
unfoldable pub classify_commit : Text → Option CommitKind
unfolding commit_subject is_member ignored_exact kind_of conventional_subject
classify_commit msg =
    let subject = commit_subject msg in
    if is_member subject ignored_exact then none else kind_of msg (conventional_subject subject)
