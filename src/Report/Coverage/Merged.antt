-- ===== src/Report/Coverage/Merged.antt =====
-- The two parsers of report/coverage.go agree on profiles without repeated blocks.
use go_specs.Prelude.{
  ℕ, suc, ◌+◌, ◌%◌, ◌^◌, ◌<◌, ◌≡◌, ◌≢◌, refl, sym, ap, ◌∙◌, arith, Bool, true, false, ◌||◌, Option,
  none, some, List, [], ◌∷◌, ◌++◌, ℤ, pos, negsuc, All, All-append, Bool-cases, inl, inr, ltb_ℤ,
}
use go_specs.Prelude.Fallible.{
  Fallible, err, ok, and_then, Fallible-cases, Holds, Holds-and_then, Holds-any,
}
use go_specs.Prelude.Text.{Text, is_blank, codes, text_eq, trim_space, cut_last, fields, atoi}
use go_specs.Prelude.Text.Pieces.{text_eq_iff}
use go_specs.Prelude.Sort.{DistinctKeys}
use go_specs.Report.Collector.{PackageCoverage}
use go_specs.Report.Coverage.{
  BlockLine, CoverageBlock, LineFault, invalid_statements, invalid_executions, ProfileError,
  bad_line, parse_coverage_block_line, parse_coverage_line, block_key, bits,
  validate_coverage_counts, read_int, block_fields, is_positive, execute, add_block, count_block,
  count_blocks, import_path_of, scan_profile, scan_line, block_parts, plain_step, merged_step,
  at_line, or_conflict, mode_of, conclude, coverage_of, merged_coverage, parse_coverage_profile,
  parse_coverage_profile_merged,
}

bits-bounded : (n : ℤ) → bits n < 2 ^ 64
bits-bounded (pos n) = omega arith
bits-bounded (negsuc n) = omega arith

abbrev IsBounded : BlockLine → Type 0
IsBounded b = b.executions < 2 ^ 64

counts-bounded : (n k : ℤ) → Holds (λ (c : ℕ × ℕ). c.1 < 2 ^ 64) (validate_coverage_counts n k)
unfolding validate_coverage_counts
counts-bounded n k = elim (Bool-cases (ltb_ℤ n (pos 0))) [
  | inl e ↦ rw e tt
  | inr e ↦ elim (Bool-cases (ltb_ℤ k (pos 0))) [
    | inl f ↦ rw (e, f) tt
    | inr f ↦ rw (e, f) (bits-bounded k)
  ]
]

-- The key of every line that is a block, in front of the others.
unfoldable pub key_before : Fallible LineFault BlockLine → List Text → List Text
key_before (err fault) keys = keys
key_before (ok b) keys = block_key b ∷ keys

unfoldable pub block_keys : List Text → List Text
unfolding key_before
block_keys [] = []
block_keys (raw ∷ lines) =
    key_before (parse_coverage_block_line (trim_space raw)) (block_keys lines)

abbrev IsFresh : List CoverageBlock → Text → Type 0
IsFresh blocks key = All (λ (b : CoverageBlock). b.key ≢ key) blocks

-- The entry of a block that is seen for the first time.
abbrev first_seen : Text → BlockLine → CoverageBlock
first_seen mode line = execute mode line.executions (record {
  key = block_key line;
  import_path = import_path_of line.file;
  statements = line.statements;
  executed = false;
  executions = 0;
})

add_block-fresh :
    (mode : Text) (line : BlockLine) (blocks : List CoverageBlock)
    → IsFresh blocks (block_key line)
    → add_block mode line blocks ≡ some (blocks ++ first_seen mode line ∷ [])
unfolding add_block
add_block-fresh mode line [] h = refl
add_block-fresh mode line (b ∷ blocks) h = elim (Bool-cases (text_eq b.key (block_key line))) [
  | inl e ↦ absurd (h.0 ((text_eq_iff b.key (block_key line)).0 e))
  | inr e ↦ rw (e, add_block-fresh mode line blocks h.1) refl
]

count_blocks-append :
    (blocks : List CoverageBlock) (b : CoverageBlock) (packages : List PackageCoverage)
    → count_blocks (blocks ++ b ∷ []) packages
      ≡ count_block b.import_path b.statements
          (b.executed || is_positive b.executions)
          (count_blocks blocks packages)
unfolding count_blocks
count_blocks-append [] b packages = refl
count_blocks-append (x ∷ blocks) b packages = count_blocks-append blocks b _

or_false : (b : Bool) → (b || false) ≡ b
or_false true = refl
or_false false = refl

first_seen-executed :
    (mode : Text) (line : BlockLine)
    → IsBounded line
    → let b = first_seen mode line in
      (b.executed || is_positive b.executions) ≡ is_positive line.executions
unfolding execute
first_seen-executed mode line h = elim (Bool-cases (text_eq mode (codes "set"))) [
  | inl e ↦ rw e (or_false (is_positive line.executions))
  | inr e ↦
      let same : (0 + line.executions) % 2 ^ 64 ≡ line.executions = omega (arith, h) in
      rw e (ap is_positive same)
]

first_seen-place :
    (mode : Text) (line : BlockLine)
    → ((first_seen mode line).import_path ≡ import_path_of line.file)
      × ((first_seen mode line).statements ≡ line.statements)
      × ((first_seen mode line).key ≡ block_key line)
unfolding execute
first_seen-place mode line = elim (Bool-cases (text_eq mode (codes "set"))) [
  | inl e ↦ rw e (refl, refl, refl)
  | inr e ↦ rw e (refl, refl, refl)
]

block_fields-IsBounded :
    (file : Text) (words : List Text) → Holds IsBounded (block_fields file words)
unfolding block_fields
block_fields-IsBounded file [] = tt
block_fields-IsBounded file (a ∷ []) = tt
block_fields-IsBounded file (a ∷ b ∷ []) = tt
block_fields-IsBounded file (a ∷ b ∷ c ∷ []) =
    Holds-and_then _ IsBounded (read_int invalid_statements (atoi b)) _ (Holds-any _) (λ n p.
      Holds-and_then _ IsBounded (read_int invalid_executions (atoi c)) _ (Holds-any _) (λ k q.
        Holds-and_then _ IsBounded (validate_coverage_counts n k) _ (counts-bounded n k)
          (λ counts r. r)))
block_fields-IsBounded file (a ∷ b ∷ c ∷ d ∷ words) = tt

block_parts-IsBounded : (parts : Option (Text × Text)) → Holds IsBounded (block_parts parts)
unfolding block_parts
block_parts-IsBounded none = tt
block_parts-IsBounded (some (file, rest)) = block_fields-IsBounded file (fields rest)

parse_coverage_block_line-IsBounded :
    (line : Text) → Holds IsBounded (parse_coverage_block_line line)
unfolding parse_coverage_block_line
parse_coverage_block_line-IsBounded line = block_parts-IsBounded (cut_last b':' line)

-- One line gives both states the same packages, when its block was not seen before.
merged_step-fresh :
    (number : ℕ) (mode line : Text) (blocks : List CoverageBlock) (b : BlockLine)
    → parse_coverage_block_line line ≡ ok b
    → IsFresh blocks (block_key b)
    → (merged_step number mode line blocks ≡ ok (blocks ++ first_seen mode b ∷ []))
      × (plain_step number mode line (count_blocks blocks [])
          ≡ ok (count_blocks (blocks ++ first_seen mode b ∷ []) []))
unfolding merged_step plain_step at_line or_conflict and_then parse_coverage_line
merged_step-fresh number mode line blocks b e h =
    let bounded : IsBounded b = rw e at (parse_coverage_block_line-IsBounded line) in
    let (path, statements, key) = first_seen-place mode b in
    (
      rw (e, add_block-fresh mode b blocks h) refl,
      rw
          (
            e,
            count_blocks-append blocks (first_seen mode b) [],
            path,
            statements,
            first_seen-executed mode b bounded,
          )
          refl,
    )

step-failed :
    (number : ℕ) (mode line : Text) (blocks : List CoverageBlock) (fault : LineFault)
    → parse_coverage_block_line line ≡ err fault
    → (plain_step number mode line (count_blocks blocks []) ≡ err (bad_line number fault))
      × (merged_step number mode line blocks ≡ err (bad_line number fault))
unfolding merged_step plain_step at_line and_then parse_coverage_line
step-failed number mode line blocks fault e = (rw e refl, rw e refl)

-- The keys of the lines are different, and no entry has one of them.
abbrev AreNew : List CoverageBlock → List Text → Type 0
AreNew blocks keys = DistinctKeys (λ k. k) keys × All (IsFresh blocks) keys

AreNew-tail :
    (blocks : List CoverageBlock) (r : Fallible LineFault BlockLine) (keys : List Text)
    → AreNew blocks (key_before r keys)
    → AreNew blocks keys
unfolding key_before
AreNew-tail blocks (err fault) keys h = h
AreNew-tail blocks (ok b) keys (d, f) = (d.1, f.1)

All-IsFresh :
    (blocks : List CoverageBlock) (b : CoverageBlock) (key : Text) (keys : List Text)
    → b.key ≡ key
    → All (λ k. key ≢ k) keys
    → All (IsFresh blocks) keys
    → All (IsFresh (blocks ++ b ∷ [])) keys
All-IsFresh blocks b key [] e d f = tt
All-IsFresh blocks b key (k ∷ keys) e d f = (
  All-append (λ (b : CoverageBlock). b.key ≢ k) blocks (b ∷ []) f.0
      (λ same. d.0 (sym e ∙ same), tt),
  All-IsFresh blocks b key keys e d.1 f.1,
)

-- The lines that follow are read to the same packages.
abbrev Agrees : List Text → Type 0
Agrees lines =
    (number : ℕ) (mode : Option Text) (blocks : List CoverageBlock)
    → AreNew blocks (block_keys lines)
    → scan_profile plain_step number mode lines (count_blocks blocks [])
      ≡ and_then (scan_profile merged_step number mode lines blocks)
          (λ (m, bs). ok (m, count_blocks bs []))

scan_line-merged :
    (blank : Bool) (line : Text) (lines : List Text) (number : ℕ) (mode : Option Text)
    (blocks : List CoverageBlock)
    → Agrees lines
    → AreNew blocks (key_before (parse_coverage_block_line line) (block_keys lines))
    → and_then
        (scan_line plain_step blank number mode line (count_blocks blocks []))
        (λ (m, t). scan_profile plain_step number m lines t)
      ≡ and_then
          (and_then
            (scan_line merged_step blank number mode line blocks)
            (λ (m, t). scan_profile merged_step number m lines t))
          (λ (m, bs). ok (m, count_blocks bs []))
unfolding scan_line and_then
scan_line-merged true line lines number mode blocks later new =
    later number mode blocks
      (AreNew-tail blocks (parse_coverage_block_line line) (block_keys lines) new)
scan_line-merged false line lines number none blocks later new =
    elim (Fallible-cases (mode_of number line)) [
      | inl (fault, e) ↦ rw e refl
      | inr (m, e) ↦ rw e (
          later number (some m) blocks
            (AreNew-tail blocks (parse_coverage_block_line line) (block_keys lines) new))
    ]
scan_line-merged false line lines number (some m) blocks later new =
    elim (Fallible-cases (parse_coverage_block_line line)) [
      | inl (fault, e) ↦
          let (plain, merged) = step-failed number m line blocks fault e in rw (plain, merged) refl
      | inr (b, e) ↦
          let known : AreNew blocks (block_key b ∷ block_keys lines) =
            unfold key_before in rw e at new in
          let (merged, plain) = merged_step-fresh number m line blocks b e known.1.0 in
          let (path, statements, key) = first_seen-place m b in
          rw (plain, merged)
            (later number (some m) (blocks ++ first_seen m b ∷ []) (
              known.0.1,
              All-IsFresh blocks (first_seen m b) (block_key b) (block_keys lines) key known.0.0
                  known.1.1,
            ))
    ]

scan-merged : (lines : List Text) → Agrees lines
unfolding scan_profile block_keys and_then
scan-merged [] number mode blocks new = refl
scan-merged (raw ∷ lines) number mode blocks new =
    scan_line-merged (is_blank (trim_space raw)) (trim_space raw) lines (suc number) mode blocks
      (scan-merged lines) new

IsFresh-none : (keys : List Text) → All (IsFresh []) keys
IsFresh-none [] = tt
IsFresh-none (k ∷ keys) = (tt, IsFresh-none keys)

conclude-merged :
    (failed : Bool) (r : Fallible ProfileError (Option Text × List CoverageBlock))
    → and_then r (conclude failed merged_coverage)
      ≡ and_then (and_then r (λ (m, bs). ok (m, count_blocks bs []))) (conclude failed coverage_of)
unfolding and_then conclude merged_coverage
conclude-merged failed (err e) = refl
conclude-merged true (ok (m, bs)) = refl
conclude-merged false (ok (none, bs)) = refl
conclude-merged false (ok (some m, bs)) = refl

-- On a profile that no two lines of which are about the same block, the parser that merges blocks
-- gives the same coverage, or the same error, as the plain one.
pub parse_coverage_profile_merged-distinct :
    (lines : List Text) (failed : Bool)
    → DistinctKeys (λ (key : Text). key) (block_keys lines)
    → parse_coverage_profile_merged lines failed ≡ parse_coverage_profile lines failed
unfolding parse_coverage_profile_merged parse_coverage_profile
parse_coverage_profile_merged-distinct lines failed d =
    rw (scan-merged lines 0 none [] (d, IsFresh-none (block_keys lines)))
      (conclude-merged failed (scan_profile merged_step 0 none lines []))
