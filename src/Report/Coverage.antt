-- ===== src/Report/Coverage.antt =====
-- report/coverage.go: coverage profiles. A reader is its lines and whether reading failed after them;
-- an int is its 64-bit pattern, once it is read. A map with the list of its keys in the order of
-- their insertion is a list of entries.
pub mod Merged
pub mod Sums
use go_specs.Prelude.{
  ℕ, suc, ◌+◌, ◌-◌, ◌%◌, ◌^◌, Bool, true, false, ◌&&◌, ◌||◌, Option, none, some, List, [], ◌∷◌,
  ◌++◌, ℤ, pos, negsuc, ltb, ltb_ℤ, ◌==◌, if◌then◌else◌,
}
use mathlib.Core.Option
use go_specs.Prelude.Fallible.{Fallible, err, ok, and_then}
use go_specs.Prelude.Text.{
  Text, is_blank, codes, text_eq, trim_space, cut_prefix, cut_last, fields, atoi,
}
use go_specs.Prelude.Sort.{sort_by}
use go_specs.Report.Collector.{PackageCoverage, AggregateCoverage, Coverage}

-- An int as its 64-bit pattern.
abbrev bits : ℤ → ℕ
bits (pos n) = n % 2 ^ 64
bits (negsuc n) = 2 ^ 64 - 1 - n % 2 ^ 64

abbrev pub add_int : ℕ → ℕ → ℕ
add_int a b = (a + b) % 2 ^ 64

-- a > 0
unfoldable is_positive : ℕ → Bool
is_positive a = ltb 0 a && ltb a (2 ^ 63)

pub data LineFault : Type 0 where
  no_colon malformed_block invalid_statements invalid_executions negative_statements
        negative_executions :
      LineFault

-- With the number of the line.
pub data ProfileError : Type 0 where
  expected_mode : ℕ → ProfileError
  invalid_mode : ℕ → ProfileError
  bad_line : ℕ → LineFault → ProfileError
  conflicting_statements : ℕ → ProfileError
  read_failed : ProfileError
  empty_input : ProfileError

unfoldable pub validate_coverage_mode : Text → Bool
validate_coverage_mode mode =
    text_eq mode (codes "set") || (text_eq mode (codes "count") || text_eq mode (codes "atomic"))

unfoldable pub validate_coverage_counts : ℤ → ℤ → Fallible LineFault (ℕ × ℕ)
validate_coverage_counts statements executions =
    if ltb_ℤ statements (pos 0)
    then err negative_statements
    else if ltb_ℤ executions (pos 0)
    then err negative_executions
    else ok (bits statements, bits executions)

unfoldable pub import_path_of : Text → Text
unfolding cut_last
import_path_of file = elim (cut_last b'/' file) [ none ↦ file | some parts ↦ parts.0 ]

read_int : LineFault → Option ℤ → Fallible LineFault ℤ
read_int fault none = err fault
read_int fault (some n) = ok n

pub record BlockLine : Type 0 where
  pub file : Text
  pub block_spec : Text
  pub statements : ℕ
  pub executions : ℕ

block_fields : Text → List Text → Fallible LineFault BlockLine
unfolding read_int and_then validate_coverage_counts atoi
block_fields file (spec ∷ statements ∷ executions ∷ []) =
    and_then (read_int invalid_statements (atoi statements)) (λ n.
      and_then (read_int invalid_executions (atoi executions)) (λ k.
        and_then (validate_coverage_counts n k) (λ counts. ok (record {
          file = file;
          block_spec = spec;
          statements = counts.0;
          executions = counts.1;
        }))))
block_fields file _ = err malformed_block

block_parts : Option (Text × Text) → Fallible LineFault BlockLine
unfolding block_fields fields
block_parts none = err no_colon
block_parts (some (file, rest)) = block_fields file (fields rest)

unfoldable pub parse_coverage_block_line : Text → Fallible LineFault BlockLine
unfolding block_parts cut_last
parse_coverage_block_line line = block_parts (cut_last b':' line)

-- The package, the statements and the executions.
unfoldable pub parse_coverage_line : Text → Fallible LineFault (Text × (ℕ × ℕ))
unfolding and_then parse_coverage_block_line import_path_of
parse_coverage_line line =
    and_then (parse_coverage_block_line line)
      (λ b. ok (import_path_of b.file, (b.statements, b.executions)))

at_line : {A : Type 0} → ℕ → Fallible LineFault A → Fallible ProfileError A
at_line number (err fault) = err (bad_line number fault)
at_line number (ok a) = ok a

mode_of : ℕ → Text → Fallible ProfileError Text
unfolding validate_coverage_mode cut_prefix trim_space
mode_of number line = elim (cut_prefix line (codes "mode:")) [
  | none ↦ err (expected_mode number)
  | some rest ↦
      if validate_coverage_mode (trim_space rest)
      then ok (trim_space rest)
      else err (invalid_mode number)
]

module _ {S : Type 0} (step : ℕ → Text → Text → S → Fallible ProfileError S) where
  -- A blank line, the mode line when there was none, and then the blocks.
  scan_line : Bool → ℕ → Option Text → Text → S → Fallible ProfileError (Option Text × S)
  unfolding mode_of and_then
  scan_line true number mode line s = ok (mode, s)
  scan_line false number none line s = and_then (mode_of number line) (λ m. ok (some m, s))
  scan_line false number (some m) line s = and_then (step number m line s) (λ t. ok (some m, t))

  -- The loop over the lines that both parsers have: `step` takes the number, the mode and a line.
  unfoldable scan_profile :
      ℕ → Option Text → List Text → S → Fallible ProfileError (Option Text × S)
  unfolding is_blank scan_line and_then
  scan_profile number mode [] s = ok (mode, s)
  scan_profile number mode (raw ∷ lines) s =
      and_then (scan_line (is_blank (trim_space raw)) (suc number) mode (trim_space raw) s)
        (λ (m, t). scan_profile (suc number) m lines t)

add_package : ℕ → Bool → PackageCoverage → PackageCoverage
add_package statements executed p = record p {
  total = add_int p.total statements;
  covered = if executed then add_int p.covered statements else p.covered;
}

-- A block of a package: its entry is made when there is none.
unfoldable pub count_block : Text → ℕ → Bool → List PackageCoverage → List PackageCoverage
unfolding add_package
count_block path statements executed [] =
    add_package statements executed (record { import_path = path; covered = 0; total = 0 }) ∷ []
count_block path statements executed (p ∷ packages) =
    let later = count_block path statements executed packages in
    if text_eq p.import_path path then add_package statements executed p ∷ packages else p ∷ later

unfoldable sum_packages : AggregateCoverage → List PackageCoverage → AggregateCoverage
sum_packages agg [] = agg
sum_packages agg (p ∷ packages) =
    sum_packages
      (record { covered = add_int agg.covered p.covered; total = add_int agg.total p.total })
      packages

path_of : PackageCoverage → Text
path_of p = p.import_path

unfoldable pub coverage_of : List PackageCoverage → Coverage
unfolding sort_by sum_packages path_of
coverage_of packages = record {
  packages = sort_by path_of packages;
  aggregate = sum_packages (record { covered = 0; total = 0 }) packages;
}

-- What follows the loop.
conclude : {S : Type 0} → Bool → (S → Coverage) → Option Text × S → Fallible ProfileError Coverage
conclude true result scanned = err read_failed
conclude false result (none, s) = err empty_input
conclude false result (some mode, s) = ok (result s)

plain_step : ℕ → Text → Text → List PackageCoverage → Fallible ProfileError (List PackageCoverage)
unfolding at_line and_then parse_coverage_line count_block is_positive
plain_step number mode line packages =
    and_then (at_line number (parse_coverage_line line)) (λ (path, (statements, executions)).
      ok (count_block path statements (is_positive executions) packages))

unfoldable pub parse_coverage_profile : List Text → Bool → Fallible ProfileError Coverage
unfolding and_then scan_profile plain_step conclude coverage_of
parse_coverage_profile lines failed =
    and_then (scan_profile plain_step 0 none lines []) (conclude failed coverage_of)

pub record CoverageBlock : Type 0 where
  pub key : Text
  pub import_path : Text
  pub statements : ℕ
  pub executed : Bool
  pub executions : ℕ

-- file + "|" + blockSpec
unfoldable pub block_key : BlockLine → Text
block_key b = b.file ++ b'|' ∷ b.block_spec

execute : Text → ℕ → CoverageBlock → CoverageBlock
unfolding is_positive
execute mode executions b =
    if text_eq mode (codes "set")
    then record b { executed = b.executed || is_positive executions }
    else record b { executions = add_int b.executions executions }

-- `none` when the block is there with another number of statements
unfoldable add_block : Text → BlockLine → List CoverageBlock → Option (List CoverageBlock)
unfolding execute block_key import_path_of
add_block mode line [] = some (
    execute mode line.executions (record {
      key = block_key line;
      import_path = import_path_of line.file;
      statements = line.statements;
      executed = false;
      executions = 0;
    })
    ∷ [])
add_block mode line (b ∷ blocks) =
    let later = add_block mode line blocks in
    if text_eq b.key (block_key line)
    then if b.statements == line.statements
      then some (execute mode line.executions b ∷ blocks)
      else none
    else Option.map (◌∷◌ b) later

or_conflict : {A : Type 0} → ℕ → Option A → Fallible ProfileError A
or_conflict number none = err (conflicting_statements number)
or_conflict number (some a) = ok a

merged_step : ℕ → Text → Text → List CoverageBlock → Fallible ProfileError (List CoverageBlock)
unfolding at_line and_then parse_coverage_block_line add_block or_conflict
merged_step number mode line blocks =
    and_then (at_line number (parse_coverage_block_line line))
      (λ b. or_conflict number (add_block mode b blocks))

unfoldable count_blocks : List CoverageBlock → List PackageCoverage → List PackageCoverage
unfolding count_block is_positive
count_blocks [] packages = packages
count_blocks (b ∷ blocks) packages =
    count_blocks blocks
      (count_block b.import_path b.statements (b.executed || is_positive b.executions) packages)

merged_coverage : List CoverageBlock → Coverage
unfolding coverage_of count_blocks
merged_coverage blocks = coverage_of (count_blocks blocks [])

unfoldable pub parse_coverage_profile_merged : List Text → Bool → Fallible ProfileError Coverage
unfolding and_then scan_profile merged_step conclude merged_coverage
parse_coverage_profile_merged lines failed =
    and_then (scan_profile merged_step 0 none lines []) (conclude failed merged_coverage)
