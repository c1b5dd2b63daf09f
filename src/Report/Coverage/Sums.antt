-- ===== src/Report/Coverage/Sums.antt =====
-- The packages and the aggregate that report/coverage.go returns.
use go_specs.Prelude.{
  ℕ, suc, ◌+◌, ◌%◌, ◌^◌, ◌≡◌, ◌≢◌, refl, ap, ◌∙◌, arith, Bool, true, false, Option, none, some,
  List, [], ◌∷◌, All, Bool-cases, inl, inr, ◌⊎◌,
}
use go_specs.Prelude.Fallible.{Fallible, ok, Holds, Holds-and_then, Holds-any, Holds-ok}
use go_specs.Prelude.Text.{Text, is_blank, text_eq, trim_space}
use go_specs.Prelude.Text.Pieces.{text_eq_iff}
use go_specs.Prelude.Sort.{
  DistinctKeys, Ascending, sort_by, insert_sorted, text_lt, sort_by-Ascending,
}
use go_specs.Report.Collector.{PackageCoverage, AggregateCoverage, Coverage}
use go_specs.Report.Coverage.{
  ProfileError, CoverageBlock, count_block, count_blocks, sum_packages, coverage_of, path_of,
  scan_profile, scan_line, plain_step, merged_step, conclude, merged_coverage,
  parse_coverage_profile, parse_coverage_profile_merged, at_line, parse_coverage_line, mode_of,
  is_positive, add_package,
}

unfoldable pub sum_of : (PackageCoverage → ℕ) → List PackageCoverage → ℕ
sum_of part [] = 0
sum_of part (p ∷ packages) = part p + sum_of part packages

-- Both sums of the aggregate are those of the packages, as 64-bit numbers, and the packages stand in
-- the order of their paths, each once.
unfoldable pub IsTotalled : Coverage → Type 0
IsTotalled cov =
    (cov.aggregate.total ≡ sum_of (λ (p : PackageCoverage). p.total) cov.packages % 2 ^ 64)
    × (cov.aggregate.covered ≡ sum_of (λ (p : PackageCoverage). p.covered) cov.packages % 2 ^ 64)
    × Ascending (λ (p : PackageCoverage). p.import_path) cov.packages

sum_of-insert_sorted :
    (part : PackageCoverage → ℕ) (p : PackageCoverage) (packages : List PackageCoverage)
    → sum_of part (insert_sorted path_of p packages) ≡ part p + sum_of part packages
unfolding sum_of insert_sorted
sum_of-insert_sorted part p [] = refl
sum_of-insert_sorted part p (q ∷ packages) =
    let later = sum_of-insert_sorted part p packages in
    elim (Bool-cases (text_lt (path_of p) (path_of q))) [
      | inl e ↦ rw e refl
      | inr e ↦ rw e (omega (arith, later))
    ]

sum_of-sort_by :
    (part : PackageCoverage → ℕ) (packages : List PackageCoverage)
    → sum_of part (sort_by path_of packages) ≡ sum_of part packages
unfolding sum_of sort_by
sum_of-sort_by part [] = refl
sum_of-sort_by part (p ∷ packages) =
    sum_of-insert_sorted part p (sort_by path_of packages)
    ∙ ap (λ (n : ℕ). part p + n) (sum_of-sort_by part packages)

sum_packages-total :
    (packages : List PackageCoverage) (agg : AggregateCoverage) (n : ℕ)
    → agg.total ≡ n % 2 ^ 64
    → (sum_packages agg packages).total
      ≡ (n + sum_of (λ (p : PackageCoverage). p.total) packages) % 2 ^ 64
unfolding sum_packages sum_of
sum_packages-total [] agg n h = omega (arith, h)
sum_packages-total (p ∷ packages) agg n h =
    sum_packages-total packages _ (n + p.total) (omega (arith, h))
    ∙ ap (λ (k : ℕ). k % 2 ^ 64) (omega arith)

sum_packages-covered :
    (packages : List PackageCoverage) (agg : AggregateCoverage) (n : ℕ)
    → agg.covered ≡ n % 2 ^ 64
    → (sum_packages agg packages).covered
      ≡ (n + sum_of (λ (p : PackageCoverage). p.covered) packages) % 2 ^ 64
unfolding sum_packages sum_of
sum_packages-covered [] agg n h = omega (arith, h)
sum_packages-covered (p ∷ packages) agg n h =
    sum_packages-covered packages _ (n + p.covered) (omega (arith, h))
    ∙ ap (λ (k : ℕ). k % 2 ^ 64) (omega arith)

abbrev AreDistinct : List PackageCoverage → Type 0
AreDistinct = DistinctKeys (λ (p : PackageCoverage). p.import_path)

abbrev no_packages : AggregateCoverage
no_packages = record { covered = 0; total = 0 }

coverage_of-IsTotalled :
    (packages : List PackageCoverage) → AreDistinct packages → IsTotalled (coverage_of packages)
unfolding IsTotalled coverage_of path_of
coverage_of-IsTotalled packages d = (
  (let total = sum_packages-total packages no_packages 0 refl in
      let sorted = sum_of-sort_by (λ (p : PackageCoverage). p.total) packages in
      omega (arith, total, sorted)),
  (let covered = sum_packages-covered packages no_packages 0 refl in
      let sorted = sum_of-sort_by (λ (p : PackageCoverage). p.covered) packages in
      omega (arith, covered, sorted)),
  sort_by-Ascending path_of packages d,
)

count_block-differs :
    (other path : Text) (statements : ℕ) (executed : Bool) (packages : List PackageCoverage)
    → other ≢ path
    → All (λ (p : PackageCoverage). other ≢ p.import_path) packages
    → All
        (λ (p : PackageCoverage). other ≢ p.import_path)
        (count_block path statements executed packages)
unfolding count_block add_package
count_block-differs other path statements executed [] n h = (n, tt)
count_block-differs other path statements executed (p ∷ packages) n h =
    let later = count_block-differs other path statements executed packages n h.1 in
    elim (Bool-cases (text_eq p.import_path path)) [ inl e ↦ rw e h | inr e ↦ rw e (h.0, later) ]

count_block-AreDistinct :
    (path : Text) (statements : ℕ) (executed : Bool) (packages : List PackageCoverage)
    → AreDistinct packages
    → AreDistinct (count_block path statements executed packages)
unfolding count_block add_package
count_block-AreDistinct path statements executed [] d = (tt, tt)
count_block-AreDistinct path statements executed (p ∷ packages) d =
    elim (Bool-cases (text_eq p.import_path path)) [
      | inl e ↦ rw e d
      | inr e ↦
          let differ : p.import_path ≢ path =
            λ same. let equal = (text_eq_iff p.import_path path).1 same in cc in
          rw e (
            count_block-differs p.import_path path statements executed packages differ d.0,
            count_block-AreDistinct path statements executed packages d.1,
          )
    ]

count_blocks-AreDistinct :
    (blocks : List CoverageBlock) (packages : List PackageCoverage)
    → AreDistinct packages
    → AreDistinct (count_blocks blocks packages)
unfolding count_blocks
count_blocks-AreDistinct [] packages d = d
count_blocks-AreDistinct (b ∷ blocks) packages d =
    count_blocks-AreDistinct blocks _
      (count_block-AreDistinct b.import_path b.statements _ packages d)

plain_step-AreDistinct :
    (number : ℕ) (mode line : Text) (packages : List PackageCoverage)
    → AreDistinct packages
    → Holds AreDistinct (plain_step number mode line packages)
unfolding plain_step
plain_step-AreDistinct number mode line packages d =
    Holds-and_then _ AreDistinct (at_line number (parse_coverage_line line)) _ (Holds-any _)
      (λ (path, (statements, executions)) u.
        count_block-AreDistinct path statements (is_positive executions) packages d)

module _ {S : Type 0} (step : ℕ → Text → Text → S → Fallible ProfileError S) (P : S → Type 0)
    (step-P : (number : ℕ) (mode line : Text) (s : S)
      → P s
      → Holds P (step number mode line s)) where
  scan_line-Holds :
      (blank : Bool) (number : ℕ) (mode : Option Text) (line : Text) (s : S)
      → P s
      → Holds (λ (r : Option Text × S). P r.1) (scan_line step blank number mode line s)
  unfolding scan_line
  scan_line-Holds true number mode line s h = h
  scan_line-Holds false number none line s h =
      Holds-and_then _ (λ (r : Option Text × S). P r.1) (mode_of number line) _ (Holds-any _)
        (λ m u. h)
  scan_line-Holds false number (some m) line s h =
      Holds-and_then P (λ (r : Option Text × S). P r.1) (step number m line s) _
        (step-P number m line s h) (λ t k. k)

  -- What every step keeps holds at the end.
  scan_profile-Holds :
      (lines : List Text) (number : ℕ) (mode : Option Text) (s : S)
      → P s
      → Holds (λ (r : Option Text × S). P r.1) (scan_profile step number mode lines s)
  unfolding scan_profile
  scan_profile-Holds [] number mode s h = h
  scan_profile-Holds (raw ∷ lines) number mode s h =
      Holds-and_then (λ (r : Option Text × S). P r.1) (λ (r : Option Text × S). P r.1) _ _
        (scan_line-Holds (is_blank (trim_space raw)) (suc number) mode (trim_space raw) s h)
        (λ (m, t) k. scan_profile-Holds lines (suc number) m t k)

  conclude-Holds :
      (Q : Coverage → Type 0) (failed : Bool) (result : S → Coverage) (m : Option Text) (t : S)
      → P t
      → ((u : S) → P u → Q (result u))
      → Holds Q (conclude failed result (m, t))
  unfolding conclude
  conclude-Holds Q true result m t k h = tt
  conclude-Holds Q false result none t k h = tt
  conclude-Holds Q false result (some m) t k h = h t k

-- What either parser returns for a profile: the aggregate is the sum of the packages, as 64-bit
-- numbers, and the packages stand in the order of their paths, each once.
pub parse_coverage_profile-IsTotalled :
    (lines : List Text) (failed : Bool) (cov : Coverage)
    → (parse_coverage_profile lines failed ≡ ok cov)
      ⊎ (parse_coverage_profile_merged lines failed ≡ ok cov)
    → IsTotalled cov
parse_coverage_profile-IsTotalled lines failed cov (inl e) =
    Holds-ok IsTotalled (parse_coverage_profile lines failed) cov e (
      unfold parse_coverage_profile in
      Holds-and_then _ IsTotalled (scan_profile plain_step 0 none lines []) _
        (scan_profile-Holds plain_step AreDistinct plain_step-AreDistinct lines 0 none [] tt)
        (λ (m, t) k.
          conclude-Holds plain_step AreDistinct plain_step-AreDistinct IsTotalled failed coverage_of
            m t k coverage_of-IsTotalled))
parse_coverage_profile-IsTotalled lines failed cov (inr e) =
    Holds-ok IsTotalled (parse_coverage_profile_merged lines failed) cov e (
      unfold parse_coverage_profile_merged in
      Holds-and_then _ IsTotalled (scan_profile merged_step 0 none lines []) _ (Holds-any _)
        (λ (m, t) k.
          conclude-Holds merged_step (λ s. Unit) (λ n m l s u. Holds-any _) IsTotalled failed
            merged_coverage m t tt
            (λ bs u.
              unfold merged_coverage in
              coverage_of-IsTotalled (count_blocks bs []) (count_blocks-AreDistinct bs [] tt))))
