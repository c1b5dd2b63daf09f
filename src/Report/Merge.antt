-- ===== src/Report/Merge.antt =====
-- report/coordination/merge.go: one report of the reports of all shards. Of an envelope it reads the
-- package's path and the report.
pub mod Accounts
use go_specs.Prelude.{◌≡◌, ap, List, [], ◌∷◌, ◌++◌, map}
use go_specs.Prelude.Text.{Text}
use go_specs.Prelude.Sort.{sort_by, DistinctKeys, sort_by-Perm}
use mathlib.Core.List.{Permᴰ}
use go_specs.Report.{sum_totals}
use go_specs.Report.Collector.{Suite, NormalizedReport, empty_report, plus}

pub record ShardEnvelope : Type 0 where
  pub package_path : Text
  pub report : NormalizedReport

unfoldable stamp : Text → Suite → Suite
stamp path s = record s { package_path = path }

unfoldable merge_into : List ShardEnvelope → NormalizedReport → NormalizedReport
unfolding stamp sum_totals
merge_into [] merged = merged
merge_into (env ∷ envelopes) merged =
    let rep = env.report in
    merge_into envelopes (record merged {
      suites = merged.suites ++ map (stamp env.package_path) rep.suites;
      execution = sum_totals merged.execution rep.execution;
      duration = plus merged.duration rep.duration;
    })

unfoldable envelope_path : ShardEnvelope → Text
envelope_path env = env.package_path

-- mergeReports
unfoldable pub merge_reports : List ShardEnvelope → NormalizedReport
unfolding merge_into sort_by envelope_path
merge_reports envelopes = merge_into (sort_by envelope_path envelopes) empty_report

-- The merged report does not depend on the order of the envelopes, when their packages differ.
pub merge_reports-Perm :
    {xs ys : List ShardEnvelope}
    → Permᴰ xs ys
    → DistinctKeys (λ (env : ShardEnvelope). env.package_path) xs
    → merge_reports xs ≡ merge_reports ys
unfolding merge_reports envelope_path
merge_reports-Perm p d =
    ap (λ (l : List ShardEnvelope). merge_into l empty_report) (sort_by-Perm envelope_path p d)
