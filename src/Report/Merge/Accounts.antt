-- ===== src/Report/Merge/Accounts.antt =====
-- The merge of report/coordination/merge.go keeps the accounts that the collectors kept.
use go_specs.Prelude.{◌≡◌, refl, sym, ap, ◌∙◌, arith, List, [], ◌∷◌, ◌++◌, map, All, All-append}
use go_specs.Prelude.Text.{Text}
use go_specs.Prelude.Sort.{sort_by, All-sort_by}
use go_specs.Report.{Totals, no_totals, sum_totals}
use go_specs.Report.Collector.{Suite, NormalizedReport, empty_report}
use go_specs.Report.Collector.Accounts.{IsAccounted, IsCounted, sum_suites}
use go_specs.Report.Merge.{ShardEnvelope, stamp, merge_into, merge_reports, envelope_path}

sum_totals_assoc : (a b c : Totals) → sum_totals (sum_totals a b) c ≡ sum_totals a (sum_totals b c)
unfolding sum_totals
sum_totals_assoc a b c = ground arith

sum_totals-none : (a : Totals) → sum_totals no_totals a ≡ a
unfolding sum_totals
sum_totals-none a = ground arith

sum_suites-append_all :
    (xs ys : List Suite) → sum_suites (xs ++ ys) ≡ sum_totals (sum_suites xs) (sum_suites ys)
unfolding sum_suites
sum_suites-append_all [] ys = sym (sum_totals-none (sum_suites ys))
sum_suites-append_all (x ∷ xs) ys =
    ap (sum_totals x.totals) (sum_suites-append_all xs ys)
    ∙ sym (sum_totals_assoc x.totals (sum_suites xs) (sum_suites ys))

sum_suites-stamp :
    (path : Text) (xs : List Suite) → sum_suites (map (stamp path) xs) ≡ sum_suites xs
unfolding sum_suites stamp
sum_suites-stamp path [] = refl
sum_suites-stamp path (x ∷ xs) = ap (sum_totals x.totals) (sum_suites-stamp path xs)

All-stamp : (path : Text) (xs : List Suite) → All IsCounted xs → All IsCounted (map (stamp path) xs)
unfolding stamp
All-stamp path [] h = tt
All-stamp path (x ∷ xs) h = (h.0, All-stamp path xs h.1)

abbrev pub IsAccountedEnvelope : ShardEnvelope → Type 0
IsAccountedEnvelope env = IsAccounted env.report

merge_into-IsAccounted :
    (envelopes : List ShardEnvelope) (merged : NormalizedReport)
    → All IsAccountedEnvelope envelopes
    → IsAccounted merged
    → IsAccounted (merge_into envelopes merged)
unfolding merge_into
merge_into-IsAccounted [] merged h m = m
merge_into-IsAccounted (env ∷ envelopes) merged h m =
    let path = env.package_path in
    let suites = env.report.suites in
    let same = sum_suites-append_all merged.suites (map (stamp path) suites) in
    let sums = ap (sum_totals (sum_suites merged.suites)) (sum_suites-stamp path suites) in
    merge_into-IsAccounted envelopes _ h.1 (
      All-append IsCounted merged.suites (map (stamp path) suites) m.0
          (All-stamp path suites h.0.0),
      rw (m.1, h.0.1) (sym (same ∙ sums)),
    )

-- When the report of every shard has the totals of its suites, and each suite those of its cases, then
-- so does the merged report.
pub merge_reports-IsAccounted :
    (envelopes : List ShardEnvelope)
    → All IsAccountedEnvelope envelopes
    → IsAccounted (merge_reports envelopes)
unfolding merge_reports
merge_reports-IsAccounted envelopes h =
    merge_into-IsAccounted (sort_by envelope_path envelopes) empty_report
      (All-sort_by envelope_path IsAccountedEnvelope envelopes h) (tt, unfold sum_suites in refl)
