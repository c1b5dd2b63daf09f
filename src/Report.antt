-- ===== src/Report.antt =====
-- report/model.go: the totals of a report, with sumTotals of report/coordination/merge.go.
pub mod Collector
pub mod Coverage
pub mod Identity
pub mod ShardName
pub mod Merge
use go_specs.Prelude.{ℕ, suc, ◌+◌, ◌≡◌, arith, List, [], ◌∷◌, length}

pub data Status : Type 0 where
  status_passed status_failed status_error status_skipped status_filtered status_pending
        status_unstarted :
      Status

pub record Totals : Type 0 where
  pub total : ℕ
  pub passed : ℕ
  pub failed : ℕ
  pub error : ℕ
  pub skipped : ℕ
  pub filtered : ℕ
  pub pending : ℕ
  pub unstarted : ℕ

abbrev pub no_totals : Totals
no_totals = record {
  total = 0;
  passed = 0;
  failed = 0;
  error = 0;
  skipped = 0;
  filtered = 0;
  pending = 0;
  unstarted = 0;
}

-- Totals.add
unfoldable pub add_status : Status → Totals → Totals
add_status status_passed t = record t { total = suc t.total; passed = suc t.passed }
add_status status_failed t = record t { total = suc t.total; failed = suc t.failed }
add_status status_error t = record t { total = suc t.total; error = suc t.error }
add_status status_skipped t = record t { total = suc t.total; skipped = suc t.skipped }
add_status status_filtered t = record t { total = suc t.total; filtered = suc t.filtered }
add_status status_pending t = record t { total = suc t.total; pending = suc t.pending }
add_status status_unstarted t = record t { unstarted = suc t.unstarted }

unfoldable pub add_statuses : List Status → Totals → Totals
unfolding add_status
add_statuses [] t = t
add_statuses (s ∷ statuses) t = add_statuses statuses (add_status s t)

-- coordination.sumTotals
unfoldable pub sum_totals : Totals → Totals → Totals
sum_totals a b = record {
  total = a.total + b.total;
  passed = a.passed + b.passed;
  failed = a.failed + b.failed;
  error = a.error + b.error;
  skipped = a.skipped + b.skipped;
  filtered = a.filtered + b.filtered;
  pending = a.pending + b.pending;
  unstarted = a.unstarted + b.unstarted;
}

-- The total is the sum of the entered kinds, and with the unstarted ones it is the number of cases.
abbrev Balanced : ℕ → Totals → Type 0
Balanced n t =
    (t.total ≡ t.passed + t.failed + t.error + t.skipped + t.filtered + t.pending)
    × (t.total + t.unstarted ≡ n)

add_status-Balanced :
    (s : Status) (n : ℕ) (t : Totals) → Balanced n t → Balanced (suc n) (add_status s t)
unfolding add_status
add_status-Balanced status_passed n t (e, f) = (omega (arith, e), omega (arith, f))
add_status-Balanced status_failed n t (e, f) = (omega (arith, e), omega (arith, f))
add_status-Balanced status_error n t (e, f) = (omega (arith, e), omega (arith, f))
add_status-Balanced status_skipped n t (e, f) = (omega (arith, e), omega (arith, f))
add_status-Balanced status_filtered n t (e, f) = (omega (arith, e), omega (arith, f))
add_status-Balanced status_pending n t (e, f) = (omega (arith, e), omega (arith, f))
add_status-Balanced status_unstarted n t (e, f) = (omega (arith, e), omega (arith, f))

add_statuses-from :
    (statuses : List Status) (n : ℕ) (t : Totals)
    → Balanced n t
    → (k : ℕ) × (k ≡ n + length statuses) × Balanced k (add_statuses statuses t)
unfolding add_statuses
add_statuses-from [] n t h = (n, omega arith, h)
add_statuses-from (s ∷ statuses) n t h =
    let (k, e, b) =
      add_statuses-from statuses (suc n) (add_status s t) (add_status-Balanced s n t h) in
    (k, omega (arith, e), b)

-- Counted from nothing, for any cases: the total is the sum of the passed, failed, error, skipped,
-- filtered and pending ones, and together with the unstarted ones it is the number of the cases.
pub add_statuses_balance :
    (statuses : List Status)
    → let t = add_statuses statuses no_totals in
      (t.total ≡ t.passed + t.failed + t.error + t.skipped + t.filtered + t.pending)
      × (t.total + t.unstarted ≡ length statuses)
add_statuses_balance statuses =
    let (k, e, (a, b)) = add_statuses-from statuses 0 no_totals (omega arith, omega arith) in
    (a, omega (arith, e, b))
