-- ===== src/Report/Collector/Accounts.antt =====
-- What report/collector.go has counted after any events.
use go_specs.Prelude.{
  ℕ, zero, suc, ◌≡◌, refl, sym, ap, ◌∙◌, subst, arith, Option, none, some, List, [], ◌∷◌, ◌++◌, map,
  get_elem?, set, All, All-append, All-set, Option-cases, inl, inr,
}
use go_specs.Report.{
  Status, status_passed, status_failed, status_error, status_skipped, status_filtered,
  status_pending, status_unstarted, Totals, no_totals, add_status, add_statuses, sum_totals,
}
use go_specs.Report.Collector.{
  Suite, Case, Collector, NormalizedReport, Event, suite_start, suite_end, spec_start, spec_end,
  coverage_set, new_collector, receive, receive_all, report_of, suite_started, suite_finished,
  spec_finished, set_coverage, finish_at, finish_open, add_case_open, add_case_at, add_case,
  case_of, Duration,
}

-- The totals of all suites together.
unfoldable pub sum_suites : List Suite → Totals
unfolding sum_totals
sum_suites [] = no_totals
sum_suites (s ∷ suites) = sum_totals s.totals (sum_suites suites)

abbrev statuses_of : List Case → List Status
statuses_of = map (λ (k : Case). k.status)

-- A suite's totals count its cases.
abbrev pub IsCounted : Suite → Type 0
IsCounted s = s.totals ≡ add_statuses (statuses_of s.cases) no_totals

abbrev pub IsAccounted : NormalizedReport → Type 0
IsAccounted r = All IsCounted r.suites × (r.execution ≡ sum_suites r.suites)

add_status-sum :
    (s : Status) (a b : Totals) → sum_totals (add_status s a) b ≡ add_status s (sum_totals a b)
unfolding add_status sum_totals
add_status-sum status_passed a b = ground arith
add_status-sum status_failed a b = ground arith
add_status-sum status_error a b = ground arith
add_status-sum status_skipped a b = ground arith
add_status-sum status_filtered a b = ground arith
add_status-sum status_pending a b = ground arith
add_status-sum status_unstarted a b = ground arith

sum_totals_comm : (a b : Totals) → sum_totals a b ≡ sum_totals b a
unfolding sum_totals
sum_totals_comm a b = ground arith

sum-add_status :
    (s : Status) (a b : Totals) → sum_totals a (add_status s b) ≡ add_status s (sum_totals a b)
sum-add_status s a b =
    sum_totals_comm a (add_status s b)
    ∙ (add_status-sum s b a ∙ ap (add_status s) (sum_totals_comm b a))

add_statuses-append :
    (xs : List Status) (s : Status) (t : Totals)
    → add_statuses (xs ++ s ∷ []) t ≡ add_status s (add_statuses xs t)
unfolding add_statuses
add_statuses-append [] s t = refl
add_statuses-append (x ∷ xs) s t = add_statuses-append xs s (add_status x t)

statuses_of-append :
    (xs : List Case) (k : Case) → statuses_of (xs ++ k ∷ []) ≡ statuses_of xs ++ k.status ∷ []
statuses_of-append [] k = refl
statuses_of-append (x ∷ xs) k = ap (◌∷◌ x.status) (statuses_of-append xs k)

sum_suites-append :
    (suites : List Suite) (s : Suite)
    → s.totals ≡ no_totals
    → sum_suites (suites ++ s ∷ []) ≡ sum_suites suites
unfolding sum_suites
sum_suites-append [] s e = rw e
sum_suites-append (x ∷ suites) s e = ap (sum_totals x.totals) (sum_suites-append suites s e)

sum_suites-set :
    (suites : List Suite) (at : ℕ) (s new : Suite)
    → get_elem? suites at ≡ some s
    → new.totals ≡ s.totals
    → sum_suites (set suites at new) ≡ sum_suites suites
unfolding sum_suites
sum_suites-set [] at s new e h = refl
sum_suites-set (x ∷ suites) zero s new e h = let same : x ≡ s = cc in rw (same, h)
sum_suites-set (x ∷ suites) (suc at) s new e h =
    ap (sum_totals x.totals) (sum_suites-set suites at s new e h)

sum_suites-set_add :
    (suites : List Suite) (at : ℕ) (s new : Suite) (status : Status)
    → get_elem? suites at ≡ some s
    → new.totals ≡ add_status status s.totals
    → sum_suites (set suites at new) ≡ add_status status (sum_suites suites)
unfolding sum_suites
sum_suites-set_add [] at s new status e h = cc
sum_suites-set_add (x ∷ suites) zero s new status e h =
    let same : x ≡ s = cc in rw (same, h) (add_status-sum status s.totals (sum_suites suites))
sum_suites-set_add (x ∷ suites) (suc at) s new status e h =
    ap (sum_totals x.totals) (sum_suites-set_add suites at s new status e h)
    ∙ sum-add_status status x.totals (sum_suites suites)

All-get {ℓ} :
    {A : Type ℓ} (P : A → Type 0) (xs : List A) (i : ℕ) (a : A)
    → All P xs
    → get_elem? xs i ≡ some a
    → P a
All-get P [] i a h e = absurd cc
All-get P (x ∷ xs) zero a h e = let same : x ≡ a = cc in subst P same h.0
All-get P (x ∷ xs) (suc i) a h e = All-get P xs i a h.1 e

finish_at-IsAccounted :
    (elapsed : Duration) (c : Collector) (at : ℕ)
    → IsAccounted c.report
    → IsAccounted (finish_at elapsed c at (get_elem? c.report.suites at)).report
unfolding finish_at
finish_at-IsAccounted elapsed c at h =
    let suites = c.report.suites in
    elim (Option-cases (get_elem? suites at)) [
      | inl e ↦ rw e h
      | inr (s, e) ↦
          let new : Suite = record s { duration = elapsed } in
          rw e (
            All-set IsCounted suites at new h.0 (All-get IsCounted suites at s h.0 e),
            h.1 ∙ sym (sum_suites-set suites at s new e refl),
          )
    ]

finish_open-IsAccounted :
    (elapsed : Duration) (c : Collector) (open_at : Option ℕ)
    → IsAccounted c.report
    → IsAccounted (finish_open elapsed c open_at).report
unfolding finish_open
finish_open-IsAccounted elapsed c none h = h
finish_open-IsAccounted elapsed c (some at) h = finish_at-IsAccounted elapsed c at h

add_case-IsCounted : (k : Case) (s : Suite) → IsCounted s → IsCounted (add_case k s)
unfolding add_case
add_case-IsCounted k s h =
    ap (add_status k.status) h
    ∙ sym (
        ap (λ (l : List Status). add_statuses l no_totals) (statuses_of-append s.cases k)
        ∙ add_statuses-append (statuses_of s.cases) k.status no_totals)

add_case_at-IsAccounted :
    (k : Case) (c : Collector) (at : ℕ)
    → IsAccounted c.report
    → IsAccounted (add_case_at k c at (get_elem? c.report.suites at)).report
unfolding add_case_at
add_case_at-IsAccounted k c at h =
    let suites = c.report.suites in
    elim (Option-cases (get_elem? suites at)) [
      | inl e ↦ rw e h
      | inr (s, e) ↦ rw e (
        All-set IsCounted suites at (add_case k s) h.0
            (add_case-IsCounted k s (All-get IsCounted suites at s h.0 e)),
        ap (add_status k.status) h.1
            ∙ sym (
                sum_suites-set_add suites at s (add_case k s) k.status e (unfold add_case in refl)),
      )
    ]

add_case_open-IsAccounted :
    (k : Case) (c : Collector) (open_at : Option ℕ)
    → IsAccounted c.report
    → IsAccounted (add_case_open k c open_at).report
unfolding add_case_open
add_case_open-IsAccounted k c none h = h
add_case_open-IsAccounted k c (some at) h = add_case_at-IsAccounted k c at h

receive-IsAccounted :
    (e : Event) (c : Collector) → IsAccounted c.report → IsAccounted (receive e c).report
unfolding receive
receive-IsAccounted (suite_start name) c h =
    unfold suite_started in
    (
      All-append IsCounted c.report.suites _ h.0 (unfold add_statuses in refl, tt),
      h.1 ∙ sym (sum_suites-append c.report.suites _ refl),
    )
receive-IsAccounted (suite_end elapsed) c h =
    unfold suite_finished in finish_open-IsAccounted elapsed c c.open_at h
receive-IsAccounted spec_start c h = h
receive-IsAccounted (spec_end e) c h =
    unfold spec_finished in add_case_open-IsAccounted (case_of e) c c.open_at h
receive-IsAccounted (coverage_set cov) c h = unfold set_coverage in h

receive_all-IsAccounted_from :
    (events : List Event) (c : Collector)
    → IsAccounted c.report
    → IsAccounted (receive_all events c).report
unfolding receive_all
receive_all-IsAccounted_from [] c h = h
receive_all-IsAccounted_from (e ∷ events) c h =
    receive_all-IsAccounted_from events (receive e c) (receive-IsAccounted e c h)

-- Whatever events the collector receives, in any order: the totals of each suite are those of its
-- cases, and the report's execution totals are the sum of the totals of its suites.
pub receive_all-IsAccounted :
    (events : List Event) → IsAccounted (report_of (receive_all events new_collector))
unfolding report_of
receive_all-IsAccounted events =
    receive_all-IsAccounted_from events new_collector
      (unfold new_collector sum_suites in (tt, refl))
