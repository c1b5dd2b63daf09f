-- ===== src/Report/Collector/Runs.antt =====
-- report/collector.go on the events of one whole suite.
use go_specs.Prelude.{
  ◌≡◌, refl, sym, ap, ◌∙◌, none, some, List, [], ◌∷◌, ◌++◌, map, length, get_elem?, set, String,
  append-nil, append_assoc,
}
use go_specs.Report.{Status, Totals, no_totals, add_status, add_statuses}
use go_specs.Report.Collector.{
  Suite, Case, Collector, NormalizedReport, suite_start, suite_end, spec_end, receive, receive_all,
  suite_started, suite_finished, spec_finished, finish_at, finish_open, add_case_at, add_case_open,
  add_case, case_of, classify_status, Duration, SpecResultEvent,
}

-- The cases of a list of results, and what they count.
abbrev pub cases_of : List SpecResultEvent → List Case
cases_of = map case_of

abbrev pub statuses : List SpecResultEvent → List Status
statuses = map classify_status

get-end : (xs : List Suite) (s : Suite) → get_elem? (xs ++ s ∷ []) (length xs) ≡ some s
get-end [] s = refl
get-end (x ∷ xs) s = get-end xs s

set-end : (xs : List Suite) (s t : Suite) → set (xs ++ s ∷ []) (length xs) t ≡ xs ++ t ∷ []
set-end [] s t = refl
set-end (x ∷ xs) s t = ap (◌∷◌ x) (set-end xs s t)

-- A collector whose last suite is open.
abbrev opened : NormalizedReport → List Suite → Suite → Totals → Collector
opened r before s execution = record {
  report = record r { suites = before ++ s ∷ []; execution = execution };
  open_at = some (length before);
}

spec_finished-opened :
    (e : SpecResultEvent) (r : NormalizedReport) (before : List Suite) (s : Suite)
    (execution : Totals)
    → spec_finished e (opened r before s execution)
      ≡ opened r before (add_case (case_of e) s) (add_status (classify_status e) execution)
unfolding spec_finished add_case_open add_case_at
spec_finished-opened e r before s execution =
    rw (get-end before s, set-end before s (add_case (case_of e) s)) (unfold case_of in refl)

-- A report with other suites and totals, and no suite open.
abbrev pub closed : NormalizedReport → List Suite → Totals → Collector
closed r suites execution = record {
  report = record r { suites = suites; execution = execution };
  open_at = none;
}

suite_finished-opened :
    (elapsed : Duration) (r : NormalizedReport) (before : List Suite) (s : Suite)
    (execution : Totals)
    → suite_finished elapsed (opened r before s execution)
      ≡ closed r (before ++ (record s { duration = elapsed }) ∷ []) execution
unfolding suite_finished finish_open finish_at
suite_finished-opened elapsed r before s execution =
    rw (get-end before s, set-end before s (record s { duration = elapsed }))

-- The suite that a run of the events leaves.
abbrev pub finished : String → Duration → List Case → Totals → Suite
finished name elapsed cases totals = record {
  name = name;
  package_path = [];
  cases = cases;
  duration = elapsed;
  totals = totals;
}

receive_all-opened :
    (results : List SpecResultEvent) (name : String) (elapsed : Duration) (r : NormalizedReport)
    (before : List Suite) (cases : List Case) (totals execution : Totals)
    → receive_all
        (map spec_end results ++ suite_end elapsed ∷ [])
        (opened r before (finished name 0 cases totals) execution)
      ≡ closed r
          (before
            ++ finished name elapsed
                (cases ++ cases_of results)
                (add_statuses (statuses results) totals)
              ∷ [])
          (add_statuses (statuses results) execution)
unfolding receive_all receive add_statuses
receive_all-opened [] name elapsed r before cases totals execution =
    suite_finished-opened elapsed r before (finished name 0 cases totals) execution
    ∙ ap (λ (l : List Case). closed r (before ++ finished name elapsed l totals ∷ []) execution)
        (sym (append-nil cases))
receive_all-opened (e ∷ results) name elapsed r before cases totals execution =
    let status = classify_status e in
    ap (receive_all (map spec_end results ++ suite_end elapsed ∷ []))
      (spec_finished-opened e r before (finished name 0 cases totals) execution)
    ∙ (unfold add_case case_of in
        receive_all-opened results name elapsed r before (cases ++ case_of e ∷ [])
          (add_status status totals) (add_status status execution))
    ∙ ap
        (λ (l : List Case).
          closed r
            (before
              ++ finished name elapsed l
                  (add_statuses (statuses results) (add_status status totals))
                ∷ [])
            (add_statuses (statuses results) (add_status status execution)))
        (append_assoc cases (case_of e ∷ []) (cases_of results))

-- The events of one suite, in the state of any collector: one suite is added at the end, with the
-- results as its cases in their order, their totals and the suite's duration; the execution totals
-- count the results, no suite is open afterwards, and nothing else changes.
pub receive_all-suite :
    (name : String) (results : List SpecResultEvent) (elapsed : Duration) (c : Collector)
    → receive_all (suite_start name ∷ map spec_end results ++ suite_end elapsed ∷ []) c
      ≡ closed c.report
          (c.report.suites
            ++ finished name elapsed (cases_of results) (add_statuses (statuses results) no_totals)
              ∷ [])
          (add_statuses (statuses results) c.report.execution)
unfolding receive_all receive suite_started
receive_all-suite name results elapsed c =
    receive_all-opened results name elapsed c.report c.report.suites [] no_totals c.report.execution
