-- ===== src/Report/Collector.antt =====
-- report/collector.go with the events and the suites of report/events.go and report/model.go. A
-- duration is an int64, as its 64-bit pattern; times of day are left out.
pub mod Accounts
pub mod Runs
use go_specs.Prelude.{
  ℕ, suc, ◌+◌, ◌%◌, ◌^◌, Bool, true, false, not, ◌&&◌, Option, none, some, List, [], ◌∷◌, ◌++◌,
  length, get_elem?, set, String, str_eq, if◌then◌else◌,
}
use go_specs.Prelude.Text.{Text}
use go_specs.Report.{
  Status, status_passed, status_failed, status_error, status_skipped, status_filtered,
  status_pending, status_unstarted, Totals, no_totals, add_status,
}

abbrev pub Duration : Type 0
Duration = ℕ

-- The sum of two durations, which wraps.
abbrev pub plus : Duration → Duration → Duration
plus a b = (a + b) % 2 ^ 64

pub data HookKind : Type 0 where
  hook_none hook_before_all hook_after_all : HookKind

unfoldable pub hook_text : HookKind → String
hook_text hook_before_all = "BeforeAll"
hook_text hook_after_all = "AfterAll"
hook_text hook_none = ""

pub data DeclaredKind : Type 0 where
  declared_none declared_skip declared_pending : DeclaredKind

unfoldable pub declared_text : DeclaredKind → String
declared_text declared_skip = "skip"
declared_text declared_pending = "pending"
declared_text declared_none = ""

pub record SpecResultEvent : Type 0 where
  pub name : String
  pub path : List String
  pub is_failed : Bool
  pub is_skipped : Bool
  pub is_filtered : Bool
  pub is_pending : Bool
  pub is_unstarted : Bool
  pub hook : HookKind
  pub declared : DeclaredKind
  pub duration : Duration
  pub message : String
  pub output : String

pub record Case : Type 0 where
  pub name : String
  pub path : List String
  pub status : Status
  pub duration : Duration
  pub message : String
  pub output : String
  pub hook : String
  pub declared : String

pub record Suite : Type 0 where
  pub name : String
  pub package_path : Text
  pub cases : List Case
  pub duration : Duration
  pub totals : Totals

pub record PackageCoverage : Type 0 where
  pub import_path : Text
  pub covered : ℕ
  pub total : ℕ

pub record AggregateCoverage : Type 0 where
  pub covered : ℕ
  pub total : ℕ

pub record Coverage : Type 0 where
  pub packages : List PackageCoverage
  pub aggregate : AggregateCoverage

abbrev pub no_coverage : Coverage
no_coverage = record { packages = []; aggregate = record { covered = 0; total = 0 } }

pub record NormalizedReport : Type 0 where
  pub schema_version : String
  pub execution : Totals
  pub duration : Duration
  pub suites : List Suite
  pub coverage : Coverage

abbrev pub empty_report : NormalizedReport
empty_report = record {
  schema_version = "3";
  execution = no_totals;
  duration = 0;
  suites = [];
  coverage = no_coverage;
}

-- `open_at` is `none` for the source's -1.
pub record Collector : Type 0 where
  pub report : NormalizedReport
  pub open_at : Option ℕ

unfoldable pub new_collector : Collector
new_collector = record { report = empty_report; open_at = none }

unfoldable pub classify_status : SpecResultEvent → Status
classify_status e =
    if e.is_unstarted
    then status_unstarted
    else if e.is_filtered
    then status_filtered
    else if e.is_skipped
    then status_skipped
    else if e.is_pending
    then status_pending
    else if e.is_failed && not (str_eq e.output "")
    then status_error
    else if e.is_failed
    then status_failed
    else status_passed

unfoldable pub case_of : SpecResultEvent → Case
unfolding classify_status hook_text declared_text
case_of e = record {
  name = e.name;
  path = e.path;
  status = classify_status e;
  duration = e.duration;
  message = e.message;
  output = e.output;
  hook = hook_text e.hook;
  declared = declared_text e.declared;
}

unfoldable pub suite_started : String → Collector → Collector
suite_started name c =
    let r = c.report in
    let opened : Suite = record {
      name = name;
      package_path = [];
      cases = [];
      duration = 0;
      totals = no_totals;
    } in
    record {
      report = record r { suites = r.suites ++ opened ∷ [] };
      open_at = some (length r.suites);
    }

finish_at : Duration → Collector → ℕ → Option Suite → Collector
finish_at elapsed c at none = c
finish_at elapsed c at (some s) =
    let r = c.report in
    record {
      report = record r { suites = set r.suites at (record s { duration = elapsed }) };
      open_at = none;
    }

finish_open : Duration → Collector → Option ℕ → Collector
unfolding finish_at
finish_open elapsed c none = c
finish_open elapsed c (some at) = finish_at elapsed c at (get_elem? c.report.suites at)

unfoldable pub suite_finished : Duration → Collector → Collector
unfolding finish_open
suite_finished elapsed c = finish_open elapsed c c.open_at

add_case : Case → Suite → Suite
unfolding add_status
add_case result s = record s {
  cases = s.cases ++ result ∷ [];
  totals = add_status result.status s.totals;
}

add_case_at : Case → Collector → ℕ → Option Suite → Collector
unfolding add_case
add_case_at result c at none = c
add_case_at result c at (some s) =
    let r = c.report in
    record c {
      report = record r {
        suites = set r.suites at (add_case result s);
        execution = add_status result.status r.execution;
      };
    }

add_case_open : Case → Collector → Option ℕ → Collector
unfolding add_case_at
add_case_open result c none = c
add_case_open result c (some at) = add_case_at result c at (get_elem? c.report.suites at)

unfoldable pub spec_finished : SpecResultEvent → Collector → Collector
unfolding add_case_open case_of
spec_finished e c = add_case_open (case_of e) c c.open_at

unfoldable pub set_coverage : Coverage → Collector → Collector
set_coverage cov c = let r = c.report in record c { report = record r { coverage = cov } }

unfoldable pub total_duration : Duration → List Suite → Duration
total_duration elapsed [] = elapsed
total_duration elapsed (s ∷ suites) = total_duration (plus elapsed s.duration) suites

-- The copies that it makes are equal to what they copy.
unfoldable pub report_of : Collector → NormalizedReport
unfolding total_duration
report_of c = let r = c.report in record r { duration = total_duration 0 r.suites }

-- What a reporter is told, one event at a time; SpecStarted changes nothing.
pub data Event : Type 0 where
  suite_start : String → Event
  suite_end : Duration → Event
  spec_start : Event
  spec_end : SpecResultEvent → Event
  coverage_set : Coverage → Event

unfoldable pub receive : Event → Collector → Collector
unfolding suite_started suite_finished spec_finished set_coverage
receive (suite_start name) c = suite_started name c
receive (suite_end elapsed) c = suite_finished elapsed c
receive spec_start c = c
receive (spec_end e) c = spec_finished e c
receive (coverage_set cov) c = set_coverage cov c

unfoldable pub receive_all : List Event → Collector → Collector
unfolding receive
receive_all [] c = c
receive_all (e ∷ events) c = receive_all events (receive e c)
