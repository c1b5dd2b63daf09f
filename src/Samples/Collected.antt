-- ===== src/Samples/Collected.antt =====
-- Collected and merged reports, coverage profiles, and the identities of their shards.
use mathlib.Core.List.{Permᴰ}
use go_specs.Prelude.{
  ℕ, zero, suc, ◌<◌, ◌≡◌, ◌≢◌, ◌↔◌, refl, arith, inl, Bool, true, false, List, [], ◌∷◌, ◌++◌, map,
  All,
}
use go_specs.Prelude.Fallible.{ok}
use go_specs.Prelude.Text.{Text, codes, trim_space, text_eq}
use go_specs.Prelude.Sort.{DistinctKeys, text_lt}
use go_specs.Prelude.Text.Pieces.{text_eq_ne}
use go_specs.Report.{no_totals, add_statuses}
use go_specs.Report.Collector.{
  Event, suite_start, suite_end, spec_start, spec_end, SpecResultEvent, hook_none, declared_none,
  new_collector, receive_all, report_of, Coverage,
}
use go_specs.Report.Collector.Accounts.{IsAccounted, receive_all-IsAccounted}
use go_specs.Report.Collector.Runs.{closed, finished, cases_of, statuses, receive_all-suite}
use go_specs.Report.Merge.{ShardEnvelope, merge_reports, merge_reports-Perm}
use go_specs.Report.Merge.Accounts.{merge_reports-IsAccounted}
use go_specs.Report.Coverage.{
  parse_coverage_profile, parse_coverage_profile_merged, parse_coverage_block_line, block_key,
}
use go_specs.Report.Coverage.Merged.{block_keys, parse_coverage_profile_merged-distinct}
use go_specs.Report.Coverage.Sums.{IsTotalled, parse_coverage_profile-IsTotalled}
use go_specs.Report.Identity.{validate_run_id, validate_run_token, generate_run_token, encode_hex}
use go_specs.Report.Identity.Accepted.{IsRunId, validate_run_id-IsRunId}
use go_specs.Report.Identity.Tokens.{generate_run_token-valid}
use go_specs.Report.ShardName.Names.{shard_file_name-digest}

abbrev result : Bool → SpecResultEvent
result failed = record {
  name = "adds";
  path = "sums" ∷ "adds" ∷ [];
  is_failed = failed;
  is_skipped = false;
  is_filtered = false;
  is_pending = false;
  is_unstarted = false;
  hook = hook_none;
  declared = declared_none;
  duration = 5;
  message = "";
  output = "";
}

abbrev results : List SpecResultEvent
results = result false ∷ result true ∷ []

abbrev events : List Event
events =
    spec_end (result true)
    ∷ suite_start "sums"
    ∷ spec_start
    ∷ spec_end (result false)
    ∷ suite_end 9
    ∷ suite_end 4
    ∷ []

receive_all-IsAccounted_example : IsAccounted (report_of (receive_all events new_collector))
receive_all-IsAccounted_example = receive_all-IsAccounted events

receive_all-suite_example :
    receive_all (suite_start "sums" ∷ map spec_end results ++ suite_end 9 ∷ []) new_collector
    ≡ closed new_collector.report
        (new_collector.report.suites
          ++ finished "sums" 9 (cases_of results) (add_statuses (statuses results) no_totals) ∷ [])
        (add_statuses (statuses results) new_collector.report.execution)
receive_all-suite_example = receive_all-suite "sums" results 9 new_collector

abbrev envelope : Text → ShardEnvelope
envelope path = record {
  package_path = path;
  report = report_of (receive_all events new_collector);
}

abbrev first_envelope : ShardEnvelope
first_envelope = envelope (codes "m/a")

abbrev second_envelope : ShardEnvelope
second_envelope = envelope (codes "m/b")

different : codes "m/b" ≢ codes "m/a"
different = text_eq_ne (codes "m/b") (codes "m/a") (unfold text_eq in refl)

merge_reports-Perm_example :
    merge_reports (second_envelope ∷ first_envelope ∷ [])
    ≡ merge_reports (first_envelope ∷ second_envelope ∷ [])
merge_reports-Perm_example =
    merge_reports-Perm (Permᴰ.swap {a = second_envelope} {b = first_envelope} {l = []} refl refl)
      ((different, tt), (tt, tt))

merge_reports-IsAccounted_example :
    IsAccounted (merge_reports (second_envelope ∷ first_envelope ∷ []))
merge_reports-IsAccounted_example =
    merge_reports-IsAccounted (second_envelope ∷ first_envelope ∷ [])
      (receive_all-IsAccounted events, (receive_all-IsAccounted events, tt))

abbrev profile : List Text
profile = map codes (
    "mode: set" ∷ "m/b/x.go:1.1,2.2 3 1" ∷ "" ∷ "m/a/y.go:4.1,5.2 2 0" ∷ "m/b/x.go:7.1,9.2 4 0"
    ∷ [])

abbrev keys : List Text
keys = map codes ("m/b/x.go|1.1,2.2" ∷ "m/a/y.go|4.1,5.2" ∷ "m/b/x.go|7.1,9.2" ∷ [])

profile-keys : block_keys profile ≡ keys
unfolding block_keys trim_space parse_coverage_block_line block_key
profile-keys = refl

keys-distinct : DistinctKeys (λ (key : Text). key) keys
unfolding text_eq
keys-distinct =
    ((text_eq_ne _ _ refl, (text_eq_ne _ _ refl, tt)), ((text_eq_ne _ _ refl, tt), (tt, tt)))

profile-distinct : DistinctKeys (λ (key : Text). key) (block_keys profile)
profile-distinct = rw profile-keys keys-distinct

parse_coverage_profile_merged-distinct_example :
    parse_coverage_profile_merged profile false ≡ parse_coverage_profile profile false
parse_coverage_profile_merged-distinct_example =
    parse_coverage_profile_merged-distinct profile false profile-distinct

abbrev covered : Coverage
covered = record {
  packages =
      record { import_path = codes "m/a"; covered = 0; total = 2 }
      ∷ record { import_path = codes "m/b"; covered = 3; total = 7 }
      ∷ [];
  aggregate = record { covered = 3; total = 9 };
}

profile-covered : parse_coverage_profile profile false ≡ ok covered
unfolding parse_coverage_profile trim_space text_eq text_lt
profile-covered = refl

parse_coverage_profile-IsTotalled_example : IsTotalled covered
parse_coverage_profile-IsTotalled_example =
    parse_coverage_profile-IsTotalled profile false covered (inl profile-covered)

validate_run_id-IsRunId_example :
    (validate_run_id (codes "run-1") ≡ ok (codes "run-1"))
    ↔ (IsRunId (codes "run-1") × (codes "run-1" ≡ codes "run-1"))
validate_run_id-IsRunId_example = validate_run_id-IsRunId (codes "run-1") (codes "run-1")

-- In place of SHA-256.
abbrev no_digest : List ℕ → List ℕ
no_digest raw = raw

abbrev repeat : {A : Type 0} → ℕ → A → List A
repeat zero a = []
repeat (suc n) a = a ∷ repeat n a

abbrev raw_bytes : List ℕ
raw_bytes = repeat 32 171

raw_bytes-small : (n : ℕ) → All (λ b. b < 256) (repeat n 171)
raw_bytes-small zero = tt
raw_bytes-small (suc n) = (omega arith, raw_bytes-small n)

generate_run_token-valid_example :
    validate_run_token (encode_hex raw_bytes) ≡ ok (encode_hex raw_bytes)
generate_run_token-valid_example =
    generate_run_token-valid raw_bytes (encode_hex raw_bytes) (raw_bytes-small 32) refl
      (unfold generate_run_token in refl)

-- In place of a digest's hex text.
abbrev zeros : Text → Text
zeros path = repeat 64 48

shard_file_name-digest_example : zeros (codes "m/a") ≡ zeros (codes "m/a")
shard_file_name-digest_example =
    shard_file_name-digest zeros (codes "m/a") (codes "m/a") refl refl refl
