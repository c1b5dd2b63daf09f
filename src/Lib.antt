-- ===== src/Lib.antt =====
-- A model of go-specs, a BDD test library for Go: its mocks, the builder that turns declared suites
-- into programs, the runner of those programs, the division of suites into shards, the reports that
-- shards make and their merge, its combined matchers, and the tools of its releases.
--
-- A suite is declared with the builder (specs/builder.go), which numbers the scopes, gives sibling
-- scopes distinct report labels (specs/scope_report_labels.go) and compiles the items to groups that
-- share their hooks (specs/program.go). The runner (specs/runner.go) executes the groups and reports
-- to an observer; RunShard (specs/scheduler.go) first keeps the groups of one shard, whose number
-- comes from flags or the environment (specs/sharding.go). Flat programs (specs/bytecode_impl.go)
-- are the second compiled form. The mock package stands apart: tests call it from the spec bodies.
--
-- Prelude: numbers, lists, dictionaries, Go's signed int, and texts as lists of code points with the
--   functions of strings and strconv that the code calls, sorting by distinct keys, and results
--   with an error. Atoi refuses what 64 bits do not hold.
-- Mock: mock/*.go. Model has the matchers and expectations, Counts the count methods, Stub the
--   responses, Spies Spy.CalledWith, Controller the state and its bookkeeping, Calls Method.Call, Verify Controller.Verify.
--   The heap of expectations is a list, a pointer to one is its position, and a controller's mutex
--   makes each operation one step. Log runs any sequence of operations. The sequence counter wraps
--   at 2^64.
-- Sharding: specs/sharding.go. Select has validateShardPartition and ShardSpecs, Request the parsers.
-- Bytecode: BCBuilder of specs/bytecode_impl.go and ShardBCProgram; indices out of range are `none`.
-- Suite: Labels, Program, Declared (what a builder holds), Builder (with Compile below it for finalize
--   and Build) and Shards, after the files above. A step is a parameter; the closures that the compiler makes are data. The
--   panic of a late hook is a value. The inner loop over adjacent parallel items is a field of the
--   compiler's state. In Builder/Compile, View is the interface between the compiler's invariant and
--   what is read off the groups. The search for a free label has fuel, one round more than there are
--   labels taken, which Labels/Search shows to be enough.
-- Runner: Hooks has runSpecWithHooks over the interface Context (what a step does, tasks, cleanups),
--   Observer the reporterObserver without its clock, Groups the loops over groups and specs over the
--   interface Executor (how one spec runs; a subtest of testing.T is outside the repository). A spec
--   that ends the whole run, as a parallel one does by t.Fatalf, ends these loops too (Outcome).
-- Report: the totals of report/model.go. Report/Collector has the collector of report/collector.go from
--   events to suites and totals, Report/Coverage the two parsers of report/coverage.go, Report/Merge
--   mergeReports of report/coordination/merge.go, which joins the reports that collectors made,
--   Report/Identity and Report/ShardName the identifiers, tokens and file names of
--   report/coordination/identity.go and shardname.go. SHA-256 and random bytes are arguments. Durations
--   and the counts of a profile are 64-bit patterns that wrap; a profile is its lines and whether reading
--   failed. A map with the list of its keys is a list of entries.
-- Release: tools/release. Commits classifies commit messages and Version computes the next tag
--   (version.go); Headings, Changelog and Info rewrite and read CHANGELOG.md (changelog.go, info.go), and
--   Validate checks its categories (validate.go). The regular expressions are scanners.
-- Assert: Matcher has the interfaces of a matcher and Evaluate (assert/evaluate.go), Composite Not, All
--   and Any (assert/composite_matchers.go), Quantified and Ordered the collection matchers of
--   assert/quantified_matchers.go, Listing their bounded listings. A call may change a state that is
--   passed along. How a value is shown, quoted and read as a list of elements are parameters, as the code
--   reflects on Go values there; so is whether a matcher is nil.
-- Snapshots: canonicalizeNumber of snapshots/normalize.go, cut into reading the literal, the loops over
--   its zeros (Digits, Canonical) and the text that is compared (Written, Same).
-- Samples: concrete runs.
--
-- Not modelled: the execution plan of Describe, the registry, the parallel workers, the contexts'
-- tasks and cleanups, the other matchers of assert/, property/, the renderers and the files of report/,
-- the decoding and files of snapshots/, and tools/perfcheck, which are other parts or reflect on Go values, read the clock or do
-- I/O; percentages, which are floating point; stack traces and failure texts.
pub mod Prelude
pub mod Mock
pub mod Sharding
pub mod Bytecode
pub mod Suite
pub mod Runner
pub mod Report
pub mod Release
pub mod Assert
pub mod Snapshots
mod Samples
