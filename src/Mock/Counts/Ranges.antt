-- ===== src/Mock/Counts/Ranges.antt =====
-- The ranges that the count methods of mock/counts.go build.
use go_specs.Prelude.{ℤ, pos, negsuc, ◌≤ℤ◌, ◌≡◌, ◌⊎◌, arith, false}
use go_specs.Mock.Model.{Expectation, bounds, count_range, is_range}
use go_specs.Mock.Counts.{
  Configured, configured, panicked, ◌>>=◌, times, never, any_times, at_least, at_most,
}

-- A minimum of at least 0, and a maximum that is absent or no smaller.
pub record IsRange {V : Type 0} (e : Expectation V) : Type 0 where
  pub lower : pos 0 ≤ℤ (bounds e).0
  pub upper : ((bounds e).1 ≡ negsuc 0) ⊎ ((bounds e).0 ≤ℤ (bounds e).1)

-- What a count method leaves behind: a range again, or nothing new after a panic.
abbrev pub Keeps : {V : Type 0} → Configured V → Type 0
Keeps (configured e) = IsRange e
Keeps (panicked p) = Unit

-- The count methods.
pub data CountCall : Type 0 where
  times_call at_least_call at_most_call : ℤ → CountCall
  never_call any_times_call : CountCall

unfoldable pub run_count : {V : Type 0} → CountCall → Expectation V → Configured V
unfolding times at_least at_most never any_times
run_count (times_call n) e = times n e
run_count (at_least_call n) e = at_least n e
run_count (at_most_call n) e = at_most n e
run_count never_call e = configured (never e)
run_count any_times_call e = configured (any_times e)

-- From an expectation whose range is valid, every count method either panics or leaves a valid
-- range: a minimum of at least 0, and a maximum that is absent or no smaller than it.
pub run_count-IsRange :
    {V : Type 0} (call : CountCall) (e : Expectation V) → IsRange e → Keeps (run_count call e)
unfolding run_count bounds
run_count-IsRange (times_call n) e h = ground arith
run_count-IsRange (at_least_call n) e h = ground arith
run_count-IsRange (at_most_call n) e h = ground arith
run_count-IsRange _ e h = ground arith

-- AtLeast and AtMost set one bound each: for 0 ≤ lo ≤ hi, on an expectation that neither has
-- configured yet, both orders give the range lo..hi, and change nothing else.
pub at_least-at_most_comm :
    {V : Type 0} (lo hi : ℤ) (e : Expectation V)
    → pos 0 ≤ℤ lo
    → lo ≤ℤ hi
    → is_range e.kind ≡ false
    → ((at_least lo e >>= at_most hi)
        ≡ configured (record e { kind = count_range; min = lo; max = hi }))
      × ((at_most hi e >>= at_least lo)
          ≡ configured (record e { kind = count_range; min = lo; max = hi }))
unfolding at_least at_most
at_least-at_most_comm lo hi e h k f = (ground arith, ground arith)
