-- ===== src/Mock/Counts.antt =====
-- mock/counts.go and `Times` of mock/expectation.go: how many calls an expectation takes.
pub mod Ranges
use go_specs.Prelude.{
  ℕ, ℤ, pos, negsuc, ltb_ℤ, leb_ℤ, Bool, ◌&&◌, Option, none, some, if◌then◌else◌,
}
use go_specs.Mock.Model.{Expectation, CountKind, count_exact, count_range, is_range}

-- What a count method panics with.
pub data CountPanic : Type 0 where
  times_negative : ℤ → CountPanic
  at_least_negative : ℤ → CountPanic
  at_least_exceeds : ℤ → ℤ → CountPanic
  at_most_negative : ℤ → CountPanic
  at_most_below : ℤ → ℤ → CountPanic

-- A panicking call leaves its expectation as it was, so it returns no new one.
pub data Configured (V : Type 0) : Type 0 where
  configured : Expectation V → Configured V
  panicked : CountPanic → Configured V

infixl 5 ◌>>=◌
abbrev pub ◌>>=◌ : {V : Type 0} → Configured V → (Expectation V → Configured V) → Configured V
configured e >>= f = f e
panicked p >>= f = panicked p

unfoldable pub set_count : {V : Type 0} → ℤ → ℤ → Expectation V → Expectation V
set_count min max e = record e { kind = count_exact; min = min; max = max }

unfoldable pub times : {V : Type 0} → ℤ → Expectation V → Configured V
unfolding set_count
times n e = if ltb_ℤ n (pos 0) then panicked (times_negative n) else configured (set_count n n e)

unfoldable pub never : {V : Type 0} → Expectation V → Expectation V
unfolding set_count
never e = set_count (pos 0) (pos 0) e

unfoldable pub any_times : {V : Type 0} → Expectation V → Expectation V
unfolding set_count
any_times e = set_count (pos 0) (negsuc 0) e

unfoldable pub at_least : {V : Type 0} → ℤ → Expectation V → Configured V
at_least n e =
    let max = (if is_range e.kind then e.max else negsuc 0) in
    if ltb_ℤ n (pos 0)
    then panicked (at_least_negative n)
    else if leb_ℤ (pos 0) max && ltb_ℤ max n
    then panicked (at_least_exceeds n max)
    else configured (record e { kind = count_range; min = n; max = max })

unfoldable pub at_most : {V : Type 0} → ℤ → Expectation V → Configured V
at_most n e =
    let min = (if is_range e.kind then e.min else pos 0) in
    if ltb_ℤ n (pos 0)
    then panicked (at_most_negative n)
    else if ltb_ℤ n min
    then panicked (at_most_below n min)
    else configured (record e { kind = count_range; min = min; max = n })
