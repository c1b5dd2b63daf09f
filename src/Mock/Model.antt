-- ===== src/Mock/Model.antt =====
-- mock/expectation.go, mock/matcher.go, mock/matchers_ext.go, mock/result.go: the data.
-- `any` is the parameter `V`. A text that the source formats is the constructor that holds what is
-- formatted into it, and a `*Expectation` is a position in the controller's heap.
use go_specs.Prelude.{
  ℕ, suc, String, Bool, true, false, Option, none, some, List, [], ◌∷◌, ℤ, pos, ltb_ℤ, eq_ℤ, ◌||◌,
  ◌==◌, not, length, if◌then◌else◌,
}

-- mock.ArgMatcher: what has a `Match` method. `values_equal` of assert is handed in by `equal`.
pub data ArgMatcher (V : Type 0) : Type 0 where
  any_matcher : ArgMatcher V
  equal_matcher : V → (V → Bool) → ArgMatcher V
  pred_matcher : String → (V → Bool) → ArgMatcher V
  -- the captor that it feeds, and whether the value converts to the captor's type
  captor_matcher : ℕ → (V → Bool) → ArgMatcher V

unfoldable pub matches : {V : Type 0} → ArgMatcher V → V → Bool
matches any_matcher v = true
matches (equal_matcher expected same) v = same v
matches (pred_matcher desc pred) v = pred v
matches (captor_matcher c converts) v = converts v

-- mock.Equal
unfoldable pub equal : {V : Type 0} → (V → V → Bool) → V → ArgMatcher V
equal values_equal expected = equal_matcher expected (values_equal expected)

-- mock.MatchT over `asT[T]`, which yields the converted value if there is one
unfoldable pub match_t : {V T : Type 0} → (V → Option T) → String → (T → Bool) → ArgMatcher V
match_t as_t desc pred = pred_matcher desc (λ v. elim (as_t v) [ none ↦ false | some t ↦ pred t ])

pub data CountKind : Type 0 where
  count_default count_exact count_range : CountKind

abbrev pub is_range : CountKind → Bool
is_range count_range = true
is_range _ = false

pub record Expectation (V : Type 0) : Type 0 where
  pub method : String
  pub matchers : List (Option (ArgMatcher V))
  pub site : String
  pub kind : CountKind
  pub min : ℤ
  pub max : ℤ
  pub responses : List (List V)
  pub do_fn : Option (List V → List V)
  pub got : ℕ
  pub first_seq : ℕ

-- bounds(): the accepted range, an upper bound below 0 meaning none
bounds_of : CountKind → ℤ → ℤ → ℤ × ℤ
bounds_of count_default min max = (pos 1, pos 1)
bounds_of count_exact min max = (min, max)
bounds_of count_range min max = (min, max)

unfoldable pub bounds : {V : Type 0} → Expectation V → ℤ × ℤ
unfolding bounds_of
bounds e = bounds_of e.kind e.min e.max

unfoldable pub has_capacity : {V : Type 0} → Expectation V → Bool
unfolding bounds
has_capacity e = let max = (bounds e).1 in ltb_ℤ max (pos 0) || ltb_ℤ (pos e.got) max

unfoldable pub prohibits : {V : Type 0} → Expectation V → Bool
unfolding bounds
prohibits e = eq_ℤ (bounds e).1 (pos 0)

-- Why an expectation does not take a call.
pub data Reason : Type 0 where
  wrong_count : ℕ → ℕ → Reason
  wrong_argument : ℕ → Reason
  says_never : Reason
  at_capacity : ℤ × ℤ → ℕ → Reason
  dangling : Reason

-- `m == nil || !m.Match(arg)`
unfoldable pub rejects : {V : Type 0} → Option (ArgMatcher V) → V → Bool
unfolding matches
rejects none v = true
rejects (some m) v = not (matches m v)

mismatch_from : {V : Type 0} → ℕ → List (Option (ArgMatcher V)) → List V → Option Reason
unfolding rejects
mismatch_from i (m ∷ ms) (v ∷ vs) =
    let rest = mismatch_from (suc i) ms vs in if rejects m v then some (wrong_argument i) else rest
mismatch_from i _ _ = none

-- mismatch(): `none` is the source's ""
unfoldable pub mismatch : {V : Type 0} → Expectation V → List V → Option Reason
unfolding mismatch_from
mismatch e args =
    if length args == length e.matchers
    then mismatch_from 0 e.matchers args
    else some (wrong_count (length args) (length e.matchers))

unfoldable pub capacity_reason : {V : Type 0} → Expectation V → Reason
unfolding prohibits
capacity_reason e = if prohibits e then says_never else at_capacity (bounds e) e.got

pub record Result (V : Type 0) : Type 0 where
  pub values : List V
  pub method : String

abbrev pub zero_result : {V : Type 0} → Result V
zero_result = record { values = []; method = "" }
