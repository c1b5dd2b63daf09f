-- ===== src/Mock/Stub.antt =====
-- mock/stub.go and `Result` of mock/result.go: the responses of an expectation.
use go_specs.Prelude.{
  ℕ, zero, suc, ◌-◌, ◌<◌, ◌≡◌, refl, Option, none, some, List, [], ◌∷◌, ◌++◌, ℤ, pos, negsuc, arith,
  leb, length, get_elem?, length-append, if◌then◌else◌,
}
use go_specs.Mock.Model.{Expectation, Result}

-- Return
unfoldable pub return_values : {V : Type 0} → List V → Expectation V → Expectation V
return_values values e = record e { responses = e.responses ++ values ∷ [] }

-- Do
unfoldable pub do_call : {V : Type 0} → (List V → List V) → Expectation V → Expectation V
do_call fn e = record e { do_fn = some fn }

-- `i := n - 1`, cut back to the last response
response_index : ℕ → ℕ → ℕ
response_index n len = if leb len (n - 1) then len - 1 else n - 1

-- The response of the n-th claimed call (n is at least 1), `values` when no callback is set.
sequenced : {V : Type 0} → ℕ → List (List V) → List V
unfolding response_index
sequenced n [] = []
sequenced n (r ∷ rs) = elim (get_elem? (r ∷ rs) (response_index n (length (r ∷ rs)))) [
  | none ↦ []
  | some values ↦ values
]

unfoldable pub respond : {V : Type 0} → Expectation V → ℕ → List V → Result V
unfolding sequenced
respond e n args = record {
  values = elim e.do_fn [ none ↦ sequenced n e.responses | some fn ↦ fn args ];
  method = e.method;
}

-- Result.Get, where `none` is nil
unfoldable pub get : {V : Type 0} → Result V → ℤ → Option V
get r (pos i) = get_elem? r.values i
get r (negsuc i) = none

-- The panic of Result.Err and of Value: the position of a value of the wrong type.
pub data Accessed (T : Type 0) : Type 0 where
  not_configured : Accessed T
  value : T → Accessed T
  wrong_type : ℤ → Accessed T

-- Result.Err and Value[T], over the type assertion `v.(T)`
unfoldable pub access : {V T : Type 0} → (V → Option T) → Result V → ℤ → Accessed T
unfolding get
access as_t r i = elim (get r i) [
  | none ↦ not_configured
  | some v ↦ elim (as_t v) [ none ↦ wrong_type i | some t ↦ value t ]
]

get_last : {A : Type 0} (xs : List A) (x : A) → get_elem? (xs ++ x ∷ []) (length xs) ≡ some x
get_last [] x = refl
get_last (y ∷ ys) x = get_last ys x

get_elem?-lt : {A : Type 0} (xs : List A) (i : ℕ) {x : A} → get_elem? xs i ≡ some x → i < length xs
get_elem?-lt [] i h = cc
get_elem?-lt (y ∷ ys) zero h = omega arith
get_elem?-lt (y ∷ ys) (suc i) h = omega (arith, get_elem?-lt ys i h)

sequenced-at :
    {V : Type 0} (n : ℕ) (rs : List (List V)) {values : List V}
    → get_elem? rs (n - 1) ≡ some values
    → sequenced n rs ≡ values
unfolding sequenced
sequenced-at n [] h = cc
sequenced-at n (r ∷ rs) h = ground (arith, get_elem?-lt (r ∷ rs) (n - 1) h)

sequenced-last :
    {V : Type 0} (n : ℕ) (rs : List (List V)) (values : List V)
    → length rs < n
    → sequenced n (rs ++ values ∷ []) ≡ values
unfolding sequenced
sequenced-last n [] values h = ground arith
sequenced-last {V} n (r ∷ rs) values h =
    let at : response_index n (suc (length (rs ++ values ∷ []))) ≡ suc (length rs) =
      ground (arith, length-append rs (values ∷ [])) in
    rw (at, sequenced) (rw (get_last rs values))

-- Without a callback, the k-th response given (from 1) answers the k-th claimed call.
pub respond-sequence :
    {V : Type 0} (e : Expectation V) (n : ℕ) (args : List V) {values : List V}
    → e.do_fn ≡ none
    → get_elem? e.responses (n - 1) ≡ some values
    → (respond e n args).values ≡ values
unfolding respond
respond-sequence e n args d g = rw d (sequenced-at n e.responses g)

-- Without a callback, the last response given answers every call from its own position on.
pub respond-last :
    {V : Type 0} (e : Expectation V) (n : ℕ) (args values : List V)
    → e.do_fn ≡ none
    → length e.responses < n
    → (respond (return_values values e) n args).values ≡ values
unfolding respond return_values
respond-last e n args values d g = rw d (sequenced-last n e.responses values g)
