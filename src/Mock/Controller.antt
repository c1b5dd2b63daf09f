-- ===== src/Mock/Controller.antt =====
-- mock/controller.go: the controller's state, registration, recording and Reset; mock/spy.go through
-- the controller's spies. Each function is one critical section under the controller's mutex.
use go_specs.Prelude.{
  ℕ, ◌+◌, ◌%◌, ◌^◌, String, Bool, true, false, Option, none, some, List, [], ◌∷◌, ◌++◌, map, pos,
  length, get_elem?, set, lookup, insert,
}
use go_specs.Mock.Model.{ArgMatcher, Expectation, Reason, equal, count_default}

pub record RecordedCall (V : Type 0) : Type 0 where
  pub seq : ℕ
  pub method : String
  pub args : List V

-- An expectation of a method is its position in the heap.
pub record Method (V : Type 0) : Type 0 where
  pub name : String
  pub exps : List ℕ
  pub calls : List (RecordedCall V)

-- What goes through `t.Errorf`.
pub data Report (V : Type 0) : Type 0 where
  forbidden_call : String → List V → ℕ → Report V
  unexpected_call : String → List V → List (ℕ × Reason) → Report V
  unmet : ℕ → ℕ → Report V
  order_violation : ℕ → ℕ → List (RecordedCall V) → Report V

pub record Controller (V : Type 0) : Type 0 where
  pub seq : ℕ
  pub methods : List (String × Method V)
  pub names : List String
  pub spies : List (String × List (List V))
  pub calls : List (RecordedCall V)
  pub orders : List (List ℕ)
  pub verified : Bool
  -- every expectation that was ever declared, also those that a Reset dropped
  pub heap : List (Expectation V)
  -- what each captor has seen
  pub captured : List (ℕ × V)
  -- the test's errors so far
  pub errors : List (Report V)

unfoldable pub new_controller : {V : Type 0} → Controller V
new_controller = record {
  seq = 0;
  methods = [];
  names = [];
  spies = [];
  calls = [];
  orders = [];
  verified = false;
  heap = [];
  captured = [];
  errors = [];
}

abbrev empty_method : {V : Type 0} → String → Method V
empty_method name = record { name = name; exps = []; calls = [] }

-- Controller.Method
unfoldable pub method : {V : Type 0} → String → Controller V → Method V × Controller V
method name c = elim (lookup name c.methods) [
  | some m ↦ (m, c)
  | none ↦ (
    empty_method name,
    record c { methods = insert name (empty_method name) c.methods; names = c.names ++ name ∷ [] },
  )
]

-- Controller.Spy
unfoldable pub spy : {V : Type 0} → String → Controller V → List (List V) × Controller V
spy name c = elim (lookup name c.spies) [
  | some s ↦ (s, c)
  | none ↦ ([], record c { spies = insert name [] c.spies })
]

-- uint64
abbrev pub next_seq : ℕ → ℕ
next_seq seq = (seq + 1) % 2 ^ 64

-- What the controller's `*Method` of a name points to is changed in place.
unfoldable pub update_method :
    {V : Type 0} → String → (Method V → Method V) → Controller V → Controller V
update_method name f c = elim (lookup name c.methods) [
  | none ↦ c
  | some m ↦ record c { methods = insert name (f m) c.methods }
]

abbrev log_call : {V : Type 0} → RecordedCall V → Method V → Method V
log_call rc m = record m { calls = m.calls ++ rc ∷ [] }

abbrev pub recorded : {V : Type 0} → String → List V → Controller V → RecordedCall V
recorded name args c = record { seq = next_seq c.seq; method = name; args = args }

-- record: for a method's call, the method logs it too
unfoldable pub record_call :
    {V : Type 0} → String → List V → Bool → Controller V → RecordedCall V × Controller V
unfolding update_method
record_call {V} name args of_method c =
    let rc : RecordedCall V = recorded name args c in
    let c' : Controller V = record c { seq = next_seq c.seq; calls = c.calls ++ rc ∷ [] } in
    (rc, elim of_method [ false ↦ c' | true ↦ update_method name (log_call rc) c' ])

-- Spy.Call of a controller's spy: its own log, then the sink
unfoldable pub spy_call : {V : Type 0} → String → List V → Controller V → Controller V
unfolding spy record_call
spy_call name args c =
    let (s, c') = spy name c in
    (record_call name args false (record c' { spies = insert name (s ++ args ∷ []) c'.spies })).1

-- An argument of Expect: a matcher, or a plain value.
pub data ExpectArg (V : Type 0) : Type 0 where
  matcher : ArgMatcher V → ExpectArg V
  plain : V → ExpectArg V

abbrev pub to_matcher : {V : Type 0} → (V → V → Bool) → ExpectArg V → Option (ArgMatcher V)
to_matcher values_equal (matcher m) = some m
to_matcher values_equal (plain v) = some (equal values_equal v)

abbrev pub declared :
    {V : Type 0} → (V → V → Bool) → String → String → List (ExpectArg V) → Expectation V
declared values_equal name site args = record {
  method = name;
  matchers = map (to_matcher values_equal) args;
  site = site;
  kind = count_default;
  min = pos 0;
  max = pos 0;
  responses = [];
  do_fn = none;
  got = 0;
  first_seq = 0;
}

abbrev pub add_expectation : {V : Type 0} → ℕ → Method V → Method V
add_expectation p m = record m { exps = m.exps ++ p ∷ [] }

-- Method.Expect: the new expectation's position, and the state
unfoldable pub expect :
    {V : Type 0}
    → (V → V → Bool)
    → String
    → String
    → List (ExpectArg V)
    → Controller V
    → ℕ × Controller V
unfolding update_method
expect values_equal name site args c =
    let p = length c.heap in
    (
      p,
      update_method name (add_expectation p)
          (record c { heap = c.heap ++ declared values_equal name site args ∷ [] }),
    )

-- InOrder, after its nil arguments are dropped
abbrev kept : List (Option ℕ) → List ℕ
kept [] = []
kept (none ∷ es) = kept es
kept (some e ∷ es) = e ∷ kept es

unfoldable pub in_order : {V : Type 0} → List (Option ℕ) → Controller V → Controller V
in_order exps c = record c { orders = c.orders ++ kept exps ∷ [] }

abbrev clear_method : {V : Type 0} → String × Method V → String × Method V
clear_method (name, m) = (name, record m { exps = []; calls = [] })

abbrev clear_spy : {V : Type 0} → String × List (List V) → String × List (List V)
clear_spy (name, s) = (name, [])

-- Reset
unfoldable pub reset : {V : Type 0} → Controller V → Controller V
reset c = record c {
  seq = 0;
  calls = [];
  orders = [];
  verified = false;
  methods = map clear_method c.methods;
  spies = map clear_spy c.spies;
}

-- A configuration method on the expectation at a position.
unfoldable pub update_expectation :
    {V : Type 0} → ℕ → (Expectation V → Expectation V) → Controller V → Controller V
update_expectation p f c = elim (get_elem? c.heap p) [
  | none ↦ c
  | some e ↦ record c { heap = set c.heap p (f e) }
]
