-- ===== src/Mock/Calls.antt =====
-- Method.Call of mock/controller.go and `notifyClaim` of mock/counts.go: what a call does.
-- `Call` takes the controller's lock four times: to record the call, to copy the expectations, to
-- claim one, and in `respond`; these are functions of their own here.
pub mod Deciding
pub mod Capacity
pub mod Prohibition
use go_specs.Prelude.{
  ℕ, suc, String, Bool, true, false, ◌&&◌, Option, none, some, List, [], ◌∷◌, ◌++◌, get_elem?, set,
  lookup, if◌then◌else◌, ◌==◌,
}
use go_specs.Mock.Model.{
  ArgMatcher, Expectation, Reason, Result, zero_result, mismatch, prohibits, has_capacity,
  capacity_reason, dangling, captor_matcher,
}
use go_specs.Mock.Stub.{respond}
use go_specs.Mock.Controller.{
  RecordedCall, Controller, Report, forbidden_call, unexpected_call, record_call,
}

mismatch_at : {V : Type 0} → List (Expectation V) → ℕ → List V → Option Reason
mismatch_at heap p args = elim (get_elem? heap p) [
  | none ↦ some dangling
  | some e ↦ mismatch e args
]

-- The reason of each of the method's expectations; the matchers run outside the lock.
unfoldable pub reasons :
    {V : Type 0} → List (Expectation V) → List V → List ℕ → List (ℕ × Option Reason)
unfolding mismatch_at
reasons heap args [] = []
reasons heap args (p ∷ ps) = (p, mismatch_at heap p args) ∷ reasons heap args ps

abbrev pub is_match : Option Reason → Bool
is_match none = true
is_match (some r) = false

-- Whether the expectation at a position has a property.
unfoldable pub at : {V : Type 0} → (Expectation V → Bool) → List (Expectation V) → ℕ → Bool
at test heap p = elim (get_elem? heap p) [ none ↦ false | some e ↦ test e ]

-- The first matching expectation with a property.
unfoldable pub first_match :
    {V : Type 0}
    → (Expectation V → Bool)
    → List (Expectation V)
    → List (ℕ × Option Reason)
    → Option ℕ
unfolding at
first_match test heap [] = none
first_match test heap ((p, r) ∷ rest) =
    let later = first_match test heap rest in if is_match r && at test heap p then some p else later

pub data Decision : Type 0 where
  forbidden : ℕ → Decision
  claimed : ℕ → Decision
  unexpected : Decision

-- A prohibition first, whatever the declaration order; then the first one with capacity.
unfoldable pub prefer : Option ℕ → Option ℕ → Decision
prefer (some p) taker = forbidden p
prefer none (some p) = claimed p
prefer none none = unexpected

unfoldable pub decide : {V : Type 0} → List (Expectation V) → List (ℕ × Option Reason) → Decision
unfolding prefer
decide heap matched =
    prefer (first_match prohibits heap matched) (first_match has_capacity heap matched)

-- `e.got++`, and `e.firstSeq` if it is the first call
unfoldable pub take_call : {V : Type 0} → ℕ → Expectation V → Expectation V
take_call seq e = record e {
  got = suc e.got;
  first_seq = if e.first_seq == 0 then seq else e.first_seq;
}

-- The lines of an unexpected call's message.
unfoldable pub explain :
    {V : Type 0} → List (Expectation V) → List (ℕ × Option Reason) → List (ℕ × Reason)
explain heap [] = []
explain heap ((p, some r) ∷ rest) = (p, r) ∷ explain heap rest
explain heap ((p, none) ∷ rest) =
    (p, elim (get_elem? heap p) [ none ↦ dangling | some e ↦ capacity_reason e ])
    ∷ explain heap rest

-- notifyClaim: each captor among the matchers sees its argument, if that converts
unfoldable pub notify_claim : {V : Type 0} → List (Option (ArgMatcher V)) → List V → List (ℕ × V)
notify_claim (some (captor_matcher c converts) ∷ ms) (v ∷ vs) =
    let rest = notify_claim ms vs in if converts v then (c, v) ∷ rest else rest
notify_claim (m ∷ ms) (v ∷ vs) = notify_claim ms vs
notify_claim ms vs = []

-- What the claim does under the lock, and what follows it.
settle :
    {V : Type 0}
    → String
    → RecordedCall V
    → List (ℕ × Option Reason)
    → Controller V
    → Decision
    → Result V × Controller V
unfolding take_call explain notify_claim
settle name rc matched c (forbidden p) =
    (zero_result, record c { errors = c.errors ++ forbidden_call name rc.args p ∷ [] })
settle name rc matched c unexpected = (
  zero_result,
  record c { errors = c.errors ++ unexpected_call name rc.args (explain c.heap matched) ∷ [] },
)
settle name rc matched c (claimed p) = elim (get_elem? c.heap p) [
  | none ↦ (zero_result, c)
  | some e ↦ (
    respond (take_call rc.seq e) (suc e.got) rc.args,
    record c {
      heap = set c.heap p (take_call rc.seq e);
      captured = c.captured ++ notify_claim e.matchers rc.args;
    },
  )
]

unfoldable pub claim :
    {V : Type 0}
    → String
    → RecordedCall V
    → List (ℕ × Option Reason)
    → Controller V
    → Result V × Controller V
unfolding settle decide
claim name rc matched c = settle name rc matched c (decide c.heap matched)

-- The expectations that a method has now.
unfoldable pub expectations_of : {V : Type 0} → String → Controller V → List ℕ
expectations_of name c = elim (lookup name c.methods) [ none ↦ [] | some m ↦ m.exps ]

-- Method.Call
unfoldable pub call : {V : Type 0} → String → List V → Controller V → Result V × Controller V
unfolding record_call claim
call name args c =
    let (rc, c') = record_call name args true c in
    claim name rc (reasons c'.heap rc.args (expectations_of name c')) c'
