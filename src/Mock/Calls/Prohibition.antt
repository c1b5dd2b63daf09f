-- ===== src/Mock/Calls/Prohibition.antt =====
-- What a prohibition of mock/controller.go does to a call.
use go_specs.Prelude.{
  ℕ, zero, suc, String, ◌≡◌, refl, Bool, true, false, none, some, List, [], ◌∷◌, ◌++◌, arith, All,
  get_elem?,
}
use go_specs.Mock.Model.{Expectation, zero_result, prohibits, mismatch}
use go_specs.Mock.Controller.{Controller, RecordedCall, forbidden_call, record_call}
use go_specs.Mock.Calls.{
  at, Decision, decide, forbidden, claimed, unexpected, claim, call, reasons, expectations_of,
}
use go_specs.Mock.Calls.Deciding.{Promises, PassedOver, decide-Promises}

module _ {V : Type 0} where
  -- An expectation that all lists pass over although it matches lacks the property.
  PassedOver-reasons :
      (test : Expectation V → Bool) (heap : List (Expectation V)) (args : List V) (ps : List ℕ)
      (i : ℕ) {p : ℕ} {e : Expectation V}
      → All (PassedOver test heap) (reasons heap args ps)
      → get_elem? ps i ≡ some p
      → get_elem? heap p ≡ some e
      → mismatch e args ≡ none
      → test e ≡ false
  unfolding reasons at
  PassedOver-reasons test heap args [] i h g k m = cc
  PassedOver-reasons test heap args (q ∷ ps) zero h g k m = ground (arith, h.0)
  PassedOver-reasons test heap args (q ∷ ps) (suc i) h g k m =
      PassedOver-reasons test heap args ps i h.1 g k m

  -- The method `name` has, among its expectations, at this rank, a prohibition that the call matches.
  pub record IsProhibited (name : String) (args : List V) (c : Controller V) : Type 0 where
    pub rank : ℕ
    pub position : ℕ
    pub exp : Expectation V
    pub listed : get_elem? (expectations_of name c) rank ≡ some position
    pub found : get_elem? c.heap position ≡ some exp
    pub matching : mismatch exp args ≡ none
    pub prohibiting : prohibits exp ≡ true

  decide-forbidden :
      (name : String) (args : List V) (c : Controller V)
      → IsProhibited name args c
      → (d : Decision) → Promises c.heap (reasons c.heap args (expectations_of name c)) d
      → (p : ℕ) × (d ≡ forbidden p)
  decide-forbidden name args c h (forbidden p) k = (p, refl)
  decide-forbidden name args c h (claimed p) k = cc (
    h.prohibiting,
    PassedOver-reasons prohibits c.heap args (expectations_of name c) h.rank k.1 h.listed h.found
        h.matching,
  )
  decide-forbidden name args c h unexpected k = cc (
    h.prohibiting,
    PassedOver-reasons prohibits c.heap args (expectations_of name c) h.rank k.1 h.listed h.found
        h.matching,
  )

  -- A claim whose decision is a prohibition.
  claim-forbidden :
      (name : String) (rc : RecordedCall V) (c : Controller V)
      → IsProhibited name rc.args c
      → let after = claim name rc (reasons c.heap rc.args (expectations_of name c)) c in
        (p : ℕ) × (after
          ≡ (zero_result, record c { errors = c.errors ++ forbidden_call name rc.args p ∷ [] }))
  unfolding claim
  claim-forbidden name rc c h =
      let matched = reasons c.heap rc.args (expectations_of name c) in
      let (p, e) =
        decide-forbidden name rc.args c h (decide c.heap matched)
          (decide-Promises c.heap matched) in
      (p, rw e)

  -- If the recorded call matches a prohibition of its method, whatever else the method expects, the
  -- call yields no values, no expectation takes it, no captor sees it, and the one error that it
  -- adds to the test is the forbidden call.
  pub call-forbidden :
      (name : String) (args : List V) (c : Controller V)
      → IsProhibited name args (record_call name args true c).1
      → let c' = (record_call name args true c).1 in
        (p : ℕ) × (call name args c
          ≡ (zero_result, record c' { errors = c'.errors ++ forbidden_call name args p ∷ [] }))
  unfolding call
  call-forbidden name args c h =
      claim-forbidden name (record_call name args true c).0 (record_call name args true c).1 h
