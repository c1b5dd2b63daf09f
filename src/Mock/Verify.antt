-- ===== src/Mock/Verify.antt =====
-- Controller.Verify of mock/controller.go.
pub mod Silence
use go_specs.Prelude.{
  ℕ, String, Bool, true, ◌&&◌, not, none, some, List, [], ◌∷◌, ◌++◌, pos, ltb, ltb_ℤ, ◌==◌,
  get_elem?, if◌then◌else◌,
}
use go_specs.Mock.Model.{Expectation, bounds}
use go_specs.Mock.Controller.{Controller, Report, unmet, order_violation}
use go_specs.Mock.Calls.{expectations_of}

-- `e.got < min`
unfoldable pub is_unmet : {V : Type 0} → Expectation V → Bool
is_unmet e = ltb_ℤ (pos e.got) (bounds e).0

unmet_of : {V : Type 0} → List (Expectation V) → List ℕ → List (Report V)
unmet_of heap [] = []
unmet_of heap (p ∷ ps) =
    let rest = unmet_of heap ps in
    elim (get_elem? heap p) [
      | none ↦ rest
      | some e ↦ if is_unmet e then unmet p e.got ∷ rest else rest
    ]

unmet_reports : {V : Type 0} → Controller V → List String → List (Report V)
unfolding unmet_of
unmet_reports c [] = []
unmet_reports c (name ∷ names) = unmet_of c.heap (expectations_of name c) ++ unmet_reports c names

-- The first call that an expectation took, 0 when it took none.
unfoldable pub first_seq_of : {V : Type 0} → List (Expectation V) → ℕ → ℕ
first_seq_of heap p = elim (get_elem? heap p) [ none ↦ 0 | some e ↦ e.first_seq ]

-- `a.firstSeq != 0 && b.firstSeq != 0 && a.firstSeq > b.firstSeq`
unfoldable pub is_out_of_order : ℕ → ℕ → Bool
is_out_of_order a b = not (a == 0) && not (b == 0) && ltb b a

order_of : {V : Type 0} → Controller V → List ℕ → List (Report V)
unfolding is_out_of_order first_seq_of
order_of c (a ∷ b ∷ rest) =
    let later = order_of c (b ∷ rest) in
    if is_out_of_order (first_seq_of c.heap a) (first_seq_of c.heap b)
    then order_violation a b c.calls ∷ later
    else later
order_of c _ = []

order_reports : {V : Type 0} → Controller V → List (List ℕ) → List (Report V)
unfolding order_of
order_reports c [] = []
order_reports c (order ∷ orders) = order_of c order ++ order_reports c orders

unfoldable pub verify : {V : Type 0} → Controller V → Controller V
unfolding unmet_reports order_reports
verify c = if c.verified then c else record c {
  verified = true;
  errors = c.errors ++ (unmet_reports c c.names ++ order_reports c c.orders);
}
