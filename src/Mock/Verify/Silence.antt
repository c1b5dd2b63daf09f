-- ===== src/Mock/Verify/Silence.antt =====
-- When Verify of mock/controller.go reports nothing.

use go_specs.Prelude.{
  ℕ, ◌≤◌, String, ◌≡◌, refl, ap, sym, ◌∙◌, ◌↔◌, ◌⊎◌, false, Option, none, some, List, [], ◌∷◌, ◌++◌,
  pos, ◌≤ℤ◌, arith, All, length, length-append, get_elem?, append-nil, Option-cases, inl, inr,
}
use mathlib.Core.Path.{ap₂}
use go_specs.Mock.Model.{Expectation, bounds}
use go_specs.Mock.Controller.{Controller}
use go_specs.Mock.Calls.{expectations_of}
use go_specs.Mock.Verify.{
  is_unmet, unmet_of, unmet_reports, first_seq_of, is_out_of_order, order_of, order_reports, verify,
}

-- One of two neighbours was not called, or they were called in order.
abbrev IsOrdered : ℕ → ℕ → Type 0
IsOrdered a b = (a ≡ 0) ⊎ ((b ≡ 0) ⊎ (a ≤ b))

split_nil : {A : Type 0} (xs ys : List A) → xs ++ ys ≡ [] → (xs ≡ []) × (ys ≡ [])
split_nil [] ys h = (refl, h)
split_nil (x ∷ xs) ys h = cc

append-eq_self : {A : Type 0} (xs ys : List A) → xs ++ ys ≡ xs → ys ≡ []
append-eq_self xs [] h = refl
append-eq_self xs (y ∷ ys) h = absurd (omega (arith, ap length h, length-append xs (y ∷ ys)))

module _ {V : Type 0} where
  -- The expectation that stands at a position, if one does, took at least its minimum of calls.
  abbrev IsMet : Option (Expectation V) → Type 0
  IsMet none = Unit
  IsMet (some e) = (bounds e).0 ≤ℤ pos e.got

  abbrev pub AllMet : Controller V → List String → Type 0
  AllMet c [] = Unit
  AllMet c (name ∷ names) =
      All (λ p. IsMet (get_elem? c.heap p)) (expectations_of name c) × AllMet c names

  abbrev pub InOrder : Controller V → List ℕ → Type 0
  InOrder c [] = Unit
  InOrder c (a ∷ []) = Unit
  InOrder c (a ∷ b ∷ rest) =
      IsOrdered (first_seq_of c.heap a) (first_seq_of c.heap b) × InOrder c (b ∷ rest)

  IsMet-of_unmet :
      (heap : List (Expectation V)) (ps : List ℕ)
      → unmet_of heap ps ≡ []
      → All (λ p. IsMet (get_elem? heap p)) ps
  unfolding unmet_of is_unmet
  IsMet-of_unmet heap [] h = tt
  IsMet-of_unmet heap (p ∷ ps) h = elim (Option-cases (get_elem? heap p)) [
    | inl n ↦ (rw n tt, IsMet-of_unmet heap ps (ground arith))
    | inr (e, g) ↦ (rw g (ground arith), IsMet-of_unmet heap ps (ground arith))
  ]

  unmet_of_met :
      (heap : List (Expectation V)) (ps : List ℕ)
      → All (λ p. IsMet (get_elem? heap p)) ps
      → unmet_of heap ps ≡ []
  unfolding unmet_of is_unmet
  unmet_of_met heap [] h = refl
  unmet_of_met heap (p ∷ ps) h = ground (arith, unmet_of_met heap ps h.1)

  unmet_reports_iff :
      (c : Controller V) (names : List String) → (unmet_reports c names ≡ []) ↔ AllMet c names
  unfolding unmet_reports
  unmet_reports_iff c [] = (λ h. tt, λ h. refl)
  unmet_reports_iff c (name ∷ names) =
      let ps = expectations_of name c in
      (
        λ h.
            let (a, b) = split_nil (unmet_of c.heap ps) (unmet_reports c names) h in
            (IsMet-of_unmet c.heap ps a, (unmet_reports_iff c names).0 b),
        λ h. rw (unmet_of_met c.heap ps h.0) ((unmet_reports_iff c names).1 h.1),
      )

  order_of_iff : (c : Controller V) (order : List ℕ) → (order_of c order ≡ []) ↔ InOrder c order
  unfolding order_of is_out_of_order
  order_of_iff c [] = (λ h. tt, λ h. refl)
  order_of_iff c (a ∷ []) = (λ h. tt, λ h. refl)
  order_of_iff c (a ∷ b ∷ rest) =
      let (to, from) = order_of_iff c (b ∷ rest) in
      (λ h. (ground arith, to (ground arith)), λ h. ground (arith, from h.1))

  order_reports_iff :
      (c : Controller V) (orders : List (List ℕ))
      → (order_reports c orders ≡ []) ↔ All (InOrder c) orders
  unfolding order_reports
  order_reports_iff c [] = (λ h. tt, λ h. refl)
  order_reports_iff c (order ∷ orders) = (
    λ h.
        let (a, b) = split_nil (order_of c order) (order_reports c orders) h in
        ((order_of_iff c order).0 a, (order_reports_iff c orders).0 b),
    λ h. rw ((order_of_iff c order).1 h.0) ((order_reports_iff c orders).1 h.1),
  )

  verify-errors :
      (c : Controller V)
      → c.verified ≡ false
      → (verify c).errors ≡ c.errors ++ (unmet_reports c c.names ++ order_reports c c.orders)
  unfolding verify
  verify-errors c h = ground arith

  -- The first Verify since the start or a Reset adds no error exactly when every expectation of
  -- every named method took at least its minimum of calls, and in every declared order no neighbour
  -- was first called before the one in front of it, where both were called.
  pub verify_silent :
      (c : Controller V)
      → c.verified ≡ false
      → ((verify c).errors ≡ c.errors) ↔ (AllMet c c.names × All (InOrder c) c.orders)
  verify_silent c h = (
    λ e.
        let found = unmet_reports c c.names in
        let both =
          append-eq_self c.errors (found ++ order_reports c c.orders)
            (sym (verify-errors c h) ∙ e) in
        let (a, b) = split_nil found (order_reports c c.orders) both in
        ((unmet_reports_iff c c.names).0 a, (order_reports_iff c c.orders).0 b),
    λ e.
        verify-errors c h
        ∙ ap₂ (λ found late. c.errors ++ (found ++ late)) ((unmet_reports_iff c c.names).1 e.0)
            ((order_reports_iff c c.orders).1 e.1)
        ∙ append-nil c.errors,
  )

  -- Verify reports once: from any state a second Verify changes nothing.
  pub verify_twice : (c : Controller V) → verify (verify c) ≡ verify c
  unfolding verify
  verify_twice c = ground arith
