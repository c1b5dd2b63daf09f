-- ===== src/Assert/Quantified/Counted.antt =====
-- The quantified matchers of assert/quantified_matchers.go decide by the number of matching elements.
use go_specs.Prelude.{
  ℕ, suc, ◌+◌, ◌<◌, ◌≡◌, refl, sym, ap, ◌∙◌, arith, Bool, true, false, not, ◌&&◌, Option, none,
  some, List, [], ◌∷◌, length, length-append, ℤ, pos, Bool-cases, inl, inr, ltb, leb, leb_ℤ, eq_ℤ,
  ltb_ℤ, ◌==◌, if◌then◌else◌,
}
use go_specs.Prelude.Text.{Text}
use go_specs.Assert.Matcher.{Verdict, evaluate}
use go_specs.Assert.Composite.Judged.{IsJudge}
use go_specs.Assert.Listing.{ElementListing, no_listing, add_listing, count_listing}
use go_specs.Assert.Quantified.{
  Quantifier, quant_every, quant_any, quant_none, quant_exactly, quant_at_least, quant_at_most,
  QuantifiedMatcher, Tally, counts, stops, hit, miss, judged, tally_elements, concluded,
  conclude_tally, evaluate_list, is_at_least, on_list, quantified_evaluate, tracks_misses,
}

abbrev pub count_test : {V : Type 0} → (V → Bool) → List V → ℕ
count_test test [] = 0
count_test test (v ∷ vs) = (if test v then 1 else 0) + count_test test vs

-- Whether `c` of `total` elements satisfy a quantifier with the number `k`.
unfoldable pub quantifies : Quantifier → ℕ → ℕ → ℕ → Bool
quantifies quant_every k c total = c == total
quantifies quant_any k c total = ltb 0 c
quantifies quant_none k c total = c == 0
quantifies quant_exactly k c total = c == k
quantifies quant_at_least k c total = leb k c
quantifies quant_at_most k c total = leb c k

count_listing-add :
    (text : Text) (l : ElementListing) → count_listing (add_listing text l) ≡ suc (count_listing l)
unfolding count_listing add_listing
count_listing-add text l = elim (Bool-cases (leb 10 (length l.parts))) [
  | inl e ↦ simp e (omega arith)
  | inr e ↦ simp e (omega (arith, length-append l.parts (text ∷ [])))
]

verdict_if :
    (b : Bool) (text : Text) → (if◌then◌else◌ {A = Verdict} b (true, []) (false, text)).0 ≡ b
verdict_if true text = refl
verdict_if false text = refl

never_if : (b : Bool) (x y : Text) → (if◌then◌else◌ {A = Verdict} b (false, x) (false, y)).0 ≡ false
never_if true x y = refl
never_if false x y = refl

count_test-length :
    {V : Type 0} (test : V → Bool) (es : List V)
    → count_test test es + count_test (λ v. not (test v)) es ≡ length es
count_test-length test [] = refl
count_test-length test (v ∷ es) =
    let later = count_test-length test es in
    elim (Bool-cases (test v)) [
      | inl e ↦ rw e (omega (arith, later))
      | inr e ↦ rw e (omega (arith, later))
    ]

-- What is known within the loop, after `c` matches and `m` misses: it has not stopped.
GoesOn : Quantifier → ℕ → ℕ → ℕ → Tally → Type 0
GoesOn quant_every k c m t = (t.matched ≡ c) × (count_listing t.misses ≡ m)
GoesOn quant_any k c m t = (t.matched ≡ c) × (c ≡ 0)
GoesOn quant_at_least k c m t = (t.matched ≡ c) × (c < k)
GoesOn _ k c m t = t.matched ≡ c

abbrev no_tally : Tally
no_tally = record { hits = []; misses = no_listing; matched = 0 }

GoesOn-start :
    (kind : Quantifier) (k : ℕ)
    → (is_at_least kind && eq_ℤ (pos k) (pos 0)) ≡ false
    → GoesOn kind k 0 0 no_tally
unfolding GoesOn is_at_least count_listing
GoesOn-start quant_every k e = (refl, refl)
GoesOn-start quant_any k e = (refl, refl)
GoesOn-start quant_none k e = refl
GoesOn-start quant_exactly k e = refl
GoesOn-start quant_at_least k e = (refl, ground (arith, e))
GoesOn-start quant_at_most k e = refl

at_least-zero :
    (kind : Quantifier) (k c total : ℕ)
    → (is_at_least kind && eq_ℤ (pos k) (pos 0)) ≡ true
    → quantifies kind k c total ≡ true
unfolding is_at_least quantifies
at_least-zero quant_every k c total e = absurd cc
at_least-zero quant_any k c total e = absurd cc
at_least-zero quant_none k c total e = absurd cc
at_least-zero quant_exactly k c total e = absurd cc
at_least-zero quant_at_least k c total e = ground (arith, e)
at_least-zero quant_at_most k c total e = absurd cc

and_false : (b : Bool) → (b && false) ≡ false
and_false true = refl
and_false false = refl

-- What the loop gives: an early success that no further element changes, or the tally.
Gives : Quantifier → ℕ → ℕ → ℕ → Option Tally → Type 0
Gives kind k c m none = (total : ℕ) → quantifies kind k c total ≡ true
Gives kind k c m (some t) = GoesOn kind k c m t

hit-GoesOn :
    (kind : Quantifier) (k c m i : ℕ) (t : Tally)
    → GoesOn kind k c m t
    → stops kind (pos k) (suc t.matched) ≡ false
    → GoesOn kind k (suc c) m (hit kind i t)
unfolding GoesOn hit stops
hit-GoesOn quant_every k c m i t (h, n) e = (ap suc h, n)
hit-GoesOn quant_any k c m i t h e = absurd cc
hit-GoesOn quant_none k c m i t h e = ap suc h
hit-GoesOn quant_exactly k c m i t h e = ap suc h
hit-GoesOn quant_at_least k c m i t (h, n) e = (ap suc h, ground (arith, h, e))
hit-GoesOn quant_at_most k c m i t h e = ap suc h

-- More matches do not undo an early success.
stops-quantifies :
    (kind : Quantifier) (k c m more : ℕ) (t : Tally)
    → GoesOn kind k c m t
    → stops kind (pos k) (suc t.matched) ≡ true
    → (total : ℕ) → quantifies kind k (c + (1 + more)) total ≡ true
unfolding GoesOn stops quantifies
stops-quantifies quant_every k c m more t h e total = absurd cc
stops-quantifies quant_any k c m more t h e total = ground arith
stops-quantifies quant_none k c m more t h e total = absurd cc
stops-quantifies quant_exactly k c m more t h e total = absurd cc
stops-quantifies quant_at_least k c m more t (h, n) e total = ground (arith, h, e)
stops-quantifies quant_at_most k c m more t h e total = absurd cc

module _ {V : Type 0} (quote : Text → Text) (user_value : V → Text) where
  miss-GoesOn :
      (kind : Quantifier) (k c m i : ℕ) (element : V) (failure : Text) (t : Tally)
      → GoesOn kind k c m t
      → GoesOn kind k c (suc m) (miss quote user_value kind i element failure t)
  unfolding GoesOn miss tracks_misses
  miss-GoesOn quant_every k c m i element failure t (h, n) =
      (h, count_listing-add _ t.misses ∙ ap suc n)
  miss-GoesOn quant_any k c m i element failure t h = h
  miss-GoesOn quant_none k c m i element failure t h = h
  miss-GoesOn quant_exactly k c m i element failure t h = h
  miss-GoesOn quant_at_least k c m i element failure t h = h
  miss-GoesOn quant_at_most k c m i element failure t h = h

module _ {S V : Type 0} (quote : Text → Text) (user_value : V → Text) where
  -- The verdict of the element, once it is known.
  judged-as :
      (q : QuantifiedMatcher S V) (i : ℕ) (element : V) (t : Tally) (said : Text) (s : S)
      (rest : Tally → S → Option Tally × S) (a : Bool)
      → evaluate q.sub element s ≡ ((a, said), s)
      → (b : Bool) → a ≡ b
      → judged quote user_value q i element t (evaluate q.sub element s) rest
        ≡ judged quote user_value q i element t ((b, said), s) rest
  judged-as q i element t said s rest a evaluated b same =
      ap (λ r. judged quote user_value q i element t r rest)
        (evaluated ∙ ap (λ (c : Bool). ((c, said), s)) same)

  -- A match that does not end the loop.
  judged-hit :
      (q : QuantifiedMatcher S V) (k i : ℕ) (element : V) (t : Tally) (said : Text) (s : S)
      (rest : Tally → S → Option Tally × S)
      → q.n ≡ pos k
      → stops q.kind (pos k) (suc t.matched) ≡ false
      → judged quote user_value q i element t ((true, said), s) rest ≡ rest (hit q.kind i t) s
  unfolding judged
  judged-hit q k i element t said s rest size on = simp (size, on) refl

  -- A match that ends it.
  judged-stop :
      (q : QuantifiedMatcher S V) (k i : ℕ) (element : V) (t : Tally) (said : Text) (s : S)
      (rest : Tally → S → Option Tally × S)
      → q.n ≡ pos k
      → stops q.kind (pos k) (suc t.matched) ≡ true
      → judged quote user_value q i element t ((true, said), s) rest ≡ (none, s)
  unfolding judged
  judged-stop q k i element t said s rest size stop = simp (size, stop) refl

  tally_elements-Gives :
      (q : QuantifiedMatcher S V) (test : V → Bool) (k : ℕ)
      → IsJudge q.sub test
      → q.n ≡ pos k
      → (es : List V) (i c m matches others : ℕ) (t : Tally) (s : S) → GoesOn q.kind k c m t
      → matches ≡ c + count_test test es
      → others ≡ m + (count_test (λ v. not (test v)) es)
      → (r : Option Tally) × (tally_elements quote user_value q i es t s ≡ (r, s))
        × Gives q.kind k matches others r
  unfolding tally_elements judged
  tally_elements-Gives q test k judge size [] i c m matches others t s h same apart =
      let e : matches ≡ c = omega (arith, same) in
      let f : others ≡ m = omega (arith, apart) in (some t, refl, unfold Gives in rw (e, f) h)
  tally_elements-Gives q test k judge size (element ∷ es) i c m matches others t s h same apart =
      let (asked, said, evaluated) = judge.1 element s in
      let go = tally_elements-Gives q test k judge size es (suc i) in
      let rest = tally_elements quote user_value q (suc i) es in
      let shown = judged-as q i element t said s rest (test element) evaluated in
      elim (Bool-cases (test element)) [
        | inl e ↦
            let counted : matches ≡ c + (1 + count_test test es) = rw e at same in
            let kept : others ≡ m + (0 + count_test (λ v. not (test v)) es) = rw e at apart in
            elim (Bool-cases (stops q.kind (pos k) (suc t.matched))) [
              | inl stop ↦ (
                none,
                shown true e ∙ judged-stop q k i element t said s rest size stop,
                unfold Gives in
                    rw counted (stops-quantifies q.kind k c m (count_test test es) t h stop),
              )
              | inr on ↦
                  let (r, later, gives) =
                    go (suc c) m matches others (hit q.kind i t) s
                      (hit-GoesOn q.kind k c m i t h on) (omega (arith, counted))
                      (omega (arith, kept)) in
                  (
                    r,
                    shown true e ∙ (judged-hit q k i element t said s rest size on ∙ later),
                    gives,
                  )
            ]
        | inr e ↦
            let counted : matches ≡ c + (0 + count_test test es) = rw e at same in
            let kept : others ≡ m + (1 + count_test (λ v. not (test v)) es) = rw e at apart in
            let (r, later, gives) =
              go c (suc m) matches others (miss quote user_value q.kind i element said t) s
                (miss-GoesOn quote user_value q.kind k c m i element said t h)
                (omega (arith, counted)) (omega (arith, kept)) in
            (r, shown false e ∙ later, gives)
      ]

  GoesOn-quantifies :
      (q : QuantifiedMatcher S V) (kind : Quantifier) (test : V → Bool) (k : ℕ) (es : List V)
      (t : Tally)
      → q.n ≡ pos k
      → GoesOn kind k (count_test test es) (count_test (λ v. not (test v)) es) t
      → (conclude_tally quote user_value q kind es t).0
        ≡ quantifies kind k (count_test test es) (length es)
  unfolding GoesOn quantifies conclude_tally
  GoesOn-quantifies q quant_every test k es t size (h, n) =
      let all = count_test-length test es in
      let same : (count_listing t.misses == 0) ≡ (count_test test es == length es) =
        ground (arith, n, all) in
      verdict_if (count_listing t.misses == 0) _ ∙ same
  GoesOn-quantifies q quant_any test k es t size (h, n) =
      never_if (length es == 0) _ _ ∙ (rw n refl)
  GoesOn-quantifies q quant_none test k es t size h =
      verdict_if (t.matched == 0) _ ∙ ap (λ (c : ℕ). c == 0) h
  GoesOn-quantifies q quant_exactly test k es t size h =
      verdict_if (eq_ℤ (pos t.matched) q.n) _ ∙ (simp (size, h) (ground arith))
  GoesOn-quantifies q quant_at_least test k es t size (h, n) = ground (arith, n)
  GoesOn-quantifies q quant_at_most test k es t size h =
      verdict_if (leb_ℤ (pos t.matched) q.n) _ ∙ (simp (size, h) (ground arith))

  concluded-count :
      (q : QuantifiedMatcher S V) (test : V → Bool) (k : ℕ) (es : List V) (r : Option Tally) (s : S)
      → q.n ≡ pos k
      → Gives q.kind k (count_test test es) (count_test (λ v. not (test v)) es) r
      → (text : Text) × (concluded quote user_value q es (r, s)
          ≡ ((quantifies q.kind k (count_test test es) (length es), text), s))
  unfolding concluded Gives
  concluded-count q test k es none s size h =
      ([], ap (λ (b : Bool). ((b, []), s)) (sym (h (length es))))
  concluded-count q test k es (some t) s size h =
      let verdict = conclude_tally quote user_value q q.kind es t in
      (
        verdict.1,
        ap (λ (b : Bool). ((b, verdict.1), s)) (GoesOn-quantifies q q.kind test k es t size h),
      )

  evaluate_list-count :
      (q : QuantifiedMatcher S V) (test : V → Bool) (k : ℕ) (es : List V) (s : S)
      → IsJudge q.sub test
      → q.n ≡ pos k
      → (text : Text) × (evaluate_list quote user_value q es s
          ≡ ((quantifies q.kind k (count_test test es) (length es), text), s))
  unfolding evaluate_list
  evaluate_list-count q test k es s judge size =
      elim (Bool-cases (is_at_least q.kind && eq_ℤ (pos k) (pos 0))) [
        | inl e ↦ (
          [],
          simp (size, e)
              (ap (λ (b : Bool). ((b, []), s))
                (sym (at_least-zero q.kind k (count_test test es) (length es) e))),
        )
        | inr e ↦
            let (r, gone, gives) =
              tally_elements-Gives q test k judge size es 0 0 0 (count_test test es)
                (count_test (λ v. not (test v)) es) no_tally s (GoesOn-start q.kind k e)
                (omega arith) (omega arith) in
            let (text, f) = concluded-count q test k es r s size gives in
            (text, simp (size, e) (ap (concluded quote user_value q es) gone ∙ f))
      ]

  -- For a value that is read as a list, a child matcher that judges by a test, and a count that is not
  -- negative (EveryElement, AnyElement and NoElement have the count 0): each quantified matcher matches
  -- exactly when the number of the elements that pass satisfies its quantifier.
  pub quantified_evaluate-count :
      (elements : V → Option (List V)) (not_list : Text → V → Text) (q : QuantifiedMatcher S V)
      (test : V → Bool) (k : ℕ) (v : V) (es : List V) (s : S)
      → IsJudge q.sub test
      → q.n ≡ pos k
      → elements v ≡ some es
      → (text : Text) × (quantified_evaluate quote user_value elements not_list q v s
          ≡ ((quantifies q.kind k (count_test test es) (length es), text), s))
  unfolding quantified_evaluate
  quantified_evaluate-count elements not_list q test k v es s judge size list =
      let (text, e) = evaluate_list-count q test k es s judge size in
      let natural : ltb_ℤ (pos k) (pos 0) ≡ false = ground arith in
      let counted : (counts q.kind && ltb_ℤ q.n (pos 0)) ≡ false =
        ap (λ (n : ℤ). counts q.kind && ltb_ℤ n (pos 0)) size
        ∙ (ap (λ (b : Bool). counts q.kind && b) natural ∙ and_false (counts q.kind)) in
      (text, simp (judge.0, counted, list) (unfold on_list in e))
