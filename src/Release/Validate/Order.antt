-- ===== src/Release/Validate/Order.antt =====
-- What tools/release/validate.go accepts.
use go_specs.Prelude.{
  ℕ, ◌≤◌, ◌<◌, ◌≡◌, ◌≢◌, ◌↔◌, refl, ap, arith, Bool, true, false, not, Option, none, some, List, [],
  ◌∷◌, map, All, Bool-cases, inl, inr, ltb, ltb→lt, ◌==◌,
}
use go_specs.Prelude.Fallible.{Fallible, ok}
use go_specs.Prelude.Text.{Text, split}
use go_specs.Release.Changelog.{ChangelogError, find_unreleased}
use go_specs.Release.Validate.{
  LineKind, fence, section, category, prose, Problem, appears_twice, must_come_before, Seen,
  is_seen, place_after, note_category, reported, check_lines, check_section, line_kind,
  validate_unreleased,
}

-- The recognized categories of a section: outside fences, up to the next heading.
unfoldable pub categories : Bool → List LineKind → List ℕ
categories fenced [] = []
categories fenced (fence ∷ lines) = categories (not fenced) lines
categories true (section ∷ lines) = categories true lines
categories false (section ∷ lines) = []
categories fenced (prose ∷ lines) = categories fenced lines
categories true (category i ∷ lines) = categories true lines
categories false (category i ∷ lines) = i ∷ categories false lines

abbrev Exceeds : Option ℕ → ℕ → Type 0
Exceeds none i = Unit
Exceeds (some last) i = last < i

IncreasingFrom : Option ℕ → List ℕ → Type 0
IncreasingFrom last [] = Unit
IncreasingFrom last (i ∷ indices) = Exceeds last i × IncreasingFrom (some i) indices

-- In the canonical order, each once.
unfoldable pub Increasing : List ℕ → Type 0
unfolding IncreasingFrom
Increasing indices = IncreasingFrom none indices

-- Nothing seen is beyond the last one, which was seen.
abbrev IsUpTo : Option ℕ → List ℕ → Type 0
IsUpTo none seen = seen ≡ []
IsUpTo (some last) seen = (is_seen last seen ≡ true) × All (λ j. j ≤ last) seen

is_seen-beyond :
    (i last : ℕ) (seen : List ℕ) → last < i → All (λ j. j ≤ last) seen → is_seen i seen ≡ false
unfolding is_seen
is_seen-beyond i last [] h hs = refl
is_seen-beyond i last (j ∷ seen) h hs =
    let later = is_seen-beyond i last seen h hs.1 in
    let differ : (j == i) ≡ false = ground (arith, hs.0) in rw (differ, later) refl

All-below :
    (i last : ℕ) (seen : List ℕ) → last < i → All (λ j. j ≤ last) seen → All (λ j. j ≤ i) seen
All-below i last [] h hs = tt
All-below i last (j ∷ seen) h hs = (omega (arith, h, hs.0), All-below i last seen h hs.1)

is_seen_self : (i : ℕ) (seen : List ℕ) → is_seen i (i ∷ seen) ≡ true
unfolding is_seen
is_seen_self i seen = ground arith

-- A category after the last one is accepted, and any other is a problem.
note_category-later :
    (i : ℕ) (seen : List ℕ) (last : Option ℕ)
    → IsUpTo last seen
    → Exceeds last i
    → (note_category i (record { seen = seen; last = last })
        ≡ (none, record { seen = i ∷ seen; last = some i }))
      × IsUpTo (some i) (i ∷ seen)
unfolding note_category place_after
note_category-later i seen none h k =
    rw h (unfold is_seen in (refl, (is_seen_self i [], (omega arith, tt))))
note_category-later i seen (some last) h k =
    let differ : ltb i last ≡ false = ground (arith, k) in
    (
      rw (is_seen-beyond i last seen k h.1, differ) refl,
      (is_seen_self i seen, (omega arith, All-below i last seen k h.1)),
    )

is_seen-apart :
    (i last : ℕ) (seen : List ℕ) → is_seen i seen ≡ false → is_seen last seen ≡ true → last ≢ i
is_seen-apart i last seen e h = λ same. cc

note_category-problem :
    (i last : ℕ) (seen : List ℕ)
    → is_seen last seen ≡ true
    → i ≤ last
    → (p : Problem) × (s : Seen) × (note_category i (record { seen = seen; last = some last })
        ≡ (some p, s))
unfolding note_category place_after
note_category-problem i last seen h k = elim (Bool-cases (is_seen i seen)) [
  | inl e ↦ (appears_twice i, record { seen = seen; last = some last }, rw e refl)
  | inr e ↦ elim (Bool-cases (ltb i last)) [
    | inl f ↦
        (must_come_before i last, record { seen = i ∷ seen; last = some last }, rw (e, f) refl)
    | inr f ↦
        let same : last ≡ i = ground (arith, k, f) in absurd (is_seen-apart i last seen e h same)
  ]
]

-- At a category the loop goes on as the description does.
check_lines-category :
    (i : ℕ) (lines : List LineKind) (seen : List ℕ) (last : Option ℕ)
    → IsUpTo last seen
    → ((next : List ℕ)
        → IsUpTo (some i) next
        → (check_lines false (record { seen = next; last = some i }) lines ≡ [])
          ↔ IncreasingFrom (some i) (categories false lines))
    → (check_lines false (record { seen = seen; last = last }) (category i ∷ lines) ≡ [])
      ↔ IncreasingFrom last (i ∷ categories false lines)
unfolding check_lines
check_lines-category i lines seen none h later =
    let (noted, next) = note_category-later i seen none h tt in
    let (to, from) = later (i ∷ seen) next in
    unfold IncreasingFrom in
    rw noted (unfold reported in (λ clear. (tt, to clear), λ up. from up.1))
check_lines-category i lines seen (some last) h later = elim (Bool-cases (ltb last i)) [
  | inl e ↦
      let above : last < i = ltb→lt last i e in
      let (noted, next) = note_category-later i seen (some last) h above in
      let (to, from) = later (i ∷ seen) next in
      unfold IncreasingFrom in
      rw noted (unfold reported in (λ clear. (above, to clear), λ up. from up.1))
  | inr e ↦
      let (problem, s, noted) = note_category-problem i last seen h.0 (ground (arith, e)) in
      unfold IncreasingFrom in
      rw noted (unfold reported in (λ clear. absurd cc, λ up. absurd (ground (arith, up.0, e))))
]

check_lines-Increasing :
    (lines : List LineKind) (fenced : Bool) (seen : List ℕ) (last : Option ℕ)
    → IsUpTo last seen
    → (check_lines fenced (record { seen = seen; last = last }) lines ≡ [])
      ↔ IncreasingFrom last (categories fenced lines)
unfolding check_lines categories IncreasingFrom
check_lines-Increasing [] fenced seen last h = (λ e. tt, λ u. refl)
check_lines-Increasing (fence ∷ lines) fenced seen last h =
    check_lines-Increasing lines (not fenced) seen last h
check_lines-Increasing (section ∷ lines) true seen last h =
    check_lines-Increasing lines true seen last h
check_lines-Increasing (section ∷ lines) false seen last h = (λ e. tt, λ u. refl)
check_lines-Increasing (prose ∷ lines) fenced seen last h =
    check_lines-Increasing lines fenced seen last h
check_lines-Increasing (category i ∷ lines) true seen last h =
    check_lines-Increasing lines true seen last h
check_lines-Increasing (category i ∷ lines) false seen last h =
    check_lines-category i lines seen last h
      (λ next up. check_lines-Increasing lines false next (some i) up)

ok-injective :
    {problems : List Problem} {same : Fallible ChangelogError (List Problem)}
    → ok problems ≡ same
    → same ≡ ok []
    → problems ≡ []
ok-injective e f = cc

-- For a file with an `## [Unreleased]` heading: there is no problem exactly when the recognized
-- categories of its section, outside fences, stand in the canonical order, each at most once.
pub validate_unreleased-Increasing :
    (content : Text) (before after : List Text)
    → find_unreleased (split 10 content) ≡ some (before, after)
    → (validate_unreleased content ≡ ok []) ↔ Increasing (categories false (map line_kind after))
unfolding validate_unreleased
validate_unreleased-Increasing content before after found =
    let (to, from) = check_lines-Increasing (map line_kind after) false [] none refl in
    unfold Increasing check_section in
    rw found (λ e. to (ok-injective refl e), λ up. ap ok (from up))
