-- ===== src/Runner/Groups/Events.antt =====
-- What each report of specs/runner.go adds to the events and the totals.
use go_specs.Prelude.{
  ℕ, suc, ◌+◌, ◌≡◌, refl, sym, ap, ◌∙◌, List, [], ◌∷◌, ◌++◌, length, length-append, append-nil,
  append_assoc, arith,
}
use go_specs.Prelude.Text.{Text}
use go_specs.Runner.Observer.{
  Observer, Event, spec_started, spec_finished, Finish, ran, marked_skipped, marked_pending,
  unstarted, SpecStart, SpecResult, DeclaredKind, started, finish_locked, spec_skipped,
  spec_pending, spec_unstarted,
}
use go_specs.Runner.Groups.{report_each}

-- The names of the finished events, in order.
unfoldable pub finished : List Event → List Text
finished [] = []
finished (spec_started e ∷ events) = finished events
finished (spec_finished e f ∷ events) = e.name ∷ finished events

finished-append : (es fs : List Event) → finished (es ++ fs) ≡ finished es ++ finished fs
unfolding finished
finished-append [] fs = refl
finished-append (spec_started e ∷ es) fs = finished-append es fs
finished-append (spec_finished e f ∷ es) fs = ap (e.name ∷◌) (finished-append es fs)

-- `o'` reports `names` on top of what `o` did, each counted once.
abbrev pub Reports : Observer → Observer → List Text → Type 0
Reports o o' names =
    (finished o'.events ≡ finished o.events ++ names)
    × (o'.total + o'.unstarted ≡ o.total + o.unstarted + length names)

pub none_more : (o : Observer) → Reports o o []
none_more o = (sym (append-nil (finished o.events)), omega arith)

pub and_then :
    (o o' o'' : Observer) (xs ys : List Text)
    → Reports o o' xs
    → Reports o' o'' ys
    → Reports o o'' (xs ++ ys)
and_then o o' o'' xs ys (e, n) (f, m) = (
  f ∙ ap (◌++ ys) e ∙ append_assoc (finished o.events) xs ys,
  rw (length-append xs ys) (omega (arith, n, m)),
)

finished-pair :
    (es : List Event) (e : SpecStart) (f : Finish)
    → finished ((es ++ spec_started e ∷ []) ++ spec_finished e f ∷ []) ≡ finished es ++ e.name ∷ []
unfolding finished
finished-pair es e f = simp (finished-append, append_assoc)

pub skipped-Reports : (e : SpecStart) (o : Observer) → Reports o (spec_skipped e o) (e.name ∷ [])
unfolding spec_skipped started
skipped-Reports e o = (finished-pair o.events e marked_skipped, omega arith)

pub pending-Reports : (e : SpecStart) (o : Observer) → Reports o (spec_pending e o) (e.name ∷ [])
unfolding spec_pending started
pending-Reports e o = (finished-pair o.events e marked_pending, omega arith)

pub unstarted-Reports :
    (e : SpecStart) (d : DeclaredKind) (o : Observer)
    → Reports o (spec_unstarted e d o) (e.name ∷ [])
unfolding spec_unstarted started
unstarted-Reports e d o = (finished-pair o.events e (unstarted d), omega arith)

pub run-Reports :
    (e : SpecStart) (r : SpecResult) (o : Observer)
    → Reports o (finish_locked e r (started e o)) (e.name ∷ [])
unfolding finish_locked started
run-Reports e r o = (finished-pair o.events e (ran r), omega arith)

-- A spec that was started and never came back adds no finish.
pub started-Reports : (e : SpecStart) (o : Observer) → Reports o (started e o) []
unfolding started finished
started-Reports e o = (finished-append o.events (spec_started e ∷ []), omega arith)

pub each-Reports :
    (f : ℕ → Text → Observer → Observer) (i : ℕ) (names : List Text) (o : Observer)
    → ((i : ℕ) (name : Text) (o : Observer) → Reports o (f i name o) (name ∷ []))
    → Reports o (report_each f i names o) names
unfolding report_each
each-Reports f i [] o h = none_more o
each-Reports f i (name ∷ names) o h =
    and_then o (f i name o) (report_each f (suc i) names (f i name o)) (name ∷ []) names
      (h i name o) (each-Reports f (suc i) names (f i name o) h)
