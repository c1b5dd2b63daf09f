-- ===== src/Runner/Observer.antt =====
-- `reporterObserver` of specs/runner.go and the events that it sends (report/events.go), without the
-- clock: what a report says of times and durations is left out. Its mutex makes each call one step.
use go_specs.Prelude.{ℕ, suc, Bool, Option, List, [], ◌∷◌, ◌++◌, if◌then◌else◌}
use go_specs.Prelude.Text.{Text}

pub data DeclaredKind : Type 0 where
  declared_none declared_skip declared_pending : DeclaredKind

pub record SpecStart : Type 0 where
  pub name : Text
  pub path : Option (List Text)

-- specResult
pub record SpecResult : Type 0 where
  pub failed : Bool
  pub filtered : Bool
  pub skipped : Bool
  pub message : Text

pub data Finish : Type 0 where
  ran : SpecResult → Finish
  marked_skipped marked_pending : Finish
  unstarted : DeclaredKind → Finish

pub data Event : Type 0 where
  spec_started : SpecStart → Event
  spec_finished : SpecStart → Finish → Event

pub record Observer : Type 0 where
  pub events : List Event
  pub total : ℕ
  pub failed : ℕ
  pub skipped : ℕ
  pub filtered : ℕ
  pub pending : ℕ
  pub unstarted : ℕ

unfoldable pub new_observer : Observer
new_observer = record {
  events = [];
  total = 0;
  failed = 0;
  skipped = 0;
  filtered = 0;
  pending = 0;
  unstarted = 0;
}

abbrev pub count_if : Bool → ℕ → ℕ
count_if b n = if b then suc n else n

unfoldable pub started : SpecStart → Observer → Observer
started e o = record o { events = o.events ++ spec_started e ∷ [] }

-- finishLocked
unfoldable pub finish_locked : SpecStart → SpecResult → Observer → Observer
finish_locked e r o = record o {
  total = suc o.total;
  failed = count_if r.failed o.failed;
  skipped = count_if r.skipped o.skipped;
  filtered = count_if r.filtered o.filtered;
  events = o.events ++ spec_finished e (ran r) ∷ [];
}

-- specReported
unfoldable pub spec_reported : SpecStart → SpecResult → Observer → Observer
unfolding started finish_locked
spec_reported e r o = finish_locked e r (started e o)

-- specSkipped
unfoldable pub spec_skipped : SpecStart → Observer → Observer
unfolding started
spec_skipped e o =
    let o' = started e o in
    record o' {
      total = suc o'.total;
      skipped = suc o'.skipped;
      events = o'.events ++ spec_finished e marked_skipped ∷ [];
    }

-- specPending
unfoldable pub spec_pending : SpecStart → Observer → Observer
unfolding started
spec_pending e o =
    let o' = started e o in
    record o' {
      total = suc o'.total;
      pending = suc o'.pending;
      events = o'.events ++ spec_finished e marked_pending ∷ [];
    }

-- specUnstarted
unfoldable pub spec_unstarted : SpecStart → DeclaredKind → Observer → Observer
unfolding started
spec_unstarted e d o =
    let o' = started e o in
    record o' {
      unstarted = suc o'.unstarted;
      events = o'.events ++ spec_finished e (unstarted d) ∷ [];
    }
