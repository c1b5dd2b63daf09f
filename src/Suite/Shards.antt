-- ===== src/Suite/Shards.antt =====
-- `RunShard` of specs/scheduler.go and the functions under it: one shard of a compiled program.
use go_specs.Prelude.{
  ℕ, zero, suc, ◌/◌, ◌%◌, ◌<◌, ◌≡◌, refl, ap, ◌∙◌, Bool, true, false, ◌&&◌, Option, none, some,
  List, [], ◌∷◌, ◌++◌, ℤ, pos, arith, get_elem?, append-nil, if◌then◌else◌, pos_part,
}
use go_specs.Sharding.Select.{
  validate_shard_partition, select, IsPartition, partition, validate-IsPartition,
}
use go_specs.Sharding.Select as Select
use go_specs.Sharding.Select.Partition.{select_covers}
use native.Mathlib.Nat.{mod-lt}
use go_specs.Suite.Program.{Program, Group, SpecMark}

is_nil : {A : Type 0} → List A → Bool
is_nil [] = true
is_nil (x ∷ xs) = false

has_some : {A : Type 0} (xs : List A) (k : ℕ) (x : A) → get_elem? xs k ≡ some x → is_nil xs ≡ false
unfolding is_nil
has_some [] k x e = ground arith
has_some (y ∷ xs) k x e = refl

marks_for : {A : Type 0} → ℕ → List A → List A
marks_for zero marks = marks
marks_for (suc i) marks = []

-- What a shard's run comes to: it fails the test with the reason, draws nothing, or runs a program.
pub data ShardRun (F : Type 0) : Type 0 where
  misconfigured : Select.Reason → ShardRun F
  nothing_to_run : ShardRun F
  runs : Program F → ShardRun F

module _ {F : Type 0} where
  abbrev sharded_program : Program F → ℕ → ℕ → Program F
  sharded_program p i n = record p {
    groups = select i n 0 p.groups;
    focus_excluded = marks_for i p.focus_excluded;
  }

  -- shardProgram
  unfoldable pub shard_program : Program F → ℕ → ℕ → Option (Program F)
  unfolding is_nil marks_for
  shard_program p i n =
      let q = sharded_program p i n in
      if is_nil q.groups && (is_nil q.focus_excluded && is_nil q.focused_names)
      then none
      else some q

  run_or_nothing : Option (Program F) → ShardRun F
  run_or_nothing none = nothing_to_run
  run_or_nothing (some q) = runs q

  -- RunShard, and the check of shardConfigOK
  unfoldable pub run_shard : Program F → ℤ → ℤ → ShardRun F
  unfolding shard_program run_or_nothing
  run_shard p i n = elim (validate_shard_partition i n) [
    | some reason ↦ misconfigured reason
    | none ↦ run_or_nothing (shard_program p (pos_part i) (pos_part n))
  ]

  -- The marks that the first `k` of `n` shards report.
  marks_of : Option (Program F) → List SpecMark
  marks_of none = []
  marks_of (some q) = q.focus_excluded

  unfoldable pub reported_marks : Program F → ℕ → ℕ → List SpecMark
  unfolding marks_of
  reported_marks p n zero = []
  reported_marks p n (suc k) = reported_marks p n k ++ marks_of (shard_program p k n)

  drop-marks :
      (marks : List SpecMark) (b c : Bool) (q : Program F)
      → q.focus_excluded ≡ marks
      → marks_of (if b && (is_nil marks && c) then none else some q) ≡ marks
  unfolding marks_of is_nil
  drop-marks [] true true q e = refl
  drop-marks [] true false q e = e
  drop-marks [] false c q e = e
  drop-marks (m ∷ marks) true c q e = e
  drop-marks (m ∷ marks) false c q e = e

  marks_of-shard_program :
      (p : Program F) (i n : ℕ) → marks_of (shard_program p i n) ≡ marks_for i p.focus_excluded
  unfolding shard_program
  marks_of-shard_program p i n =
      drop-marks (marks_for i p.focus_excluded) (is_nil (select i n 0 p.groups))
        (is_nil p.focused_names) (sharded_program p i n) refl

  reported_marks-some : (p : Program F) (n k : ℕ) → reported_marks p n (suc k) ≡ p.focus_excluded
  unfolding reported_marks marks_for
  reported_marks-some p n zero = marks_of-shard_program p 0 n
  reported_marks-some p n (suc k) =
      ap (reported_marks p n (suc k) ++◌) (marks_of-shard_program p (suc k) n)
      ∙ append-nil (reported_marks p n (suc k))
      ∙ reported_marks-some p n k

  -- Over any number of shards but none, the marks of the specs that focus excluded are reported once.
  pub reported_marks_once :
      (p : Program F) (n : ℕ) → 0 < n → reported_marks p n n ≡ p.focus_excluded
  reported_marks_once p zero h = ground arith
  reported_marks_once p (suc k) h = reported_marks-some p (suc k) k

  kept-program :
      (b : Bool) (q : Program F) (g : Group F) (k : ℕ)
      → get_elem? q.groups k ≡ some g
      → (if is_nil q.groups && b then none else some q) ≡ some q
  unfolding is_nil
  kept-program b q g k e = rw (has_some q.groups k g e) refl

  -- Group number k of a program is run by shard k % n of n, as its group number k / n, and that shard
  -- knows of all the focused specs of the program.
  pub shard_program-group :
      (p : Program F) (k n : ℕ) (g : Group F)
      → 0 < n
      → get_elem? p.groups k ≡ some g
      → (q : Program F) × (run_shard p (pos (k % n)) (pos n) ≡ runs q)
        × (get_elem? q.groups (k / n) ≡ some g)
        × (q.focused_names ≡ p.focused_names)
  unfolding run_shard shard_program run_or_nothing
  shard_program-group p k n g h e =
      let q = sharded_program p (k % n) n in
      let at = select_covers p.groups k n h ∙ e in
      let valid = (validate-IsPartition (pos (k % n)) (pos n)).1 (partition (mod-lt k h)) in
      (
        q,
        rw (valid, run_shard)
            (ap run_or_nothing
              (kept-program (is_nil q.focus_excluded && is_nil q.focused_names) q g (k / n) at)),
        at,
        refl,
      )
