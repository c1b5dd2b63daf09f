-- ===== src/Sharding/Select.antt =====
-- specs/sharding.go: `validateShardPartition` and `ShardSpecs`.
pub mod Partition
use go_specs.Prelude.{
  ℕ, zero, suc, ◌+◌, ◌%◌, ◌<◌, ◌≡◌, refl, Bool, true, false, Option, none, some, List, [], ◌∷◌, ℤ,
  pos, negsuc, pos_part, ltb_ℤ, leb_ℤ, ◌==◌, ◌≤ℤ◌, if◌then◌else◌, arith, ◌↔◌, ◌≤◌,
}

-- Why a shard and a total describe no partition.
pub data Reason : Type 0 where
  total_below_one : ℤ → Reason
  index_negative : ℤ → Reason
  index_out_of_range : ℤ → ℤ → Reason

-- `none` is the source's `ok`
unfoldable pub validate_shard_partition : ℤ → ℤ → Option Reason
validate_shard_partition shard total =
    if leb_ℤ total (pos 0)
    then some (total_below_one total)
    else if ltb_ℤ shard (pos 0)
    then some (index_negative shard)
    else if leb_ℤ total shard
    then some (index_out_of_range shard total)
    else none

-- A shard, or the panic of `panicShardConfig`.
pub data Sharded (A : Type 0) : Type 0 where
  sharded : A → Sharded A
  refused : ℤ → ℤ → Reason → Sharded A

-- The loop, at spec number `i`.
unfoldable pub select : {A : Type 0} → ℕ → ℕ → ℕ → List A → List A
select shard total i [] = []
select shard total i (x ∷ xs) =
    let rest = select shard total (suc i) xs in if i % total == shard then x ∷ rest else rest

-- `i%total == shard` is on numbers that are not negative, once the pair is valid
unfoldable pub shard_specs : {A : Type 0} → List A → ℤ → ℤ → Sharded (List A)
unfolding validate_shard_partition select
shard_specs specs shard total = elim (validate_shard_partition shard total) [
  | some reason ↦ refused shard total reason
  | none ↦ sharded (select (pos_part shard) (pos_part total) 0 specs)
]

-- A valid pair: `total` is at least 1 and `shard` is below it, neither negative.
pub data IsPartition : ℤ → ℤ → Type 0 where
  partition : {s t : ℕ} → s < t → IsPartition (pos s) (pos t)

IsPartition-lt :
    {shard total : ℤ} → IsPartition shard total → validate_shard_partition shard total ≡ none
unfolding validate_shard_partition
IsPartition-lt (partition h) = ground arith

valid-IsPartition :
    (shard total : ℤ) → validate_shard_partition shard total ≡ none → IsPartition shard total
unfolding validate_shard_partition
valid-IsPartition (pos s) (pos t) h = partition (ground arith)
valid-IsPartition (pos s) (negsuc t) h = ground arith
valid-IsPartition (negsuc s) (pos t) h = ground arith
valid-IsPartition (negsuc s) (negsuc t) h = ground arith

-- The one check of a pair accepts it exactly when 0 ≤ shard < total.
pub validate-IsPartition :
    (shard total : ℤ) → (validate_shard_partition shard total ≡ none) ↔ IsPartition shard total
validate-IsPartition shard total = (valid-IsPartition shard total, IsPartition-lt)
