-- ===== src/Bytecode.antt =====
-- specs/bytecode_impl.go and `ShardBCProgram` of specs/sharding.go: a flat program of instructions.
-- An instruction is the function that it runs, the parameter `F`.
pub mod Bodies
use go_specs.Prelude.{
  ℕ, zero, suc, ◌+◌, ◌-◌, ◌%◌, Bool, true, false, Option, none, some, List, [], ◌∷◌, ◌++◌, ℤ, pos,
  pos_part, ◌==◌, length, get_elem?, if◌then◌else◌,
}
use mathlib.Core.List.{reverse}
use go_specs.Sharding.Select.{Reason, validate_shard_partition}

pub record BcProgram (F : Type 0) : Type 0 where
  pub code : List F
  pub spec_starts : List ℕ

-- NumSpecs
unfoldable pub num_specs : {F : Type 0} → BcProgram F → ℕ
num_specs p = length p.spec_starts - 1

pub record BcBuilder (F : Type 0) : Type 0 where
  pub before : List F
  pub after : List F
  pub code : List F
  pub starts : List ℕ

unfoldable pub new_bc_builder : {F : Type 0} → BcBuilder F
new_bc_builder = record { before = []; after = []; code = []; starts = [] }

-- A nil function is `none`.
unfoldable pub add_before : {F : Type 0} → Option F → BcBuilder F → BcBuilder F
add_before none b = b
add_before (some fn) b = record b { before = b.before ++ fn ∷ [] }

unfoldable pub add_after : {F : Type 0} → Option F → BcBuilder F → BcBuilder F
add_after none b = b
add_after (some fn) b = record b { after = b.after ++ fn ∷ [] }

-- What one spec runs: the before hooks, the body, the after hooks last first.
abbrev pub body_of : {F : Type 0} → BcBuilder F → F → List F
body_of b fn = b.before ++ fn ∷ reverse b.after

unfoldable pub add_spec : {F : Type 0} → Option F → BcBuilder F → BcBuilder F
add_spec none b = b
add_spec (some fn) b = record b {
  starts = b.starts ++ length b.code ∷ [];
  code = b.code ++ body_of b fn;
}

-- BuildBC also leaves the end of the code among the builder's starts.
unfoldable pub build_bc : {F : Type 0} → BcBuilder F → BcProgram F × BcBuilder F
build_bc b =
    let starts = b.starts ++ length b.code ∷ [] in
    (record { code = b.code; spec_starts = starts }, record b { starts = starts })

-- ShardBCProgram yields a program, or panics: on a pair that is no partition, or by an index.
pub data Sharded (F : Type 0) : Type 0 where
  sharded : BcProgram F → Sharded F
  refused : ℤ → ℤ → Reason → Sharded F
  out_of_range : Sharded F

-- `for j := start; j < end; j++`, with `count` rounds
copy : {F : Type 0} → List F → ℕ → ℕ → Option (List F)
copy code start zero = some []
copy code start (suc count) =
    let rest = copy code (suc start) count in
    elim (get_elem? code start) [
      | none ↦ none
      | some i ↦ elim rest [ none ↦ none | some is ↦ some (i ∷ is) ]
    ]

-- The loop over the specs, at number `s`, whose start and end lead the list.
shard_loop : {F : Type 0} → List F → ℕ → ℕ → ℕ → List ℕ → List F → List ℕ → Option (List F × List ℕ)
unfolding copy
shard_loop {F} code shard total s (start ∷ end ∷ starts) new_code new_starts =
    let skipped = shard_loop code shard total (suc s) (end ∷ starts) new_code new_starts in
    let taken = λ (is : List F).
      shard_loop code shard total (suc s) (end ∷ starts) (new_code ++ is)
        (new_starts ++ length (new_code ++ is) ∷ []) in
    if s % total == shard
    then elim (copy code start (end - start)) [ none ↦ none | some is ↦ taken is ]
    else skipped
shard_loop code shard total s _ new_code new_starts = some (new_code, new_starts)

finish : {F : Type 0} → Option (List F × List ℕ) → Sharded F
finish none = out_of_range
finish (some (code, starts)) =
    if length starts == 1
    then sharded (record { code = []; spec_starts = [] })
    else sharded (record { code = code; spec_starts = starts })

unfoldable pub shard_bc_program : {F : Type 0} → BcProgram F → ℤ → ℤ → Sharded F
unfolding shard_loop finish num_specs
shard_bc_program prog shard total = elim (validate_shard_partition shard total) [
  | some reason ↦ refused shard total reason
  | none ↦
      if num_specs prog == 0
      then sharded prog
      else finish
          (shard_loop prog.code (pos_part shard) (pos_part total) 0 prog.spec_starts [] (0 ∷ []))
]
