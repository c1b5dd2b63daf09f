-- ===== src/Samples/Shards.antt =====
-- Shards of small suites and flat programs, and the texts that ask for them.
use go_specs.Prelude.{ℕ, ◌/◌, ◌%◌, ◌≡◌, refl, List, [], ◌∷◌, pos, negsuc, arith, get_elem?}
use go_specs.Prelude.Text.{Text, codes, trim_space, cut_prefix, text_eq, cut, atoi}
use go_specs.Sharding.Select.{validate_shard_partition, sharded, select, shard_specs, IsPartition}
use go_specs.Sharding.Select.Partition.{shard_specs_covers}
use go_specs.Sharding.Request.{
  Env, parse_shard_flag, cut_shard_flag_value, is_shard_flag, parse_shard_pair,
  shard_from_args_or_env, format_shard_flag,
}
use go_specs.Sharding.Request.Valid.{request-IsPartition}
use go_specs.Bytecode.{BcProgram, new_bc_builder, build_bc, shard_bc_program}
use go_specs.Bytecode as Bytecode
use go_specs.Bytecode.Bodies.{
  Op, before_op, after_op, spec_op, pack, bodies, run, packed_or_empty, shard_bc_program-pack,
  build_bc-pack,
}

abbrev five : List ℕ
five = 10 ∷ 11 ∷ 12 ∷ 13 ∷ 14 ∷ []

abbrev nothing_set : Env
nothing_set = record { shard = codes " "; shard_index = []; shard_total = [] }

abbrev second_of_three : List Text
second_of_three = codes "-v" ∷ codes "-shard" ∷ codes "1/3" ∷ []

shard_specs_covers_example :
    (out : List ℕ) × (shard_specs five (pos (3 % 2)) (pos 2) ≡ sharded out)
    × (get_elem? out (3 / 2) ≡ get_elem? five 3)
shard_specs_covers_example = shard_specs_covers five 3 2 (omega arith)

request-IsPartition_example : IsPartition (pos 1) (pos 3)
unfolding shard_from_args_or_env parse_shard_flag cut_shard_flag_value cut_prefix is_shard_flag
    text_eq parse_shard_pair trim_space cut atoi validate_shard_partition
request-IsPartition_example = request-IsPartition second_of_three nothing_set refl

format_shard_flag-text : format_shard_flag (pos 2) (negsuc 9) ≡ codes "-shard 2/-10"
unfolding format_shard_flag
format_shard_flag-text = refl

abbrev two_bodies : List (List ℕ)
two_bodies = (1 ∷ 2 ∷ []) ∷ (3 ∷ []) ∷ []

shard_bc_program-pack_example :
    shard_bc_program (pack two_bodies) (pos 1) (pos 2)
    ≡ Bytecode.sharded (packed_or_empty (select 1 2 0 two_bodies))
shard_bc_program-pack_example = shard_bc_program-pack (1 ∷ 2 ∷ []) ((3 ∷ []) ∷ []) (omega arith)

abbrev four_ops : List (Op ℕ)
four_ops = before_op 1 ∷ spec_op 2 ∷ after_op 3 ∷ spec_op 4 ∷ []

build_bc-pack_example : (build_bc (run four_ops new_bc_builder)).0 ≡ pack (bodies [] [] four_ops)
build_bc-pack_example = build_bc-pack four_ops
