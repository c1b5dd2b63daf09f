-- ===== src/Sharding/Request/Valid.antt =====
-- Requests of specs/sharding.go fail closed.
use go_specs.Prelude.{
  ◌≡◌, ◌≢◌, none, List, [], ◌∷◌, ℤ, arith, Option-cases, Bool-cases, ◌⊎◌, inl, inr,
}
use go_specs.Prelude.Text.{Text, trim_space}
use go_specs.Sharding.Select.{validate_shard_partition, IsPartition, validate-IsPartition}
use go_specs.Sharding.Request.{
  Source, Env, shard_of, not_configured, parse_shard_pair, parse_shard_flag, parse_shard_env,
  shard_from_args_or_env, cut_shard_flag_value, is_shard_flag, flag, env,
}

parse_shard_pair-valid :
    (s : Text) (source : Source) (shard total : ℤ)
    → parse_shard_pair s source ≡ shard_of shard total
    → validate_shard_partition shard total ≡ none
unfolding parse_shard_pair
parse_shard_pair-valid s source shard total h = ground arith

parse_shard_flag-valid :
    (args : List Text) (shard total : ℤ)
    → parse_shard_flag args ≡ shard_of shard total
    → validate_shard_partition shard total ≡ none
parse_shard_flag-valid [] shard total h = unfold parse_shard_flag in cc
parse_shard_flag-valid (arg ∷ []) shard total h = elim (Option-cases (cut_shard_flag_value arg)) [
  | inl n ↦ unfold parse_shard_flag in ground arith
  | inr (v, e) ↦ parse_shard_pair-valid v flag shard total (unfold parse_shard_flag in ground arith)
]
parse_shard_flag-valid (arg ∷ next ∷ args) shard total h =
    let ih = parse_shard_flag-valid (next ∷ args) shard total in
    let pair = parse_shard_pair-valid next flag shard total in
    elim (Option-cases (cut_shard_flag_value arg)) [
      | inl n ↦ elim (Bool-cases (is_shard_flag arg)) [
        | inl f ↦ pair (unfold parse_shard_flag in ground arith)
        | inr f ↦ ih (unfold parse_shard_flag in ground arith)
      ]
      | inr (v, e) ↦
          parse_shard_pair-valid v flag shard total (unfold parse_shard_flag in ground arith)
    ]

parse_shard_env-valid :
    (e : Env) (shard total : ℤ)
    → parse_shard_env e ≡ shard_of shard total
    → validate_shard_partition shard total ≡ none
unfolding parse_shard_env
parse_shard_env-valid e shard total h =
    ground (arith, parse_shard_pair-valid (trim_space e.shard) env shard total)

request-cases :
    (args : List Text) (e : Env) {shard total : ℤ}
    → shard_from_args_or_env args e ≡ shard_of shard total
    → (parse_shard_flag args ≡ shard_of shard total)
      ⊎ ((parse_shard_flag args ≡ not_configured) × (parse_shard_env e ≡ shard_of shard total))
unfolding shard_from_args_or_env
request-cases args e h = ground arith

-- Whatever the arguments and the environment say, a shard that is returned is a valid partition.
pub request-IsPartition :
    (args : List Text) (e : Env) {shard total : ℤ}
    → shard_from_args_or_env args e ≡ shard_of shard total
    → IsPartition shard total
request-IsPartition args e {shard} {total} h =
    (validate-IsPartition shard total).0 (elim (request-cases args e h) [
      | inl f ↦ parse_shard_flag-valid args shard total f
      | inr f ↦ parse_shard_env-valid e shard total f.1
    ])

-- The environment is read only if the arguments ask for nothing: a flag that is present decides,
-- also where its value is unusable.
pub request-flag :
    (args : List Text) (e : Env)
    → parse_shard_flag args ≢ not_configured
    → shard_from_args_or_env args e ≡ parse_shard_flag args
unfolding shard_from_args_or_env
request-flag args e h = ground arith

parse_shard_pair-configured : (s : Text) → parse_shard_pair s env ≢ not_configured
unfolding parse_shard_pair
parse_shard_pair-configured s h = ground arith

-- The environment asks for nothing only if all three variables are blank: one of SHARD_INDEX and
-- SHARD_TOTAL without the other is an error, never a request for the whole suite.
pub env-not_configured :
    (e : Env)
    → parse_shard_env e ≡ not_configured
    → (trim_space e.shard ≡ []) × (trim_space e.shard_index ≡ []) × (trim_space e.shard_total ≡ [])
unfolding parse_shard_env
env-not_configured e h =
    let never = parse_shard_pair-configured (trim_space e.shard) in
    (ground arith, ground arith, ground arith)
