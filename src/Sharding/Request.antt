-- ===== src/Sharding/Request.antt =====
-- specs/sharding.go: `ParseShardFlag`, `ParseShardEnv`, `ParseShardString` and the precedence of
-- `shardFromArgsOrEnv`. A diagnostic is a `ShardConfigError`, with the words that it is built from.
pub mod Valid
pub mod RoundTrip
use go_specs.Prelude.{
  ℕ, zero, suc, Bool, true, false, ◌&&◌, ◌||◌, not, Option, none, some, List, [], ◌∷◌, ◌++◌, ℤ, pos,
  negsuc, leb_ℤ, if◌then◌else◌,
}
use go_specs.Prelude.Text.{Text, codes, text_eq, trim_space, cut, cut_prefix, atoi, itoa}
use go_specs.Sharding.Select.{Reason, validate_shard_partition}

-- Where a request comes from; `arguments` is the source's "".
pub data Source : Type 0 where
  flag env env_index env_total arguments : Source

pub data Fault : Type 0 where
  no_value : Fault
  empty_value : Fault
  total_missing : Fault
  index_missing : Fault
  no_slash : Fault
  index_not_integer : Text → Fault
  total_not_integer : Text → Fault
  unusable : Reason → Fault

pub data Remedy : Type 0 where
  pass_flag set_shard set_index_and_total use_valid_pair : Remedy

unfoldable pub shard_remedy : Source → Remedy
shard_remedy flag = pass_flag
shard_remedy env = set_shard
shard_remedy env_index = set_index_and_total
shard_remedy env_total = set_index_and_total
shard_remedy arguments = use_valid_pair

pub record ShardConfigError : Type 0 where
  pub source : Source
  pub value : Option Text
  pub reason : Fault
  pub remedy : Remedy

-- A pair, ErrShardNotConfigured, or a *ShardConfigError.
pub data Request : Type 0 where
  shard_of : ℤ → ℤ → Request
  not_configured : Request
  invalid : ShardConfigError → Request

abbrev fault : Source → Option Text → Fault → Request
unfolding shard_remedy
fault source value reason =
    invalid
      (record { source = source; value = value; reason = reason; remedy = shard_remedy source })

abbrev is_blank : Text → Bool
is_blank [] = true
is_blank (c ∷ s) = false

abbrev is_arguments : Source → Bool
is_arguments arguments = true
is_arguments _ = false

check_pair : Source → Text → ℤ → ℤ → Request
unfolding fault
check_pair source s shard total = elim (validate_shard_partition shard total) [
  | some reason ↦ fault source (some s) (unusable reason)
  | none ↦ shard_of shard total
]

parse_halves : Source → Text → Text → Text → Request
unfolding check_pair fault
parse_halves source s index_text total_text = elim (atoi index_text) [
  | none ↦ fault source (some s) (index_not_integer index_text)
  | some shard ↦ elim (atoi total_text) [
    | none ↦ fault source (some s) (total_not_integer total_text)
    | some total ↦ check_pair source s shard total
  ]
]

-- parseShardPair
unfoldable pub parse_shard_pair : Text → Source → Request
unfolding parse_halves fault
parse_shard_pair s source =
    let trimmed = trim_space s in
    if is_blank trimmed
    then (if is_arguments source then not_configured else fault source none empty_value)
    else elim (cut b'/' trimmed) [
      | none ↦ fault source (some s) no_slash
      | some (index_text, total_text) ↦
          parse_halves source s (trim_space index_text) (trim_space total_text)
    ]

-- ParseShardString
unfoldable pub parse_shard_string : Text → Request
parse_shard_string s = parse_shard_pair s arguments

-- cutShardFlagValue
unfoldable pub cut_shard_flag_value : Text → Option Text
cut_shard_flag_value arg = elim (cut_prefix arg (codes "-shard=")) [
  | some value ↦ some value
  | none ↦ cut_prefix arg (codes "--shard=")
]

unfoldable pub is_shard_flag : Text → Bool
is_shard_flag arg = text_eq arg (codes "-shard") || text_eq arg (codes "--shard")

-- The argument after the flag.
parse_next : List Text → Request
unfolding fault
parse_next [] = fault flag none no_value
parse_next (value ∷ rest) = parse_shard_pair value flag

-- ParseShardFlag
unfoldable pub parse_shard_flag : List Text → Request
unfolding parse_next
parse_shard_flag [] = not_configured
parse_shard_flag (arg ∷ args) =
    let rest = parse_shard_flag args in
    elim (cut_shard_flag_value arg) [
      | some value ↦ parse_shard_pair value flag
      | none ↦ if is_shard_flag arg then parse_next args else rest
    ]

-- What the three variables hold, "" where one is not set.
pub record Env : Type 0 where
  pub shard : Text
  pub shard_index : Text
  pub shard_total : Text

-- envFaultAt
unfoldable pub env_fault_at : ℤ → Text → Text → Source × Text
env_fault_at total index_text total_text =
    if leb_ℤ total (pos 0) then (env_total, total_text) else (env_index, index_text)

check_env_pair : Text → Text → ℤ → ℤ → Request
unfolding env_fault_at fault
check_env_pair index_text total_text shard total = elim (validate_shard_partition shard total) [
  | some reason ↦
      let (source, value) = env_fault_at total index_text total_text in
      fault source (some value) (unusable reason)
  | none ↦ shard_of shard total
]

-- Both variables are set; a fault is `notAnInteger`'s.
parse_env_values : Text → Text → Request
unfolding check_env_pair fault
parse_env_values index_text total_text = elim (atoi index_text) [
  | none ↦ fault env_index (some index_text) (index_not_integer index_text)
  | some shard ↦ elim (atoi total_text) [
    | none ↦ fault env_total (some total_text) (total_not_integer total_text)
    | some total ↦ check_env_pair index_text total_text shard total
  ]
]

-- ParseShardEnv
unfoldable pub parse_shard_env : Env → Request
unfolding parse_env_values fault
parse_shard_env e =
    let both = trim_space e.shard in
    let index_text = trim_space e.shard_index in
    let total_text = trim_space e.shard_total in
    if not (is_blank both)
    then parse_shard_pair both env
    else if is_blank index_text && is_blank total_text
    then not_configured
    else if is_blank total_text
    then fault env_total none total_missing
    else if is_blank index_text
    then fault env_index none index_missing
    else parse_env_values index_text total_text

-- shardFromArgsOrEnv
unfoldable pub shard_from_args_or_env : List Text → Env → Request
shard_from_args_or_env args e = elim (parse_shard_flag args) [
  | not_configured ↦ parse_shard_env e
  | shard_of shard total ↦ shard_of shard total
  | invalid error ↦ invalid error
]

-- The verb %d
format_int : ℤ → Text
unfolding itoa
format_int (pos n) = itoa n
format_int (negsuc n) = b'-' ∷ itoa (suc n)

-- FormatShardFlag: the flag and its value in one text
unfoldable pub format_shard_flag : ℤ → ℤ → Text
unfolding format_int
format_shard_flag shard total = codes "-shard " ++ (format_int shard ++ b'/' ∷ format_int total)
