-- ===== src/Report/ShardName.antt =====
-- report/coordination/shardname.go: the name of a shard's file. A string is the list of its bytes, and
-- the hex SHA-256 digest of a path is an argument.
pub mod Prefix
pub mod Names
use go_specs.Prelude.{
  ℕ, zero, suc, ◌+◌, ◌-◌, ◌/◌, ◌%◌, Bool, true, false, Option, none, some, List, [], ◌∷◌, ◌++◌, ltb,
  take, ◌==◌, if◌then◌else◌,
}
use go_specs.Prelude.Text.{Text, codes}
use go_specs.Report.Identity.{is_run_id_byte}

-- The upper-case hex digit of a number below 16.
nibble_upper : ℕ → ℕ
nibble_upper n = if ltb n 10 then 48 + n else 55 + n

-- What one byte of the path becomes.
unfoldable sanitize_byte : ℕ → Text
unfolding nibble_upper is_run_id_byte
sanitize_byte c =
    if c == b'/'
    then b'_' ∷ []
    else if is_run_id_byte c
    then c ∷ []
    else b'%' ∷ nibble_upper (c / 16) ∷ nibble_upper (c % 16) ∷ []

unfoldable sanitize : Text → Text
unfolding sanitize_byte
sanitize [] = []
sanitize (c ∷ path) = sanitize_byte c ++ sanitize path

width_of : ℕ → ℕ
width_of c = if c == b'%' then 3 else 1

-- The loop of boundPrefix: `used` bytes are taken, and `skip` of them lie ahead. It returns within the
-- loop at `some used`.
unfoldable cut_at : ℕ → ℕ → Text → Option ℕ
unfolding width_of
cut_at used skip [] = none
cut_at used (suc skip) (c ∷ s) = cut_at used skip s
cut_at used zero (c ∷ s) =
    let rest = cut_at (used + width_of c) (width_of c - 1) s in
    if ltb 40 (used + width_of c) then some used else rest

take_to : Text → Option ℕ → Text
take_to s none = s
take_to s (some used) = take used s

unfoldable pub bound_prefix : Text → Text
unfolding cut_at take_to
bound_prefix s = take_to s (cut_at 0 0 s)

unfoldable pub sanitized_prefix : Text → Text
unfolding bound_prefix sanitize
sanitized_prefix path = bound_prefix (sanitize path)

unfoldable pub shard_file_name : (Text → Text) → Text → Text
unfolding sanitized_prefix
shard_file_name digest path =
    sanitized_prefix path ++ (b'-' ∷ b'-' ∷ (digest path ++ codes ".shard.json"))
