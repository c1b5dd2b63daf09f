-- ===== src/Sharding/Request/RoundTrip.antt =====
-- A formatted shard of specs/sharding.go is read back.
use go_specs.Prelude.{ℕ, ◌∷◌, ◌++◌}
use go_specs.Prelude.Text.{Text, itoa}

-- The value of the flag.
abbrev pair_text : ℕ → ℕ → Text
pair_text s t = itoa s ++ b'/' ∷ itoa t
