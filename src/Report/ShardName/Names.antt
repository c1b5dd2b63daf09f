-- ===== src/Report/ShardName/Names.antt =====
-- The whole file names of report/coordination/shardname.go.
use go_specs.Prelude.{
  ℕ, ◌≡◌, refl, ap, ◌∙◌, arith, true, ◌||◌, [], ◌∷◌, ◌++◌, length, length-append, All, ◌==◌,
}
use go_specs.Prelude.Text.{Text, codes}
use go_specs.Report.Identity.{is_run_id_byte}
use go_specs.Report.ShardName.{sanitized_prefix, shard_file_name}

-- A byte of [A-Za-z0-9_.-], or the mark of an escape.
abbrev pub IsNameByte : ℕ → Type 0
IsNameByte b = (is_run_id_byte b || b == b'%') ≡ true

-- What the digest is relied on for: 64 hex digits.
abbrev pub IsDigest : Text → Type 0
IsDigest d = (length d ≡ 64) × All IsNameByte d

append-back : (a b x y : Text) → length a ≡ length b → a ++ x ≡ b ++ y → (a ≡ b) × (x ≡ y)
append-back [] [] x y h e = (refl, e)
append-back [] (d ∷ b) x y h e = absurd (omega (arith, h))
append-back (c ∷ a) [] x y h e = absurd (omega (arith, h))
append-back (c ∷ a) (d ∷ b) x y h e =
    let first : c ≡ d = cc in
    let (same, rest) = append-back a b x y (omega (arith, h)) cc in
    (ap (◌∷ a) first ∙ ap (◌∷◌ d) same, rest)

-- Two paths with the same file name have the same digest, when digests have 64 bytes: the readable
-- prefix never makes two packages collide.
pub shard_file_name-digest :
    (digest : Text → Text) (p q : Text)
    → length (digest p) ≡ 64
    → length (digest q) ≡ 64
    → shard_file_name digest p ≡ shard_file_name digest q
    → digest p ≡ digest q
unfolding shard_file_name
shard_file_name-digest digest p q hp hq e =
    let suffix = codes ".shard.json" in
    let left = length-append (sanitized_prefix p) (b'-' ∷ b'-' ∷ (digest p ++ suffix)) in
    let right = length-append (sanitized_prefix q) (b'-' ∷ b'-' ∷ (digest q ++ suffix)) in
    let tail = length-append (digest p) suffix in
    let tail' = length-append (digest q) suffix in
    let total = ap length e in
    let (prefixes, rest) =
      append-back (sanitized_prefix p) (sanitized_prefix q) _ _
        (omega (arith, left, right, tail, tail', total, hp, hq)) e in
    let names : digest p ++ suffix ≡ digest q ++ suffix = cc in
    let (same, ends) =
      append-back (digest p) (digest q) suffix suffix (omega (arith, hp, hq)) names in
    same
