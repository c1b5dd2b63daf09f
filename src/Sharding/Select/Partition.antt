-- ===== src/Sharding/Select/Partition.antt =====
-- The shards of specs/sharding.go divide a suite: nothing is lost, run twice or reordered.
use go_specs.Prelude.{
  ℕ, zero, suc, ◌+◌, ◌*◌, ◌-◌, ◌/◌, ◌%◌, ◌<◌, ◌≡◌, ◌≢◌, refl, sym, ◌∙◌, ap, true, false, List, [],
  ◌∷◌, pos, ◌==◌, arith, get_elem?,
}
use native.Mathlib.Nat.{
  mod-eq-sub-mod, zero-add, add-zero, add-mod_right, mod-add-div', mod-lt, mod-eq_of_lt,
  mod-add-mod,
}
use go_specs.Sharding.Select.{sharded, select, shard_specs}

mod_moves : (r d t : ℕ) → r < t → 0 < d → d < t → (r + d) % t ≢ r
mod_moves r d t h p g e = grind (arith, mod-eq_of_lt, mod-eq-sub-mod)

mod_back : (i d t : ℕ) → (i + d) % t ≡ (i % t + d) % t
mod_back i d t = sym (mod-add-mod i t d)

-- The k-th spec of a shard is d + k * t places on, if d is the way to the shard's first one.
select-at :
    {A : Type 0} (s t i d k : ℕ) (xs : List A)
    → s < t
    → d < t
    → (i + d) % t ≡ s
    → get_elem? (select s t i xs) k ≡ get_elem? xs (d + k * t)
unfolding select
select-at s t i d k [] h g e = refl
select-at s t i zero zero (x ∷ xs) h g e =
    let here : (i % t == s) ≡ true = ground arith in
    let first : 0 + 0 * t ≡ 0 = omega arith in rw (here, first)
select-at s t i zero (suc k) (x ∷ xs) h g e =
    let here : (i % t == s) ≡ true = ground arith in
    let turn : suc i + (t - 1) ≡ i + t = omega arith in
    let next : 0 + suc k * t ≡ suc (t - 1 + k * t) = omega arith in
    let back : (suc i + (t - 1)) % t ≡ s = rw (turn, add-mod_right i t, ← add-zero i) e in
    rw (here, next) (select-at s t (suc i) (t - 1) k xs h (omega arith) back)
select-at s t i (suc d) k (x ∷ xs) h g e =
    let moves : i % t ≢ s = λ q.
      mod_moves (i % t) (suc d) t (mod-lt i (omega arith)) (omega arith) g
        (sym (mod_back i (suc d) t) ∙ e ∙ sym q) in
    let other : (i % t == s) ≡ false = ground arith in
    let one_on : suc i + d ≡ i + suc d = omega arith in
    let next : suc d + k * t ≡ suc (d + k * t) = omega arith in
    rw (other, next) (select-at s t (suc i) d k xs h (omega arith) (rw one_on e))

-- Entry number i of a list is entry i / total of the selection i % total.
pub select_covers :
    {A : Type 0} (xs : List A) (i total : ℕ)
    → 0 < total
    → get_elem? (select (i % total) total 0 xs) (i / total) ≡ get_elem? xs i
select_covers xs i total h =
    let lt = mod-lt i h in
    let whole : i % total + i / total * total ≡ i = mod-add-div' i total in
    select-at (i % total) total 0 (i % total) (i / total) xs lt lt (rw zero-add (mod-eq_of_lt lt))
    ∙ ap (get_elem? xs) whole

-- For a valid pair, `ShardSpecs` yields a list whose k-th entry, for every k, is spec number
-- shard + k * total of the suite, and is missing where the suite has no such spec.
pub shard_specs-at :
    {A : Type 0} (specs : List A) {shard total : ℕ}
    → shard < total
    → (out : List A) × (shard_specs specs (pos shard) (pos total) ≡ sharded out)
      × ((k : ℕ) → get_elem? out k ≡ get_elem? specs (shard + k * total))
unfolding shard_specs
shard_specs-at specs {shard} {total} h = (
  select shard total 0 specs,
  ground arith,
  λ k. select-at shard total 0 shard k specs h h (rw zero-add (mod-eq_of_lt h)),
)

-- Every spec of the suite is in one shard: spec number i is entry i / total of shard i % total.
pub shard_specs_covers :
    {A : Type 0} (specs : List A) (i total : ℕ)
    → 0 < total
    → (out : List A) × (shard_specs specs (pos (i % total)) (pos total) ≡ sharded out)
      × (get_elem? out (i / total) ≡ get_elem? specs i)
shard_specs_covers specs i total h =
    let (out, e, at) = shard_specs-at specs (mod-lt i h) in
    let whole : i % total + i / total * total ≡ i = mod-add-div' i total in
    (out, e, at (i / total) ∙ ap (get_elem? specs) whole)
