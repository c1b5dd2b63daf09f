-- ===== src/Bytecode/Bodies.antt =====
-- Flat programs as lists of spec bodies: what BCBuilder builds, and what ShardBCProgram keeps.
use go_specs.Prelude.{
  ℕ, zero, suc, ◌+◌, ◌-◌, ◌%◌, ◌<◌, ◌≡◌, refl, ◌∙◌, false, some, List, [], ◌∷◌, ◌++◌, pos, ◌==◌,
  arith, length, get_elem?, drop, length-append, append-nil, append_assoc, Bool-cases, inl, inr,
}
use mathlib.Core.List.{reverse}
use native.Mathlib.Nat.{add-zero}
use go_specs.Sharding.Select.{select, validate-IsPartition, partition}
use go_specs.Bytecode.{
  BcProgram, BcBuilder, new_bc_builder, add_before, add_after, add_spec, build_bc, sharded, copy,
  shard_loop, finish, shard_bc_program,
}

-- What is done with a builder, nil functions left out.
pub data Op (F : Type 0) : Type 0 where
  before_op after_op spec_op : F → Op F

module _ {F : Type 0} where
  abbrev concat : List (List F) → List F
  concat [] = []
  concat (b ∷ bs) = b ++ concat bs

  -- Where each body ends, if the first one starts at `n`.
  abbrev ends : ℕ → List (List F) → List ℕ
  ends n [] = []
  ends n (b ∷ bs) = (n + length b) ∷ ends (n + length b) bs

  -- The flat program of a list of bodies.
  abbrev pub pack : List (List F) → BcProgram F
  pack bs = record { code = concat bs; spec_starts = 0 ∷ ends 0 bs }

  drop-cons :
      (n : ℕ) (code : List F) (x : F) (rest : List F)
      → drop n code ≡ x ∷ rest
      → (get_elem? code n ≡ some x) × (drop (suc n) code ≡ rest)
  drop-cons zero [] x rest h = cc
  drop-cons zero (y ∷ code) x rest h = (ground arith, ground arith)
  drop-cons (suc n) [] x rest h = cc
  drop-cons (suc n) (y ∷ code) x rest h = drop-cons n code x rest h

  drop-append :
      (n : ℕ) (code b rest : List F) → drop n code ≡ b ++ rest → drop (n + length b) code ≡ rest
  drop-append n code [] rest h = rw add-zero h
  drop-append n code (x ∷ b) rest h =
      let on : n + suc (length b) ≡ suc n + length b = omega arith in
      rw on (drop-append (suc n) code b rest (drop-cons n code x (b ++ rest) h).1)

  copy-drop :
      (n : ℕ) (code b rest : List F) → drop n code ≡ b ++ rest → copy code n (length b) ≡ some b
  unfolding copy
  copy-drop n code [] rest h = refl
  copy-drop n code (x ∷ b) rest h =
      let (at, next) = drop-cons n code x (b ++ rest) h in
      rw (at, copy) (rw (copy-drop (suc n) code b rest next))

  shard_loop-select :
      (s t i n : ℕ) (code : List F) (bs : List (List F)) (new_code : List F) (new_starts : List ℕ)
      → drop n code ≡ concat bs
      → shard_loop code s t i (n ∷ ends n bs) new_code new_starts
        ≡ some (
          new_code ++ concat (select s t i bs),
          new_starts ++ ends (length new_code) (select s t i bs),
        )
  unfolding shard_loop select
  shard_loop-select s t i n code [] new_code new_starts h =
      rw (append-nil new_code, append-nil new_starts)
  shard_loop-select s t i n code (b ∷ bs) new_code new_starts h =
      let next = drop-append n code b (concat bs) h in
      let size : n + length b - n ≡ length b = omega arith in
      elim (Bool-cases (i % t == s)) [
        | inl e ↦
            rw (e, size, copy-drop n code b (concat bs) h)
              (shard_loop-select s t (suc i) (n + length b) code bs (new_code ++ b)
                  (new_starts ++ length (new_code ++ b) ∷ []) next
                ∙ simp (append_assoc, length-append))
        | inr e ↦
            rw e (shard_loop-select s t (suc i) (n + length b) code bs new_code new_starts next)
      ]

  abbrev pub packed_or_empty : List (List F) → BcProgram F
  packed_or_empty [] = record { code = []; spec_starts = [] }
  packed_or_empty (b ∷ bs) = pack (b ∷ bs)

  finish-packed :
      (bs : List (List F)) → finish (some (concat bs, 0 ∷ ends 0 bs)) ≡ sharded (packed_or_empty bs)
  unfolding finish
  finish-packed [] = refl
  finish-packed (b ∷ bs) = ground arith

  -- For a valid pair, sharding the flat program of at least one body yields the flat program of just
  -- the bodies that `ShardSpecs` selects, in their order, or the empty program if it selects none;
  -- no index is out of range.
  pub shard_bc_program-pack :
      (b : List F) (bs : List (List F)) {s t : ℕ}
      → s < t
      → shard_bc_program (pack (b ∷ bs)) (pos s) (pos t)
        ≡ sharded (packed_or_empty (select s t 0 (b ∷ bs)))
  unfolding shard_bc_program
  shard_bc_program-pack b bs {s} {t} h =
      let valid = (validate-IsPartition (pos s) (pos t)).1 (partition h) in
      let looped = shard_loop-select s t 0 0 (concat (b ∷ bs)) (b ∷ bs) [] (0 ∷ []) refl in
      let some_specs : (length (0 ∷ ends 0 (b ∷ bs)) - 1 == 0) ≡ false = ground arith in
      rw (valid, shard_bc_program) (rw (some_specs, looped) (finish-packed (select s t 0 (b ∷ bs))))

  unfoldable pub run : List (Op F) → BcBuilder F → BcBuilder F
  unfolding add_before add_after add_spec
  run [] b = b
  run (before_op fn ∷ ops) b = run ops (add_before (some fn) b)
  run (after_op fn ∷ ops) b = run ops (add_after (some fn) b)
  run (spec_op fn ∷ ops) b = run ops (add_spec (some fn) b)

  -- The bodies that the documentation promises: each spec with the hooks declared before it, the
  -- before hooks in order and the after hooks last first.
  abbrev pub bodies : List F → List F → List (Op F) → List (List F)
  bodies before after [] = []
  bodies before after (before_op fn ∷ ops) = bodies (before ++ fn ∷ []) after ops
  bodies before after (after_op fn ∷ ops) = bodies before (after ++ fn ∷ []) ops
  bodies before after (spec_op fn ∷ ops) = (before ++ fn ∷ reverse after) ∷ bodies before after ops

  run-bodies :
      (ops : List (Op F)) (b : BcBuilder F)
      → ((build_bc (run ops b)).0.code ≡ b.code ++ concat (bodies b.before b.after ops))
        × ((build_bc (run ops b)).0.spec_starts
            ≡ b.starts ++ length b.code ∷ ends (length b.code) (bodies b.before b.after ops))
  unfolding run build_bc
  run-bodies [] b = (rw append-nil, refl)
  run-bodies (before_op fn ∷ ops) b = run-bodies ops (add_before (some fn) b)
  run-bodies (after_op fn ∷ ops) b = run-bodies ops (add_after (some fn) b)
  run-bodies (spec_op fn ∷ ops) b =
      let (code, starts) = run-bodies ops (add_spec (some fn) b) in
      (code ∙ simp append_assoc, starts ∙ simp (append_assoc, length-append))

  -- What a new builder builds is the flat program of the promised bodies.
  pub build_bc-pack :
      (ops : List (Op F)) → (build_bc (run ops new_bc_builder)).0 ≡ pack (bodies [] [] ops)
  build_bc-pack ops =
      let (code, starts) = run-bodies ops new_bc_builder in
      unfold new_bc_builder in λ i. record { code = code i; spec_starts = starts i }
