-- ===== src/Report/Identity/Tokens.antt =====
-- Tokens of report/coordination/identity.go: their hashes forget the case of letters, and generated
-- ones are valid.

use mathlib.Core.Option
use go_specs.Prelude.{
  ℕ, suc, ◌*◌, ◌/◌, ◌%◌, ◌<◌, ◌≤◌, ◌≡◌, refl, ap, subst, arith, true, false, none, some, List, [],
  ◌∷◌, map, length, All,
}
use go_specs.Prelude.Fallible.{ok}
use go_specs.Prelude.Text.{Text, is_blank}
use go_specs.Report.Identity.{
  in_span, is_hex_byte, first_refused, all_hex, validate_run_token, nibble, encode_hex, digit_value,
  decode_hex, lower, generate_run_token, hash_run_token,
}

digit_value-lower : (b : ℕ) → digit_value (lower b) ≡ digit_value b
unfolding digit_value lower in_span
digit_value-lower b = ground arith

decode_hex-lower : (s : Text) → decode_hex (map lower s) ≡ decode_hex s
unfolding decode_hex
decode_hex-lower [] = refl
decode_hex-lower (a ∷ []) = refl
decode_hex-lower (a ∷ b ∷ s) =
    rw (digit_value-lower a, digit_value-lower b, decode_hex-lower s) refl

-- The hash of a token does not depend on the case of its letters, whatever the digest is.
hash_run_token-lower :
    (sha256 : List ℕ → List ℕ) (token : Text)
    → hash_run_token sha256 (map lower token) ≡ hash_run_token sha256 token
unfolding hash_run_token
hash_run_token-lower sha256 token =
    ap (Option.map (λ (raw : List ℕ). encode_hex (sha256 raw))) (decode_hex-lower token)

abbrev IsByte : ℕ → Type 0
IsByte b = b < 256

nibble-hex : (n : ℕ) → n < 16 → is_hex_byte (nibble n) ≡ true
unfolding is_hex_byte nibble in_span
nibble-hex n h = ground arith

length-encode_hex : (bytes : List ℕ) → length (encode_hex bytes) ≡ 2 * length bytes
unfolding encode_hex
length-encode_hex [] = refl
length-encode_hex (b ∷ bytes) = omega (arith, length-encode_hex bytes)

first_refused-encode_hex :
    (i : ℕ) (bytes : List ℕ)
    → All IsByte bytes
    → first_refused is_hex_byte i (encode_hex bytes) ≡ none
unfolding first_refused encode_hex
first_refused-encode_hex i [] h = refl
first_refused-encode_hex i (b ∷ bytes) h =
    rw
      (
        nibble-hex (b / 16) (omega (arith, h.0)),
        nibble-hex (b % 16) (omega arith),
        first_refused-encode_hex (suc (suc i)) bytes h.1,
      )
      refl

is_blank-length : (s : Text) → 1 ≤ length s → is_blank s ≡ false
unfolding is_blank
is_blank-length [] h = absurd (omega (arith, h))
is_blank-length (c ∷ s) h = refl

-- A token made of 32 random bytes passes the check that every package process makes of it.
pub generate_run_token-valid :
    (raw : List ℕ) (token : Text)
    → All IsByte raw
    → length raw ≡ 32
    → generate_run_token (some raw) ≡ some token
    → validate_run_token token ≡ ok token
unfolding generate_run_token
generate_run_token-valid raw token h size e =
    let made : encode_hex raw ≡ token = cc in
    let digits : length (encode_hex raw) ≡ 64 = omega (arith, length-encode_hex raw, size) in
    let full : is_blank (encode_hex raw) ≡ false =
      is_blank-length (encode_hex raw) (omega (arith, digits)) in
    subst (λ t. validate_run_token t ≡ ok t) made
      (unfold validate_run_token all_hex in
        rw (full, digits, first_refused-encode_hex 0 raw h) refl)
