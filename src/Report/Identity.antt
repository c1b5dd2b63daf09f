-- ===== src/Report/Identity.antt =====
-- report/coordination/identity.go: run identifiers and tokens. A string is the list of its bytes; what
-- crypto/rand and crypto/sha256 give are arguments. An error is its reason, without the environment's
-- names and remedies.
pub mod Accepted
pub mod Tokens
use mathlib.Core.Option
use go_specs.Prelude.{
  ℕ, zero, suc, ◌+◌, ◌-◌, ◌*◌, ◌/◌, ◌%◌, ◌<◌, ◌≤◌, Bool, true, false, not, ◌&&◌, ◌||◌, Option, none,
  some, List, [], ◌∷◌, ◌++◌, map, length, leb, ltb, ◌==◌, if◌then◌else◌,
}
use go_specs.Prelude.Fallible.{Fallible, err, ok}
use go_specs.Prelude.Text.{Text, text_eq, is_blank}

pub data IdentityFault : Type 0 where
  empty_value : IdentityFault
  too_long : ℕ → IdentityFault
  not_permitted : ℕ → IdentityFault
  traversal_segment : IdentityFault
  odd_digits : ℕ → IdentityFault
  wrong_size : ℕ → IdentityFault
  not_hex : ℕ → IdentityFault

in_span : ℕ → ℕ → ℕ → Bool
in_span low high b = leb low b && leb b high

unfoldable pub is_run_id_byte : ℕ → Bool
unfolding in_span
is_run_id_byte b =
    (in_span b'A' b'Z' b || (in_span b'a' b'z' b || in_span b'0' b'9' b))
    || (b == b'_' || (b == b'.' || b == b'-'))

unfoldable pub is_hex_byte : ℕ → Bool
unfolding in_span
is_hex_byte b = in_span b'0' b'9' b || (in_span b'a' b'f' b || in_span b'A' b'F' b)

-- The position of the first byte that a test refuses.
unfoldable first_refused : (ℕ → Bool) → ℕ → Text → Option ℕ
first_refused test i [] = none
first_refused test i (b ∷ s) =
    let later = first_refused test (suc i) s in if test b then later else some i

is_traversal : Text → Bool
unfolding text_eq
is_traversal s = text_eq s (b'.' ∷ []) || text_eq s (b'.' ∷ b'.' ∷ [])

permitted : Text → Option ℕ → Fallible IdentityFault Text
unfolding is_traversal
permitted s (some i) = err (not_permitted i)
permitted s none = if is_traversal s then err traversal_segment else ok s

unfoldable pub validate_run_id : Text → Fallible IdentityFault Text
unfolding permitted first_refused is_run_id_byte is_blank
validate_run_id s =
    if is_blank s
    then err empty_value
    else if ltb 128 (length s)
    then err (too_long (length s))
    else permitted s (first_refused is_run_id_byte 0 s)

all_hex : Text → Option ℕ → Fallible IdentityFault Text
all_hex s (some i) = err (not_hex i)
all_hex s none = ok s

unfoldable pub validate_run_token : Text → Fallible IdentityFault Text
unfolding all_hex first_refused is_hex_byte is_blank
validate_run_token s =
    if is_blank s
    then err empty_value
    else if not (length s % 2 == 0)
    then err (odd_digits (length s))
    else if ltb (length s / 2) 16 || ltb 64 (length s / 2)
    then err (wrong_size (length s / 2))
    else all_hex s (first_refused is_hex_byte 0 s)

-- The lower-case hex digit of a number below 16.
unfoldable nibble : ℕ → ℕ
nibble n = if ltb n 10 then 48 + n else 87 + n

-- hex.EncodeToString
unfoldable pub encode_hex : List ℕ → Text
unfolding nibble
encode_hex [] = []
encode_hex (b ∷ bytes) = nibble (b / 16) ∷ nibble (b % 16) ∷ encode_hex bytes

digit_value : ℕ → Option ℕ
unfolding in_span
digit_value b =
    if in_span b'0' b'9' b
    then some (b - 48)
    else if in_span b'a' b'f' b
    then some (b - 87)
    else if in_span b'A' b'F' b
    then some (b - 55)
    else none

byte_before : Option ℕ → Option ℕ → Option (List ℕ) → Option (List ℕ)
byte_before (some high) (some low) (some bytes) = some ((high * 16 + low) ∷ bytes)
byte_before _ _ _ = none

-- hex.DecodeString
unfoldable pub decode_hex : Text → Option (List ℕ)
unfolding byte_before digit_value
decode_hex [] = some []
decode_hex (a ∷ []) = none
decode_hex (a ∷ b ∷ s) = byte_before (digit_value a) (digit_value b) (decode_hex s)

-- strings.ToLower of ASCII text
unfoldable pub lower : ℕ → ℕ
unfolding in_span
lower b = if in_span b'A' b'Z' b then b + 32 else b

-- The 32 bytes that rand.Read gives, or its failure.
unfoldable pub generate_run_token : Option (List ℕ) → Option Text
unfolding encode_hex
generate_run_token none = none
generate_run_token (some raw) = some (encode_hex raw)

unfoldable pub hash_run_token : (List ℕ → List ℕ) → Text → Option Text
unfolding decode_hex encode_hex
hash_run_token sha256 token =
    Option.map (λ (raw : List ℕ). encode_hex (sha256 raw)) (decode_hex token)

unfoldable pub token_hashes_equal : Text → Text → Bool
unfolding text_eq is_blank lower
token_hashes_equal a b =
    if is_blank a || is_blank b then false else text_eq (map lower a) (map lower b)
