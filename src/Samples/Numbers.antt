-- ===== src/Samples/Numbers.antt =====
-- Two ways to write one number, and two adjacent identifiers.
use go_specs.Prelude.{◌≡◌, ◌↔◌, ◌*◌, ◌^◌, refl, false}
use go_specs.Prelude.Int.{negsuc}
use go_specs.Prelude.Text.{Text, codes, parse_nat}
use go_specs.Snapshots.{read_literal, canonicalize_number, next_exponent}
use go_specs.Snapshots.Same.{Reads, canonicalize_number_iff}

abbrev short_form : Text
short_form = codes "+1.5"

abbrev long_form : Text
long_form = codes "0150E-2"

short_form-Reads : Reads short_form false 15 (negsuc 0)
unfolding read_literal parse_nat
short_form-Reads = record {
  parts = record { negative = false; digits = codes "15"; exponent = negsuc 0 };
  read = refl;
  sign = refl;
  number = refl;
  scale = refl;
}

long_form-Reads : Reads long_form false 150 (negsuc 1)
unfolding read_literal parse_nat
long_form-Reads = record {
  parts = record { negative = false; digits = codes "0150"; exponent = negsuc 1 };
  read = refl;
  sign = refl;
  number = refl;
  scale = refl;
}

short_form-canonical : canonicalize_number short_form ≡ codes "15e-1"
unfolding canonicalize_number
short_form-canonical = refl

zeros-canonical : canonicalize_number (codes "-0.00e9") ≡ codes "0"
unfolding canonicalize_number
zeros-canonical = refl

identifier-canonical : canonicalize_number (codes "9007199254740993") ≡ codes "9007199254740993e0"
unfolding canonicalize_number
identifier-canonical = refl

unread-canonical : canonicalize_number (codes "1e99999999999") ≡ codes "1e99999999999"
unfolding canonicalize_number
unread-canonical = refl

canonicalize_number_iff_example :
    (canonicalize_number short_form ≡ canonicalize_number long_form) ↔ (15 * 10 ^ 1 ≡ 150 * 10 ^ 0)
unfolding next_exponent
canonicalize_number_iff_example =
    canonicalize_number_iff short_form long_form false 15 150 1 0 (negsuc 1) short_form-Reads
      long_form-Reads
