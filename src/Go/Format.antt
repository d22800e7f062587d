-- ===== src/Go/Format.antt =====
-- Package fmt and strconv: the print of an int.
use irl_universal_ingest.Prelude.{
  ◌-◌, ◌*◌, ◌^◌, ◌&&◌, leb, Option, none, some, ℕ, zero, suc, ◌+◌, ◌/◌, ◌%◌, ◌∷◌, [], ℤ, pos,
  negsuc, ltb, Text, if◌then◌else◌,
}

-- %d: the digits of a number below 10 ^ fuel; an int has at most 19.
unfoldable pub digits : ℕ → ℕ → Text → Text
digits zero n seen = seen
digits (suc fuel) n seen =
    let longer = (b'0' + n % 10) ∷ seen in
    let rest = digits fuel (n / 10) longer in if ltb n 10 then longer else rest

unfoldable pub print_int : ℤ → Text
unfolding digits
print_int (pos n) = digits 20 n []
print_int (negsuc n) = b'-' ∷ digits 20 (suc n) []

-- strconv.ParseUint in base 10 for 64 bits, on digits read so far.
abbrev parse_digits : ℕ → Text → Option ℕ
parse_digits n [] = if ltb n (2 ^ 64) then some n else none
parse_digits n (c ∷ s) =
    if leb b'0' c && leb c b'9' then parse_digits (n * 10 + (c - b'0')) s else none

unfoldable pub parse_uint : Text → Option ℕ
parse_uint [] = none
parse_uint (c ∷ s) = parse_digits 0 (c ∷ s)
