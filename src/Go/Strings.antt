-- ===== src/Go/Strings.antt =====
-- Package strings, over the bytes of a text. Changes of case are those of ASCII letters; the
-- white space is Go's, as it is coded in UTF-8.
pub mod Laws
use Prim.Native.Char.{code}
use Prim.Native.String.{String}
use mathlib.Core.List.{reverse}
use irl_universal_ingest.Prelude.{
  ℕ, zero, suc, ◌+◌, ◌-◌, Bool, true, false, ◌&&◌, ◌||◌, List, [], ◌∷◌, ◌++◌, map, ltb, leb, ◌==◌,
  if◌then◌else◌, length, Text, Option, none, some, nat_eq,
}

-- The bytes of an ASCII literal.
abbrev pub codes : String → Text
codes String.[] = []
codes (String.◌∷◌ c s) = code c ∷ codes s

-- What follows the prefix p of s, if it has one.
unfoldable pub strip : Text → Text → Option Text
strip [] s = some s
strip (b ∷ p) [] = none
strip (b ∷ p) (c ∷ s) = if b == c then strip p s else none

unfoldable pub has_prefix : Text → Text → Bool
unfolding strip
has_prefix s p = elim (strip p s) [ none ↦ false | some _ ↦ true ]

unfoldable pub trim_prefix : Text → Text → Text
unfolding strip
trim_prefix s p = elim (strip p s) [ none ↦ s | some r ↦ r ]

unfoldable pub has_suffix : Text → Text → Bool
unfolding has_prefix
has_suffix s p = has_prefix (reverse s) (reverse p)

unfoldable pub trim_suffix : Text → Text → Text
unfolding strip
trim_suffix s p = elim (strip (reverse p) (reverse s)) [ none ↦ s | some r ↦ reverse r ]

unfoldable pub contains : Text → Text → Bool
unfolding has_prefix
contains [] p = has_prefix [] p
contains (c ∷ s) p = has_prefix (c ∷ s) p || contains s p

unfoldable pub contains_byte : ℕ → Text → Bool
contains_byte b [] = false
contains_byte b (c ∷ s) = c == b || contains_byte b s

-- strings.Cut at one byte: what stands before its first place, and behind it.
unfoldable pub before : ℕ → Text → Text
before b [] = []
before b (c ∷ s) = if c == b then [] else c ∷ before b s

unfoldable pub after : ℕ → Text → Text
after b [] = []
after b (c ∷ s) = if c == b then s else after b s

unfoldable pub lower_byte : ℕ → ℕ
lower_byte c = if leb b'A' c && leb c b'Z' then c + 32 else c

unfoldable pub upper_byte : ℕ → ℕ
upper_byte c = if leb b'a' c && leb c b'z' then c - 32 else c

unfoldable pub to_lower : Text → Text
to_lower = map lower_byte

unfoldable pub to_upper : Text → Text
to_upper = map upper_byte

abbrev pub is_ascii_space : ℕ → Bool
is_ascii_space c = (leb 9 c && leb c 13) || c == 32

-- unicode.IsSpace above ASCII: U+0085, U+00A0, U+1680, U+2000 to U+200A, U+2028, U+2029, U+202F,
-- U+205F and U+3000.
abbrev wide_spaces : List Text
wide_spaces =
    (0xc2 ∷ 0x85 ∷ [])
    ∷ (0xc2 ∷ 0xa0 ∷ [])
    ∷ (0xe1 ∷ 0x9a ∷ 0x80 ∷ [])
    ∷ (0xe2 ∷ 0x80 ∷ 0x80 ∷ [])
    ∷ (0xe2 ∷ 0x80 ∷ 0x81 ∷ [])
    ∷ (0xe2 ∷ 0x80 ∷ 0x82 ∷ [])
    ∷ (0xe2 ∷ 0x80 ∷ 0x83 ∷ [])
    ∷ (0xe2 ∷ 0x80 ∷ 0x84 ∷ [])
    ∷ (0xe2 ∷ 0x80 ∷ 0x85 ∷ [])
    ∷ (0xe2 ∷ 0x80 ∷ 0x86 ∷ [])
    ∷ (0xe2 ∷ 0x80 ∷ 0x87 ∷ [])
    ∷ (0xe2 ∷ 0x80 ∷ 0x88 ∷ [])
    ∷ (0xe2 ∷ 0x80 ∷ 0x89 ∷ [])
    ∷ (0xe2 ∷ 0x80 ∷ 0x8a ∷ [])
    ∷ (0xe2 ∷ 0x80 ∷ 0xa8 ∷ [])
    ∷ (0xe2 ∷ 0x80 ∷ 0xa9 ∷ [])
    ∷ (0xe2 ∷ 0x80 ∷ 0xaf ∷ [])
    ∷ (0xe2 ∷ 0x81 ∷ 0x9f ∷ [])
    ∷ (0xe3 ∷ 0x80 ∷ 0x80 ∷ [])
    ∷ []

-- The number of bytes of the white space at the front of a text, 0 if there is none.
wide_width : List Text → Text → ℕ
unfolding has_prefix
wide_width [] s = 0
wide_width (w ∷ ws) s = if has_prefix s w then length w else wide_width ws s

space_width : List Text → ℕ → Text → ℕ
unfolding wide_width
space_width table c s =
    if ltb c 128 then (if is_ascii_space c then 1 else 0) else wide_width table (c ∷ s)

-- `skip` bytes of the current white space are still to be dropped.
trim_from : List Text → ℕ → Text → Text
unfolding space_width
trim_from table skip [] = []
trim_from table (suc skip) (c ∷ s) = trim_from table skip s
trim_from table zero (c ∷ s) = elim (space_width table c s) [
  | zero ↦ c ∷ s
  | suc k ↦ trim_from table k s
]

unfoldable pub trim_space : Text → Text
unfolding trim_from
trim_space s = reverse (trim_from (map reverse wide_spaces) 0 (reverse (trim_from wide_spaces 0 s)))
