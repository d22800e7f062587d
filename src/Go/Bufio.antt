-- ===== src/Go/Bufio.antt =====
-- Package bufio: a Scanner of lines, with a limit on the size of its buffer.
use irl_universal_ingest.Prelude.{
  ℕ, ◌<◌, ◌≡◌, ◌∙◌, refl, ap, Bool, true, false, List, [], ◌∷◌, ◌++◌, nat_eq, ◌==◌, ltb,
  if◌then◌else◌, Text, length, All, arith,
}
use irl_universal_ingest.Go.Strings.{trim_suffix, contains_byte}

abbrev cons_head : ℕ → List Text → List Text
cons_head c [] = (c ∷ []) ∷ []
cons_head c (l ∷ ls) = (c ∷ l) ∷ ls

-- The lines without their newlines; a last line may end without one.
unfoldable pub lines_of : Text → List Text
lines_of [] = []
lines_of (c ∷ s) = let rest = lines_of s in if c == b'\n' then [] ∷ rest else cons_head c rest

-- The tokens up to a line that does not fit the buffer with its newline, and whether there is one. A
-- carriage return at the end of a line is dropped.
unfoldable pub tokens : ℕ → List Text → List Text × Bool
unfolding trim_suffix
tokens max [] = ([], false)
tokens max (l ∷ ls) =
    let (found, too_long) = tokens max ls in
    if ltb (length l) max then (trim_suffix l (b'\r' ∷ []) ∷ found, too_long) else ([], true)

unfoldable pub scan_lines : ℕ → Text → List Text × Bool
unfolding lines_of tokens
scan_lines max s = tokens max (lines_of s)

-- A line that is scanned as it was written.
abbrev pub IsPlainLine : ℕ → Text → Type 0
IsPlainLine max l =
    (contains_byte b'\n' l ≡ false) × (trim_suffix l (b'\r' ∷ []) ≡ l) × (length l < max)

abbrev pub unlines : List Text → Text
unlines [] = []
unlines (l ∷ ls) = l ++ (b'\n' ∷ unlines ls)

lines_of-append :
    (l s : Text) → contains_byte b'\n' l ≡ false → lines_of (l ++ (b'\n' ∷ s)) ≡ l ∷ lines_of s
unfolding lines_of contains_byte
lines_of-append [] s h = refl
lines_of-append (c ∷ l) s h = ground (arith, lines_of-append l s)

-- Lines that hold no newline, end without a carriage return and are shorter than the buffer are all
-- scanned, in order, and no error is found.
pub scan_lines-unlines :
    (max : ℕ) (ls : List Text)
    → All (IsPlainLine max) ls
    → scan_lines max (unlines ls) ≡ (ls, false)
unfolding scan_lines lines_of tokens
scan_lines-unlines max [] h = refl
scan_lines-unlines max (l ∷ ls) ((clean, kept, short), hs) =
    let rest = scan_lines-unlines max ls hs in
    let fits : ltb (length l) max ≡ true = ground (arith, short) in
    ap (tokens max) (lines_of-append l (unlines ls) clean) ∙ (rw (fits, kept, rest) refl)
