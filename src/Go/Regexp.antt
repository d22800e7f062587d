-- ===== src/Go/Regexp.antt =====
-- Package regexp: the expressions that the program uses, without regard to case, over bytes. A match
-- is the leftmost one, and of those the one that a backtracking search finds first.
use irl_universal_ingest.Prelude.{
  ℕ, zero, suc, ◌+◌, ◌-◌, Bool, List, [], ◌∷◌, ◌++◌, map, Option, none, some, nat_eq, ◌==◌,
  if◌then◌else◌, length, take, Text,
}
use irl_universal_ingest.Go.Strings.{lower_byte, strip}

-- A word is in lower case; a class is one of bytes, so that a rune above ASCII is taken byte by byte.
pub data Regexp : Type 0 where
  byte : (ℕ → Bool) → Regexp
  many : (ℕ → Bool) → Regexp
  word : Text → Regexp
  cat : Regexp → Regexp → Regexp
  alt : Regexp → Regexp → Regexp
  opt : Regexp → Regexp
  group : Regexp → Regexp

abbrev ascii_letter : ℕ → Text → Option Text
ascii_letter b [] = none
ascii_letter b (c ∷ s) = if lower_byte c == b then some s else none

-- The Kelvin sign is a k, and the long s is an s.
abbrev other_letter : ℕ → Text → Option Text
other_letter b s =
    if b == b'k'
    then strip (0xe2 ∷ 0x84 ∷ 0xaa ∷ []) s
    else if b == b's'
    then strip (0xc5 ∷ 0xbf ∷ []) s
    else none

-- What is left after one letter in any case.
unfoldable pub fold : ℕ → Text → Option Text
unfolding lower_byte strip
fold b s = elim (ascii_letter b s) [ some r ↦ some r | none ↦ other_letter b s ]

unfoldable pub fold_word : Text → Text → Option Text
unfolding fold
fold_word [] s = some s
fold_word (b ∷ w) s = elim (fold b s) [ none ↦ none | some r ↦ fold_word w r ]

-- What a match captures, and what is left of the text.
abbrev pub Match : Type 0
Match = List Text × Text

unfoldable pub groups : Regexp → ℕ
groups (byte p) = 0
groups (many p) = 0
groups (word w) = 0
groups (cat a b) = groups a + groups b
groups (alt a b) = groups a + groups b
groups (opt a) = groups a
groups (group a) = suc (groups a)

unfoldable pub blanks : ℕ → List Text
blanks zero = []
blanks (suc n) = [] ∷ blanks n

unfoldable pub many_matches : (ℕ → Bool) → Text → List Match
many_matches p [] = ([], []) ∷ []
many_matches p (c ∷ s) =
    let longer = many_matches p s in if p c then longer ++ (([], c ∷ s) ∷ []) else ([], c ∷ s) ∷ []

abbrev after_first : List Text → Match → Match
after_first cs (ds, r) = (cs ++ ds, r)

unfoldable pub follow : (Text → List Match) → List Match → List Match
follow f [] = []
follow f ((cs, r) ∷ ms) = map (after_first cs) (f r) ++ follow f ms

-- The text that a match has taken.
abbrev captured : Text → Match → Match
captured s (cs, r) = (take (length s - length r) s ∷ cs, r)

-- The matches at the start of a text, in the order in which they are tried.
unfoldable pub matches : Regexp → Text → List Match
unfolding fold_word groups blanks many_matches follow
matches (byte p) [] = []
matches (byte p) (c ∷ s) = if p c then ([], s) ∷ [] else []
matches (many p) s = many_matches p s
matches (word w) s = elim (fold_word w s) [ none ↦ [] | some r ↦ ([], r) ∷ [] ]
matches (cat a b) s = follow (matches b) (matches a s)
matches (alt a b) s =
    map (λ m. (m.0 ++ blanks (groups b), m.1)) (matches a s)
    ++ map (λ m. (blanks (groups a) ++ m.0, m.1)) (matches b s)
matches (opt a) s = matches a s ++ ((blanks (groups a), s) ∷ [])
matches (group a) s = map (captured s) (matches a s)

abbrev first_of : List Match → Option (List Text) → Option (List Text)
first_of [] rest = rest
first_of (m ∷ ms) rest = some m.0

-- The groups of FindStringSubmatch, without the whole match.
unfoldable pub find : Regexp → Text → Option (List Text)
unfolding matches
find e [] = first_of (matches e []) none
find e (c ∷ s) = let rest = find e s in first_of (matches e (c ∷ s)) rest
