-- ===== src/Srt/Config/Account.antt =====
-- What a reader finds in a list of lines: one setting for each statement.
use irl_universal_ingest.Prelude.{
  ℕ, ◌≡◌, refl, true, false, List, [], ◌∷◌, ◌++◌, nat_eq, text_eq, Text, All, All-append, arith,
}
use mathlib.Core.List.{append_assoc}
use irl_universal_ingest.Go.Strings.{codes, before, after, contains_byte}
use irl_universal_ingest.Go.Strings.Laws.{contains_byte-append}
use irl_universal_ingest.Srt.Config.{statement}
use irl_universal_ingest.Srt.Config.Reader.{IsLine, indented, read_line, read_lines}
use irl_universal_ingest.Srt.Config.Settings.{IsValue}

before_first : (b : ℕ) (s t : Text) → contains_byte b s ≡ false → before b (s ++ (b ∷ t)) ≡ s
unfolding contains_byte before
before_first b [] t h = ground arith
before_first b (c ∷ s) t h = ground (arith, before_first b s t)

after_first : (b : ℕ) (s t : Text) → contains_byte b s ≡ false → after b (s ++ (b ∷ t)) ≡ t
unfolding contains_byte after
after_first b [] t h = ground arith
after_first b (c ∷ s) t h = ground (arith, after_first b s t)

ends : (v : Text) → contains_byte b';' (v ++ codes ";") ≡ true
unfolding contains_byte
ends [] = refl
ends (c ∷ v) = ground (arith, ends v)

-- A head of a line sets a key.
abbrev pub Sets : Text → Text → Type 0
Sets head key =
    ((t : Text) → indented (head ++ t) ≡ key ++ (b' ' ∷ t))
    × ((t : Text) → contains_byte b';' (head ++ t) ≡ contains_byte b';' t)
    × (contains_byte b' ' key ≡ false)

read_statement :
    (head key value : Text)
    → Sets head key
    → IsValue value
    → read_line (statement head value) ≡ (key, value) ∷ []
unfolding read_line
read_statement head key value (body, semicolon, whole) (clean, _) =
    rw
      (
        read_line,
        semicolon (value ++ codes ";"),
        ends value,
        body (value ++ codes ";"),
        before_first b' ' key (value ++ codes ";") whole,
        after_first b' ' key (value ++ codes ";") whole,
        before_first b';' value [] clean,
      )
      refl

-- A line by line account: the lines are lines, and what they set.
pub record Account (ls : List Text) (settings : List (Text × Text)) : Type 0 where
  pub lines : All IsLine ls
  pub read : read_lines ls ≡ settings

pub none_left : Account [] []
unfolding read_lines
none_left = record { lines = tt; read = refl }

pub sets :
    (head key value : Text) {ls : List Text} {rest : List (Text × Text)}
    → Sets head key
    → contains_byte b'\n' head ≡ false
    → IsValue value
    → Account ls rest
    → Account (statement head value ∷ ls) ((key, value) ∷ rest)
unfolding read_lines contains_byte
sets head key value h line v a = record {
  lines = (
    contains_byte-append b'\n' head (value ++ codes ";") line
        (contains_byte-append b'\n' value (codes ";") v.1 refl),
    a.lines,
  );
  read = rw (read_statement head key value h v, a.read) refl;
}

read_lines-append : (xs ys : List Text) → read_lines (xs ++ ys) ≡ read_lines xs ++ read_lines ys
unfolding read_lines
read_lines-append [] ys = refl
read_lines-append (x ∷ xs) ys = rw (read_lines-append xs ys, append_assoc) refl

pub Account-append :
    {xs ys : List Text} {s t : List (Text × Text)}
    → Account xs s
    → Account ys t
    → Account (xs ++ ys) (s ++ t)
Account-append {xs} {ys} a b = record {
  lines = All-append IsLine xs ys a.lines b.lines;
  read = rw (read_lines-append xs ys, a.read, b.read) refl;
}
