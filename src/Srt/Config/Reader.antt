-- ===== src/Srt/Config/Reader.antt =====
-- A reader of sls.conf: a line that holds a semicolon sets a key to what stands before it.
use irl_universal_ingest.Prelude.{
  ℕ, ◌≡◌, ◌∙◌, refl, ap, false, List, [], ◌∷◌, ◌++◌, nat_eq, ◌==◌, if◌then◌else◌, Text, All, arith,
}
use irl_universal_ingest.Go.Strings.{before, after, contains_byte}
use irl_universal_ingest.Srt.Config.{unlines}

abbrev cons_head : ℕ → List Text → List Text
cons_head c [] = (c ∷ []) ∷ []
cons_head c (l ∷ ls) = (c ∷ l) ∷ ls

unfoldable pub split_lines : Text → List Text
split_lines [] = [] ∷ []
split_lines (c ∷ s) = let rest = split_lines s in if c == b'\n' then [] ∷ rest else cons_head c rest

unfoldable pub indented : Text → Text
indented [] = []
indented (c ∷ s) = if c == b' ' then indented s else c ∷ s

unfoldable pub read_line : Text → List (Text × Text)
unfolding indented
read_line l =
    let body = indented l in
    if contains_byte b';' l then (before b' ' body, before b';' (after b' ' body)) ∷ [] else []

unfoldable pub read_lines : List Text → List (Text × Text)
unfolding read_line
read_lines [] = []
read_lines (l ∷ ls) = read_line l ++ read_lines ls

-- The settings of a file, in order.
unfoldable pub read_settings : Text → List (Text × Text)
unfolding split_lines read_lines
read_settings s = read_lines (split_lines s)

abbrev pub IsLine : Text → Type 0
IsLine l = contains_byte b'\n' l ≡ false

split_lines-append :
    (l rest : Text) → IsLine l → split_lines (l ++ (b'\n' ∷ rest)) ≡ l ∷ split_lines rest
unfolding split_lines contains_byte
split_lines-append [] rest h = refl
split_lines-append (c ∷ l) rest h = ground (arith, split_lines-append l rest)

pub read_unlines : (ls : List Text) → All IsLine ls → read_settings (unlines ls) ≡ read_lines ls
unfolding read_settings unlines contains_byte
read_unlines [] h = refl
read_unlines (l ∷ ls) h =
    ap read_lines (split_lines-append l (unlines ls) h.0)
    ∙ ap (λ r. read_line l ++ r) (read_unlines ls h.1)
