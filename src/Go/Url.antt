-- ===== src/Go/Url.antt =====
-- Package net/url as of Go 1.25.0: what url.Parse says of the path and the query of a URL.
-- An error is `none`.
pub mod Host
pub mod Laws
use mathlib.Core.List.{reverse}
use mathlib.Core.Option
use irl_universal_ingest.Prelude.{
  ℕ, ◌+◌, ◌-◌, ◌*◌, Bool, true, false, ◌&&◌, ◌||◌, not, List, [], ◌∷◌, ltb, leb, ◌==◌,
  if◌then◌else◌, Text, Option, none, some, nat_eq, text_eq,
}
use irl_universal_ingest.Go.Strings.{
  codes, has_prefix, contains_byte, before, after, to_lower, strip,
}
use Host.{is_alpha, is_digit, unescape, valid_authority}

pub record Url : Type 0 where
  pub scheme : Text
  pub path : Text
  pub raw_query : Text

-- getScheme: `seen` holds the bytes read so far, the last one first.
unfoldable pub scheme_from : Text → Text → Text → Option (Text × Text)
scheme_from raw seen [] = some ([], raw)
scheme_from raw seen (c ∷ s) =
    let more = scheme_from raw (c ∷ seen) s in
    if is_alpha c
    then more
    else if is_digit c || c == b'+' || c == b'-' || c == b'.'
    then (if seen == [] then some ([], raw) else more)
    else if c == b':'
    then (if seen == [] then none else some (reverse seen, s))
    else some ([], raw)

unfoldable pub has_control : Text → Bool
has_control [] = false
has_control (c ∷ s) = ltb c 32 || c == 127 || has_control s

-- The end of parse: the authority behind "//", and the path.
unfoldable pub parse_hierarchy : Text → Text → Text → Option Url
unfolding has_prefix unescape before after strip
parse_hierarchy scheme rest query =
    let result = λ (path : Text).
      Option.map (λ (p : Text). record { scheme = scheme; path = p; raw_query = query })
        (unescape path) in
    if (not (scheme == []) || not (has_prefix rest (codes "///"))) && has_prefix rest (codes "//")
    then (elim rest [
      | a ∷ b ∷ tail ↦
          if valid_authority (before b'/' tail)
          then result (if contains_byte b'/' tail then b'/' ∷ after b'/' tail else [])
          else none
      | _ ↦ none
    ])
    else result rest

-- parse, with the fragment cut off.
unfoldable pub parse_rest : Text → Text → Option Url
unfolding parse_hierarchy contains_byte
parse_rest scheme s =
    let rest = before b'?' s in
    let query = after b'?' s in
    if has_prefix rest (codes "/")
    then parse_hierarchy scheme rest query
    else if not (scheme == [])
    then some (record { scheme = scheme; path = []; raw_query = query })
    else if contains_byte b':' (before b'/' rest)
    then none
    else parse_hierarchy scheme rest query

unfoldable pub parse_unfragmented : Text → Option Url
unfolding parse_rest scheme_from has_control to_lower
parse_unfragmented s =
    if has_control s
    then none
    else if s == codes "*"
    then some (record { scheme = []; path = s; raw_query = [] })
    else elim (scheme_from s [] s) [
      | none ↦ none
      | some (scheme, rest) ↦ parse_rest (to_lower scheme) rest
    ]

-- A fragment has to be well escaped.
unfoldable pub with_fragment : Text → Option Url → Option Url
unfolding unescape
with_fragment frag none = none
with_fragment frag (some u) = elim (unescape frag) [ none ↦ none | some _ ↦ some u ]

unfoldable pub parse : Text → Option Url
unfolding parse_unfragmented with_fragment
parse raw = with_fragment (after b'#' raw) (parse_unfragmented (before b'#' raw))
