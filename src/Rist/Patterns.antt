-- ===== src/Rist/Patterns.antt =====
-- internal/ingest/rist/stats.go: the regular expressions of ParseLogLine. The expression (?i) of each
-- is that words are matched in any case.
mod Tests
use irl_universal_ingest.Prelude.{
  ℕ, ◌^◌, ◌+◌, ◌*◌, ◌-◌, Bool, true, false, ◌&&◌, ◌||◌, not, List, [], ◌∷◌, Option, none, some, leb,
  ltb, nat_eq, ◌==◌, if◌then◌else◌, Text,
}
use irl_universal_ingest.Go.Strings.{codes}
use irl_universal_ingest.Go.Regexp.{Regexp, byte, many, word, cat, alt, opt, group, find}

abbrev pub is_digit : ℕ → Bool
is_digit c = leb b'0' c && leb c b'9'

-- [0-9.]
abbrev pub is_number : ℕ → Bool
is_number c = is_digit c || c == b'.'

-- \s
abbrev pub is_space : ℕ → Bool
is_space c = c == 9 || c == 10 || c == 12 || c == 13 || c == 32

-- [^\s,;]
abbrev pub is_name : ℕ → Bool
is_name c = not (is_space c || c == b',' || c == b';')

abbrev plus : (ℕ → Bool) → Regexp
plus p = cat (byte p) (many p)

-- key[:=]\s*(value)
abbrev keyed : Regexp → (ℕ → Bool) → Regexp → Regexp
keyed key value rest =
    cat key (
      cat (byte (λ c. c == b':' || c == b'='))
        (cat (many is_space) (cat (group (plus value)) rest)))

-- The empty expression.
abbrev nothing_more : Regexp
nothing_more = word []

abbrev pub cname_regex : Regexp
cname_regex = keyed (word (codes "cname")) is_name nothing_more

abbrev pub rtt_regex : Regexp
rtt_regex =
    keyed (word (codes "rtt")) is_number (cat (many is_space) (opt (group (word (codes "ms")))))

abbrev pub bitrate_regex : Regexp
bitrate_regex = keyed (alt (word (codes "bitrate")) (word (codes "bandwidth"))) is_number (
    cat (many is_space)
      (opt (group (alt (word (codes "kbps")) (alt (word (codes "mbps")) (word (codes "bps")))))))

abbrev pub lost_regex : Regexp
lost_regex = keyed (word (codes "lost")) is_digit nothing_more

abbrev pub quality_regex : Regexp
quality_regex =
    keyed (word (codes "quality")) is_number (cat (many is_space) (opt (byte (λ c. c == b'%'))))

abbrev pub connection_status_regex : Regexp
connection_status_regex = cat (word (codes "connection status changed ")) (
    cat (many (λ c. not (c == b'\n')))
      (cat (word (codes " new status is ")) (group (byte is_digit))))

-- match[1], where there is a match.
abbrev pub first_group : Option (List Text) → Option Text
first_group none = none
first_group (some []) = none
first_group (some (g ∷ gs)) = some g

-- match[1] and match[2].
abbrev pub two_groups : Option (List Text) → Option (Text × Text)
two_groups none = none
two_groups (some []) = none
two_groups (some (g ∷ [])) = none
two_groups (some (g ∷ h ∷ gs)) = some (g, h)

unfoldable pub connection_status : Text → Option Text
unfolding find
connection_status lower = first_group (find connection_status_regex lower)

unfoldable pub find_cname : Text → Option Text
unfolding find
find_cname line = first_group (find cname_regex line)

unfoldable pub find_rtt : Text → Option Text
unfolding find
find_rtt line = first_group (find rtt_regex line)

unfoldable pub find_bitrate : Text → Option (Text × Text)
unfolding find
find_bitrate line = two_groups (find bitrate_regex line)

unfoldable pub find_lost : Text → Option Text
unfolding find
find_lost line = first_group (find lost_regex line)

unfoldable pub find_quality : Text → Option Text
unfolding find
find_quality line = first_group (find quality_regex line)
