-- ===== src/Go/Url/Host.antt =====
-- Package net/url: percent escapes, and which authorities url.Parse accepts.
use mathlib.Core.List.{reverse}
use mathlib.Core.Option
use irl_universal_ingest.Prelude.{
  ℕ, ◌+◌, ◌-◌, ◌*◌, Bool, true, false, ◌&&◌, ◌||◌, not, [], ◌∷◌, ltb, leb, ◌==◌, if◌then◌else◌,
  Text, Option, none, some, nat_eq, text_eq,
}
use irl_universal_ingest.Go.Strings.{codes, strip, has_prefix, contains_byte, before, after}

abbrev pub is_alpha : ℕ → Bool
is_alpha c = (leb b'a' c && leb c b'z') || (leb b'A' c && leb c b'Z')

abbrev pub is_digit : ℕ → Bool
is_digit c = leb b'0' c && leb c b'9'

abbrev pub is_hex : ℕ → Bool
is_hex c = is_digit c || (leb b'a' c && leb c b'f') || (leb b'A' c && leb c b'F')

abbrev pub unhex : ℕ → ℕ
unhex c = if is_digit c then c - b'0' else if leb b'a' c then c - b'a' + 10 else c - b'A' + 10

-- unescape with mode encodePath: "%2F" is a slash, and "+" stays.
unfoldable pub unescape : Text → Option Text
unescape [] = some []
unescape (c ∷ []) = if c == b'%' then none else some (c ∷ [])
unescape (c ∷ a ∷ []) = if c == b'%' then none else if a == b'%' then none else some (c ∷ a ∷ [])
unescape (c ∷ a ∷ b ∷ s) =
    let coded = Option.map (λ (t : Text). (unhex a * 16 + unhex b) ∷ t) (unescape s) in
    let plain = Option.map (λ (t : Text). c ∷ t) (unescape (a ∷ b ∷ s)) in
    if c == b'%' then (if is_hex a && is_hex b then coded else none) else plain

-- The bytes that a host may hold as they stand: letters, digits, those above ASCII, and some marks.
is_host_byte : ℕ → Bool
unfolding contains_byte
is_host_byte c =
    is_alpha c || is_digit c || leb 128 c || contains_byte c (codes "-_.~!$&'()*+,;=:[]<>\"")

-- unescape with mode encodeHost succeeds: an escape stands for a byte above ASCII, or is "%25".
valid_host_text : Text → Bool
unfolding is_host_byte
valid_host_text [] = true
valid_host_text (c ∷ []) = not (c == b'%') && is_host_byte c
valid_host_text (c ∷ a ∷ []) =
    not (c == b'%') && is_host_byte c && not (a == b'%') && is_host_byte a
valid_host_text (c ∷ a ∷ b ∷ s) =
    let behind = valid_host_text s in
    let next = valid_host_text (a ∷ b ∷ s) in
    if c == b'%'
    then is_hex a && is_hex b && (leb 8 (unhex a) || (a == b'2' && b == b'5')) && behind
    else is_host_byte c && next

-- unescape with mode encodeZone succeeds: an escape is "%25", a space or a byte of a host.
valid_zone_text : Text → Bool
unfolding is_host_byte
valid_zone_text [] = true
valid_zone_text (c ∷ []) = not (c == b'%') && is_host_byte c
valid_zone_text (c ∷ a ∷ []) =
    not (c == b'%') && is_host_byte c && not (a == b'%') && is_host_byte a
valid_zone_text (c ∷ a ∷ b ∷ s) =
    let v = unhex a * 16 + unhex b in
    let behind = valid_zone_text s in
    let next = valid_zone_text (a ∷ b ∷ s) in
    if c == b'%'
    then is_hex a && is_hex b && (v == b'%' || v == b' ' || (is_host_byte v && ltb v 128)) && behind
    else is_host_byte c && next

all_digits : Text → Bool
all_digits [] = true
all_digits (c ∷ s) = is_digit c && all_digits s

-- validOptionalPort: nothing, or a colon and digits.
valid_optional_port : Text → Bool
unfolding all_digits
valid_optional_port [] = true
valid_optional_port (c ∷ s) = c == b':' && all_digits s

-- The text behind the last b of s and, in reverse, the text before it.
after_last : ℕ → Text → Text
unfolding before
after_last b s = reverse (before b (reverse s))

before_last : ℕ → Text → Text
unfolding after
before_last b s = reverse (after b (reverse s))

zone_from : Text → Text → Bool
unfolding strip valid_host_text valid_zone_text
zone_from host [] = valid_host_text (reverse host)
zone_from host (c ∷ s) =
    let more = zone_from (c ∷ host) s in
    elim (strip (codes "%25") (c ∷ s)) [
      | none ↦ more
      | some _ ↦ valid_host_text (reverse host) && valid_zone_text (c ∷ s)
    ]

-- parseHost accepts its argument.
valid_host : Text → Bool
unfolding has_prefix contains_byte after_last before_last zone_from valid_optional_port
valid_host h =
    if has_prefix h (codes "[")
    then contains_byte b']' h
      && valid_optional_port (after_last b']' h)
      && zone_from [] (before_last b']' h)
      && valid_host_text (b']' ∷ after_last b']' h)
    else (not (contains_byte b':' h) || all_digits (after_last b':' h)) && valid_host_text h

-- validUserinfo.
valid_userinfo : Text → Bool
unfolding contains_byte
valid_userinfo [] = true
valid_userinfo (c ∷ s) =
    (is_alpha c || is_digit c || contains_byte c (codes "-._:~!$&'()*+,;=%@")) && valid_userinfo s

-- parseAuthority accepts its argument.
unfoldable pub valid_authority : Text → Bool
unfolding valid_host valid_userinfo unescape
valid_authority a =
    if contains_byte b'@' a
    then (let user = before_last b'@' a in
        valid_host (after_last b'@' a)
        && valid_userinfo user
        && elim (unescape user) [ none ↦ false | some _ ↦ true ])
    else valid_host a
