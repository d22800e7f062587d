-- ===== src/Rist/Options.antt =====
-- internal/ingest/rist/server.go: the options, and the command line of ristreceiver.
use irl_universal_ingest.Prelude.{
  ◌||◌, not, List, [], ◌∷◌, ◌++◌, ℤ, pos, ◌+ℤ◌, leb_ℤ, Text, text_eq, ◌==◌, if◌then◌else◌,
}
use irl_universal_ingest.Go.Strings.{codes, to_lower}
use irl_universal_ingest.Go.Format.{print_int}

pub record ServerOptions : Type 0 where
  pub rist_port : ℤ
  pub player_port : ℤ
  pub buffer_ms : ℤ
  pub profile : Text
  pub secret : Text
  pub log_level : Text
  pub allowed_paths : List Text

-- The defaults that NewServer fills in.
unfoldable pub with_defaults : ServerOptions → ServerOptions
unfolding ◌+ℤ◌
with_defaults o = record o {
  player_port = if leb_ℤ o.player_port (pos 0) then o.rist_port +ℤ pos 100 else o.player_port;
  buffer_ms = if leb_ℤ o.buffer_ms (pos 0) then pos 1000 else o.buffer_ms;
  profile = if o.profile == [] then codes "main" else o.profile;
}

unfoldable pub profile_code : Text → Text
unfolding to_lower
profile_code profile =
    let p = to_lower profile in
    if p == codes "simple" || p == codes "0"
    then codes "0"
    else if p == codes "main" || p == codes "1"
    then codes "1"
    else if p == codes "advanced" || p == codes "2"
    then codes "2"
    else codes "1"

unfoldable pub rist_verbosity : Text → Text
unfolding to_lower
rist_verbosity log_level =
    let level = to_lower log_level in
    if level == codes "debug"
    then codes "7"
    else if level == codes "warn" || level == codes "warning"
    then codes "4"
    else if level == codes "error"
    then codes "3"
    else codes "6"

unfoldable pub build_args : ServerOptions → List Text
unfolding profile_code rist_verbosity print_int
build_args o =
    (codes "-i"
      ∷ (codes "rist://@0.0.0.0:" ++ print_int o.rist_port)
      ∷ codes "-o"
      ∷ (codes "udp://127.0.0.1:" ++ print_int o.player_port)
      ∷ codes "-p"
      ∷ profile_code o.profile
      ∷ codes "-b"
      ∷ print_int o.buffer_ms
      ∷ codes "-S"
      ∷ codes "1000"
      ∷ codes "-v"
      ∷ rist_verbosity o.log_level
      ∷ [])
    ++ (if not (o.secret == []) then codes "-s" ∷ o.secret ∷ [] else [])
