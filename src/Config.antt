-- ===== src/Config.antt =====
-- internal/config/config.go: the configuration, its defaults and its validation. A Go int is an
-- integer. Reading the file and the YAML decoder (gopkg.in/yaml.v3) are arguments of `load`; a
-- message is the constructor of its format string, with the values that are put in.
pub mod Valid
mod Tests
use irl_universal_ingest.Prelude.{
  ℕ, ◌+◌, ◌*◌, Bool, true, false, ◌&&◌, ◌||◌, not, List, [], ◌∷◌, ◌++◌, Option, none, some, ℤ, pos,
  leb_ℤ, ltb, ◌==◌, text_eq, int_eq, if◌then◌else◌, Text, length,
}
use irl_universal_ingest.Prelude.Assoc.{lookup, insert}
use irl_universal_ingest.Go.Strings.{codes}
use irl_universal_ingest.Backoff.{second}

pub record AuthConfig : Type 0 where
  pub allowed_paths : List Text

pub record RtmpConfig : Type 0 where
  pub port : ℤ

pub record SrtConfig : Type 0 where
  pub port : ℤ
  pub latency_ms : ℤ
  pub latency_max_ms : ℤ
  pub passphrase : Text
  pub player_port : ℤ
  pub http_port : ℤ
  pub idle_timeout_sec : ℤ

abbrev pub default_srt_idle_timeout_sec : ℕ
default_srt_idle_timeout_sec = 5

pub record SrtlaConfig : Type 0 where
  pub port : ℤ

pub record RistConfig : Type 0 where
  pub port : ℤ
  pub buffer_ms : ℤ
  pub profile : Text
  pub secret : Text

pub record OutputConfig : Type 0 where
  pub host : Text
  pub port : ℤ

-- The host and the port of the output URL "udp://host:port".
unfoldable pub output_target : OutputConfig → Text × ℤ
output_target o = (
  if o.host == [] then codes "127.0.0.1" else o.host,
  if o.port == pos 0 then pos 8888 else o.port,
)

pub record Config : Type 0 where
  pub rtmp : RtmpConfig
  pub srt : SrtConfig
  pub srtla : SrtlaConfig
  pub rist : RistConfig
  pub output : OutputConfig
  pub source_timeout : ℤ
  pub stats_port : ℤ
  pub log_level : Text
  pub auth : AuthConfig

unfoldable pub default : Config
default = record {
  rtmp = record { port = pos 1935 };
  srt = record {
    port = pos 8890;
    latency_ms = pos 200;
    latency_max_ms = pos 5000;
    passphrase = [];
    player_port = pos 8190;
    http_port = pos 8181;
    idle_timeout_sec = pos default_srt_idle_timeout_sec;
  };
  srtla = record { port = pos 5000 };
  rist = record { port = pos 5001; buffer_ms = pos 1000; profile = codes "main"; secret = [] };
  output = record { host = codes "127.0.0.1"; port = pos 8888 };
  source_timeout = pos (10 * second);
  stats_port = pos 8080;
  log_level = codes "info";
  auth = record { allowed_paths = [] };
}

abbrev pub min_passphrase_len : ℕ
min_passphrase_len = 10

pub data ConfigError : Type 0 where
  reading : Text → ConfigError
  parsing : Text → ConfigError
  passphrase_short : ℕ → ConfigError
  port_used_twice : ℤ → Text → Text → ConfigError

pub record PortUse : Type 0 where
  pub label : Text
  pub port : ℤ

abbrev pub is_local_host : Text → Bool
is_local_host host = host == [] || host == codes "127.0.0.1" || host == codes "localhost"

-- The ports that have to differ, in the order of the code.
unfoldable pub port_uses : Config → List PortUse
port_uses c =
    (record { label = codes "rtmp.port"; port = c.rtmp.port }
      ∷ record { label = codes "srt.port"; port = c.srt.port }
      ∷ record { label = codes "srt.player_port"; port = c.srt.player_port }
      ∷ record { label = codes "srt.http_port"; port = c.srt.http_port }
      ∷ record { label = codes "srtla.port"; port = c.srtla.port }
      ∷ record { label = codes "rist.port"; port = c.rist.port }
      ∷ record { label = codes "stats_port"; port = c.stats_port }
      ∷ [])
    ++ (if is_local_host c.output.host
        then record { label = codes "output.port"; port = c.output.port } ∷ []
        else [])

-- The loop over the uses, with the ports seen so far.
unfoldable pub find_clash : List PortUse → List (ℤ × Text) → Option ConfigError
unfolding lookup insert
find_clash [] seen = none
find_clash (u ∷ us) seen =
    let skip = find_clash us seen in
    let next = find_clash us (insert u.port u.label seen) in
    if leb_ℤ u.port (pos 0) then skip else elim (lookup u.port seen) [
      | some other ↦ some (port_used_twice u.port other u.label)
      | none ↦ next
    ]

unfoldable pub check_passphrase : Text → Option ConfigError
check_passphrase p =
    if not (p == []) && ltb (length p) min_passphrase_len
    then some (passphrase_short (length p))
    else none

abbrev pub or_else : Option ConfigError → Option ConfigError → Option ConfigError
or_else none e = e
or_else (some e) _ = some e

unfoldable pub validate : Config → Option ConfigError
unfolding check_passphrase find_clash port_uses
validate c = or_else (check_passphrase c.srt.passphrase) (find_clash (port_uses c) [])

-- os.ReadFile: the bytes, no such file, or another error.
pub data FileRead : Type 0 where
  contents : Text → FileRead
  not_exist : FileRead
  failed : Text → FileRead

pub data Loaded : Type 0 where
  ok : Config → Loaded
  err : ConfigError → Loaded

-- What yaml.Unmarshal makes of the bytes and of the configuration that it fills in.
pub data Decoded : Type 0 where
  decoded : Config → Decoded
  malformed : Text → Decoded

unfoldable pub load : (Text → Config → Decoded) → FileRead → Loaded
unfolding default
load unmarshal not_exist = ok default
load unmarshal (failed reason) = err (reading reason)
load unmarshal (contents bytes) = elim (unmarshal bytes default) [
  | malformed reason ↦ err (parsing reason)
  | decoded cfg ↦ elim (validate cfg) [ none ↦ ok cfg | some e ↦ err e ]
]
