-- ===== src/Srt/Config.antt =====
-- internal/ingest/srt/config.go: the text of sls.conf, line by line, and the command line of srtla_rec.
pub mod Reader
pub mod Settings
pub mod Account
pub mod Roundtrip
mod Tests
use irl_universal_ingest.Prelude.{
  ℕ, Bool, true, false, List, [], ◌∷◌, ◌++◌, ℤ, pos, leb_ℤ, ltb_ℤ, Text, text_eq, ◌==◌, not,
  if◌then◌else◌,
}
use irl_universal_ingest.Go.Strings.{codes}
use irl_universal_ingest.Go.Format.{print_int}

abbrev pub internal_api_key : Text
internal_api_key = codes "irl-internal-api-key"

pub record SlsConfigOptions : Type 0 where
  pub srt_port : ℤ
  pub srtla_port : ℤ
  pub player_port : ℤ
  pub http_port : ℤ
  pub latency_ms : ℤ
  pub latency_max_ms : ℤ
  pub idle_timeout_sec : ℤ
  pub passphrase : Text
  pub webhook_url : Text
  pub stat_post_url : Text
  pub log_level : Text
  pub pid_file : Text

abbrev pub or_text : Text → Text → Text
or_text fallback s = if s == [] then fallback else s

abbrev pub or_int : ℤ → ℤ → ℤ
or_int fallback n = if leb_ℤ n (pos 0) then fallback else n

unfoldable pub with_defaults : SlsConfigOptions → SlsConfigOptions
with_defaults o = record o {
  log_level = or_text (codes "info") o.log_level;
  latency_ms = or_int (pos 200) o.latency_ms;
  latency_max_ms = or_int (pos 5000) o.latency_max_ms;
  idle_timeout_sec = or_int (pos 5) o.idle_timeout_sec;
}

-- "    key value;" without the newline.
abbrev pub statement : Text → Text → Text
statement head value = head ++ (value ++ codes ";")

abbrev pub head_lines : SlsConfigOptions → List Text
head_lines o =
    codes "srt {"
    ∷ codes "    worker_threads 1;"
    ∷ codes "    worker_connections 300;"
    ∷ statement (codes "    http_port ") (print_int o.http_port)
    ∷ codes "    http_bind_addr 127.0.0.1;"
    ∷ codes "    cors_header *;"
    ∷ codes "    log_file /tmp/srt_server.log;"
    ∷ statement (codes "    log_level ") o.log_level
    ∷ codes "    log_rate_limit_enabled 1;"
    ∷ codes "    log_summary_enabled 0;"
    ∷ codes "    log_session_ids 1;"
    ∷ statement (codes "    api_keys ") internal_api_key
    ∷ []

abbrev pub stat_lines : SlsConfigOptions → List Text
stat_lines o =
    if not (o.stat_post_url == [])
    then statement (codes "    stat_post_url ") o.stat_post_url
      ∷ codes "    stat_post_interval 1;"
      ∷ []
    else []

abbrev pub port_lines : SlsConfigOptions → List Text
port_lines o =
    statement (codes "    pidfile ") (or_text (codes "/tmp/sls_server.pid") o.pid_file)
    ∷ []
    ∷ codes "    server {"
    ∷ statement (codes "        listen_player ") (print_int o.player_port)
    ∷ statement (codes "        listen_publisher ") (print_int o.srt_port)
    ∷ []

abbrev pub srtla_lines : SlsConfigOptions → List Text
srtla_lines o =
    if ltb_ℤ (pos 0) o.srtla_port
    then statement (codes "        listen_publisher_srtla ") (print_int o.srtla_port) ∷ []
    else []

abbrev pub stream_lines : SlsConfigOptions → List Text
stream_lines o =
    statement (codes "        latency_min ") (print_int o.latency_ms)
    ∷ statement (codes "        latency_max ") (print_int o.latency_max_ms)
    ∷ codes "        domain_player play;"
    ∷ codes "        domain_publisher publish;"
    ∷ codes "        default_sid publish/live/stream;"
    ∷ codes "        backlog 100;"
    ∷ statement (codes "        idle_streams_timeout ") (print_int o.idle_timeout_sec)
    ∷ []

abbrev pub passphrase_lines : SlsConfigOptions → List Text
passphrase_lines o =
    if not (o.passphrase == [])
    then statement (codes "        srt_passphrase ") o.passphrase ∷ []
    else []

abbrev pub webhook_lines : SlsConfigOptions → List Text
webhook_lines o =
    if not (o.webhook_url == [])
    then statement (codes "        on_event_url ") o.webhook_url ∷ []
    else []

abbrev pub app_lines : List Text
app_lines =
    []
    ∷ codes "        app {"
    ∷ codes "            app_player live;"
    ∷ codes "            app_publisher live;"
    ∷ codes "            allow publish all;"
    ∷ codes "            allow play all;"
    ∷ codes "        }"
    ∷ codes "    }"
    ∷ codes "}"
    ∷ []

-- The lines of the file, once the defaults are filled in.
unfoldable pub sls_lines : SlsConfigOptions → List Text
sls_lines o =
    head_lines o
    ++ (stat_lines o
        ++ (port_lines o
            ++ (srtla_lines o
                ++ (stream_lines o ++ (passphrase_lines o ++ (webhook_lines o ++ app_lines))))))

unfoldable pub unlines : List Text → Text
unlines [] = []
unlines (l ∷ ls) = l ++ (b'\n' ∷ unlines ls)

unfoldable pub generate_sls_config : SlsConfigOptions → Text
unfolding with_defaults sls_lines unlines
generate_sls_config o = unlines (sls_lines (with_defaults o))

unfoldable pub build_srtla_args : ℤ → Text → ℤ → Text → List Text
unfolding print_int
build_srtla_args srtla_port srt_host srt_port log_level =
    codes "--srtla_port"
    ∷ print_int srtla_port
    ∷ codes "--srt_hostname"
    ∷ or_text (codes "127.0.0.1") srt_host
    ∷ codes "--srt_port"
    ∷ print_int srt_port
    ∷ codes "--log_level"
    ∷ or_text (codes "info") log_level
    ∷ []
