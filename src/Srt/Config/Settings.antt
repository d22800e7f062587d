-- ===== src/Srt/Config/Settings.antt =====
-- What the rendered file sets: each option under its key, in the order of the file.
use irl_universal_ingest.Prelude.{
  ◌≡◌, false, List, [], ◌∷◌, ◌++◌, pos, ltb_ℤ, nat_eq, ◌==◌, text_eq, if◌then◌else◌, not, Text,
}
use irl_universal_ingest.Go.Strings.{codes, contains_byte}
use irl_universal_ingest.Go.Format.{print_int}
use irl_universal_ingest.Srt.Config.{SlsConfigOptions, internal_api_key, or_text}

-- A value that is neither cut nor spread over lines.
abbrev pub IsValue : Text → Type 0
IsValue v = (contains_byte b';' v ≡ false) × (contains_byte b'\n' v ≡ false)

abbrev pub Setting : Type 0
Setting = Text × Text

abbrev pub head_settings : SlsConfigOptions → List Setting
head_settings o =
    (codes "worker_threads", codes "1")
    ∷ (codes "worker_connections", codes "300")
    ∷ (codes "http_port", print_int o.http_port)
    ∷ (codes "http_bind_addr", codes "127.0.0.1")
    ∷ (codes "cors_header", codes "*")
    ∷ (codes "log_file", codes "/tmp/srt_server.log")
    ∷ (codes "log_level", o.log_level)
    ∷ (codes "log_rate_limit_enabled", codes "1")
    ∷ (codes "log_summary_enabled", codes "0")
    ∷ (codes "log_session_ids", codes "1")
    ∷ (codes "api_keys", internal_api_key)
    ∷ []

abbrev pub stat_settings : SlsConfigOptions → List Setting
stat_settings o =
    if not (o.stat_post_url == [])
    then (codes "stat_post_url", o.stat_post_url) ∷ (codes "stat_post_interval", codes "1") ∷ []
    else []

abbrev pub port_settings : SlsConfigOptions → List Setting
port_settings o =
    (codes "pidfile", or_text (codes "/tmp/sls_server.pid") o.pid_file)
    ∷ (codes "listen_player", print_int o.player_port)
    ∷ (codes "listen_publisher", print_int o.srt_port)
    ∷ []

abbrev pub srtla_settings : SlsConfigOptions → List Setting
srtla_settings o =
    if ltb_ℤ (pos 0) o.srtla_port
    then (codes "listen_publisher_srtla", print_int o.srtla_port) ∷ []
    else []

abbrev pub stream_settings : SlsConfigOptions → List Setting
stream_settings o =
    (codes "latency_min", print_int o.latency_ms)
    ∷ (codes "latency_max", print_int o.latency_max_ms)
    ∷ (codes "domain_player", codes "play")
    ∷ (codes "domain_publisher", codes "publish")
    ∷ (codes "default_sid", codes "publish/live/stream")
    ∷ (codes "backlog", codes "100")
    ∷ (codes "idle_streams_timeout", print_int o.idle_timeout_sec)
    ∷ []

abbrev pub passphrase_settings : SlsConfigOptions → List Setting
passphrase_settings o =
    if not (o.passphrase == []) then (codes "srt_passphrase", o.passphrase) ∷ [] else []

abbrev pub webhook_settings : SlsConfigOptions → List Setting
webhook_settings o =
    if not (o.webhook_url == []) then (codes "on_event_url", o.webhook_url) ∷ [] else []

abbrev pub app_settings : List Setting
app_settings =
    (codes "app_player", codes "live")
    ∷ (codes "app_publisher", codes "live")
    ∷ (codes "allow", codes "publish all")
    ∷ (codes "allow", codes "play all")
    ∷ []

-- The options as settings, in the order of the file.
abbrev pub settings : SlsConfigOptions → List Setting
settings o =
    head_settings o
    ++ (stat_settings o
        ++ (port_settings o
            ++ (srtla_settings o
                ++ (stream_settings o
                    ++ (passphrase_settings o ++ (webhook_settings o ++ app_settings))))))

-- The texts of the options are neither cut nor spread over lines.
pub record IsPlain (o : SlsConfigOptions) : Type 0 where
  pub passphrase : IsValue o.passphrase
  pub webhook_url : IsValue o.webhook_url
  pub stat_post_url : IsValue o.stat_post_url
  pub log_level : IsValue o.log_level
  pub pid_file : IsValue o.pid_file
