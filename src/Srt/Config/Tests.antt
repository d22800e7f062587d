-- ===== src/Srt/Config/Tests.antt =====
-- The rendered sls.conf on the options of config_test.go.
use irl_universal_ingest.Prelude.{◌≡◌, refl, [], ◌∷◌, pos, text_beq}
use irl_universal_ingest.Go.Strings.{codes, before, after, contains_byte}
use irl_universal_ingest.Go.Format.{print_int}
use irl_universal_ingest.Srt.Config.{
  SlsConfigOptions, with_defaults, generate_sls_config, build_srtla_args,
}
use irl_universal_ingest.Srt.Config.Reader.{read_settings}
use irl_universal_ingest.Srt.Config.Settings.{settings, IsPlain}
use irl_universal_ingest.Srt.Config.Roundtrip.{read_settings-generate_sls_config}

abbrev full : SlsConfigOptions
full = record {
  srt_port = pos 8890;
  srtla_port = pos 6600;
  player_port = pos 8190;
  http_port = pos 8181;
  latency_ms = pos 300;
  latency_max_ms = pos 0;
  idle_timeout_sec = pos 15;
  passphrase = codes "mysecretpass";
  webhook_url = codes "http://127.0.0.1:8182/sls/on_event";
  stat_post_url = [];
  log_level = codes "debug";
  pid_file = codes "/tmp/test.pid";
}

abbrev bare : SlsConfigOptions
bare = record full {
  latency_ms = pos 0;
  idle_timeout_sec = pos 0;
  passphrase = [];
  webhook_url = [];
  log_level = [];
  pid_file = [];
}

-- What the file sets on the defaults: no passphrase, no webhook, the standard file names.
test_defaults :
    read_settings (generate_sls_config bare)
    ≡ (codes "worker_threads", codes "1")
      ∷ (codes "worker_connections", codes "300")
      ∷ (codes "http_port", codes "8181")
      ∷ (codes "http_bind_addr", codes "127.0.0.1")
      ∷ (codes "cors_header", codes "*")
      ∷ (codes "log_file", codes "/tmp/srt_server.log")
      ∷ (codes "log_level", codes "info")
      ∷ (codes "log_rate_limit_enabled", codes "1")
      ∷ (codes "log_summary_enabled", codes "0")
      ∷ (codes "log_session_ids", codes "1")
      ∷ (codes "api_keys", codes "irl-internal-api-key")
      ∷ (codes "pidfile", codes "/tmp/sls_server.pid")
      ∷ (codes "listen_player", codes "8190")
      ∷ (codes "listen_publisher", codes "8890")
      ∷ (codes "listen_publisher_srtla", codes "6600")
      ∷ (codes "latency_min", codes "200")
      ∷ (codes "latency_max", codes "5000")
      ∷ (codes "domain_player", codes "play")
      ∷ (codes "domain_publisher", codes "publish")
      ∷ (codes "default_sid", codes "publish/live/stream")
      ∷ (codes "backlog", codes "100")
      ∷ (codes "idle_streams_timeout", codes "5")
      ∷ (codes "app_player", codes "live")
      ∷ (codes "app_publisher", codes "live")
      ∷ (codes "allow", codes "publish all")
      ∷ (codes "allow", codes "play all")
      ∷ []
unfolding read_settings generate_sls_config print_int contains_byte before after text_beq
test_defaults = refl

test_args :
    build_srtla_args (pos 5000) (codes "127.0.0.1") (pos 8891) (codes "debug")
    ≡ codes "--srtla_port"
      ∷ codes "5000"
      ∷ codes "--srt_hostname"
      ∷ codes "127.0.0.1"
      ∷ codes "--srt_port"
      ∷ codes "8891"
      ∷ codes "--log_level"
      ∷ codes "debug"
      ∷ []
unfolding build_srtla_args text_beq
test_args = refl

full-IsPlain : IsPlain full
unfolding contains_byte
full-IsPlain = record {
  passphrase = (refl, refl);
  webhook_url = (refl, refl);
  stat_post_url = (refl, refl);
  log_level = (refl, refl);
  pid_file = (refl, refl);
}

read_settings-generate_sls_config_example :
    read_settings (generate_sls_config full) ≡ settings (with_defaults full)
read_settings-generate_sls_config_example = read_settings-generate_sls_config full full-IsPlain
