-- ===== src/Srt/Config/Roundtrip.antt =====
-- The rendered sls.conf read back.
use irl_universal_ingest.Prelude.{
  ℕ, ◌≡◌, ◌∙◌, refl, Bool, true, false, List, [], ◌∷◌, ℤ, pos, negsuc, ltb_ℤ, nat_eq, ◌==◌, text_eq,
  if◌then◌else◌, not, Text, arith, zero, suc, ◌+◌, ◌/◌, ◌%◌,
}
use irl_universal_ingest.Go.Strings.{codes, before, after, contains_byte}
use irl_universal_ingest.Go.Format.{digits, print_int}
use irl_universal_ingest.Srt.Config.{
  SlsConfigOptions, statement, internal_api_key, or_text, with_defaults, sls_lines, head_lines,
  stat_lines, port_lines, srtla_lines, stream_lines, passphrase_lines, webhook_lines, app_lines,
  generate_sls_config,
}
use irl_universal_ingest.Srt.Config.Reader.{indented, read_lines, read_settings, read_unlines}
use irl_universal_ingest.Srt.Config.Account.{Account, none_left, sets, Account-append}
use irl_universal_ingest.Srt.Config.Settings.{
  IsValue, Setting, head_settings, stat_settings, port_settings, srtla_settings, stream_settings,
  passphrase_settings, webhook_settings, app_settings, settings, IsPlain,
}

digits-IsValue : (fuel n : ℕ) (seen : Text) → IsValue seen → IsValue (digits fuel n seen)
unfolding digits contains_byte
digits-IsValue zero n seen v = v
digits-IsValue (suc fuel) n seen v =
    ground (arith, digits-IsValue fuel (n / 10) ((b'0' + n % 10) ∷ seen))

print_int-IsValue : (n : ℤ) → IsValue (print_int n)
unfolding print_int contains_byte
print_int-IsValue (pos n) = digits-IsValue 20 n [] (refl, refl)
print_int-IsValue (negsuc n) = digits-IsValue 20 (suc n) [] (refl, refl)

or_text-IsValue : (fallback s : Text) → IsValue fallback → IsValue s → IsValue (or_text fallback s)
or_text-IsValue fallback s v w = ground arith

-- An optional segment.
optional :
    (b : Bool) (ls : List Text) (s : List Setting)
    → Account ls s
    → Account (if b then ls else []) (if b then s else [])
optional true ls s a = a
optional false ls s a = none_left

worker-Account :
    Account
      (codes "srt {" ∷ codes "    worker_threads 1;" ∷ codes "    worker_connections 300;" ∷ [])
      ((codes "worker_threads", codes "1") ∷ (codes "worker_connections", codes "300") ∷ [])
unfolding read_lines contains_byte indented before after
worker-Account = record { lines = (refl, (refl, (refl, tt))); read = refl }

bind-Account :
    Account
      (codes "    http_bind_addr 127.0.0.1;"
        ∷ codes "    cors_header *;"
        ∷ codes "    log_file /tmp/srt_server.log;"
        ∷ [])
      ((codes "http_bind_addr", codes "127.0.0.1")
        ∷ (codes "cors_header", codes "*")
        ∷ (codes "log_file", codes "/tmp/srt_server.log")
        ∷ [])
unfolding read_lines contains_byte indented before after
bind-Account = record { lines = (refl, (refl, (refl, tt))); read = refl }

log-Account :
    Account
      (codes "    log_rate_limit_enabled 1;"
        ∷ codes "    log_summary_enabled 0;"
        ∷ codes "    log_session_ids 1;"
        ∷ statement (codes "    api_keys ") internal_api_key
        ∷ [])
      ((codes "log_rate_limit_enabled", codes "1")
        ∷ (codes "log_summary_enabled", codes "0")
        ∷ (codes "log_session_ids", codes "1")
        ∷ (codes "api_keys", internal_api_key)
        ∷ [])
unfolding read_lines contains_byte indented before after
log-Account = record { lines = (refl, (refl, (refl, (refl, tt)))); read = refl }

interval-Account :
    Account (codes "    stat_post_interval 1;" ∷ []) ((codes "stat_post_interval", codes "1") ∷ [])
unfolding read_lines contains_byte indented before after
interval-Account = record { lines = (refl, tt); read = refl }

server-Account : Account ([] ∷ codes "    server {" ∷ []) []
unfolding read_lines contains_byte indented before after
server-Account = record { lines = (refl, (refl, tt)); read = refl }

domain-Account :
    Account
      (codes "        domain_player play;"
        ∷ codes "        domain_publisher publish;"
        ∷ codes "        default_sid publish/live/stream;"
        ∷ codes "        backlog 100;"
        ∷ [])
      ((codes "domain_player", codes "play")
        ∷ (codes "domain_publisher", codes "publish")
        ∷ (codes "default_sid", codes "publish/live/stream")
        ∷ (codes "backlog", codes "100")
        ∷ [])
unfolding read_lines contains_byte indented before after
domain-Account = record { lines = (refl, (refl, (refl, (refl, tt)))); read = refl }

app-Account : Account app_lines app_settings
unfolding read_lines contains_byte indented before after
app-Account = record {
  lines = (refl, (refl, (refl, (refl, (refl, (refl, (refl, (refl, (refl, tt)))))))));
  read = refl;
}

module _ (o : SlsConfigOptions) (p : IsPlain o) where
  head-Account : Account (head_lines o) (head_settings o)
  unfolding contains_byte indented
  head-Account = Account-append worker-Account (
      sets (codes "    http_port ") (codes "http_port") (print_int o.http_port)
        (λ t. refl, λ t. refl, refl) refl (print_int-IsValue o.http_port)
        (Account-append bind-Account (
          sets (codes "    log_level ") (codes "log_level") o.log_level (λ t. refl, λ t. refl, refl)
            refl p.log_level log-Account)))

  stat-Account : Account (stat_lines o) (stat_settings o)
  unfolding contains_byte indented
  stat-Account = optional (not (o.stat_post_url == [])) _ _ (
      sets (codes "    stat_post_url ") (codes "stat_post_url") o.stat_post_url
        (λ t. refl, λ t. refl, refl) refl p.stat_post_url interval-Account)

  port-Account : Account (port_lines o) (port_settings o)
  unfolding contains_byte indented
  port-Account =
      sets (codes "    pidfile ") (codes "pidfile")
        (or_text (codes "/tmp/sls_server.pid") o.pid_file) (λ t. refl, λ t. refl, refl) refl
        (or_text-IsValue (codes "/tmp/sls_server.pid") o.pid_file (refl, refl) p.pid_file)
        (Account-append server-Account (
          sets (codes "        listen_player ") (codes "listen_player") (print_int o.player_port)
            (λ t. refl, λ t. refl, refl) refl (print_int-IsValue o.player_port)
            (sets (codes "        listen_publisher ") (codes "listen_publisher")
              (print_int o.srt_port) (λ t. refl, λ t. refl, refl) refl
              (print_int-IsValue o.srt_port) none_left)))

  srtla-Account : Account (srtla_lines o) (srtla_settings o)
  unfolding contains_byte indented
  srtla-Account = optional (ltb_ℤ (pos 0) o.srtla_port) _ _ (
      sets (codes "        listen_publisher_srtla ") (codes "listen_publisher_srtla")
        (print_int o.srtla_port) (λ t. refl, λ t. refl, refl) refl (print_int-IsValue o.srtla_port)
        none_left)

  stream-Account : Account (stream_lines o) (stream_settings o)
  unfolding contains_byte indented
  stream-Account =
      sets (codes "        latency_min ") (codes "latency_min") (print_int o.latency_ms)
        (λ t. refl, λ t. refl, refl) refl (print_int-IsValue o.latency_ms)
        (sets (codes "        latency_max ") (codes "latency_max") (print_int o.latency_max_ms)
          (λ t. refl, λ t. refl, refl) refl (print_int-IsValue o.latency_max_ms)
          (Account-append domain-Account (
            sets (codes "        idle_streams_timeout ") (codes "idle_streams_timeout")
              (print_int o.idle_timeout_sec) (λ t. refl, λ t. refl, refl) refl
              (print_int-IsValue o.idle_timeout_sec) none_left)))

  passphrase-Account : Account (passphrase_lines o) (passphrase_settings o)
  unfolding contains_byte indented
  passphrase-Account = optional (not (o.passphrase == [])) _ _ (
      sets (codes "        srt_passphrase ") (codes "srt_passphrase") o.passphrase
        (λ t. refl, λ t. refl, refl) refl p.passphrase none_left)

  webhook-Account : Account (webhook_lines o) (webhook_settings o)
  unfolding contains_byte indented
  webhook-Account = optional (not (o.webhook_url == [])) _ _ (
      sets (codes "        on_event_url ") (codes "on_event_url") o.webhook_url
        (λ t. refl, λ t. refl, refl) refl p.webhook_url none_left)

  sls-Account : Account (sls_lines o) (settings o)
  unfolding sls_lines
  sls-Account = Account-append head-Account (
      Account-append stat-Account (
        Account-append port-Account (
          Account-append srtla-Account (
            Account-append stream-Account
              (Account-append passphrase-Account (Account-append webhook-Account app-Account))))))

with_defaults-IsPlain : (o : SlsConfigOptions) → IsPlain o → IsPlain (with_defaults o)
unfolding with_defaults contains_byte
with_defaults-IsPlain o p = record {
  passphrase = p.passphrase;
  webhook_url = p.webhook_url;
  stat_post_url = p.stat_post_url;
  log_level = or_text-IsValue (codes "info") o.log_level (refl, refl) p.log_level;
  pid_file = p.pid_file;
}

-- If no text of the options holds a semicolon or a newline, then a reader that takes a setting from
-- each line with a semicolon reads exactly the options back from the rendered file, in order, with
-- the defaults for what is empty or not positive, and nothing else but the fixed settings.
pub read_settings-generate_sls_config :
    (o : SlsConfigOptions)
    → IsPlain o
    → read_settings (generate_sls_config o) ≡ settings (with_defaults o)
unfolding generate_sls_config
read_settings-generate_sls_config o p =
    let a = sls-Account (with_defaults o) (with_defaults-IsPlain o p) in
    read_unlines (sls_lines (with_defaults o)) a.lines ∙ a.read
