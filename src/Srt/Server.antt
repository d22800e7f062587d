-- ===== src/Srt/Server.antt =====
-- internal/ingest/srt/server.go: the adapter with the machine it acts on, and the launch of its two
-- processes. What the system calls answer is an argument.
pub mod Lifecycle
pub mod Launches
pub mod Outcomes
pub mod Release
pub mod Failure
pub mod Reports
pub mod Wiring
mod Tests
use irl_universal_ingest.Prelude.{
  ℕ, ◌*◌, Bool, true, false, List, [], ◌∷◌, ◌++◌, ℤ, pos, ltb_ℤ, nat_eq, int_eq, ◌==◌, text_eq,
  if◌then◌else◌, Text, Option, none, some, ◌⊎◌, inl, inr,
}
use irl_universal_ingest.Prelude.Assoc.{lookup, insert, erase}
use irl_universal_ingest.Go.Strings.{codes}
use irl_universal_ingest.Go.Format.{print_int}
use irl_universal_ingest.Go.Clock.{Time}
use irl_universal_ingest.Backoff.{second}
use irl_universal_ingest.Health.{Tracker, set_unhealthy, clear_unhealthy}
use irl_universal_ingest.Srt.Config.{SlsConfigOptions, generate_sls_config, build_srtla_args}
use irl_universal_ingest.Machine.{Machine, Process, unlisten, stop}
use irl_universal_ingest.Srt.Ports.{ServerOptions, pick_internal_srtla_port}
use irl_universal_ingest.Srt.Readiness.{Poll, wait_for_server_ready}
use irl_universal_ingest.Srt.Webhook.{WebhookHandler}

-- `webhook_server` is the port of its listener, and whether it serves; a command is its process's id.
pub record Server : Type 0 where
  pub opts : ServerOptions
  pub handler : Option WebhookHandler
  pub webhook_server : Option ℤ
  pub webhook_url : Text
  pub srt_cmd : Option ℕ
  pub srtla_cmd : Option ℕ
  pub temp_dir : Text
  pub cancelled : Bool

-- With the tracker, if one is configured, and the URLs that Start has polled, the last one first.
pub record World : Type 0 where
  pub server : Server
  pub machine : Machine
  pub health : Option Tracker
  pub polled : List Text

-- The answers: a port, a directory or an error; the error of the write; where a program is on the
-- PATH; the processes' ids or errors; the rounds of the poll. filepath.ToSlash changes nothing here.
pub record Answers : Type 0 where
  pub listen : Text ⊎ ℤ
  pub mkdir_temp : Text ⊎ Text
  pub join : Text → Text → Text
  pub write_file : Option Text
  pub look_path : Text → Option Text
  pub start_srt : Text ⊎ ℕ
  pub now : Time
  pub polls : ℕ → Poll
  pub start_srtla : Text ⊎ ℕ

unfoldable pub new_server : ServerOptions → Server
new_server o = record {
  opts = o;
  handler = none;
  webhook_server = none;
  webhook_url = [];
  srt_cmd = none;
  srtla_cmd = none;
  temp_dir = [];
  cancelled = false;
}

unfoldable pub new_webhook_handler : List Text → ℤ → ℤ → WebhookHandler
new_webhook_handler allowed player_port srtla_port = record {
  allowed_paths = allowed;
  player_port = player_port;
  srtla_port = srtla_port;
  active_slot = none;
  active_path = [];
}

abbrev pub loopback : ℤ → Text → Text
loopback port route = codes "http://127.0.0.1:" ++ (print_int port ++ route)

unfoldable pub serve_webhooks : ℤ → World → World
unfolding new_webhook_handler
serve_webhooks port w =
    let s = w.server in
    let o = s.opts in
    let handler = new_webhook_handler o.allowed_paths o.player_port (pick_internal_srtla_port o) in
    record w {
      server = record s {
        handler = some handler;
        webhook_server = some port;
        webhook_url = loopback port (codes "/sls/on_event");
      };
      machine = record w.machine { listeners = port ∷ w.machine.listeners };
    }

-- webhookServer.Close, which closes the listener; the goroutine that serves it then returns.
unfoldable pub close_webhooks : World → World
unfolding unlisten
close_webhooks w = elim w.server.webhook_server [
  | none ↦ w
  | some port ↦ record w {
    machine = record w.machine { listeners = unlisten port w.machine.listeners };
  }
]

unfoldable pub sls_options : Answers → ℤ → Text → ServerOptions → SlsConfigOptions
sls_options a port dir o = record {
  srt_port = o.srt_port;
  srtla_port = pick_internal_srtla_port o;
  player_port = o.player_port;
  http_port = o.http_port;
  latency_ms = o.latency_ms;
  latency_max_ms = o.latency_max_ms;
  idle_timeout_sec = o.idle_timeout_sec;
  passphrase = o.passphrase;
  webhook_url = loopback port (codes "/sls/on_event");
  stat_post_url = loopback port (codes "/sls/stat");
  log_level = o.log_level;
  pid_file = a.join dir (codes "sls_server.pid");
}

unfoldable pub set_unhealthy_if : Text → Text → World → World
set_unhealthy_if component reason w = elim w.health [
  | none ↦ w
  | some t ↦ record w { health = some (set_unhealthy component reason t) }
]

unfoldable pub clear_unhealthy_if : Text → World → World
clear_unhealthy_if component w = elim w.health [
  | none ↦ w
  | some t ↦ record w { health = some (clear_unhealthy component t) }
]

abbrev pub run_process : ℕ → Text → List Text → World → World
run_process pid program args w = record w {
  machine = record w.machine {
    running = record { pid = pid; program = program; args = args } ∷ w.machine.running;
  };
}

-- What the poll found; none if it has not returned.
unfoldable pub report_ready : Option (Option Text) → World → World
unfolding set_unhealthy_if clear_unhealthy_if
report_ready none w = w
report_ready (some none) w = clear_unhealthy_if (codes "srt_server") w
report_ready (some (some reason)) w = set_unhealthy_if (codes "srt_server") reason w

-- The poll of a port, with the URL that waitForServerReady builds, and the report of what it found.
unfoldable pub await_ready : Answers → ℤ → World → World
unfolding report_ready
await_ready a port w =
    report_ready (wait_for_server_ready port (5 * second) a.now a.polls)
      (record w { polled = loopback port (codes "/stats") ∷ w.polled })

-- srt_server or, where there is none, sls.
unfoldable pub find_srt : Answers → Option Text
find_srt a = elim (a.look_path (codes "srt_server")) [
  | none ↦ a.look_path (codes "sls")
  | some binary ↦ some binary
]

abbrev pub started_srt : ℕ → Text → Text → World → World
started_srt pid binary config_path w =
    let w' = run_process pid binary (codes "-c" ∷ config_path ∷ []) w in
    record w' { server = record w'.server { srt_cmd = some pid } }

unfoldable pub launch_srt : Answers → Text → World → World
unfolding set_unhealthy_if await_ready find_srt
launch_srt a config_path w = elim (find_srt a) [
  | none ↦ w
  | some binary ↦ elim a.start_srt [
    | inl reason ↦ set_unhealthy_if (codes "srt_server") reason w
    | inr pid ↦ await_ready a w.server.opts.http_port (started_srt pid binary config_path w)
  ]
]

abbrev pub started_srtla : ℕ → Text → World → World
started_srtla pid binary w =
    let o = w.server.opts in
    let port = pick_internal_srtla_port o in
    let args = build_srtla_args o.srtla_port (codes "127.0.0.1") port o.log_level in
    let w' = run_process pid binary args w in
    record w' { server = record w'.server { srtla_cmd = some pid } }

unfoldable pub launch_srtla : Answers → World → World
unfolding set_unhealthy_if clear_unhealthy_if
launch_srtla a w =
    let o = w.server.opts in
    if ltb_ℤ (pos 0) o.srtla_port
    then elim (a.look_path (codes "srtla_rec")) [
      | none ↦ w
      | some binary ↦ elim a.start_srtla [
        | inl reason ↦ set_unhealthy_if (codes "srtla_rec") reason w
        | inr pid ↦ clear_unhealthy_if (codes "srtla_rec") (started_srtla pid binary w)
      ]
    ]
    else w
