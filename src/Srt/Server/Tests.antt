-- ===== src/Srt/Server/Tests.antt =====
-- Start and Close of the SRT adapter on concrete answers.
use irl_universal_ingest.Prelude.{
  ℕ, suc, ◌+◌, ◌*◌, ◌≡◌, ◌≢◌, ◌≤◌, ◌↔◌, inr, refl, false, [], ◌∷◌, ◌++◌, ℤ, pos, Text, text_eq,
  text_beq, ltb, none, some, arith,
}
use irl_universal_ingest.Prelude.Assoc.{lookup}
use irl_universal_ingest.Go.Strings.{codes, contains_byte}
use irl_universal_ingest.Go.Format.{print_int}
use irl_universal_ingest.Backoff.{millisecond}
use irl_universal_ingest.Health.{Tracker, problems}
use irl_universal_ingest.Srt.Config.Reader.{read_settings}
use irl_universal_ingest.Srt.Config.Settings.{IsPlain}
use irl_universal_ingest.Srt.Ports.{ServerOptions, pick_internal_srtla_port, IsFree}
use irl_universal_ingest.Srt.Readiness.{Poll, pause}
use irl_universal_ingest.Machine.{Machine}
use irl_universal_ingest.Srt.Server.{Answers, loopback, find_srt, sls_options}
use irl_universal_ingest.Srt.Server.Lifecycle.{start}
use irl_universal_ingest.Srt.Server.Release.{AreFresh, new_world}
use irl_universal_ingest.Srt.Server.Failure.{start_failed}
use irl_universal_ingest.Srt.Server.Reports.{problem, IsWell, start-srt_problem}
use irl_universal_ingest.Srt.Server.Wiring.{AllStart, processes, start-wiring}

abbrev options : ServerOptions
options = record {
  srt_port = pos 8890;
  srtla_port = pos 5000;
  player_port = pos 8190;
  http_port = pos 8181;
  latency_ms = pos 200;
  latency_max_ms = pos 5000;
  idle_timeout_sec = pos 5;
  passphrase = codes "mysecretpass";
  log_level = codes "info";
  allowed_paths = codes "/live/stream" ∷ [];
}

-- A machine with a listener, a directory and a process of others.
abbrev machine : Machine
machine = record {
  listeners = pos 1935 ∷ [];
  dirs = (codes "/tmp/other", []) ∷ [];
  running = record { pid = 7; program = codes "ffmpeg"; args = [] } ∷ [];
}

abbrev tracker : Tracker
tracker = record { errors = (codes "ristreceiver", codes "exited") ∷ [] }

-- irl-srt-server answers from the third round on.
abbrev polls : ℕ → Poll
polls k = record { now = 11 + k * (60 * millisecond); cancelled = false; answers = ltb 1 k }

abbrev both : Answers
both = record {
  listen = inr (pos 40001);
  mkdir_temp = inr (codes "/tmp/irl-sls-1");
  join = λ dir name. dir ++ (codes "/" ++ name);
  write_file = none;
  look_path = λ name. some (codes "/usr/bin/" ++ name);
  start_srt = inr 20;
  now = 10;
  polls = polls;
  start_srtla = inr 21;
}

abbrev no_space : Answers
no_space = record both { write_file = some (codes "no space left on device") }

both-AreFresh : AreFresh both machine
unfolding lookup text_beq
both-AreFresh = record {
  port = λ p e. (λ x. ground arith, tt);
  dir = λ d e. (λ x. cc, cc);
  srt = λ n e. (λ x. cc, tt);
  srtla = λ n e. (λ x. cc, tt);
}

no_space-AreFresh : AreFresh no_space machine
no_space-AreFresh = record {
  port = both-AreFresh.port;
  dir = both-AreFresh.dir;
  srt = both-AreFresh.srt;
  srtla = both-AreFresh.srtla;
}

test_no_space :
    (start no_space (new_world options machine none)).1
    ≡ some (codes "writing sls.conf: no space left on device")
unfolding start
test_no_space = refl

start_failed_example :
    let (v, e) = start no_space (new_world options machine (some tracker)) in
    ((e ≡ none) ↔ (
      (p : ℤ) × (d : Text) × (no_space.listen ≡ inr p)
      × (no_space.mkdir_temp ≡ inr d)
      × (no_space.write_file ≡ none)))
    × (e ≢ none → (v.machine ≡ machine) × (v.health ≡ some tracker))
start_failed_example = start_failed no_space options machine (some tracker) no_space-AreFresh

no_problem : lookup (codes "srt_server") (problems tracker) ≡ none
unfolding lookup text_beq problems
no_problem = refl

each_later : (i : ℕ) → (polls i).now + pause ≤ (polls (suc i)).now
each_later i = omega arith

test_starts : (start both (new_world options machine (some tracker))).1 ≡ none
unfolding start
test_starts = refl

start-srt_problem_example :
    (problem (codes "srt_server") (start both (new_world options machine (some tracker))).0.health
      ≡ none)
    ↔ IsWell both
start-srt_problem_example =
    start-srt_problem both options machine tracker no_problem (omega arith) each_later test_starts

all_start :
    AllStart both options
      (pos 40001)
      (codes "/tmp/irl-sls-1")
      (codes "/usr/bin/srt_server")
      (codes "/usr/bin/srtla_rec")
      20
      21
unfolding find_srt
all_start = record {
  listens = refl;
  makes = refl;
  writes = refl;
  finds_srt = refl;
  starts_srt = refl;
  finds_srtla = refl;
  starts_srtla = refl;
  srtla_port = refl;
}

all-IsPlain : IsPlain (sls_options both (pos 40001) (codes "/tmp/irl-sls-1") options)
unfolding contains_byte print_int sls_options
all-IsPlain = record {
  passphrase = (refl, refl);
  webhook_url = (refl, refl);
  stat_post_url = (refl, refl);
  log_level = (refl, refl);
  pid_file = (refl, refl);
}

start-wiring_example :
    let v = (start both (new_world options machine (some tracker))).0 in
    let dir = codes "/tmp/irl-sls-1" in
    let path = both.join dir (codes "sls.conf") in
    (content : Text) × (lookup dir v.machine.dirs ≡ some ((path, content) ∷ []))
    × (v.machine.running
        ≡ processes path (codes "/usr/bin/srt_server") 20 (codes "/usr/bin/srtla_rec") 21 options
          ++ machine.running)
    × (v.machine.listeners ≡ pos 40001 ∷ machine.listeners)
    × (v.polled ≡ loopback options.http_port (codes "/stats") ∷ [])
    × IsFree options (pick_internal_srtla_port options)
    × (let s = read_settings content in
        (lookup (codes "listen_publisher_srtla") s
          ≡ some (print_int (pick_internal_srtla_port options)))
        × (lookup (codes "http_port") s ≡ some (print_int options.http_port))
        × (lookup (codes "on_event_url") s ≡ some (loopback (pos 40001) (codes "/sls/on_event")))
        × (lookup (codes "stat_post_url") s ≡ some (loopback (pos 40001) (codes "/sls/stat"))))
start-wiring_example =
    start-wiring both options machine (some tracker) (pos 40001) (codes "/tmp/irl-sls-1")
      (codes "/usr/bin/srt_server") (codes "/usr/bin/srtla_rec") 20 21 all_start refl all-IsPlain
