-- ===== src/Main/Tests.antt =====
-- A start and a shutdown on concrete answers.
use irl_universal_ingest.Prelude.{
  ℕ, ◌+◌, ◌*◌, ◌≡◌, refl, true, false, [], ◌∷◌, ◌++◌, none, some, inr, pos, Text, text_eq, text_beq,
  ltb, arith,
}
use irl_universal_ingest.Prelude.Assoc.{lookup}
use irl_universal_ingest.Go.Strings.{codes}
use irl_universal_ingest.Backoff.{millisecond}
use irl_universal_ingest.Config.{default}
use irl_universal_ingest.Machine.{Machine}
use irl_universal_ingest.Srt.Readiness.{Poll, wait_for_server_ready}
use irl_universal_ingest.Srt.Server as Srt
use irl_universal_ingest.Srt.Server.Wiring.{AllStart, processes}
use irl_universal_ingest.Rist.Receiver as Rist
use irl_universal_ingest.Rist.Receiver.Steps.{member}
use irl_universal_ingest.Main.{
  App, Answers, fatal, ready, failure, srt_options, new_app, start_rtmp, start_srt, start_rist,
  start_stats, startup, shutdown,
}
use irl_universal_ingest.Main.Shutdown.{IsFree, shutdown-startup}
use irl_universal_ingest.Main.Fatal.{startup-orphans}

abbrev machine : Machine
machine = record {
  listeners = pos 22 ∷ [];
  dirs = (codes "/tmp/other", []) ∷ [];
  running = record { pid = 7; program = codes "sshd"; args = [] } ∷ [];
}

abbrev host : Rist.System
host = record { processes = 0; alive = []; killed = []; reapers = [] }

abbrev polls : ℕ → Poll
polls k = record { now = 11 + k * (60 * millisecond); cancelled = false; answers = ltb 1 k }

abbrev srt_answers : Srt.Answers
srt_answers = record {
  listen = inr (pos 40001);
  mkdir_temp = inr (codes "/tmp/irl-sls-1");
  join = λ dir name. dir ++ (codes "/" ++ name);
  write_file = none;
  look_path = λ name. some (codes "/usr/bin/" ++ name);
  start_srt = inr 20;
  now = 10;
  polls = polls;
  start_srtla = inr 21;
}

abbrev answers : Answers
answers = record {
  rtmp_listen = none;
  srt = srt_answers;
  ristreceiver = some (codes "/usr/bin/ristreceiver");
  rist_launch = record { stdout_error = none; stderr_error = none; start_error = none };
  stats_listen = none;
}

-- ristreceiver is there but cannot be run.
abbrev broken : Answers
broken = record answers {
  rist_launch = record answers.rist_launch { start_error = some (codes "permission denied") };
}

abbrev started : App
started =
    (start_stats answers
      (start_rist answers
        (start_srt answers (start_rtmp answers (new_app default machine host)).0).0).0).0

all_run : startup default answers machine host ≡ ready started
unfolding startup default
all_run = refl

answers-IsFree : IsFree default answers machine host
unfolding default start_srt start_rtmp new_app lookup text_beq wait_for_server_ready srt_options
answers-IsFree = record {
  rtmp = (λ x. ground arith, tt);
  srt = record {
    port = λ p e. (λ x. ground arith, (λ x. ground arith, tt));
    dir = λ d e. (λ x. cc, cc);
    srt = λ n e. (λ x. cc, tt);
    srtla = λ n e. (λ x. cc, tt);
  };
  stats = (λ x. ground arith, (λ x. ground arith, (λ x. ground arith, tt)));
}

shutdown-startup_example :
    ((shutdown started).machine ≡ machine)
    × ((pid : ℕ)
        → member pid (shutdown started).rist.1.alive ≡ true
        → member pid (shutdown started).rist.1.killed ≡ true)
    × ((shutdown started).rist.0.cancelled ≡ true)
    × ((shutdown started).rist.0.stopping ≡ true)
shutdown-startup_example =
    shutdown-startup default answers machine host started answers-IsFree all_run

all_start :
    AllStart srt_answers
      (srt_options default)
      (pos 40001)
      (codes "/tmp/irl-sls-1")
      (codes "/usr/bin/srt_server")
      (codes "/usr/bin/srtla_rec")
      20
      21
unfolding Srt.find_srt srt_options default
all_start = record {
  listens = refl;
  makes = refl;
  writes = refl;
  finds_srt = refl;
  starts_srt = refl;
  finds_srtla = refl;
  starts_srtla = refl;
  srtla_port = refl;
}

startup-orphans_example :
    let dir = codes "/tmp/irl-sls-1" in
    let path = broken.srt.join dir (codes "sls.conf") in
    (w : App) × (startup default broken machine host
      ≡ fatal (failure (codes "RIST") ++ codes "starting ristreceiver: permission denied") w)
    × (w.machine.running
        ≡ processes path
            (codes "/usr/bin/srt_server")
            20
            (codes "/usr/bin/srtla_rec")
            21
            (srt_options default)
          ++ machine.running)
    × ((content : Text) × (lookup dir w.machine.dirs ≡ some ((path, content) ∷ [])))
startup-orphans_example =
    startup-orphans default broken machine host (pos 40001) (codes "/tmp/irl-sls-1")
      (codes "/usr/bin/srt_server") (codes "/usr/bin/srtla_rec") 20 21
      (codes "/usr/bin/ristreceiver") (codes "starting ristreceiver: permission denied") refl
      all_start refl refl
