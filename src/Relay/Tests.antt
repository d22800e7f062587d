-- ===== src/Relay/Tests.antt =====
-- The relay on concrete histories.
use irl_universal_ingest.Prelude.{
  ◌≡◌, ◌≤◌, refl, true, false, List, [], ◌∷◌, arith, Text, length, text_beq,
}
use irl_universal_ingest.Go.Strings.{codes}
use irl_universal_ingest.Prelude.{pick, pos, min, ◌*◌, ◌^◌}
use irl_universal_ingest.Relay.{
  Launch, is_running, restart_delay, start_session, stop_session, new, watch, schedule_restart,
  finish_restart, is_pipe,
}
use irl_universal_ingest.Relay.Steps.{Event, starts, exits, proceeds, step, run, begin, proceed}
use irl_universal_ingest.Relay.History.{single_process}
use irl_universal_ingest.Relay.Stop.{Quiet, stop_session_final}
use irl_universal_ingest.Relay.Delay.{restart_delay_exact}

abbrev good : Launch
good = record { pipe_ok = true; start_ok = true }

abbrev url : Text
url = codes "udp://127.0.0.1:8888"

-- ffmpeg reads a stream, dies, and is started again after its watcher has slept.
abbrev crash : List Event
crash =
    starts good (codes "srt://127.0.0.1:8190") (codes "live")
    ∷ exits 0
    ∷ proceeds 0 good
    ∷ proceeds 0 good
    ∷ proceeds 0 good
    ∷ []

-- The same, but stopped while the restart sleeps, which then goes on.
abbrev late : List Event
late = proceeds 0 good ∷ proceeds 0 good ∷ exits 1 ∷ proceeds 0 good ∷ []

test_crash : let (r, h) = run crash (begin url) in length h.alive ≡ 1
unfolding run step start_session pick is_pipe text_beq proceed new watch finish_restart
    schedule_restart
test_crash = refl

single_process_example :
    let (r, h) = run crash (begin url) in
    (length h.alive ≤ 1) × (is_running r ≡ false → h.alive ≡ [])
single_process_example = single_process url crash (omega arith)

stop_session_final_example : Quiet (run late (stop_session (run crash (begin url))))
stop_session_final_example =
    stop_session_final url crash late (omega arith) (tt, (tt, (tt, (tt, tt))))

restart_delay_exact_example : restart_delay 3 ≡ pos (min (500_000_000 * 2 ^ 3) 30_000_000_000)
restart_delay_exact_example = restart_delay_exact 3
