-- ===== src/Rist/Receiver/Orphan.antt =====
-- A restart that sleeps does not look at what was started meanwhile.
use irl_universal_ingest.Prelude.{
  ℕ, suc, ◌≡◌, ◌≢◌, false, List, [], ◌∷◌, none, some, nat_eq, nat_beq_iff, ltb, text_eq,
  text_beq_iff, arith, pick,
}
use irl_universal_ingest.Go.Clock.{Time, since}
use irl_universal_ingest.Rist.Receiver.{
  Supervisor, System, Launch, waiting, launch_error, start_process, start_or_report, finish_restart,
  restart_receiver, min_forced_restart_gap, notice_exit, count_attempt,
}
use irl_universal_ingest.Rist.Receiver.Steps.{
  Event, exits, proceeds, restarts, proceed, member, remove, step, run,
}

-- A receiver exits, its reaper notices and goes to sleep, a restart is forced, and the sleep ends.
abbrev pub overlap : ℕ → Time → Launch → Launch → List Event
overlap pid now l1 l2 =
    exits pid ∷ proceeds 0 l2 ∷ proceeds 0 l2 ∷ restarts now l1 ∷ proceeds 1 l2 ∷ []

-- While the server has a binary and is neither stopping nor cancelled: if the only receiver exits and
-- a restart is forced while its reaper sleeps, at least a second after the last forced one, and both
-- launches succeed, then two receivers are alive after the sleep. The server knows the second only,
-- and the first, whose number is new and so has not been killed, has not been sent a kill signal.
pub run-overlap :
    (pid : ℕ) (now : Time) (l1 l2 : Launch) (s : Supervisor) (y : System)
    → s.cmd ≡ some pid
    → y.alive ≡ pid ∷ []
    → y.reapers ≡ waiting pid ∷ []
    → member y.processes y.killed ≡ false
    → s.cancelled ≡ false
    → s.stopping ≡ false
    → s.binary_path ≢ []
    → ltb (since now s.last_forced_restart) min_forced_restart_gap ≡ false
    → launch_error l1 ≡ none
    → launch_error l2 ≡ none
    → let (t, z) = run (overlap pid now l1 l2) (s, y) in
      (z.alive ≡ suc y.processes ∷ y.processes ∷ [])
      × (member y.processes z.killed ≡ false)
      × (t.cmd ≡ some (suc y.processes))
unfolding run step proceed member remove pick notice_exit count_attempt restart_receiver
    finish_restart start_or_report start_process
run-overlap pid now l1 l2 s y current alone reaper unkilled open_ctx going found gap ok1 ok2 =
    ground (arith, text_beq_iff s.binary_path [], nat_beq_iff pid pid)
