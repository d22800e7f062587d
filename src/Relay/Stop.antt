-- ===== src/Relay/Stop.antt =====
-- StopSession is final until the next StartSession.
use irl_universal_ingest.Prelude.{
  ◌<◌, ◌^◌, ◌≡◌, refl, inl, inr, true, false, List, [], ◌∷◌, Text, arith, pick, Option-cases,
  length, All,
}
use irl_universal_ingest.Relay.{
  Relay, Host, Task, watching, scheduling, sleeping, Launch, new, stop_session, stop_unlocked,
  watch, schedule_restart, finish_restart,
}
use irl_universal_ingest.Relay.Steps.{
  Event, starts, stops, exits, proceeds, proceed, step, run, begin,
}
use irl_universal_ingest.Relay.Single.{Single, Single-same, stop_unlocked-alive, reap-nil}
use irl_universal_ingest.Relay.History.{run-IsSingle, begin-IsSingle}

-- Any event but the start of a session.
abbrev pub NoStart : Event → Type 0
NoStart (starts launch input path) = ⊥
NoStart _ = Unit

-- Stopped, and with no process.
abbrev pub Quiet : Relay × Host → Type 0
Quiet (r, h) = (r.stopped ≡ true) × (r.running ≡ false) × (h.alive ≡ [])

proceed-Quiet :
    (launch : Launch) (t : Task) (w : Relay × Host) → Quiet w → Quiet (proceed launch t w)
unfolding proceed watch schedule_restart finish_restart
proceed-Quiet launch (watching pid s) w q = ground arith
proceed-Quiet launch (scheduling s input path) w q = ground arith
proceed-Quiet launch (sleeping delay s input path) w q = ground arith

pub step-Quiet : (ev : Event) (w : Relay × Host) → NoStart ev → Quiet w → Quiet (step ev w)
unfolding step stop_session stop_unlocked
step-Quiet (starts launch input path) w idle q = absurd idle
step-Quiet stops w idle q = elim (Option-cases w.0.cmd) [
  | inl e ↦ rw (e, step) (refl, refl, q.2)
  | inr (pid, e) ↦ rw (e, step) (refl, refl, reap-nil pid w.1.alive q.2)
]
step-Quiet (exits pid) w idle q = (q.0, q.1, reap-nil pid w.1.alive q.2)
step-Quiet (proceeds n launch) w idle q = elim (Option-cases (pick n w.1.tasks)) [
  | inl e ↦ rw (step, e) q
  | inr (c, e) ↦ rw (step, e) (proceed-Quiet launch c.0 (w.0, record w.1 { tasks = c.1 }) q)
]

run-Quiet : (es : List Event) (w : Relay × Host) → All NoStart es → Quiet w → Quiet (run es w)
unfolding run
run-Quiet [] w idle q = q
run-Quiet (ev ∷ es) w idle q = run-Quiet es (step ev w) idle.1 (step-Quiet ev w idle.0 q)

pub stop-Quiet : (r : Relay) (h : Host) → Single r h.alive → Quiet (stop_session (r, h))
unfolding stop_session stop_unlocked
stop-Quiet r h s =
    let r' = record r { stopped = true } in
    (refl, refl, stop_unlocked-alive r' h (Single-same r r' h.alive refl refl s))

-- Once StopSession has returned, after any history of fewer than 2 ^ 64 events, no ffmpeg is alive
-- and none is started again before the next StartSession, whatever watchers and sleeping restarts of
-- earlier sessions are still to go on.
pub stop_session_final :
    (url : Text) (es later : List Event)
    → length es < 2 ^ 64
    → All NoStart later
    → Quiet (run later (stop_session (run es (begin url))))
unfolding new
stop_session_final url es later small idle =
    let v = run-IsSingle es (begin url) (omega arith) (begin-IsSingle url) in
    run-Quiet later (stop_session (run es (begin url))) idle
      (stop-Quiet (run es (begin url)).0 (run es (begin url)).1 v.single)
