-- ===== src/Relay/Steps.antt =====
-- The relay among its goroutines. A history is a list of events: the callers start and stop
-- sessions, processes exit, and the goroutines go on, each of them from one acquisition of the
-- mutex to its release.
use irl_universal_ingest.Prelude.{
  ℕ, Bool, true, false, List, [], ◌∷◌, Option, none, some, Text, if◌then◌else◌, ◌==◌, nat_eq, pick,
}
use irl_universal_ingest.Relay.{
  Relay, Host, Task, watching, scheduling, sleeping, Process, Launch, reap, new, start_session,
  stop_session, watch, schedule_restart, finish_restart,
}

pub data Event : Type 0 where
  starts : Launch → Text → Text → Event
  stops : Event
  exits : ℕ → Event
  proceeds : ℕ → Launch → Event

unfoldable pub is_alive : ℕ → List Process → Bool
is_alive pid [] = false
is_alive pid (p ∷ ps) = if p.pid == pid then true else is_alive pid ps

abbrev pub add_task : Task → Host → Host
add_task t h = record h { tasks = t ∷ h.tasks }

abbrev pub after_watch : ℕ → Host → Relay × Option (Text × Text) → Relay × Host
after_watch my_session h (r, none) = (r, h)
after_watch my_session h (r, some (input, path)) =
    (r, add_task (scheduling my_session input path) h)

-- A goroutine that was taken from the tasks goes on. cmd.Wait blocks while the process lives.
unfoldable pub proceed : Launch → Task → Relay × Host → Relay × Host
unfolding is_alive
proceed launch (watching pid my_session) (r, h) =
    if is_alive pid h.alive
    then (r, add_task (watching pid my_session) h)
    else after_watch my_session h (watch my_session r)
proceed launch (scheduling my_session input path) (r, h) =
    let (r', delay) = schedule_restart r in (r', add_task (sleeping delay my_session input path) h)
proceed launch (sleeping delay my_session input path) (r, h) =
    finish_restart launch my_session input path (r, h)

unfoldable pub step : Event → Relay × Host → Relay × Host
step (starts launch input path) w = (start_session launch input path w).0
step stops w = stop_session w
step (exits pid) (r, h) = (r, record h { alive = reap pid h.alive })
step (proceeds n launch) (r, h) = elim (pick n h.tasks) [
  | none ↦ (r, h)
  | some (t, rest) ↦ proceed launch t (r, record h { tasks = rest })
]

unfoldable pub run : List Event → Relay × Host → Relay × Host
run [] w = w
run (ev ∷ es) w = run es (step ev w)

-- A new relay on a host that runs nothing for it.
abbrev pub begin : Text → Relay × Host
begin url = (new url, record { processes = 0; alive = []; tasks = [] })
