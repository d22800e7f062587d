-- ===== src/Rist/Receiver.antt =====
-- internal/ingest/rist/server.go: the ristreceiver process. The server's fields about the process,
-- and the system's side: the processes that are alive, those that were sent a kill signal, and the
-- goroutines that reap them. What the system answers to a start is an argument.
pub mod Steps
pub mod Orphan
pub mod Close
use irl_universal_ingest.Prelude.{
  ℕ, suc, ◌+◌, ◌*◌, ◌<◌, Bool, true, false, ◌&&◌, ◌||◌, not, List, [], ◌∷◌, ◌++◌, Option, none,
  some, ℤ, ltb, Text, text_eq, nat_eq, ◌==◌, if◌then◌else◌,
}
use irl_universal_ingest.Go.Strings.{codes}
use irl_universal_ingest.Go.Clock.{Time, since, zero_time}
use irl_universal_ingest.Backoff.{millisecond, second, backoff}
use irl_universal_ingest.Health.{Tracker, set_unhealthy, clear_unhealthy}

abbrev pub restart_base_delay : ℕ
restart_base_delay = 500 * millisecond

abbrev pub restart_max_delay : ℕ
restart_max_delay = 30 * second

abbrev pub min_forced_restart_gap : ℕ
min_forced_restart_gap = 1 * second

-- `cancelled` is the state of the context, and a command goes by the number of its process.
pub record Supervisor : Type 0 where
  pub binary_path : Text
  pub cmd : Option ℕ
  pub cancelled : Bool
  pub stopping : Bool
  pub restart_attempt : ℕ
  pub last_forced_restart : Time
  pub health : Option Tracker

-- The goroutine reapProcess: before cmd.Wait returns; before it tears the stream down; asleep.
pub data Reaper : Type 0 where
  waiting : ℕ → Reaper
  noticed : Text → Reaper
  sleeping : ℤ → Text → Reaper

pub record System : Type 0 where
  pub processes : ℕ
  pub alive : List ℕ
  pub killed : List ℕ
  pub reapers : List Reaper

-- What NewServer sets up.
unfoldable pub new_supervisor : Option Tracker → Supervisor
new_supervisor health = record {
  binary_path = [];
  cmd = none;
  cancelled = false;
  stopping = false;
  restart_attempt = 0;
  last_forced_restart = zero_time;
  health = health;
}

-- The answers to StdoutPipe, StderrPipe and Start: none, or the text of an error.
pub record Launch : Type 0 where
  pub stdout_error : Option Text
  pub stderr_error : Option Text
  pub start_error : Option Text

-- The error that startProcessLocked returns; a wrapped error is prefixed.
abbrev pub launch_error : Launch → Option Text
launch_error l = elim l.stdout_error [
  | some e ↦ some (codes "creating rist stdout pipe: " ++ e)
  | none ↦ elim l.stderr_error [
    | some e ↦ some (codes "creating rist stderr pipe: " ++ e)
    | none ↦ elim l.start_error [
      | some e ↦ some (codes "starting ristreceiver: " ++ e)
      | none ↦ none
    ]
  ]
]

-- setUnhealthy and clearUnhealthy: without a tracker they do nothing.
abbrev pub set_health : Text → Option Tracker → Option Tracker
set_health reason none = none
set_health reason (some t) = some (set_unhealthy (codes "ristreceiver") reason t)

abbrev pub clear_health : Option Tracker → Option Tracker
clear_health none = none
clear_health (some t) = some (clear_unhealthy (codes "ristreceiver") t)

abbrev pub launched : System → System
launched y = record y {
  processes = suc y.processes;
  alive = y.processes ∷ y.alive;
  reapers = waiting y.processes ∷ y.reapers;
}

unfoldable pub start_process : Launch → Supervisor × System → (Supervisor × System) × Option Text
start_process l (s, y) = elim (launch_error l) [
  | some e ↦ ((s, y), some e)
  | none ↦ ((record s { cmd = some y.processes; health = clear_health s.health }, launched y), none)
]

-- Start, for the answer of exec.LookPath: the error is that of the process.
unfoldable pub start :
    Option Text → Launch → Supervisor × System → (Supervisor × System) × Option Text
unfolding start_process
start none l w = (w, none)
start (some bin) l (s, y) =
    let ((s1, y1), e) = start_process l (record s { binary_path = bin }, y) in
    elim e [
      | none ↦ ((s1, y1), none)
      | some reason ↦ ((record s1 { health = set_health reason s1.health }, y1), some reason)
    ]

-- A start whose error is only logged.
unfoldable pub start_or_report : Launch → Supervisor × System → Supervisor × System
unfolding start_process
start_or_report l w =
    let ((s1, y1), e) = start_process l w in
    elim e [
      | none ↦ (s1, y1)
      | some reason ↦ (record s1 { health = set_health reason s1.health }, y1)
    ]

-- Process.Kill: the signal is sent; the process exits later.
abbrev pub kill : Option ℕ → System → System
kill none y = y
kill (some pid) y = record y { killed = pid ∷ y.killed }

unfoldable pub restart_receiver : Time → Launch → Supervisor × System → Supervisor × System
unfolding start_or_report
restart_receiver now l (s, y) =
    if ltb (since now s.last_forced_restart) min_forced_restart_gap
    then (s, y)
    else let s1 = record s { last_forced_restart = now; cmd = none } in
      let y1 = kill s.cmd y in
      if s.cancelled || s.binary_path == [] then (s1, y1) else start_or_report l (s1, y1)

abbrev pub is_current : ℕ → Option ℕ → Bool
is_current pid none = false
is_current pid (some p) = p == pid

-- reapProcess once cmd.Wait has returned: whether it goes on, and with which binary.
unfoldable pub notice_exit : ℕ → Supervisor → Supervisor × Option Text
notice_exit pid s =
    let current = is_current pid s.cmd in
    (
      if current then record s { cmd = none } else s,
      if not current || s.stopping then none else some s.binary_path,
    )

-- The attempt is counted, and the delay is computed from the count before.
unfoldable pub count_attempt : Supervisor → Supervisor × ℤ
unfolding backoff
count_attempt s = (
  record s { restart_attempt = suc s.restart_attempt },
  backoff restart_base_delay restart_max_delay s.restart_attempt,
)

-- reapProcess after its sleep.
unfoldable pub finish_restart : Launch → Text → Supervisor × System → Supervisor × System
unfolding start_or_report
finish_restart l bin (s, y) =
    if s.cancelled || s.stopping || bin == [] then (s, y) else start_or_report l (s, y)

-- Close up to its wait for the goroutines. Cancelling the context kills every process that was
-- started under it (exec.CommandContext).
unfoldable pub close_receiver : Supervisor × System → Supervisor × System
close_receiver (s, y) = (
  record s { stopping = true; cancelled = true },
  kill s.cmd (record y { killed = y.alive ++ y.killed }),
)
