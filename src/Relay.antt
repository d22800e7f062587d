-- ===== src/Relay.antt =====
-- internal/relay/ffmpeg.go: the ffmpeg child process. A method returns the new relay and host. The
-- host holds what the relay shares with the system and its own goroutines: the processes that are
-- alive and the watchers and restarts that wait. Whether a launch succeeds is an argument.
pub mod Steps
pub mod Single
pub mod History
pub mod Stop
pub mod Delay
mod Tests
use irl_universal_ingest.Prelude.{
  ℕ, suc, ◌+◌, ◌*◌, ◌^◌, ◌%◌, Bool, true, false, ◌&&◌, ◌||◌, not, List, [], ◌∷◌, ◌++◌, Option, none,
  some, ℤ, ◌==◌, nat_eq, text_eq, if◌then◌else◌, Text,
}
use irl_universal_ingest.Go.Strings.{codes, contains}
use irl_universal_ingest.Backoff.{millisecond, second, backoff}

abbrev pub restart_base_delay : ℕ
restart_base_delay = 500 * millisecond

abbrev pub restart_max_delay : ℕ
restart_max_delay = 30 * second

-- The time that scheduleRestart sleeps.
unfoldable pub restart_delay : ℕ → ℤ
unfolding backoff
restart_delay attempt = backoff restart_base_delay restart_max_delay attempt

-- A command, its stdin pipe and its done channel go by the number of the process.
pub record Relay : Type 0 where
  pub output_base_url : Text
  pub cmd : Option ℕ
  pub stdin_pipe : Option ℕ
  pub done : Option ℕ
  pub current_url : Text
  pub running : Bool
  pub session_id : ℕ  -- uint64
  pub stopped : Bool
  pub last_input : Text
  pub last_path : Text
  pub attempt : ℕ

pub record Process : Type 0 where
  pub pid : ℕ
  pub args : List Text

-- A goroutine of the relay: in watch, before cmd.Wait returns; at the start of scheduleRestart;
-- asleep in scheduleRestart.
pub data Task : Type 0 where
  watching : ℕ → ℕ → Task
  scheduling : ℕ → Text → Text → Task
  sleeping : ℤ → ℕ → Text → Text → Task

pub record Host : Type 0 where
  pub processes : ℕ
  pub alive : List Process
  pub tasks : List Task

-- What the system answers to StdinPipe and Start.
pub record Launch : Type 0 where
  pub pipe_ok : Bool
  pub start_ok : Bool

unfoldable pub new : Text → Relay
new output_base_url = record {
  output_base_url = output_base_url;
  cmd = none;
  stdin_pipe = none;
  done = none;
  current_url = [];
  running = false;
  session_id = 0;
  stopped = false;
  last_input = [];
  last_path = [];
  attempt = 0;
}

unfoldable pub build_output_url : Relay → Text
unfolding contains
build_output_url r =
    let sep = if contains r.output_base_url (codes "?") then codes "&" else codes "?" in
    r.output_base_url ++ (sep ++ codes "pkt_size=1316")

unfoldable pub is_pipe : Text → Bool
is_pipe input = input == [] || input == codes "pipe:0"

unfoldable pub ffmpeg_args : Text → Text → List Text
unfolding is_pipe
ffmpeg_args input target_url =
    (codes "-hide_banner"
      ∷ codes "-loglevel"
      ∷ codes "error"
      ∷ codes "-fflags"
      ∷ codes "+nobuffer+flush_packets"
      ∷ codes "-flags"
      ∷ codes "+low_delay"
      ∷ [])
    ++ ((if is_pipe input
          then codes "-probesize"
            ∷ codes "32768"
            ∷ codes "-analyzeduration"
            ∷ codes "0"
            ∷ codes "-f"
            ∷ codes "flv"
            ∷ codes "-i"
            ∷ codes "pipe:0"
            ∷ []
          else codes "-fflags"
            ∷ codes "+discardcorrupt"
            ∷ codes "-err_detect"
            ∷ codes "ignore_err"
            ∷ codes "-probesize"
            ∷ codes "500000"
            ∷ codes "-analyzeduration"
            ∷ codes "1000000"
            ∷ codes "-i"
            ∷ input
            ∷ codes "-map"
            ∷ codes "0"
            ∷ [])
        ++ (codes "-c"
            ∷ codes "copy"
            ∷ codes "-muxdelay"
            ∷ codes "0"
            ∷ codes "-flush_packets"
            ∷ codes "1"
            ∷ codes "-f"
            ∷ codes "mpegts"
            ∷ target_url
            ∷ []))

pub data StartError : Type 0 where
  pipe_failed start_failed : StartError

-- What a start answers: the stdin pipe of the new process, if it has one, or an error.
pub data Started : Type 0 where
  ok : Option ℕ → Started
  err : StartError → Started

abbrev pub next_session : ℕ → ℕ
next_session n = (n + 1) % 2 ^ 64

-- r.currentURL = targetURL
abbrev pub aimed : Relay → Relay
aimed r = record r { current_url = build_output_url r }

-- The relay once the process has started.
abbrev pub launched : Text → ℕ → Relay → Relay
launched input pid r = record (aimed r) {
  session_id = next_session r.session_id;
  cmd = some pid;
  done = some pid;
  stdin_pipe = if is_pipe input then some pid else none;
  running = true;
}

abbrev pub new_process : Text → Relay → Host → Process
new_process input r h = record { pid = h.processes; args = ffmpeg_args input (build_output_url r) }

-- The host with the process and its watcher.
abbrev pub launched_host : Text → Relay → Host → Host
launched_host input r h = record {
  processes = suc h.processes;
  alive = new_process input r h ∷ h.alive;
  tasks = watching h.processes (next_session r.session_id) ∷ h.tasks;
}

unfoldable pub start_locked : Launch → Text → Text → Relay × Host → (Relay × Host) × Started
start_locked launch input path (r, h) =
    if is_pipe input && not launch.pipe_ok
    then ((aimed r, h), err pipe_failed)
    else if not launch.start_ok
    then ((aimed r, h), err start_failed)
    else (
      (launched input h.processes r, launched_host input r h),
      ok (if is_pipe input then some h.processes else none),
    )

-- The process is gone from the host.
unfoldable pub reap : ℕ → List Process → List Process
reap pid [] = []
reap pid (p ∷ ps) = if p.pid == pid then reap pid ps else p ∷ reap pid ps

-- Waiting for `done` ends when the process has exited, by itself or by Kill.
unfoldable pub stop_unlocked : Relay × Host → Relay × Host
unfolding reap
stop_unlocked (r, h) = (
  record r {
    stdin_pipe = none;
    cmd = none;
    done = elim r.cmd [ none ↦ r.done | some _ ↦ none ];
    running = false;
    current_url = [];
  },
  elim r.cmd [ none ↦ h | some pid ↦ record h { alive = reap pid h.alive } ],
)

unfoldable pub start_session : Launch → Text → Text → Relay × Host → (Relay × Host) × Started
unfolding stop_unlocked start_locked
start_session launch input path (r, h) =
    let (r', h') = if r.running then stop_unlocked (r, h) else (r, h) in
    start_locked launch input path
      (record r' { stopped = false; last_input = input; last_path = path; attempt = 0 }, h')

unfoldable pub stop_session : Relay × Host → Relay × Host
unfolding stop_unlocked
stop_session (r, h) = stop_unlocked (record r { stopped = true }, h)

-- watch once cmd.Wait has returned: the relay, and the call of scheduleRestart if it makes one.
unfoldable pub watch : ℕ → Relay → Relay × Option (Text × Text)
watch my_session r =
    let stale = not (r.session_id == my_session) in
    let r' = if stale then r else record r { running = false } in
    (r', if stale || r.stopped then none else some (r.last_input, r.last_path))

-- scheduleRestart up to its sleep, and its end.
unfoldable pub schedule_restart : Relay → Relay × ℤ
unfolding restart_delay
schedule_restart r = (record r { attempt = r.attempt + 1 }, restart_delay r.attempt)

unfoldable pub finish_restart : Launch → ℕ → Text → Text → Relay × Host → Relay × Host
unfolding start_locked
finish_restart launch my_session input path (r, h) =
    if r.stopped || not (r.session_id == my_session)
    then (r, h)
    else (start_locked launch input path (r, h)).0

unfoldable pub current_url : Relay → Text
current_url r = r.current_url

unfoldable pub is_running : Relay → Bool
is_running r = r.running
