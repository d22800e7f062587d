-- ===== src/Rist/Receiver/Steps.antt =====
-- The receiver's processes among the goroutines that reap them and the handlers that restart them.
use irl_universal_ingest.Prelude.{
  ℕ, Bool, false, ◌||◌, List, [], ◌∷◌, Option, none, some, nat_eq, ◌==◌, if◌then◌else◌, Text, pick,
}
use irl_universal_ingest.Go.Clock.{Time}
use irl_universal_ingest.Rist.Receiver.{
  Supervisor, System, Reaper, waiting, noticed, sleeping, Launch, start, restart_receiver,
  notice_exit, count_attempt, finish_restart, close_receiver,
}

pub data Event : Type 0 where
  starts : Option Text → Launch → Event
  restarts : Time → Launch → Event
  exits : ℕ → Event
  proceeds : ℕ → Launch → Event
  closes : Event

unfoldable pub remove : ℕ → List ℕ → List ℕ
remove n [] = []
remove n (k ∷ ks) = if k == n then remove n ks else k ∷ remove n ks

unfoldable pub member : ℕ → List ℕ → Bool
member n [] = false
member n (k ∷ ks) = k == n || member n ks

abbrev pub add_reaper : Reaper → System → System
add_reaper g y = record y { reapers = g ∷ y.reapers }

abbrev pub after_notice : System → Supervisor × Option Text → Supervisor × System
after_notice y (s, none) = (s, y)
after_notice y (s, some bin) = (s, add_reaper (noticed bin) y)

-- A reaper goes on. cmd.Wait blocks while the process lives; the teardown of the stream is not a
-- matter of the processes.
unfoldable pub proceed : Launch → Reaper → Supervisor × System → Supervisor × System
unfolding member
proceed l (waiting pid) (s, y) =
    if member pid y.alive
    then (s, add_reaper (waiting pid) y)
    else after_notice y (notice_exit pid s)
proceed l (noticed bin) (s, y) =
    if s.cancelled
    then (s, y)
    else let (s1, delay) = count_attempt s in (s1, add_reaper (sleeping delay bin) y)
proceed l (sleeping delay bin) (s, y) = finish_restart l bin (s, y)

unfoldable pub step : Event → Supervisor × System → Supervisor × System
unfolding remove
step (starts bin l) w = (start bin l w).0
step (restarts now l) w = restart_receiver now l w
step (exits pid) (s, y) = (s, record y { alive = remove pid y.alive })
step (proceeds n l) (s, y) = elim (pick n y.reapers) [
  | none ↦ (s, y)
  | some (g, rest) ↦ proceed l g (s, record y { reapers = rest })
]
step closes w = close_receiver w

unfoldable pub run : List Event → Supervisor × System → Supervisor × System
run [] w = w
run (ev ∷ es) w = run es (step ev w)
