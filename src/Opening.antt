-- ===== src/Opening.antt =====
-- What happens between the manager's TryAcquire and the relay's StartSession. Each of the two holds
-- its own mutex, and the handlers that call one after the other (rtmp/server.go, srt/webhook.go and
-- rist/server.go, below internal/ingest) hold neither in between: the calls of other goroutines may
-- come there.
use irl_universal_ingest.Prelude.{ℕ, List, [], ◌∷◌, none, some, ℤ, Text}
use irl_universal_ingest.Go.Clock.{Time}
use irl_universal_ingest.Go.Floats.{Floats}
use irl_universal_ingest.Arbitration.{
  Manager, Release, try_acquire, touch, add_bytes, set_rtt, set_bitrate, release, decay_tick,
  handle_timeout,
}
use irl_universal_ingest.Arbitration.Steps.{fire_timer}
use irl_universal_ingest.Relay.{Relay, Host, Launch, start_session, stop_session}
use irl_universal_ingest.Relay.Steps.{exits, proceeds}
use irl_universal_ingest.Relay.Steps as RelaySteps

-- The manager, and the relay with its host.
abbrev pub Both : Type 0 → Type 0
Both F = Manager F (Relay × Host) × (Relay × Host)

-- What the system answers to a launch, and what others do between the two calls.
pub record Opening (F : Type 0) : Type 0 where
  pub launch : Launch
  pub between : Both F → Both F

-- Nobody else calls.
abbrev pub alone : {F : Type 0} → Launch → Opening F
alone launch = record { launch = launch; between = λ x. x }

-- A call that holds a mutex from end to end, or a step of one of the relay's goroutines.
pub data Call : Type 0 where
  acquires : Time → Text → Text → Call
  touches : Time → Call
  receives : Time → ℕ → Call
  measures : ℤ → Call
  reports : Time → ℤ → Call
  ticks : Time → Call
  fires : Time → Call
  releases : Release → Call
  times_out : Text → Text → Call
  relay_starts : Launch → Text → Text → Call
  relay_stops : Call
  relay_exits : ℕ → Call
  relay_proceeds : ℕ → Launch → Call

module _ {F : Type 0} ⦃fl : Floats F⦄ where
  -- A timer that fires is spent; the call of handleTimeout that it makes comes later, if it does.
  unfoldable pub spend : Time → Manager F (Relay × Host) → Manager F (Relay × Host)
  spend now m = elim (fire_timer now m.timer) [ none ↦ m | some c ↦ record m { timer = some c.0 } ]

  unfoldable pub call : Call → Both F → Both F
  unfolding spend
  call (acquires now protocol path) (m, r) = ((try_acquire now protocol path m).0, r)
  call (touches now) (m, r) = (touch now m, r)
  call (receives now n) (m, r) = (add_bytes now n m, r)
  call (measures ms) (m, r) = (set_rtt (fl.of_int ms) m, r)
  call (reports now kbps) (m, r) = (set_bitrate now kbps m, r)
  call (ticks now) (m, r) = ((decay_tick now m).0, r)
  call (fires now) (m, r) = (spend now m, r)
  call (releases x) (m, r) = release x (m, r)
  call (times_out protocol path) (m, r) = handle_timeout protocol path (m, r)
  call (relay_starts launch input path) (m, r) = (m, (start_session launch input path r).0)
  call relay_stops (m, r) = (m, stop_session r)
  call (relay_exits pid) (m, r) = (m, RelaySteps.step (exits pid) r)
  call (relay_proceeds n launch) (m, r) = (m, RelaySteps.step (proceeds n launch) r)

  unfoldable pub run_calls : List Call → Both F → Both F
  unfolding call
  run_calls [] x = x
  run_calls (c ∷ cs) x = run_calls cs (call c x)

  abbrev pub opening : Launch → List Call → Opening F
  opening launch calls = record { launch = launch; between = run_calls calls }
