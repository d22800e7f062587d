-- ===== src/Arbitration/Steps.antt =====
-- The manager among the goroutines that use it. Each method holds the mutex from end to end, so a
-- history is a list of events, each of which runs one method; only the watchdog takes two: the
-- runtime fires the timer, and later the goroutine that it started runs handleTimeout.
use irl_universal_ingest.Prelude.{
  [], ℕ, pick, List, ◌∷◌, Option, none, some, ℤ, Text, leb, if◌then◌else◌,
}
use irl_universal_ingest.Go.Clock.{Time}
use irl_universal_ingest.Go.Floats.{Floats}
use irl_universal_ingest.Arbitration.{
  Manager, Timer, Release, try_acquire, touch, add_bytes, set_rtt, set_bitrate, release, decay_tick,
  handle_timeout,
}

-- `fired` holds the calls of handleTimeout that wait for the mutex.
pub record World (F E : Type 0) : Type 0 where
  pub manager : Manager F E
  pub env : E
  pub fired : List (Text × Text)

pub data Event (F : Type 0) : Type 0 where
  acquires : Time → Text → Text → Event F
  touches : Time → Event F
  receives : Time → ℕ → Event F
  measures : F → Event F
  reports : Time → ℤ → Event F
  releases : Release → Event F
  ticks : Time → Event F
  fires : Time → Event F
  times_out : ℕ → Event F

-- The runtime fires a timer that is due; it is spent until it is reset.
abbrev pub fire_due : Time → Timer → Option Time → Option (Timer × (Text × Text))
fire_due now t none = none
fire_due now t (some due) =
    if leb due now then some (record t { due = none }, (t.protocol, t.path)) else none

abbrev pub fire_timer : Time → Option Timer → Option (Timer × (Text × Text))
fire_timer now none = none
fire_timer now (some t) = fire_due now t t.due

unfoldable pub fire : {F E : Type 0} → Time → World F E → World F E
fire now w = elim (fire_timer now w.manager.timer) [
  | none ↦ w
  | some (t, call) ↦ record w {
    manager = record w.manager { timer = some t };
    fired = call ∷ w.fired;
  }
]

module _ {F E : Type 0} where
  abbrev pub with_manager : World F E → Manager F E → World F E
  with_manager w m = record w { manager = m }

  abbrev pub start : Manager F E → E → World F E
  start m e = record { manager = m; env = e; fired = [] }

  abbrev pub with_both : World F E → Manager F E × E → World F E
  with_both w (m, e) = record w { manager = m; env = e }

  unfoldable pub time_out : ℕ → World F E → World F E
  unfolding handle_timeout
  time_out n w = elim (pick n w.fired) [
    | none ↦ w
    | some (call, rest) ↦
        with_both (record w { fired = rest }) (handle_timeout call.0 call.1 (w.manager, w.env))
  ]

  module _ ⦃fl : Floats F⦄ where
    unfoldable pub step : Event F → World F E → World F E
    step (acquires now protocol path) w = with_manager w (try_acquire now protocol path w.manager).0
    step (touches now) w = with_manager w (touch now w.manager)
    step (receives now n) w = with_manager w (add_bytes now n w.manager)
    step (measures x) w = with_manager w (set_rtt x w.manager)
    step (reports now kbps) w = with_manager w (set_bitrate now kbps w.manager)
    step (releases r) w = with_both w (release r (w.manager, w.env))
    step (ticks now) w = with_manager w (decay_tick now w.manager).0
    step (fires now) w = fire now w
    step (times_out n) w = time_out n w

    unfoldable pub run : List (Event F) → World F E → World F E
    run [] w = w
    run (e ∷ es) w = run es (step e w)
