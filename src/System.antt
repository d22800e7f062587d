-- ===== src/System.antt =====
-- cmd/server/main.go: the adapters on one manager and one relay. An event is one handler from its
-- first acquisition of a mutex to its end, a goroutine between two of its waits, the runtime, or any
-- other single call; a history is a list of events in any order. An event that may open a session has
-- the calls that other goroutines make between its TryAcquire and its StartSession; `others` makes
-- the calls that these leave to be made later.
pub mod Sound
pub mod Gaps
pub mod Adapters
pub mod Idle
pub mod Shutdown
mod Tests
use irl_universal_ingest.Prelude.{ℕ, Bool, List, [], ◌∷◌, Option, none, some, ℤ, Text, pick}
use irl_universal_ingest.Go.Clock.{Time}
use irl_universal_ingest.Go.Floats.{Floats}
use irl_universal_ingest.Arbitration.{
  Manager, Release, Timer, new_manager, add_bytes, touch, decay_tick, handle_timeout,
}
use irl_universal_ingest.Arbitration.Steps.{fire_timer}
use irl_universal_ingest.Opening.{Opening, Call, call, opening}
use irl_universal_ingest.Relay.{Relay, Host, Launch, stop_session}
use irl_universal_ingest.Relay.Steps.{begin, exits, proceeds}
use irl_universal_ingest.Relay.Steps as RelaySteps
use irl_universal_ingest.Rtmp.Stream.{flush_pending}
use irl_universal_ingest.Rtmp.Connection.{
  Shared, Admission, unauthorized, occupied, failed, streams, meter_of, open_conn, close_conn,
}
use irl_universal_ingest.Srt.Request.{Decoders, Request, serve_http}
use irl_universal_ingest.Srt.Webhook.{WebhookHandler}
use irl_universal_ingest.Srt.Webhook as SrtWebhook
use irl_universal_ingest.Rist.Log.{Parsers}
use irl_universal_ingest.Rist.Options.{ServerOptions}
use irl_universal_ingest.Rist.Receiver.{Supervisor, System}
use irl_universal_ingest.Rist.Receiver as RistReceiver
use irl_universal_ingest.Rist.Server.{Stream, handle_log_line, heartbeat_tick, tear_down}
use irl_universal_ingest.Rist.Server as RistServer

-- `calls` holds the calls of handleTimeout that the timer has made, `conns` the deferred releases of
-- the RTMP connections that stream.
pub record World (F : Type 0) : Type 0 where
  pub allowed_paths : List Text
  pub manager : Manager F (Relay × Host)
  pub relay : Relay × Host
  pub calls : List (Text × Text)
  pub conns : List Release
  pub srt : WebhookHandler
  pub opts : ServerOptions
  pub rist : Stream
  pub receiver : Supervisor × System

pub data Event : Type 0 where
  rtmp_opens : Time → Launch → List Call → Option Text → Event
  rtmp_flushes : Time → ℕ → Event
  rtmp_counts : Time → ℕ → Event
  rtmp_ends : ℕ → Event
  srt_serves : Time → Launch → List Call → Request → Event
  rist_reads : Time → Launch → List Call → RistReceiver.Launch → Text → Event
  rist_beats : Time → Event
  rist_exits : Event
  fires : Time → Event
  times_out : ℕ → Event
  ticks : Time → Event
  relay_exits : ℕ → Event
  relay_proceeds : ℕ → Launch → Event
  relay_stops : Event
  others : Call → Event

-- The callback that main gives to the manager.
abbrev pub stop_relay : Text → Text → Relay × Host → Relay × Host
stop_relay protocol path w = stop_session w

abbrev pub remember : Admission → List Release → List Release
remember (streams r p) conns = r ∷ conns
remember unauthorized conns = conns
remember occupied conns = conns
remember (failed e) conns = conns

module _ {F : Type 0} where
  -- What main sets up, for a configuration and its adapters' state.
  unfoldable pub boot :
      ℤ → Text → List Text → WebhookHandler → ServerOptions → Stream → Supervisor × System → World F
  boot timeout url allowed srt opts rist receiver = record {
    allowed_paths = allowed;
    manager = new_manager timeout (some stop_relay);
    relay = begin url;
    calls = [];
    conns = [];
    srt = srt;
    opts = opts;
    rist = rist;
    receiver = receiver;
  }

  abbrev pub rtmp_view : World F → Shared F
  rtmp_view w = record { manager = w.manager; relay = w.relay }

  abbrev pub from_rtmp : Shared F → World F → World F
  from_rtmp u w = record w { manager = u.manager; relay = u.relay }

  abbrev pub srt_view : World F → SrtWebhook.World F
  srt_view w = record { handler = w.srt; manager = w.manager; relay = w.relay }

  abbrev pub from_srt : SrtWebhook.World F → World F → World F
  from_srt u w = record w { srt = u.handler; manager = u.manager; relay = u.relay }

  abbrev pub rist_view : World F → RistServer.World F
  rist_view w = record {
    opts = w.opts;
    stream = w.rist;
    manager = w.manager;
    relay = w.relay;
    receiver = w.receiver;
  }

  abbrev pub from_rist : RistServer.World F → World F → World F
  from_rist u w = record w {
    rist = u.stream;
    manager = u.manager;
    relay = u.relay;
    receiver = u.receiver;
  }

  unfoldable pub rtmp_open : Time → Opening F → Option Text → World F → World F
  rtmp_open now o url w =
      let (u, admission) = open_conn w.allowed_paths now o url (rtmp_view w) in
      record (from_rtmp u w) { conns = remember admission w.conns }

  unfoldable pub rtmp_end : ℕ → World F → World F
  rtmp_end n w = elim (pick n w.conns) [
    | none ↦ w
    | some (r, rest) ↦ record (from_rtmp (close_conn r (rtmp_view w)) w) { conns = rest }
  ]

  unfoldable pub fire : Time → World F → World F
  fire now w = elim (fire_timer now w.manager.timer) [
    | none ↦ w
    | some (t, call) ↦ record w {
      manager = record w.manager { timer = some t };
      calls = call ∷ w.calls;
    }
  ]

  unfoldable pub time_out : ℕ → World F → World F
  time_out n w = elim (pick n w.calls) [
    | none ↦ w
    | some (call, rest) ↦
        let (m, back) = handle_timeout call.0 call.1 (w.manager, w.relay) in
        record w { manager = m; relay = back; calls = rest }
  ]

  module _ ⦃fl : Floats F⦄ (ps : Parsers F) (d : Decoders) where
    unfoldable pub step : Event → World F → World F
    unfolding rtmp_open rtmp_end fire time_out
    step (rtmp_opens now launch calls url) w = rtmp_open now (opening launch calls) url w
    step (rtmp_flushes now n) w = record w {
      manager = touch now (flush_pending meter_of now n w.manager);
    }
    step (rtmp_counts now n) w = record w { manager = flush_pending meter_of now n w.manager }
    step (rtmp_ends n) w = rtmp_end n w
    step (srt_serves now launch calls r) w =
        from_srt (serve_http d now (opening launch calls) r (srt_view w)).0 w
    step (rist_reads now launch calls relaunch line) w =
        from_rist (handle_log_line ps now (opening launch calls) relaunch line (rist_view w)) w
    step (rist_beats now) w = from_rist (heartbeat_tick now (rist_view w)) w
    step rist_exits w = from_rist (tear_down (rist_view w)).0 w
    step (fires now) w = fire now w
    step (times_out n) w = time_out n w
    step (ticks now) w = record w { manager = (decay_tick now w.manager).0 }
    step (relay_exits pid) w = record w { relay = RelaySteps.step (exits pid) w.relay }
    step (relay_proceeds n launch) w = record w {
      relay = RelaySteps.step (proceeds n launch) w.relay;
    }
    step relay_stops w = record w { relay = stop_session w.relay }
    step (others c) w =
        let (m, r) = call c (w.manager, w.relay) in record w { manager = m; relay = r }

    unfoldable pub run : List Event → World F → World F
    run [] w = w
    run (ev ∷ es) w = run es (step ev w)
