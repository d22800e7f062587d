-- ===== src/Rist/Server/Heartbeat.antt =====
-- The heartbeat's answer to silence.
use irl_universal_ingest.Prelude.{
  ◌*◌, ◌<◌, ◌≤◌, ◌≡◌, true, false, none, some, text_eq, text_beq_iff, arith, if◌then◌else◌,
}
use irl_universal_ingest.Go.Strings.{to_upper}
use irl_universal_ingest.Go.Clock.{Time, since}
use irl_universal_ingest.Backoff.{second}
use irl_universal_ingest.Arbitration.{Release, touch, release, release_slot, contains}
use irl_universal_ingest.Arbitration.Exclusion.{holder}
use irl_universal_ingest.Relay.{stop_session, stop_unlocked, is_running}
use irl_universal_ingest.Rist.Server.{World, stop_active_stream, heartbeat_tick}

module _ {F : Type 0} where
  -- While the server is active, a tick at most three seconds after the last line touches the
  -- watchdog if ffmpeg runs; one at most five seconds after it changes nothing; a later one makes
  -- the server inactive, stops the relay for good, and frees the slot if the session has it and its
  -- release closure is unspent.
  pub heartbeat_tick_silence :
      (now : Time) (w : World F)
      → w.stream.active ≡ true
      → let silence = since now w.stream.last_activity in
        let v = heartbeat_tick now w in
        (silence ≤ 3 * second
          → v ≡ (if is_running w.relay.0 then record w { manager = touch now w.manager } else w))
        × (3 * second < silence → silence ≤ 5 * second → v ≡ w)
        × (5 * second < silence
            → (v.stream.active ≡ false)
              × (v.relay.0.stopped ≡ true)
              × (is_running v.relay.0 ≡ false)
              × ((r : Release)
                  → w.stream.active_slot ≡ some r
                  → contains r.session w.manager.released ≡ false
                  → to_upper r.protocol ≡ r.protocol
                  → holder w.manager ≡ some (r.protocol, r.path)
                  → holder v.manager ≡ none))
  unfolding heartbeat_tick stop_active_stream stop_session stop_unlocked is_running release
      release_slot
  heartbeat_tick_silence now w active = (
    ground arith,
    ground arith,
    λ late. (
      ground arith,
      ground arith,
      ground arith,
      λ r e u h k. ground (arith, text_beq_iff r.protocol r.protocol, text_beq_iff r.path r.path),
    ),
  )
