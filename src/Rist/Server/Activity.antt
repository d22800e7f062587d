-- ===== src/Rist/Server/Activity.antt =====
-- What a line of traffic does to the slot.
use irl_universal_ingest.Opening.{alone}
use irl_universal_ingest.Prelude.{
  ℤ, text_beq, ◌≡◌, ◌⊎◌, refl, ap, ◌∙◌, true, false, List, [], ◌∷◌, none, some, pos, ltb_ℤ, Text,
  text_eq, text_beq_iff, arith, Option-cases, inl, inr, if◌then◌else◌,
}
use irl_universal_ingest.Go.Strings.{codes, to_upper, upper_byte}
use irl_universal_ingest.Go.Clock.{Time}
use irl_universal_ingest.Go.Floats.{Floats}
use irl_universal_ingest.Auth.{normalize_path, is_allowed}
use irl_universal_ingest.Arbitration.{
  SlotInfo, try_acquire, touch, set_rtt, set_bitrate, active_info, release, release_slot, contains,
}
use irl_universal_ingest.Arbitration.Exclusion.{holder}
use irl_universal_ingest.Relay.{
  Relay, Host, is_pipe, ok, err, start_session, start_locked, stop_session, is_running,
}
use irl_universal_ingest.Relay as FfmpegRelay
use irl_universal_ingest.Rist.Log.{StatsMetric}
use irl_universal_ingest.Rist.Receiver.{Launch}
use irl_universal_ingest.Rist.Server.{
  World, Stream, player_url, stream_path, raw_path, resync, claim, report, accept, handle_activity,
}

-- The path does not depend on the time.
raw_path-last_activity :
    (allowed : List Text) (s : Stream) (now : Time)
    → raw_path allowed (record s { last_activity = now }) ≡ raw_path allowed s
unfolding raw_path
raw_path-last_activity [] s now = refl
raw_path-last_activity (p ∷ []) s now = refl
raw_path-last_activity (p ∷ q ∷ ps) s now = refl

stream_path-last_activity :
    (allowed : List Text) (s : Stream) (now : Time)
    → stream_path allowed (record s { last_activity = now }) ≡ stream_path allowed s
unfolding stream_path
stream_path-last_activity allowed s now = ap normalize_path (raw_path-last_activity allowed s now)

-- ffmpeg reads from the player's URL, not from its standard input.
url_is_no_pipe : (port : ℤ) → is_pipe (player_url port) ≡ false
unfolding is_pipe player_url text_beq
url_is_no_pipe port = refl

module _ {F : Type 0} ⦃fl : Floats F⦄ where
  report-holder :
      (now : Time) (metric : StatsMetric F) (w : World F)
      → (holder (report now metric w).manager ≡ holder w.manager)
        × ((report now metric w).relay ≡ w.relay)
        × ((report now metric w).stream ≡ w.stream)
  unfolding report touch set_rtt set_bitrate
  report-holder now metric w = (ground arith, ground arith, ground arith)

  -- An attempt to claim the slot for an inactive server.
  claim-holder :
      (now : Time) (launch : FfmpegRelay.Launch) (path : Text) (w : World F)
      → contains w.manager.sessions w.manager.released ≡ false
      → let (v, goes_on) = claim now (alone launch) path w in
        ((h : Text × Text)
          → holder w.manager ≡ some h
          → (goes_on ≡ false) × (v.relay ≡ w.relay) × (v.manager ≡ w.manager))
        × (holder w.manager ≡ none
            → ((launch.start_ok ≡ true)
                × (goes_on ≡ true)
                × (v.stream.active ≡ true)
                × (is_running v.relay.0 ≡ true)
                × (holder v.manager ≡ some (codes "RIST", path)))
              ⊎ ((launch.start_ok ≡ false)
                  × (goes_on ≡ false)
                  × (v.stream.active ≡ w.stream.active)
                  × (holder v.manager ≡ none)))
  unfolding claim try_acquire start_session start_locked is_running release release_slot to_upper
      upper_byte
  claim-holder now launch path w fresh = (
    λ h k. (ground arith, ground arith, ground arith),
    λ free. ground (
      arith,
      url_is_no_pipe w.opts.player_port,
      text_beq_iff path path,
      text_beq_iff (codes "RIST") (codes "RIST"),
    ),
  )

  accept_stops :
      (now : Time) (launch : FfmpegRelay.Launch) (path : Text) (metric : StatsMetric F)
      (w : World F)
      → w.stream.active ≡ false
      → (claim now (alone launch) path w).1 ≡ false
      → accept now (alone launch) path metric w ≡ (claim now (alone launch) path w).0
  unfolding accept
  accept_stops now launch path metric w idle stops = simp (accept, idle, stops) refl

  accept_goes :
      (now : Time) (launch : FfmpegRelay.Launch) (path : Text) (metric : StatsMetric F)
      (w : World F)
      → w.stream.active ≡ false
      → (claim now (alone launch) path w).1 ≡ true
      → accept now (alone launch) path metric w
        ≡ report now metric (claim now (alone launch) path w).0
  unfolding accept
  accept_goes now launch path metric w idle goes = simp (accept, idle, goes) refl

  accept-holder :
      (now : Time) (launch : FfmpegRelay.Launch) (path : Text) (metric : StatsMetric F)
      (w : World F)
      → contains w.manager.sessions w.manager.released ≡ false
      → w.stream.active ≡ false
      → let v = accept now (alone launch) path metric w in
        ((h : Text × Text)
          → holder w.manager ≡ some h
          → (v.relay ≡ w.relay) × (v.manager ≡ w.manager))
        × (holder w.manager ≡ none
            → ((launch.start_ok ≡ true)
                × (v.stream.active ≡ true)
                × (is_running v.relay.0 ≡ true)
                × (holder v.manager ≡ some (codes "RIST", path)))
              ⊎ ((launch.start_ok ≡ false) × (v.stream.active ≡ false) × (holder v.manager ≡ none)))
  accept-holder now launch path metric w fresh idle =
      let (other, free) = claim-holder now launch path w fresh in
      let (same, relay, stream) = report-holder now metric (claim now (alone launch) path w).0 in
      let stopped = accept_stops now launch path metric w idle in
      let went = accept_goes now launch path metric w idle in
      (
        λ h k. let (stops, r, m) = other h k in (rw (stopped stops) r, rw (stopped stops) m),
        λ k. elim (free k) [
          | inl (runs, goes, active, running, held) ↦ inl (
            runs,
            rw (went goes) (rw stream active),
            rw (went goes) (rw relay running),
            rw (went goes) (same ∙ held),
          )
          | inr (fails, stops, active, open_slot) ↦
              inr (fails, rw (stopped stops) (active ∙ idle), rw (stopped stops) open_slot)
        ],
      )

  resync_held : (w : World F) (s : SlotInfo F) → w.manager.active_slot ≡ some s → resync w ≡ w
  unfolding resync active_info
  resync_held w s e = simp (resync, e) refl

  resync_free :
      (w : World F)
      → w.manager.active_slot ≡ none
      → ((resync w).manager ≡ w.manager) × ((resync w).stream.active ≡ false)
  unfolding resync active_info
  resync_free w e = (ground arith, ground arith)

  -- handleActivity for an allowed stream.
  handle_activity_allowed :
      (now : Time) (launch : FfmpegRelay.Launch) (relaunch : Launch) (metric : StatsMetric F)
      (w : World F)
      → let path = stream_path w.opts.allowed_paths w.stream in
        is_allowed path w.opts.allowed_paths ≡ true
        → handle_activity now (alone launch) relaunch metric w
          ≡ accept now
              (alone launch)
              path
              metric
              (resync (record w { stream = record w.stream { last_activity = now } }))
  unfolding handle_activity
  handle_activity_allowed now launch relaunch metric w allowed =
      rw (handle_activity, stream_path-last_activity w.opts.allowed_paths w.stream now, allowed)
        refl

  -- While the server is active, a line of an allowed stream is activity of whichever source holds
  -- the slot, whatever the line's figures: it is seen now, and its bitrate and its round trip are
  -- the line's where these are positive, and unchanged where not.
  pub handle_activity-slot :
      (now : Time) (launch : FfmpegRelay.Launch) (relaunch : Launch) (metric : StatsMetric F)
      (w : World F) (s : SlotInfo F)
      → w.stream.active ≡ true
      → w.manager.active_slot ≡ some s
      → is_allowed (stream_path w.opts.allowed_paths w.stream) w.opts.allowed_paths ≡ true
      → (t : SlotInfo F) × ((handle_activity now
            (alone launch)
            relaunch
            metric
            w).manager.active_slot
          ≡ some t)
        × (t.protocol ≡ s.protocol)
        × (t.path ≡ s.path)
        × (t.last_seen ≡ now)
        × (t.bitrate_kbps
            ≡ (if ltb_ℤ (pos 0) metric.bitrate_kbps then metric.bitrate_kbps else s.bitrate_kbps))
        × (t.rtt ≡ (if ltb_ℤ (pos 0) metric.rtt_ms then some (fl.of_int metric.rtt_ms) else s.rtt))
  unfolding accept resync report active_info touch set_rtt set_bitrate
  handle_activity-slot now launch relaunch metric w s active held allowed = (
    record s {
      last_seen = now;
      rtt = if ltb_ℤ (pos 0) metric.rtt_ms then some (fl.of_int metric.rtt_ms) else s.rtt;
      bitrate_kbps =
          if ltb_ℤ (pos 0) metric.bitrate_kbps then metric.bitrate_kbps else s.bitrate_kbps;
    },
    rw (handle_activity_allowed now launch relaunch metric w allowed) (ground arith),
    refl,
    refl,
    refl,
    refl,
    refl,
  )

  -- A line of an allowed stream, while the server is inactive or the watchdog has freed the slot, with
  -- no other call between TryAcquire and StartSession:
  -- another source that holds the slot keeps it, and its relay is not touched; a free slot is held
  -- for the stream and ffmpeg runs if the system starts it, and it stays free and the server inactive
  -- if not. The session's number is a new one.
  pub handle_activity-holder :
      (now : Time) (launch : FfmpegRelay.Launch) (relaunch : Launch) (metric : StatsMetric F)
      (w : World F)
      → contains w.manager.sessions w.manager.released ≡ false
      → is_allowed (stream_path w.opts.allowed_paths w.stream) w.opts.allowed_paths ≡ true
      → let v = handle_activity now (alone launch) relaunch metric w in
        ((h : Text × Text)
          → w.stream.active ≡ false
          → holder w.manager ≡ some h
          → (v.relay ≡ w.relay) × (v.manager ≡ w.manager))
        × (holder w.manager ≡ none
            → ((launch.start_ok ≡ true)
                × (v.stream.active ≡ true)
                × (is_running v.relay.0 ≡ true)
                × (holder v.manager
                    ≡ some (codes "RIST", stream_path w.opts.allowed_paths w.stream)))
              ⊎ ((launch.start_ok ≡ false) × (v.stream.active ≡ false) × (holder v.manager ≡ none)))
  unfolding accept resync active_info
  handle_activity-holder now launch relaunch metric w fresh allowed =
      let path = stream_path w.opts.allowed_paths w.stream in
      let now_w = record w { stream = record w.stream { last_activity = now } } in
      let u = resync now_w in
      rw (handle_activity_allowed now launch relaunch metric w allowed)
        (elim (Option-cases w.manager.active_slot) [
          | inr (s, held) ↦ (
            λ h idle k.
                rw (resync_held now_w s held)
                  ((accept-holder now launch path metric now_w fresh idle).0 h k),
            λ k. absurd (ground arith),
          )
          | inl e ↦
              let (same, idle) = resync_free now_w e in
              (
                λ h _ k. absurd (ground arith),
                λ k. (accept-holder now launch path metric u (rw same fresh) idle).1 (rw same k),
              )
        ])
