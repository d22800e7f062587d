-- ===== src/System/Adapters/Streams.antt =====
-- The RIST adapter's handlers keep the invariant of the manager and the relay.
use irl_universal_ingest.Prelude.{
  ℕ, ◌+◌, ◌<◌, ◌^◌, not, ◌||◌, ◌&&◌, [], Option, none, some, ltb, leb, Text, inl, inr, arith,
  Bool-cases, Option-cases, ◌==◌, text_eq,
}
use irl_universal_ingest.Go.Strings.{codes, contains}
use irl_universal_ingest.Go.Clock.{Time, since}
use irl_universal_ingest.Go.Floats.{Floats}
use irl_universal_ingest.Auth.{is_allowed}
use irl_universal_ingest.Arbitration.{
  Release, try_acquire, active_info, touch, set_bitrate, set_rtt,
}
use irl_universal_ingest.Relay.{start_session, is_running}
use irl_universal_ingest.Rist.Log.{StatsMetric, Parsers, parse_log_line}
use irl_universal_ingest.Rist.Receiver.{Launch}
use irl_universal_ingest.Rist.Server.{
  World, call_release, stop_active_stream, reject, resync, claim, report, accept, handle_activity,
  note_cname, handle_log_line, heartbeat_tick, tear_down, player_url, stream_path,
  stale_disconnect_threshold, activity_freshness,
}
use irl_universal_ingest.Opening.{Opening}
use irl_universal_ingest.System.Gaps.{IsKept}
use irl_universal_ingest.System.Sound.{
  Sound, keep-Sound, stop-Sound, start-Sound, release-Sound, try_acquire-Sound, try_acquire-held,
  weaken, lift,
}
use irl_universal_ingest.System.Adapters.{Started-cases}

abbrev pub SoundWorld : {F : Type 0} → Type 0 → ℕ → World F → Type 0
SoundWorld P n w = Sound P n w.manager w.relay

module _ {F : Type 0} {P : Type 0} (n : ℕ) where
  call_release-Sound :
      (slot : Option Release) (w : World F)
      → SoundWorld P n w
      → let (m, back) = call_release slot (w.manager, w.relay) in Sound P n m back
  call_release-Sound none w s = s
  call_release-Sound (some r) w s = release-Sound n r w.manager w.relay s

  pub stop_active_stream-Sound :
      (w : World F) → SoundWorld P n w → SoundWorld P n (stop_active_stream w)
  unfolding stop_active_stream
  stop_active_stream-Sound w s = elim (Bool-cases w.stream.active) [
    | inl on ↦
        let (m, back) = call_release w.stream.active_slot (w.manager, w.relay) in
        simp (stop_active_stream, on)
          (stop-Sound n m back (call_release-Sound w.stream.active_slot w s))
    | inr off ↦ simp (stop_active_stream, off) s
  ]

  pub claim-Sound :
      (now : Time) (k : ℕ) (o : Opening F) (path : Text) (w : World F)
      → k + 1 < 2 ^ 64
      → IsKept P n k o
      → SoundWorld P n w
      → SoundWorld P (k + 1) (claim now o path w).0
  unfolding claim
  claim-Sound now k o path w small gap s =
      let m = (try_acquire now (codes "RIST") path w.manager).0 in
      let t = try_acquire-Sound n now (codes "RIST") path w.manager w.relay s in
      let url = player_url w.opts.player_port in
      elim (Option-cases (try_acquire now (codes "RIST") path w.manager).1) [
        | inl e ↦ simp (claim, e) (weaken k m w.relay (lift n k m w.relay gap.more t))
        | inr (r, e) ↦
            let held = try_acquire-held now (codes "RIST") path w.manager r e in
            let g = o.between (m, w.relay) in
            let (u, still) = gap.kept m w.relay (r.protocol, r.path) held t in
            let started =
              start-Sound k g.0 g.1 (r.protocol, r.path) o.launch url path small still u in
            elim (Started-cases (start_session o.launch url path g.1).1) [
              | inl (x, f) ↦
                  simp (claim, e, f)
                    (release-Sound (k + 1) r g.0 (start_session o.launch url path g.1).0 started)
              | inr (p, f) ↦ simp (claim, e, f) started
            ]
      ]

  resync-Sound : (w : World F) → SoundWorld P n w → SoundWorld P n (resync w)
  unfolding resync active_info
  resync-Sound w s = elim (Option-cases w.manager.active_slot) [
    | inr (t, e) ↦ simp (resync, e) s
    | inl e ↦ elim (Bool-cases w.stream.active) [
      | inl on ↦ simp (resync, e, on) s
      | inr off ↦ simp (resync, e, off) s
    ]
  ]

  pub heartbeat_tick-Sound :
      (now : Time) (w : World F) → SoundWorld P n w → SoundWorld P n (heartbeat_tick now w)
  unfolding heartbeat_tick touch
  heartbeat_tick-Sound now w s =
      let silence = since now w.stream.last_activity in
      elim (Bool-cases (w.stream.active && ltb stale_disconnect_threshold silence)) [
        | inl stale ↦ simp (heartbeat_tick, stale) (stop_active_stream-Sound w s)
        | inr live ↦
            elim (Bool-cases
              ((w.stream.active && leb silence activity_freshness) && is_running w.relay.0)) [
                | inl fresh ↦
                    simp (heartbeat_tick, live, fresh)
                      (keep-Sound n w.manager (touch now w.manager) w.relay (ground arith)
                        (ground arith) s)
                | inr idle ↦ simp (heartbeat_tick, live, idle) s
              ]
      ]

  pub note_cname-Sound :
      (cname : Text) (w : World F) → SoundWorld P n w → SoundWorld P n (note_cname cname w)
  unfolding note_cname
  note_cname-Sound cname w s = elim (Bool-cases (not (cname == []))) [
    | inl named ↦ simp (note_cname, named) s
    | inr none_given ↦ simp (note_cname, none_given) s
  ]

  pub tear_down-Sound : (w : World F) → SoundWorld P n w → SoundWorld P n (tear_down w).0
  unfolding tear_down
  tear_down-Sound w s = elim (Bool-cases w.receiver.0.cancelled) [
    | inl closed ↦ simp (tear_down, closed) s
    | inr going ↦ simp (tear_down, going) (stop_active_stream-Sound w s)
  ]

module _ {F : Type 0} ⦃fl : Floats F⦄ {P : Type 0} where
  report-Sound :
      (n : ℕ) (now : Time) (metric : StatsMetric F) (w : World F)
      → SoundWorld P n w
      → SoundWorld P n (report now metric w)
  unfolding report touch set_rtt set_bitrate
  report-Sound n now metric w s =
      keep-Sound n w.manager (report now metric w).manager w.relay (ground arith) (ground arith) s

module _ {F : Type 0} ⦃fl : Floats F⦄ {P : Type 0} (n : ℕ) where
  accept-Sound :
      (now : Time) (k : ℕ) (o : Opening F) (path : Text) (metric : StatsMetric F) (w : World F)
      → k + 1 < 2 ^ 64
      → IsKept P n k o
      → SoundWorld P n w
      → SoundWorld P (k + 1) (accept now o path metric w)
  unfolding accept
  accept-Sound now k o path metric w small gap s = elim (Bool-cases w.stream.active) [
    | inl on ↦
        simp (accept, on)
          (weaken k (report now metric w).manager w.relay (
            lift n k (report now metric w).manager w.relay gap.more
              (report-Sound n now metric w s)))
    | inr off ↦
        let u = (claim now o path w).0 in
        let t = claim-Sound n now k o path w small gap s in
        elim (Bool-cases (claim now o path w).1) [
          | inl goes ↦ simp (accept, off, goes) (report-Sound (k + 1) now metric u t)
          | inr stops ↦ simp (accept, off, stops) t
        ]
  ]

  handle_activity-Sound :
      (now : Time) (k : ℕ) (o : Opening F) (relaunch : Launch) (metric : StatsMetric F)
      (w : World F)
      → k + 1 < 2 ^ 64
      → IsKept P n k o
      → SoundWorld P n w
      → SoundWorld P (k + 1) (handle_activity now o relaunch metric w)
  unfolding handle_activity reject
  handle_activity-Sound now k o relaunch metric w0 small gap s =
      let w = record w0 { stream = record w0.stream { last_activity = now } } in
      let path = stream_path w.opts.allowed_paths w.stream in
      let v = stop_active_stream w in
      elim (Bool-cases (is_allowed path w.opts.allowed_paths)) [
        | inl allows ↦
            simp (handle_activity, allows)
              (accept-Sound now k o path metric (resync w) small gap (resync-Sound n w s))
        | inr shut ↦
            simp (handle_activity, shut)
              (weaken k v.manager v.relay
                (lift n k v.manager v.relay gap.more (stop_active_stream-Sound n w s)))
      ]

  pub handle_log_line-Sound :
      (ps : Parsers F) (now : Time) (k : ℕ) (o : Opening F) (relaunch : Launch) (line : Text)
      (w : World F)
      → k + 1 < 2 ^ 64
      → IsKept P n k o
      → SoundWorld P n w
      → SoundWorld P (k + 1) (handle_log_line ps now o relaunch line w)
  unfolding handle_log_line
  handle_log_line-Sound ps now k o relaunch line w small gap s =
      let metric = parse_log_line ps line in
      let v = note_cname metric.cname w in
      let t = note_cname-Sound n metric.cname w s in
      elim (Bool-cases (
        metric.disconnected
        || contains line (codes "is dead")
        || contains line (codes "timed out"))) [
          | inl gone ↦
              let u = stop_active_stream v in
              simp (handle_log_line, gone)
                (weaken k u.manager u.relay
                  (lift n k u.manager u.relay gap.more (stop_active_stream-Sound n v t)))
          | inr here ↦
              elim (Bool-cases (
                metric.connected
                || metric.has_stats
                || contains line (codes "Starting data output thread")
                || contains line (codes "Flow"))) [
                  | inl flows ↦
                      simp (handle_log_line, here, flows)
                        (handle_activity-Sound now k o relaunch metric v small gap t)
                  | inr idle ↦
                      simp (handle_log_line, here, idle)
                        (weaken k v.manager v.relay (lift n k v.manager v.relay gap.more t))
                ]
        ]
