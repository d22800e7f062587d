-- ===== src/System/Shutdown.antt =====
-- The end of cmd/server/main.go: what may still go on once the adapters take nothing new.
use irl_universal_ingest.Prelude.{
  ℕ, ◌<◌, ◌^◌, ◌≡◌, ◌∙◌, refl, ◌&&◌, List, [], ◌∷◌, Option, none, some, ℤ, Text, inl, inr, arith,
  Bool-cases, Option-cases, pick, All, ltb, leb,
}
use irl_universal_ingest.Go.Clock.{Time, since}
use irl_universal_ingest.Go.Floats.{Floats}
use irl_universal_ingest.Arbitration.{
  try_acquire, set_rtt, set_bitrate, Release, release, release_slot, contains, handle_timeout,
  decay_tick, add_bytes, touch,
}
use irl_universal_ingest.Arbitration.Steps.{fire_timer}
use irl_universal_ingest.Relay.{Relay, Host, stop_session, is_running}
use irl_universal_ingest.Relay.Steps.{exits, proceeds, stops}
use irl_universal_ingest.Relay.Steps as RelaySteps
use irl_universal_ingest.Relay.Stop.{Quiet, step-Quiet, stop-Quiet}
use irl_universal_ingest.Rtmp.Stream.{flush_pending}
use irl_universal_ingest.Rtmp.Connection.{meter_of, close_conn}
use irl_universal_ingest.Srt.Request.{Decoders}
use irl_universal_ingest.Srt.Webhook.{WebhookHandler}
use irl_universal_ingest.Rist.Log.{Parsers}
use irl_universal_ingest.Rist.Options.{ServerOptions}
use irl_universal_ingest.Rist.Receiver.{Supervisor, System}
use irl_universal_ingest.Rist.Server.{
  Stream, stop_active_stream, call_release, heartbeat_tick, tear_down, activity_freshness,
  stale_disconnect_threshold,
}
use irl_universal_ingest.Rist.Server as RistServer
use irl_universal_ingest.Opening as Opening
use irl_universal_ingest.Opening.{
  Call, acquires, touches, receives, measures, reports, releases, relay_starts, call, spend,
}
use irl_universal_ingest.System.Gaps.{StartsNothing}
use irl_universal_ingest.System.{
  World, Event, rtmp_opens, rtmp_flushes, rtmp_counts, rtmp_ends, srt_serves, rist_reads,
  rist_beats, rist_exits, fires, times_out, ticks, relay_exits, relay_proceeds, relay_stops, others,
  boot, rtmp_end, fire, time_out, step, run, stop_relay, rist_view,
}
use irl_universal_ingest.System.Sound.{SharedManager, release_slot-outcome}
use irl_universal_ingest.System.Idle.{total, run-IsSound, boot-IsSound}

-- Any event but those of a new connection, a request to the webhook and a line of ristreceiver, and
-- any other call but StartSession.
abbrev pub OpensNothing : Event → Type 0
OpensNothing (rtmp_opens now launch calls url) = ⊥
OpensNothing (srt_serves now launch calls r) = ⊥
OpensNothing (rist_reads now launch calls relaunch line) = ⊥
OpensNothing (others c) = StartsNothing c
OpensNothing _ = Unit

record Stopped {F : Type 0} (m : SharedManager F) (back : Relay × Host) : Type 0 where
  callback : m.on_slot_release ≡ some stop_relay
  quiet : Quiet back

stop_session-Quiet : (back : Relay × Host) → Quiet back → Quiet (stop_session back)
unfolding stop_session RelaySteps.step
stop_session-Quiet back q = step-Quiet stops back tt q

module _ {F : Type 0} where
  keep-Stopped :
      (m m' : SharedManager F) (back : Relay × Host)
      → m'.on_slot_release ≡ m.on_slot_release
      → Stopped m back
      → Stopped m' back
  keep-Stopped m m' back e s = record { callback = e ∙ s.callback; quiet = s.quiet }

  release_slot-Stopped :
      (protocol path : Text) (m : SharedManager F) (back : Relay × Host)
      → Stopped m back
      → let (m', back') = release_slot protocol path (m, back) in Stopped m' back'
  release_slot-Stopped protocol path m back s =
      let (call, same_or_stop) = release_slot-outcome protocol path m back s.callback in
      record {
        callback = call ∙ s.callback;
        quiet = elim same_or_stop [
          | inl (_, e) ↦ rw (e) s.quiet
          | inr e ↦ rw (e) (stop_session-Quiet back s.quiet)
        ];
      }

  release-Stopped :
      (r : Release) (m : SharedManager F) (back : Relay × Host)
      → Stopped m back
      → let (m', back') = release r (m, back) in Stopped m' back'
  unfolding release
  release-Stopped r m back s = elim (Bool-cases (contains r.session m.released)) [
    | inl once ↦ rw (release, once) s
    | inr first ↦
        let m' = record m { released = r.session ∷ m.released } in
        rw (release, first)
          (release_slot-Stopped r.protocol r.path m' back (keep-Stopped m m' back refl s))
  ]

  call_release-Stopped :
      (o : Option Release) (m : SharedManager F) (back : Relay × Host)
      → Stopped m back
      → let (m', back') = call_release o (m, back) in Stopped m' back'
  call_release-Stopped none m back s = s
  call_release-Stopped (some r) m back s = release-Stopped r m back s

  stop_active_stream-Stopped :
      (w : RistServer.World F)
      → Stopped w.manager w.relay
      → let v = stop_active_stream w in Stopped v.manager v.relay
  unfolding stop_active_stream
  stop_active_stream-Stopped w s = elim (Bool-cases w.stream.active) [
    | inl on ↦
        let c = call_release-Stopped w.stream.active_slot w.manager w.relay s in
        simp (stop_active_stream, on)
          (record { callback = c.callback; quiet = stop_session-Quiet _ c.quiet })
    | inr off ↦ simp (stop_active_stream, off) s
  ]

  heartbeat_tick-Stopped :
      (now : Time) (w : RistServer.World F)
      → Stopped w.manager w.relay
      → let v = heartbeat_tick now w in Stopped v.manager v.relay
  unfolding heartbeat_tick touch
  heartbeat_tick-Stopped now w s =
      let silence = since now w.stream.last_activity in
      elim (Bool-cases (w.stream.active && ltb stale_disconnect_threshold silence)) [
        | inl stale ↦ simp (heartbeat_tick, stale) (stop_active_stream-Stopped w s)
        | inr live ↦
            elim (Bool-cases
              ((w.stream.active && leb silence activity_freshness) && is_running w.relay.0)) [
                | inl fresh ↦
                    simp (heartbeat_tick, live, fresh)
                      (keep-Stopped w.manager (touch now w.manager) w.relay (ground arith) s)
                | inr idle ↦ simp (heartbeat_tick, live, idle) s
              ]
      ]

  tear_down-Stopped :
      (w : RistServer.World F)
      → Stopped w.manager w.relay
      → let v = (tear_down w).0 in Stopped v.manager v.relay
  unfolding tear_down
  tear_down-Stopped w s = elim (Bool-cases w.receiver.0.cancelled) [
    | inl closed ↦ simp (tear_down, closed) s
    | inr going ↦ simp (tear_down, going) (stop_active_stream-Stopped w s)
  ]

  call-Stopped :
      ⦃fl : Floats F⦄ (c : Call) (m : SharedManager F) (back : Relay × Host)
      → StartsNothing c
      → Stopped m back
      → let (m', back') = call c (m, back) in Stopped m' back'
  unfolding call spend try_acquire touch add_bytes set_rtt set_bitrate decay_tick handle_timeout
  call-Stopped (acquires now protocol path) m back calm s =
      keep-Stopped m (try_acquire now protocol path m).0 back (ground arith) s
  call-Stopped (touches now) m back calm s = keep-Stopped m (touch now m) back (ground arith) s
  call-Stopped (receives now k) m back calm s =
      keep-Stopped m (add_bytes now k m) back (ground arith) s
  call-Stopped ⦃fl⦄ (measures ms) m back calm s =
      keep-Stopped m (set_rtt (fl.of_int ms) m) back (ground arith) s
  call-Stopped (reports now kbps) m back calm s =
      keep-Stopped m (set_bitrate now kbps m) back (ground arith) s
  call-Stopped (Opening.ticks now) m back calm s =
      keep-Stopped m (decay_tick now m).0 back (ground arith) s
  call-Stopped (Opening.fires now) m back calm s =
      keep-Stopped m (spend now m) back (ground (arith, Option-cases (fire_timer now m.timer))) s
  call-Stopped (releases r) m back calm s = release-Stopped r m back s
  call-Stopped (Opening.times_out protocol path) m back calm s =
      release_slot-Stopped protocol path m back s
  call-Stopped (relay_starts launch input path) m back calm s = absurd calm
  call-Stopped Opening.relay_stops m back calm s = record {
    callback = s.callback;
    quiet = stop_session-Quiet back s.quiet;
  }
  call-Stopped (Opening.relay_exits pid) m back calm s = record {
    callback = s.callback;
    quiet = step-Quiet (exits pid) back tt s.quiet;
  }
  call-Stopped (Opening.relay_proceeds k launch) m back calm s = record {
    callback = s.callback;
    quiet = step-Quiet (proceeds k launch) back tt s.quiet;
  }

  fire-Stopped :
      (now : Time) (w : World F)
      → Stopped w.manager w.relay
      → let v = fire now w in Stopped v.manager v.relay
  unfolding fire
  fire-Stopped now w s = elim (Option-cases (fire_timer now w.manager.timer)) [
    | inl e ↦ simp (fire, e) s
    | inr (t, e) ↦
        simp (fire, e)
          (keep-Stopped w.manager (record w.manager { timer = some t.0 }) w.relay refl s)
  ]

  time_out-Stopped :
      (k : ℕ) (w : World F)
      → Stopped w.manager w.relay
      → let v = time_out k w in Stopped v.manager v.relay
  unfolding time_out handle_timeout
  time_out-Stopped k w s = elim (Option-cases (pick k w.calls)) [
    | inl e ↦ simp (time_out, e) s
    | inr (c, e) ↦ simp (time_out, e) (release_slot-Stopped c.0.0 c.0.1 w.manager w.relay s)
  ]

  rtmp_end-Stopped :
      (k : ℕ) (w : World F)
      → Stopped w.manager w.relay
      → let v = rtmp_end k w in Stopped v.manager v.relay
  unfolding rtmp_end close_conn
  rtmp_end-Stopped k w s = elim (Option-cases (pick k w.conns)) [
    | inl e ↦ simp (rtmp_end, e) s
    | inr (c, e) ↦ simp (rtmp_end, e) (release-Stopped c.0 w.manager w.relay s)
  ]

module _ {F : Type 0} ⦃fl : Floats F⦄ (ps : Parsers F) (d : Decoders) where
  step-Stopped :
      (ev : Event) (w : World F)
      → OpensNothing ev
      → Stopped w.manager w.relay
      → let v = step ps d ev w in Stopped v.manager v.relay
  unfolding step touch add_bytes decay_tick
  step-Stopped (rtmp_opens now launch calls url) w none_new s = absurd none_new
  step-Stopped (rtmp_flushes now k) w none_new s =
      keep-Stopped w.manager (touch now (flush_pending meter_of now k w.manager)) w.relay
        (ground arith) s
  step-Stopped (rtmp_counts now k) w none_new s =
      keep-Stopped w.manager (flush_pending meter_of now k w.manager) w.relay (ground arith) s
  step-Stopped (rtmp_ends k) w none_new s = rtmp_end-Stopped k w s
  step-Stopped (srt_serves now launch calls r) w none_new s = absurd none_new
  step-Stopped (rist_reads now launch calls relaunch line) w none_new s = absurd none_new
  step-Stopped (rist_beats now) w none_new s = heartbeat_tick-Stopped now (rist_view w) s
  step-Stopped rist_exits w none_new s = tear_down-Stopped (rist_view w) s
  step-Stopped (fires now) w none_new s = fire-Stopped now w s
  step-Stopped (times_out k) w none_new s = time_out-Stopped k w s
  step-Stopped (ticks now) w none_new s =
      keep-Stopped w.manager (decay_tick now w.manager).0 w.relay (ground arith) s
  step-Stopped (relay_exits pid) w none_new s = record {
    callback = s.callback;
    quiet = step-Quiet (exits pid) w.relay tt s.quiet;
  }
  step-Stopped (relay_proceeds k launch) w none_new s = record {
    callback = s.callback;
    quiet = step-Quiet (proceeds k launch) w.relay tt s.quiet;
  }
  step-Stopped relay_stops w none_new s = record {
    callback = s.callback;
    quiet = stop_session-Quiet w.relay s.quiet;
  }
  step-Stopped (others c) w none_new s = call-Stopped c w.manager w.relay none_new s

  run-Stopped :
      (es : List Event) (w : World F)
      → All OpensNothing es
      → Stopped w.manager w.relay
      → let v = run ps d es w in Stopped v.manager v.relay
  unfolding run
  run-Stopped [] w none_new s = s
  run-Stopped (ev ∷ es) w none_new s =
      run-Stopped es (step ps d ev w) none_new.1 (step-Stopped ev w none_new.0 s)

  -- After any history, with any calls between each TryAcquire and its StartSession and fewer than
  -- 2 ^ 64 calls in all, and main's last call of StopSession, no ffmpeg runs, and none is started
  -- again whatever still goes on, in any order: connections that end, ticks, the watchdog and its
  -- calls, exits of processes, watchers and restarts of earlier sessions, and any other call but
  -- StartSession, as long as no connection, request or line of ristreceiver is taken any more.
  pub shutdown_final :
      (timeout : ℤ) (url : Text) (allowed : List Text) (srt : WebhookHandler) (opts : ServerOptions)
      (rist : Stream) (receiver : Supervisor × System) (es later : List Event)
      → total es < 2 ^ 64
      → All OpensNothing later
      → let w = run ps d es (boot timeout url allowed srt opts rist receiver) in
        Quiet (run ps d later (step ps d relay_stops w)).relay
  unfolding step
  shutdown_final timeout url allowed srt opts rist receiver es later small none_new =
      let w0 = boot timeout url allowed srt opts rist receiver in
      let w = run ps d es w0 in
      let (k, s) =
        run-IsSound ps d es 0 w0 (omega arith) (λ p. absurd p)
          (boot-IsSound ⊥ timeout url allowed srt opts rist receiver) in
      let stopped : Stopped w.manager (stop_session w.relay) = record {
        callback = s.callback;
        quiet = stop-Quiet w.relay.0 w.relay.1 s.single.single;
      } in
      (run-Stopped later (step ps d relay_stops w) none_new stopped).quiet
