-- ===== src/System/Idle.antt =====
-- That the invariant holds after any history of the system.
use irl_universal_ingest.Prelude.{
  ℕ, ◌+◌, ◌<◌, ◌^◌, ◌≡◌, refl, List, [], ◌∷◌, some, ℤ, Text, inl, inr, arith, Option-cases, pick,
  length, All,
}
use irl_universal_ingest.Go.Clock.{Time}
use irl_universal_ingest.Go.Floats.{Floats}
use irl_universal_ingest.Arbitration.{new_manager, add_bytes, touch, decay_tick, handle_timeout}
use irl_universal_ingest.Arbitration.Steps.{fire_timer}
use irl_universal_ingest.Relay.{Relay, Host, new}
use irl_universal_ingest.Relay.Steps.{exits, proceeds}
use irl_universal_ingest.Relay.History.{begin-IsSingle}
use irl_universal_ingest.Rtmp.Stream.{flush_pending}
use irl_universal_ingest.Rtmp.Connection.{meter_of}
use irl_universal_ingest.Srt.Request.{Decoders}
use irl_universal_ingest.Srt.Webhook.{WebhookHandler}
use irl_universal_ingest.Rist.Log.{Parsers}
use irl_universal_ingest.Rist.Options.{ServerOptions}
use irl_universal_ingest.Rist.Receiver.{Supervisor, System}
use irl_universal_ingest.Rist.Server.{Stream}
use irl_universal_ingest.System.{
  World, Event, rtmp_opens, rtmp_flushes, rtmp_counts, rtmp_ends, srt_serves, rist_reads,
  rist_beats, rist_exits, fires, times_out, ticks, relay_exits, relay_proceeds, relay_stops, others,
  boot, rtmp_open, rtmp_end, fire, time_out, step, run, rtmp_view, srt_view, rist_view,
}
use irl_universal_ingest.Opening.{opening}
use irl_universal_ingest.System.Gaps.{StartsNothing, KeepsSlot, opening-IsKept, started-Sound}
use irl_universal_ingest.System.Sound.{
  Sound, SharedManager, keep-Sound, stop-Sound, step-Sound, release_slot-Sound, weaken,
}
use irl_universal_ingest.System.Adapters.{open_conn-Sound, close_conn-Sound, serve_http-Sound}
use irl_universal_ingest.System.Adapters.Streams.{
  handle_log_line-Sound, heartbeat_tick-Sound, tear_down-Sound,
}

-- The invariant, with a bound on the sessions.
abbrev pub IsSound : {F : Type 0} → Type 0 → ℕ → World F → Type 0
IsSound P n w = Sound P n w.manager w.relay

-- How many calls an event makes, at most one of them a launch of its own.
abbrev pub size : Event → ℕ
size (rtmp_opens now launch calls url) = length calls + 1
size (srt_serves now launch calls r) = length calls + 1
size (rist_reads now launch calls relaunch line) = length calls + 1
size _ = 1

unfoldable pub total : List Event → ℕ
total [] = 0
total (ev ∷ es) = size ev + total es

-- In the gap between a TryAcquire that has won the slot and its StartSession, nobody frees the slot or
-- starts a session; and no other StartSession comes out of turn.
abbrev pub IsOrderly : Event → Type 0
IsOrderly (rtmp_opens now launch calls url) = All KeepsSlot calls
IsOrderly (srt_serves now launch calls r) = All KeepsSlot calls
IsOrderly (rist_reads now launch calls relaunch line) = All KeepsSlot calls
IsOrderly (others c) = StartsNothing c
IsOrderly _ = Unit

shift : (n k : ℕ) → n + (k + 1) ≡ n + k + 1
shift n k = omega arith

module _ {F : Type 0} {P : Type 0} (n : ℕ) where
  fire-IsSound : (now : Time) (w : World F) → IsSound P n w → IsSound P n (fire now w)
  unfolding fire
  fire-IsSound now w s = elim (Option-cases (fire_timer now w.manager.timer)) [
    | inl e ↦ simp (fire, e) s
    | inr (t, e) ↦
        simp (fire, e)
          (keep-Sound n w.manager (record w.manager { timer = some t.0 }) w.relay refl refl s)
  ]

  time_out-IsSound : (k : ℕ) (w : World F) → IsSound P n w → IsSound P n (time_out k w)
  unfolding time_out handle_timeout
  time_out-IsSound k w s = elim (Option-cases (pick k w.calls)) [
    | inl e ↦ simp (time_out, e) s
    | inr (c, e) ↦ simp (time_out, e) (release_slot-Sound n c.0.0 c.0.1 w.manager w.relay s)
  ]

  rtmp_end-IsSound : (k : ℕ) (w : World F) → IsSound P n w → IsSound P n (rtmp_end k w)
  unfolding rtmp_end
  rtmp_end-IsSound k w s = elim (Option-cases (pick k w.conns)) [
    | inl e ↦ simp (rtmp_end, e) s
    | inr (c, e) ↦ simp (rtmp_end, e) (close_conn-Sound n c.0 (rtmp_view w) s)
  ]

  decay_tick-IsSound :
      (now : Time) (m : SharedManager F) (back : Relay × Host)
      → Sound P n m back
      → Sound P n (decay_tick now m).0 back
  unfolding decay_tick
  decay_tick-IsSound now m back s =
      keep-Sound n m (decay_tick now m).0 back (ground arith) (ground arith) s

module _ {F : Type 0} ⦃fl : Floats F⦄ {P : Type 0} where
  flush-IsSound :
      (n k : ℕ) (now : Time) (m : SharedManager F) (back : Relay × Host)
      → Sound P n m back
      → Sound P n (flush_pending meter_of now k m) back
  unfolding add_bytes
  flush-IsSound n k now m back s =
      keep-Sound n m (flush_pending meter_of now k m) back (ground arith) (ground arith) s

  touch-IsSound :
      (n : ℕ) (now : Time) (m : SharedManager F) (back : Relay × Host)
      → Sound P n m back
      → Sound P n (touch now m) back
  unfolding touch
  touch-IsSound n now m back s = keep-Sound n m (touch now m) back (ground arith) (ground arith) s

  module _ (ps : Parsers F) (d : Decoders) where
    -- Every event keeps the invariant.
    step-IsSound :
        (n : ℕ) (ev : Event) (w : World F)
        → n + size ev < 2 ^ 64
        → (P → IsOrderly ev)
        → IsSound P n w
        → IsSound P (n + size ev) (step ps d ev w)
    unfolding step rtmp_open
    step-IsSound n (rtmp_opens now launch calls url) w small calm s =
        let gap = opening-IsKept launch calls n (omega arith) calm in
        let k = n + length calls in
        let o = opening launch calls in
        rw (shift n (length calls))
          (open_conn-Sound n w.allowed_paths now k o url (rtmp_view w) (omega arith) gap s)
    step-IsSound n (rtmp_flushes now k) w small calm s =
        let m = flush_pending meter_of now k w.manager in
        weaken n (touch now m) w.relay
          (touch-IsSound n now m w.relay (flush-IsSound n k now w.manager w.relay s))
    step-IsSound n (rtmp_counts now k) w small calm s =
        weaken n (flush_pending meter_of now k w.manager) w.relay
          (flush-IsSound n k now w.manager w.relay s)
    step-IsSound n (rtmp_ends k) w small calm s =
        let v = rtmp_end k w in weaken n v.manager v.relay (rtmp_end-IsSound n k w s)
    step-IsSound n (srt_serves now launch calls r) w small calm s =
        let gap = opening-IsKept launch calls n (omega arith) calm in
        let k = n + length calls in
        let o = opening launch calls in
        rw (shift n (length calls))
          (serve_http-Sound n d now k o r (srt_view w) (omega arith) gap s)
    step-IsSound n (rist_reads now launch calls relaunch line) w small calm s =
        let gap = opening-IsKept launch calls n (omega arith) calm in
        let k = n + length calls in
        let o = opening launch calls in
        rw (shift n (length calls))
          (handle_log_line-Sound n ps now k o relaunch line (rist_view w) (omega arith) gap s)
    step-IsSound n (rist_beats now) w small calm s =
        weaken n _ _ (heartbeat_tick-Sound n now (rist_view w) s)
    step-IsSound n rist_exits w small calm s = weaken n _ _ (tear_down-Sound n (rist_view w) s)
    step-IsSound n (fires now) w small calm s =
        let v = fire now w in weaken n v.manager v.relay (fire-IsSound n now w s)
    step-IsSound n (times_out k) w small calm s =
        let v = time_out k w in weaken n v.manager v.relay (time_out-IsSound n k w s)
    step-IsSound n (ticks now) w small calm s =
        weaken n _ _ (decay_tick-IsSound n now w.manager w.relay s)
    step-IsSound n (relay_exits pid) w small calm s =
        step-Sound n w.manager w.relay (exits pid) small tt s
    step-IsSound n (relay_proceeds k launch) w small calm s =
        step-Sound n w.manager w.relay (proceeds k launch) small tt s
    step-IsSound n relay_stops w small calm s = weaken n _ _ (stop-Sound n w.manager w.relay s)
    step-IsSound n (others c) w small calm s = started-Sound n c w.manager w.relay small calm s

    pub run-IsSound :
        (es : List Event) (n : ℕ) (w : World F)
        → n + total es < 2 ^ 64
        → (P → All IsOrderly es)
        → IsSound P n w
        → (k : ℕ) × IsSound P k (run ps d es w)
    unfolding run total
    run-IsSound [] n w small calm s = (n, s)
    run-IsSound (ev ∷ es) n w small calm s =
        run-IsSound es (n + size ev) (step ps d ev w) (omega arith) (λ p. (calm p).1)
          (step-IsSound n ev w (omega arith) (λ p. (calm p).0) s)

pub boot-IsSound :
    {F : Type 0} (P : Type 0) (timeout : ℤ) (url : Text) (allowed : List Text)
    (srt : WebhookHandler) (opts : ServerOptions) (rist : Stream) (receiver : Supervisor × System)
    → IsSound {F = F} P 0 (boot timeout url allowed srt opts rist receiver)
unfolding boot new_manager new
boot-IsSound P timeout url allowed srt opts rist receiver = record {
  callback = refl;
  single = begin-IsSingle url;
  bound = omega arith;
  idle = λ _ _. (refl, refl, inr refl);
}
