-- ===== src/System/Adapters.antt =====
-- Every handler of an adapter keeps the invariant of the manager and the relay.
pub mod Streams
use irl_universal_ingest.Prelude.{
  ℕ, ◌+◌, ◌<◌, ◌^◌, ◌≡◌, ◌⊎◌, refl, Bool, true, false, not, ◌||◌, List, [], ◌∷◌, Option, none, some,
  Text, inl, inr, arith, Bool-cases, Option-cases, ◌==◌, text_eq, if◌then◌else◌,
}
use irl_universal_ingest.Go.Strings.{codes, contains, to_lower}
use irl_universal_ingest.Go.Clock.{Time}
use irl_universal_ingest.Auth.{is_allowed}
use irl_universal_ingest.Arbitration.{
  Manager, Release, try_acquire, release, active_info, touch, set_bitrate,
}
use irl_universal_ingest.Arbitration.Exclusion.{holder}
use irl_universal_ingest.Relay.{
  Relay, Host, Launch, Started, StartError, ok, err, start_session, stop_session,
}
use irl_universal_ingest.Rtmp.Connection.{Shared, Admission, stream_path, open_conn, close_conn}
use irl_universal_ingest.Srt.Stats.{SlsStatEntry, StreamMetric, parse_stats}
use irl_universal_ingest.Srt.Webhook.{
  World, handle_connect, handle_close, handle_stats_push, start_relay, player_input_url, report,
}
use irl_universal_ingest.Srt.Request.{
  Decoders, Request, serve_http, route, param, method_keys, role_keys, url_keys, is_close,
  is_connect, extract_stream_path, detect_protocol,
}
use irl_universal_ingest.Opening.{Opening}
use irl_universal_ingest.System.Gaps.{IsKept}
use irl_universal_ingest.System.Sound.{
  Sound, SharedManager, keep-Sound, stop-Sound, start-Sound, release-Sound, try_acquire-Sound,
  try_acquire-held, weaken, lift,
}

pub Started-cases : (s : Started) → ((e : StartError) × (s ≡ err e)) ⊎ ((p : Option ℕ) × (s ≡ ok p))
Started-cases (err e) = inl (e, refl)
Started-cases (ok p) = inr (p, refl)

module _ {F : Type 0} where
  report-holder :
      (now : Time) (metric : Option StreamMetric) (m : SharedManager F)
      → (holder (report now metric m) ≡ holder m)
        × ((report now metric m).on_slot_release ≡ m.on_slot_release)
  unfolding touch set_bitrate
  report-holder now none m = (refl, refl)
  report-holder now (some metric) m = (ground arith, ground arith)

module _ {F : Type 0} {P : Type 0} (n : ℕ) where
  pub close_conn-Sound :
      (r : Release) (w : Shared F)
      → Sound P n w.manager w.relay
      → let v = close_conn r w in Sound P n v.manager v.relay
  unfolding close_conn
  close_conn-Sound r w s = release-Sound n r w.manager w.relay s

  pub open_conn-Sound :
      (allowed : List Text) (now : Time) (k : ℕ) (o : Opening F) (url : Option Text) (w : Shared F)
      → k + 1 < 2 ^ 64
      → IsKept P n k o
      → Sound P n w.manager w.relay
      → let v = (open_conn allowed now o url w).0 in Sound P (k + 1) v.manager v.relay
  unfolding open_conn close_conn
  open_conn-Sound allowed now k o url w small gap s =
      let path = stream_path url in
      let m = (try_acquire now (codes "rtmp") path w.manager).0 in
      let t = try_acquire-Sound n now (codes "rtmp") path w.manager w.relay s in
      elim (Bool-cases (is_allowed path allowed)) [
        | inr shut ↦
            simp (open_conn, shut)
              (weaken k w.manager w.relay (lift n k w.manager w.relay gap.more s))
        | inl allows ↦ elim (Option-cases (try_acquire now (codes "rtmp") path w.manager).1) [
          | inl e ↦ simp (open_conn, allows, e) (weaken k m w.relay (lift n k m w.relay gap.more t))
          | inr (r, e) ↦
              let held = try_acquire-held now (codes "rtmp") path w.manager r e in
              let g = o.between (m, w.relay) in
              let (u, still) = gap.kept m w.relay (r.protocol, r.path) held t in
              let started =
                start-Sound k g.0 g.1 (r.protocol, r.path) o.launch [] path small still u in
              elim (Started-cases (start_session o.launch [] path g.1).1) [
                | inl (x, f) ↦
                    simp (open_conn, allows, e, f)
                      (release-Sound (k + 1) r g.0 (start_session o.launch [] path g.1).0 started)
                | inr (p, f) ↦ simp (open_conn, allows, e, f) started
              ]
        ]
      ]

  handle_connect-Sound :
      (now : Time) (k : ℕ) (o : Opening F) (protocol path : Text) (w : World F)
      → k + 1 < 2 ^ 64
      → IsKept P n k o
      → Sound P n w.manager w.relay
      → let v = (handle_connect now o protocol path w).0 in Sound P (k + 1) v.manager v.relay
  unfolding handle_connect start_relay
  handle_connect-Sound now k o protocol path w small gap s =
      let m = (try_acquire now protocol path w.manager).0 in
      let t = try_acquire-Sound n now protocol path w.manager w.relay s in
      let url = player_input_url w.handler.player_port path in
      elim (Bool-cases (is_allowed path w.handler.allowed_paths)) [
        | inr shut ↦
            simp (handle_connect, shut)
              (weaken k w.manager w.relay (lift n k w.manager w.relay gap.more s))
        | inl allows ↦ elim (Option-cases (try_acquire now protocol path w.manager).1) [
          | inl e ↦
              simp (handle_connect, allows, e) (weaken k m w.relay (lift n k m w.relay gap.more t))
          | inr (r, e) ↦
              let held = try_acquire-held now protocol path w.manager r e in
              let g = o.between (m, w.relay) in
              let (u, still) = gap.kept m w.relay (r.protocol, r.path) held t in
              let started =
                start-Sound k g.0 g.1 (r.protocol, r.path) o.launch url path small still u in
              elim (Started-cases (start_session o.launch url path g.1).1) [
                | inl (x, f) ↦
                    simp (handle_connect, start_relay, allows, e, f)
                      (release-Sound (k + 1) r g.0 (start_session o.launch url path g.1).0 started)
                | inr (p, f) ↦ simp (handle_connect, start_relay, allows, e, f) started
              ]
        ]
      ]

  handle_close-Sound :
      (path : Text) (w : World F)
      → Sound P n w.manager w.relay
      → let v = (handle_close path w).0 in Sound P n v.manager v.relay
  unfolding handle_close
  handle_close-Sound path w s = elim (Option-cases w.handler.active_slot) [
    | inl e ↦ simp (handle_close, e) s
    | inr (r, e) ↦
        let (m, back) = release r (w.manager, w.relay) in
        elim (Bool-cases (w.handler.active_path == path)) [
          | inl same ↦
              simp (handle_close, e, same)
                (stop-Sound n m back (release-Sound n r w.manager w.relay s))
          | inr other ↦ simp (handle_close, e, other) s
        ]
  ]

  handle_stats_push-Sound :
      (unmarshal : Text → Option (List SlsStatEntry)) (now : Time) (body : Text) (w : World F)
      → Sound P n w.manager w.relay
      → let v = (handle_stats_push unmarshal now body w).0 in Sound P n v.manager v.relay
  unfolding handle_stats_push active_info
  handle_stats_push-Sound unmarshal now [] w s = s
  handle_stats_push-Sound unmarshal now (b ∷ bytes) w s =
      elim (Option-cases w.manager.active_slot) [
        | inl e ↦ simp (handle_stats_push, e) s
        | inr (t, e) ↦
            elim (Bool-cases (t.protocol == codes "SRT" || t.protocol == codes "SRTLA")) [
              | inl ours ↦
                  let m = report now (parse_stats unmarshal (b ∷ bytes) t.path) w.manager in
                  let (same, call) =
                    report-holder now (parse_stats unmarshal (b ∷ bytes) t.path) w.manager in
                  simp (handle_stats_push, e, ours) (keep-Sound n w.manager m w.relay same call s)
              | inr theirs ↦ simp (handle_stats_push, e, theirs) s
            ]
      ]

  pub serve_http-Sound :
      (d : Decoders) (now : Time) (k : ℕ) (o : Opening F) (r : Request) (w : World F)
      → k + 1 < 2 ^ 64
      → IsKept P n k o
      → Sound P n w.manager w.relay
      → let v = (serve_http d now o r w).0 in Sound P (k + 1) v.manager v.relay
  unfolding serve_http route
  serve_http-Sound d now k o r w small gap s =
      let srt_url = param d r url_keys in
      let method = to_lower (param d r method_keys) in
      let role = to_lower (param d r role_keys) in
      let protocol = detect_protocol w.handler.srtla_port (d.parse_query r.raw_query) srt_url in
      let path = extract_stream_path d.parse_query srt_url in
      let closed = (handle_close path w).0 in
      elim (Bool-cases (contains r.path (codes "stat"))) [
        | inl push ↦
            let v = (handle_stats_push d.unmarshal_stats now r.body w).0 in
            simp (serve_http, push)
              (weaken k v.manager v.relay (
                lift n k v.manager v.relay gap.more
                  (handle_stats_push-Sound d.unmarshal_stats now r.body w s)))
        | inr event ↦ elim (Bool-cases (role == codes "player" || role == codes "play")) [
          | inl plays ↦
              simp (serve_http, route, event, plays)
                (weaken k w.manager w.relay (lift n k w.manager w.relay gap.more s))
          | inr publishes ↦ elim (Bool-cases (is_close method)) [
            | inl closes ↦
                simp (serve_http, route, event, publishes, closes)
                  (weaken k closed.manager closed.relay
                    (lift n k closed.manager closed.relay gap.more (handle_close-Sound path w s)))
            | inr opens ↦ elim (Bool-cases (is_connect method srt_url role)) [
              | inl connects ↦
                  simp (serve_http, route, event, publishes, opens, connects)
                    (handle_connect-Sound now k o protocol path w small gap s)
              | inr other ↦
                  simp (serve_http, route, event, publishes, opens, other)
                    (weaken k w.manager w.relay (lift n k w.manager w.relay gap.more s))
            ]
          ]
        ]
      ]
