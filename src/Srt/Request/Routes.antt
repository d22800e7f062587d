-- ===== src/Srt/Request/Routes.antt =====
-- What an event can do to the slot.
use irl_universal_ingest.Opening.{alone}
use irl_universal_ingest.Prelude.{
  ℕ, ◌≡◌, ◌⊎◌, ◌∙◌, refl, true, false, ◌||◌, List, [], ◌∷◌, Option, none, some, Text, text_eq,
  nat_eq, nat_beq_iff, ◌==◌, arith, Option-cases, Bool-cases, inl, inr,
}
use irl_universal_ingest.Go.Strings.{codes, contains, to_upper, to_lower}
use irl_universal_ingest.Go.Clock.{Time}
use irl_universal_ingest.Auth.{is_allowed}
use irl_universal_ingest.Arbitration.{
  contains as spent, release, release_slot, touch, set_bitrate, active_info,
}
use irl_universal_ingest.Arbitration.Exclusion.{holder}
use irl_universal_ingest.Relay.{Launch, is_running}
use irl_universal_ingest.Srt.Stats.{SlsStatEntry, StreamMetric, parse_stats}
use irl_universal_ingest.Srt.Webhook.{
  World, handle_connect, handle_close, handle_stats_push, report,
}
use irl_universal_ingest.Srt.Webhook.Connect.{handle_connect-holder}
use irl_universal_ingest.Srt.Request.{
  Decoders, Request, route, serve_http, is_close, is_connect, param, method_keys, role_keys,
  url_keys, extract_stream_path, detect_protocol,
}

module _ {F : Type 0} where
  -- The slot is kept, or freed, or it was free and is granted.
  abbrev pub Outcome : Text → Text → World F → World F → ℕ → Type 0
  Outcome protocol path w v status =
      (holder v.manager ≡ holder w.manager)
      ⊎ ((holder v.manager ≡ none)
          ⊎ ((status ≡ 200)
              × (is_allowed path w.handler.allowed_paths ≡ true)
              × (holder w.manager ≡ none)
              × (holder v.manager ≡ some (to_upper protocol, path))
              × (is_running v.relay.0 ≡ true)))

  handle_close-holder :
      (path : Text) (w : World F)
      → (holder (handle_close path w).0.manager ≡ holder w.manager)
        ⊎ (holder (handle_close path w).0.manager ≡ none)
  unfolding handle_close release release_slot
  handle_close-holder path w = ground arith

  report-holder :
      (now : Time) (metric : Option StreamMetric) (w : World F)
      → holder (report now metric w.manager) ≡ holder w.manager
  unfolding touch set_bitrate
  report-holder now none w = refl
  report-holder now (some metric) w = ground arith

  handle_stats_push-holder :
      (unmarshal : Text → Option (List SlsStatEntry)) (now : Time) (body : Text) (w : World F)
      → holder (handle_stats_push unmarshal now body w).0.manager ≡ holder w.manager
  unfolding handle_stats_push active_info
  handle_stats_push-holder unmarshal now [] w = refl
  handle_stats_push-holder unmarshal now (b ∷ bytes) w = elim (Option-cases w.manager.active_slot) [
    | inl e ↦ simp (handle_stats_push, e) refl
    | inr (t, e) ↦ elim (Bool-cases (t.protocol == codes "SRT" || t.protocol == codes "SRTLA")) [
      | inl ours ↦
          let held : holder w.manager ≡ some (t.protocol, t.path) = ground arith in
          simp (handle_stats_push, e, ours)
            (report-holder now (parse_stats unmarshal (b ∷ bytes) t.path) w ∙ held)
      | inr theirs ↦ simp (handle_stats_push, e, theirs) refl
    ]
  ]

  route-Outcome :
      (now : Time) (launch : Launch) (method role srt_url protocol path : Text) (w : World F)
      → spent w.manager.sessions w.manager.released ≡ false
      → let (v, status) = route now (alone launch) method role srt_url protocol path w in
        Outcome protocol path w v status
  unfolding route
  route-Outcome now launch method role srt_url protocol path w fresh =
      let (granted, refused) = handle_connect-holder now launch protocol path w fresh in
      let status = (handle_connect now (alone launch) protocol path w).1 in
      elim (Bool-cases (role == codes "player" || role == codes "play")) [
        | inl plays ↦ simp (route, plays) (inl refl)
        | inr publishes ↦ elim (Bool-cases (is_close method)) [
          | inl closes ↦ elim (handle_close-holder path w) [
            | inl same ↦ simp (route, publishes, closes) (inl same)
            | inr gone ↦ simp (route, publishes, closes) (inr (inl gone))
          ]
          | inr opens ↦ elim (Bool-cases (is_connect method srt_url role)) [
            | inr other ↦ simp (route, publishes, opens, other) (inl refl)
            | inl connects ↦ elim (Bool-cases (status == 200)) [
              | inl yes_200 ↦
                  let ok = (nat_beq_iff status 200).0 yes_200 in
                  let (allows, free, held, runs) = granted ok in
                  simp (route, publishes, opens, connects)
                    (inr (inr (ok, allows, free, held, runs)))
              | inr no_200 ↦
                  simp (route, publishes, opens, connects)
                    (inl (refused (λ e. absurd (cc (no_200, (nat_beq_iff status 200).1 e)))))
            ]
          ]
        ]
      ]

  -- Whatever a request to the webhook says, if nobody else calls between its TryAcquire and its
  -- StartSession, it leaves the holder of the slot, or it frees the slot, or it is answered with 200
  -- and the slot, which was free, is held for SRT or SRTLA on the path of the request's stream; then
  -- this path is allowed and the relay runs. The number of the next session is a new one.
  pub serve_http-Outcome :
      (d : Decoders) (now : Time) (launch : Launch) (r : Request) (w : World F)
      → spent w.manager.sessions w.manager.released ≡ false
      → let (v, status) = serve_http d now (alone launch) r w in
        (protocol : Text) × ((protocol ≡ codes "SRT") ⊎ (protocol ≡ codes "SRTLA"))
        × Outcome protocol (extract_stream_path d.parse_query (param d r url_keys)) w v status
  unfolding serve_http detect_protocol
  serve_http-Outcome d now launch r w fresh =
      let srt_url = param d r url_keys in
      let protocol = detect_protocol w.handler.srtla_port (d.parse_query r.raw_query) srt_url in
      let path = extract_stream_path d.parse_query srt_url in
      (
        protocol,
        ground arith,
        elim (Bool-cases (contains r.path (codes "stat"))) [
          | inl push ↦
              simp (serve_http, push)
                (inl (handle_stats_push-holder d.unmarshal_stats now r.body w))
          | inr event ↦
              simp (serve_http, event)
                (route-Outcome now launch (to_lower (param d r method_keys))
                  (to_lower (param d r role_keys)) srt_url protocol path w fresh)
        ],
      )
