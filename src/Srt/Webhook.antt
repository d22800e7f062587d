-- ===== src/Srt/Webhook.antt =====
-- internal/ingest/srt/webhook.go: the handlers of irl-srt-server's events, on the manager and the
-- relay that they share with the other adapters. The release callback of the manager acts on the
-- relay and its host. A handler answers the HTTP status.
pub mod Connect
pub mod Close
pub mod Push
use irl_universal_ingest.Opening.{Opening, alone}
use irl_universal_ingest.Prelude.{
  ℕ, zero, suc, ◌+◌, ◌/◌, ◌%◌, Bool, true, false, ◌&&◌, ◌||◌, not, List, [], ◌∷◌, ◌++◌, Option,
  none, some, ℤ, pos, negsuc, ltb, ltb_ℤ, Text, text_eq, ◌==◌, if◌then◌else◌,
}
use irl_universal_ingest.Go.Strings.{codes}
use irl_universal_ingest.Go.Format.{print_int}
use irl_universal_ingest.Go.Clock.{Time}
use irl_universal_ingest.Auth.{is_allowed}
use irl_universal_ingest.Arbitration.{
  Manager, SlotInfo, Release, try_acquire, touch, set_bitrate, active_info, release,
}
use irl_universal_ingest.Relay.{Relay, Host, Launch, Started, ok, err, start_session, stop_session}
use irl_universal_ingest.Srt.Stats.{SlsStatEntry, StreamMetric, parse_stats}

pub record WebhookHandler : Type 0 where
  pub allowed_paths : List Text
  pub player_port : ℤ
  pub srtla_port : ℤ
  pub active_slot : Option Release
  pub active_path : Text

-- The handler, the manager, and the relay with its host.
pub record World (F : Type 0) : Type 0 where
  pub handler : WebhookHandler
  pub manager : Manager F (Relay × Host)
  pub relay : Relay × Host

unfoldable pub player_input_url : ℤ → Text → Text
unfolding print_int
player_input_url port path =
    codes "srt://127.0.0.1:"
    ++ (print_int port ++ (codes "?streamid=play" ++ (path ++ codes "&latency=200")))

abbrev pub holding : Option Release → Text → WebhookHandler → WebhookHandler
holding slot path h = record h { active_slot = slot; active_path = path }

module _ {F : Type 0} where
  -- The relay's session, once the slot is acquired.
  unfoldable pub start_relay : Launch → Text → Release → World F → World F × ℕ
  unfolding player_input_url
  start_relay launch path r w =
      let (w', started) =
        start_session launch (player_input_url w.handler.player_port path) path w.relay in
      elim started [
        | ok _ ↦ (record w { handler = holding (some r) path w.handler; relay = w' }, 200)
        | err _ ↦
            let (m, back) = release r (w.manager, w') in
            (record { handler = holding none [] w.handler; manager = m; relay = back }, 500)
      ]

  -- TryAcquire and StartSession hold different mutexes.
  unfoldable pub handle_connect : Time → Opening F → Text → Text → World F → World F × ℕ
  unfolding start_relay
  handle_connect now o protocol path w =
      if not (is_allowed path w.handler.allowed_paths)
      then (w, 403)
      else let (m, acquired) = try_acquire now protocol path w.manager in
        elim acquired [
          | none ↦ (record w { manager = m }, 409)
          | some r ↦
              let (m', relay) = o.between (m, w.relay) in
              start_relay o.launch path r (record w { manager = m'; relay = relay })
        ]

  unfoldable pub handle_close : Text → World F → World F × ℕ
  handle_close path w = elim w.handler.active_slot [
    | none ↦ (w, 200)
    | some r ↦
        let (m, back) = release r (w.manager, w.relay) in
        if w.handler.active_path == path
        then (
          record { handler = holding none [] w.handler; manager = m; relay = stop_session back },
          200,
        )
        else (w, 200)
  ]

  -- The manager after a metric of the slot's stream.
  abbrev pub report :
      Time → Option StreamMetric → Manager F (Relay × Host) → Manager F (Relay × Host)
  report now none m = m
  report now (some metric) m =
      if metric.found
      then touch now
          (if ltb_ℤ (pos 0) metric.bitrate_kbps then set_bitrate now metric.bitrate_kbps m else m)
      else m

  unfoldable pub handle_stats_push :
      (Text → Option (List SlsStatEntry)) → Time → Text → World F → World F × ℕ
  handle_stats_push unmarshal now [] w = (w, 200)
  handle_stats_push unmarshal now (b ∷ bytes) w = elim (active_info w.manager) [
    | none ↦ (w, 200)
    | some s ↦
        if s.protocol == codes "SRT" || s.protocol == codes "SRTLA"
        then (
          record w { manager = report now (parse_stats unmarshal (b ∷ bytes) s.path) w.manager },
          200,
        )
        else (w, 200)
  ]
