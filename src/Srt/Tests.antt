-- ===== src/Srt/Tests.antt =====
-- The SRT adapter on concrete events.
use irl_universal_ingest.Prelude.{
  ℕ, ◌≡◌, ◌≢◌, ◌*◌, inl, refl, true, false, List, [], ◌∷◌, Option, none, some, pos, ◌+ℤ◌, Text,
}
use irl_universal_ingest.Go.Strings.{codes, to_upper, upper_byte}
use irl_universal_ingest.Backoff.{second}
use irl_universal_ingest.Arbitration.{Manager, SlotInfo, Release, new_manager, contains, reset}
use irl_universal_ingest.Relay.{Relay, Host, Launch, stop_session, is_running}
use irl_universal_ingest.Relay.Steps.{begin}
use irl_universal_ingest.Srt.Stats.{SlsStatEntry}
use irl_universal_ingest.Srt.Ports.{ServerOptions, pick_internal_srtla_port}
use irl_universal_ingest.Srt.Webhook.{World, handle_close, handle_stats_push, player_input_url}
use irl_universal_ingest.Srt.Webhook.Close.{handle_close-foreign}
use irl_universal_ingest.Srt.Webhook.Push.{Announces, handle_stats_push-activity}

-- Two of the ports after the SRT port are taken.
abbrev options : ServerOptions
options = record {
  srt_port = pos 8890;
  srtla_port = pos 8891;
  player_port = pos 8892;
  http_port = pos 8181;
  latency_ms = pos 200;
  latency_max_ms = pos 5000;
  idle_timeout_sec = pos 5;
  passphrase = codes "mysecretpass";
  log_level = codes "info";
  allowed_paths = codes "/live/stream" ∷ [];
}

test_port : pick_internal_srtla_port options ≡ pos 8893
unfolding pick_internal_srtla_port ◌+ℤ◌
test_port = refl

test_url :
    player_input_url (pos 8190) (codes "/live/stream")
    ≡ codes "srt://127.0.0.1:8190?streamid=play/live/stream&latency=200"
unfolding player_input_url
test_url = refl

abbrev entries : List SlsStatEntry
entries =
    record {
      role = codes "player";
      stream_name = [];
      url = codes "/live/stream";
      kbit_rate = pos 1;
    }
    ∷ record {
      role = codes "publisher";
      stream_name = [];
      url = codes "publish/live/stream";
      kbit_rate = pos 4000;
    }
    ∷ []

-- A decoder that knows one document.
abbrev unmarshal : Text → Option (List SlsStatEntry)
unmarshal s = some entries

abbrev document : Text
document = codes "{}"

abbrev good : Launch
good = record { pipe_ok = true; start_ok = true }

abbrev manager : Manager ℕ (Relay × Host)
manager = new_manager (pos (10 * second)) (some (λ _ _ w. stop_session w))

abbrev idle : World ℕ
idle = record {
  handler = record {
    allowed_paths = codes "/live/stream" ∷ [];
    player_port = pos 8190;
    srtla_port = pos 8893;
    active_slot = none;
    active_path = [];
  };
  manager = manager;
  relay = begin (codes "udp://127.0.0.1:8888");
}

new_session : contains idle.manager.sessions idle.manager.released ≡ false
unfolding new_manager contains
new_session = refl

abbrev session : Release
session = record { session = 0; protocol = codes "SRT"; path = codes "/live/stream" }

abbrev slot : Text → SlotInfo ℕ
slot protocol = record {
  protocol = protocol;
  path = codes "/live/stream";
  started_at = 20 * second;
  last_seen = 20 * second;
  bitrate_kbps = pos 0;
  rtt = none;
}

abbrev held_by : Text → World ℕ
held_by protocol = record idle {
  handler = record idle.handler { active_slot = some session; active_path = codes "/live/stream" };
  manager = record manager { active_slot = some (slot protocol) };
  relay = (record idle.relay.0 { running = true }, idle.relay.1);
}

-- The watchdog has freed the SRT session's slot, and an RTMP source has acquired it.
foreign : codes "RTMP" ≢ to_upper (codes "SRT")
unfolding to_upper upper_byte
foreign = λ e. cc

handle_close-foreign_example :
    let v = (handle_close (codes "/live/stream") (held_by (codes "RTMP"))).0 in
    (v.manager.active_slot ≡ some (slot (codes "RTMP")))
    × (is_running v.relay.0 ≡ false)
    × (v.relay.0.stopped ≡ true)
handle_close-foreign_example =
    handle_close-foreign session (slot (codes "RTMP")) (codes "/live/stream")
      (held_by (codes "RTMP")) refl refl refl foreign

handle_stats_push-activity_example :
    let w = held_by (codes "SRT") in
    let v = (handle_stats_push unmarshal (21 * second) document w).0 in
    (Announces unmarshal (codes "/live/stream") document
      → ((t : SlotInfo ℕ) × (v.manager.active_slot ≡ some t)
          × (t.last_seen ≡ 21 * second)
          × (t.path ≡ codes "/live/stream"))
        × (v.manager.timer ≡ reset (21 * second) w.manager.source_timeout w.manager.timer))
    × ((Announces unmarshal (codes "/live/stream") document → ⊥) → v.manager ≡ w.manager)
handle_stats_push-activity_example =
    handle_stats_push-activity unmarshal (21 * second) document (slot (codes "SRT"))
      (held_by (codes "SRT")) refl (inl refl)
