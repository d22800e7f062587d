-- ===== src/Stats/Tests.antt =====
-- The collector and the HTTP handlers while a source is live on an allowed path.
use irl_universal_ingest.Prelude.{
  ℕ, ◌*◌, ◌/◌, ◌≡◌, ◌≢◌, ◌↔◌, ◌⊎◌, refl, text_beq, text_eq, true, List, [], ◌∷◌, none, some, pos,
  pos_part, Text, if◌then◌else◌,
}
use irl_universal_ingest.Go.Strings.{codes}
use irl_universal_ingest.Go.Floats.{Floats}
use irl_universal_ingest.Backoff.{second}
use irl_universal_ingest.Arbitration.{Manager, SlotInfo, active_info, new_manager}
use irl_universal_ingest.Relay.{Relay, new, is_running}
use irl_universal_ingest.Prelude.Assoc.{lookup}
use irl_universal_ingest.Health.{Tracker}
use irl_universal_ingest.Stats.{collect}
use irl_universal_ingest.Stats.Server.{
  refused, failing, tracked, handle_healthz, handle_stats, handle_healthz_iff,
}
use irl_universal_ingest.Stats.Active.{count_active, collect-count_active}

instance abbrev whole : Floats ℕ
whole = record {
  of_int = pos_part;
  to_int = pos;
  mul = λ x y. x * y;
  div = λ x y. x / y;
  seconds = λ n. n / second;
}

abbrev live : SlotInfo ℕ
live = record {
  protocol = codes "SRT";
  path = codes "/live/stream/";
  started_at = 1 * second;
  last_seen = 4 * second;
  bitrate_kbps = pos 4000;
  rtt = none;
}

abbrev manager : Manager ℕ ℕ
manager = record (new_manager (pos (10 * second)) none) { active_slot = some live }

abbrev relay : Relay
relay = record (new (codes "udp://127.0.0.1:8888")) { running = true }

abbrev allowed : List Text
allowed = codes "/live/stream" ∷ codes "live/stream" ∷ codes "/cam" ∷ []

collect-count_active_example :
    (active_info manager ≡ none → count_active (collect (5 * second) allowed manager relay) ≡ 0)
    × ((s : SlotInfo ℕ)
        → active_info manager ≡ some s
        → count_active (collect (5 * second) allowed manager relay)
          ≡ (if is_running relay then 1 else 0))
collect-count_active_example = collect-count_active (5 * second) allowed manager relay

abbrev tracker : Tracker
tracker = record { errors = (codes "ristreceiver", codes "exited") ∷ [] }

handle_healthz_iff_example :
    let (status, body) = handle_healthz (some tracker) manager relay in
    ((status ≡ 200) ↔ (
      (tracked (some tracker) ≡ []) × ((active_info manager ≡ none) ⊎ (is_running relay ≡ true))))
    × ((status ≡ 200)
        ⊎ ((status ≡ 503)
            × ((ps : List (Text × Text)) × (body ≡ failing ps)
                × ((component : Text)
                    → component ≢ codes "relay"
                    → lookup component ps ≡ lookup component (tracked (some tracker))))))
handle_healthz_iff_example = handle_healthz_iff (some tracker) manager relay

test_method :
    handle_stats (5 * second) (codes "POST") allowed manager relay
    ≡ (405, refused (codes "Method Not Allowed"))
unfolding handle_stats text_beq
test_method = refl
