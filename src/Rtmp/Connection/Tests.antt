-- ===== src/Rtmp/Connection/Tests.antt =====
-- A connection that streams one key frame on a free slot.
use irl_universal_ingest.Prelude.{
  ℕ, ◌*◌, ◌/◌, ◌≡◌, ◌≢◌, refl, true, false, List, [], ◌∷◌, Option, none, some, pos, pos_part, Text,
}
use irl_universal_ingest.Go.Strings.{codes}
use irl_universal_ingest.Go.Floats.{Floats}
use irl_universal_ingest.Backoff.{second}
use irl_universal_ingest.Arbitration.{Release, new_manager, contains}
use irl_universal_ingest.Arbitration.Exclusion.{holder}
use irl_universal_ingest.Relay.{Launch, stop_session, is_running}
use irl_universal_ingest.Relay.Steps.{begin}
use irl_universal_ingest.Rtmp.Numbers.{numbers}
use irl_universal_ingest.Rtmp.Flv.{Marshalled, bytes}
use irl_universal_ingest.Rtmp.Flv.Tags.{write_buffer}
use irl_universal_ingest.Rtmp.Stream.{Read, got, failed, data_amf0}
use irl_universal_ingest.Rtmp.Connection.{Shared, streams, handle_conn}
use irl_universal_ingest.Rtmp.Connection.Slot.{StopsRelay, handle_conn-holder}

instance abbrev whole : Floats ℕ
whole = record {
  of_int = pos_part;
  to_int = pos;
  mul = λ x y. x * y;
  div = λ x y. x / y;
  seconds = λ n. n / second;
}

abbrev marshal : Text → Marshalled ℕ
marshal b = bytes b

abbrev idle : Shared ℕ
idle = record {
  manager = new_manager (pos (10 * second)) (some (λ _ _ w. stop_session w));
  relay = begin (codes "udp://127.0.0.1:8888");
}

abbrev good : Launch
good = record { pipe_ok = true; start_ok = true }

abbrev read : List (Read Text)
read = got (2 * second) (data_amf0 (1 ∷ 2 ∷ [])) ∷ failed ∷ []

new_session : contains idle.manager.sessions idle.manager.released ≡ false
unfolding new_manager contains
new_session = refl

handle_conn-holder_example :
    let ((pipe, v), admission) =
      handle_conn write_buffer numbers marshal []
        (1 * second)
        good
        (some (codes "/live/stream"))
        read
        (3 * second)
        ([], idle) in
    (holder v.manager ≡ holder idle.manager)
    × ((r : Release) (p : Option ℕ)
        → admission ≡ streams r p
        → StopsRelay idle.manager
        → (is_running v.relay.0 ≡ false) × (v.relay.0.stopped ≡ true))
    × (holder idle.manager ≢ none → (v.relay ≡ idle.relay) × (pipe ≡ []))
handle_conn-holder_example =
    handle_conn-holder write_buffer numbers marshal [] (1 * second) good
      (some (codes "/live/stream")) read (3 * second) [] idle new_session
