-- ===== src/Srt/Request/Tests.antt =====
-- The webhook on requests like those of webhook_test.go.
use irl_universal_ingest.Opening.{alone}
use irl_universal_ingest.Prelude.{
  ℕ, ◌*◌, ◌≡◌, ◌⊎◌, refl, true, false, List, [], ◌∷◌, none, some, pos, Text, text_beq,
}
use irl_universal_ingest.Go.Strings.{codes, contains, has_prefix, has_suffix}
use irl_universal_ingest.Go.Url.Host.{valid_authority}
use irl_universal_ingest.Backoff.{second}
use irl_universal_ingest.Auth.{normalize_path}
use irl_universal_ingest.Auth.Plain.{IsName}
use irl_universal_ingest.Arbitration.{Manager, new_manager}
use irl_universal_ingest.Arbitration as Lock
use irl_universal_ingest.Relay.{Launch, stop_session}
use irl_universal_ingest.Relay.Steps.{begin}
use irl_universal_ingest.Srt.Webhook.{World}
use irl_universal_ingest.Srt.Request.{
  Decoders, Request, serve_http, extract_stream_path, param, url_keys, is_close, get_param, string,
}
use irl_universal_ingest.Srt.Request.Paths.{
  IsUncut, extract_stream_path-domain, extract_stream_path-merges,
}
use irl_universal_ingest.Srt.Request.Routes.{Outcome, serve_http-Outcome}

-- A query with one key, whose value is the whole text.
abbrev parse_query : Text → List (Text × Text)
parse_query [] = []
parse_query s = (codes "streamid", s) ∷ []

test_scheme :
    extract_stream_path parse_query (codes "srt://127.0.0.1:8890?publish/live/stream")
    ≡ codes "/live/stream"
unfolding extract_stream_path text_beq valid_authority normalize_path
test_scheme = refl

test_empty : extract_stream_path parse_query [] ≡ codes "/live/stream"
unfolding extract_stream_path text_beq
test_empty = refl

-- "disconnect" is a close event, although it contains "connect".
test_disconnect : is_close (codes "on_disconnect") ≡ true
unfolding is_close
test_disconnect = refl

-- A later key in the query goes behind an earlier one in the JSON object.
test_order :
    get_param
      ((codes "event", codes "stop") ∷ [])
      []
      (some ((codes "method", string (codes "start")) ∷ []))
      (codes "method" ∷ codes "event" ∷ [])
    ≡ codes "start"
unfolding get_param text_beq
test_order = refl

stream-IsName : IsName (codes "live/a")
unfolding has_prefix has_suffix
stream-IsName = record {
  bytes = (refl, (refl, (refl, (refl, (refl, (refl, tt))))));
  relative = refl;
  unended = refl;
  nonempty = λ e. cc;
}

stream-IsUncut : IsUncut (codes "live/a")
unfolding has_prefix
stream-IsUncut = (refl, refl)

plain_stream : contains (codes "live/a") (codes "://") ≡ false
unfolding contains
plain_stream = refl

extract_stream_path-domain_example :
    (extract_stream_path parse_query (codes "publish/live/a") ≡ codes "/live/a")
    × (extract_stream_path parse_query (codes "play/live/a") ≡ codes "/live/a")
extract_stream_path-domain_example =
    extract_stream_path-domain parse_query (codes "live/a") stream-IsName stream-IsUncut
      plain_stream

no_slash : has_prefix (codes "ground/a") (codes "/") ≡ false
unfolding has_prefix
no_slash = refl

ground-IsUncut : IsUncut (codes "ground/a")
unfolding has_prefix
ground-IsUncut = (refl, refl)

plain_ground : contains (codes "ground/a") (codes "://") ≡ false
unfolding contains
plain_ground = refl

extract_stream_path-merges_example :
    extract_stream_path parse_query (codes "publish/playground/a")
    ≡ extract_stream_path parse_query (codes "publish/ground/a")
extract_stream_path-merges_example =
    extract_stream_path-merges parse_query (codes "ground/a") no_slash ground-IsUncut plain_ground

abbrev decoders : Decoders
decoders = record {
  parse_query =
      λ s. (codes "on_event", codes "on_connect") ∷ (codes "url", codes "publish/live/a") ∷ [];
  unmarshal_map = λ s. none;
  unmarshal_stats = λ s. none;
}

abbrev connects : Request
connects = record {
  path = codes "/sls/on_event";
  raw_query = codes "on_event=on_connect";
  body = [];
}

abbrev idle : World ℕ
idle = record {
  handler = record {
    allowed_paths = codes "/live/a" ∷ [];
    player_port = pos 8190;
    srtla_port = pos 8893;
    active_slot = none;
    active_path = [];
  };
  manager = new_manager (pos (10 * second)) (some (λ _ _ w. stop_session w));
  relay = begin (codes "udp://127.0.0.1:8888");
}

abbrev good : Launch
good = record { pipe_ok = true; start_ok = true }

new_session : Lock.contains idle.manager.sessions idle.manager.released ≡ false
unfolding new_manager Lock.contains
new_session = refl

serve_http-Outcome_example :
    let (v, status) = serve_http decoders (1 * second) (alone good) connects idle in
    (protocol : Text) × ((protocol ≡ codes "SRT") ⊎ (protocol ≡ codes "SRTLA"))
    × Outcome protocol
        (extract_stream_path decoders.parse_query (param decoders connects url_keys))
        idle
        v
        status
serve_http-Outcome_example = serve_http-Outcome decoders (1 * second) good connects idle new_session
