-- ===== src/Srt/Request.antt =====
-- internal/ingest/srt/webhook.go: ServeHTTP, which reads an event from the query, the form or the JSON
-- object of a request. The decoders are arguments; url.Values is a list with a key's first value first.
pub mod Paths
pub mod Routes
mod Tests
use irl_universal_ingest.Opening.{Opening, alone}
use irl_universal_ingest.Prelude.{
  ℕ, Bool, true, false, ◌&&◌, ◌||◌, not, List, [], ◌∷◌, ◌++◌, Option, none, some, ℤ, Text, text_eq,
  ◌==◌, if◌then◌else◌,
}
use irl_universal_ingest.Prelude.Assoc.{lookup}
use irl_universal_ingest.Go.Strings.{codes, contains, trim_prefix, to_lower}
use irl_universal_ingest.Go.Format.{print_int}
use irl_universal_ingest.Go.Clock.{Time}
use irl_universal_ingest.Go.Url
use irl_universal_ingest.Auth.{normalize_path}
use irl_universal_ingest.Relay.{Launch}
use irl_universal_ingest.Srt.Stats.{SlsStatEntry}
use irl_universal_ingest.Srt.Webhook.{World, handle_connect, handle_close, handle_stats_push}

-- A value of map[string]any: a string or something else.
pub data Json : Type 0 where
  string : Text → Json
  other_value : Json

-- url.ParseQuery, whose error is ignored; json.Unmarshal into a map, which stays nil on an error; and
-- the decoder of a statistics push.
pub record Decoders : Type 0 where
  pub parse_query : Text → List (Text × Text)
  pub unmarshal_map : Text → Option (List (Text × Json))
  pub unmarshal_stats : Text → Option (List SlsStatEntry)

-- The path and the query of r.URL, and the body as far as it could be read.
pub record Request : Type 0 where
  pub path : Text
  pub raw_query : Text
  pub body : Text

-- Values.Get
unfoldable pub get : List (Text × Text) → Text → Text
unfolding lookup
get values k = elim (lookup k values) [ none ↦ [] | some v ↦ v ]

abbrev pub string_of : Option Json → Text
string_of none = []
string_of (some (string s)) = s
string_of (some other_value) = []

abbrev pub get_string : Option (List (Text × Json)) → Text → Text
get_string none k = []
get_string (some m) k = string_of (lookup k m)

-- The first value of the keys that is not empty; a nil form and a nil map have none.
unfoldable pub get_param :
    List (Text × Text) → List (Text × Text) → Option (List (Text × Json)) → List Text → Text
unfolding get
get_param q form json [] = []
get_param q form json (k ∷ ks) =
    let rest = get_param q form json ks in
    if not (get q k == [])
    then get q k
    else if not (get form k == [])
    then get form k
    else if not (get_string json k == [])
    then get_string json k
    else rest

-- The stream's identifier without its scheme.
unfoldable pub stream_id : (Text → List (Text × Text)) → Text → Text
unfolding get contains
stream_id parse_query raw =
    if contains raw (codes "://")
    then elim (Url.parse raw) [
      | none ↦ raw
      | some u ↦
          let sid = get (parse_query u.raw_query) (codes "streamid") in
          if not (sid == []) then sid else if not (u.path == []) then u.path else raw
    ]
    else raw

-- The four prefixes, in turn.
unfoldable pub without_domain : Text → Text
unfolding trim_prefix
without_domain raw =
    trim_prefix
      (trim_prefix (trim_prefix (trim_prefix raw (codes "publish/")) (codes "play/"))
        (codes "publish"))
      (codes "play")

unfoldable pub extract_stream_path : (Text → List (Text × Text)) → Text → Text
unfolding stream_id without_domain
extract_stream_path parse_query raw =
    if raw == []
    then codes "/live/stream"
    else normalize_path (without_domain (stream_id parse_query raw))

unfoldable pub detect_protocol : ℤ → List (Text × Text) → Text → Text
unfolding print_int get contains
detect_protocol srtla_port q srt_url =
    let port = print_int srtla_port in
    if get q (codes "local_port") == port || contains srt_url (codes ":" ++ port)
    then codes "SRTLA"
    else codes "SRT"

unfoldable pub is_close : Text → Bool
unfolding contains
is_close method =
    contains method (codes "close")
    || contains method (codes "stop")
    || contains method (codes "disconnect")
    || contains method (codes "unpublish")
    || contains method (codes "end")
    || contains method (codes "del")

unfoldable pub is_connect : Text → Text → Text → Bool
unfolding contains
is_connect method srt_url role =
    contains method (codes "connect")
    || contains method (codes "publish")
    || contains method (codes "start")
    || contains method (codes "add")
    || (method == []
        && not (srt_url == [])
        && (role == codes "publisher" || role == codes "publish"))

abbrev pub method_keys : List Text
method_keys =
    codes "method"
    ∷ codes "event"
    ∷ codes "action"
    ∷ codes "type"
    ∷ codes "cmd"
    ∷ codes "on_event"
    ∷ codes "state"
    ∷ []

abbrev pub role_keys : List Text
role_keys = codes "role_name" ∷ codes "role" ∷ codes "client_type" ∷ codes "client" ∷ []

abbrev pub url_keys : List Text
url_keys =
    codes "srt_url"
    ∷ codes "url"
    ∷ codes "stream_id"
    ∷ codes "streamid"
    ∷ codes "stream_name"
    ∷ codes "stream"
    ∷ codes "live_key"
    ∷ []

-- A parameter of a request; an empty body is not decoded.
unfoldable pub param : Decoders → Request → List Text → Text
unfolding get_param
param d r keys =
    let q = d.parse_query r.raw_query in
    if r.body == []
    then get_param q [] none keys
    else get_param q (d.parse_query r.body) (d.unmarshal_map r.body) keys

module _ {F : Type 0} where
  -- An event of a publisher, once its parameters are read.
  unfoldable pub route : Time → Opening F → Text → Text → Text → Text → Text → World F → World F × ℕ
  unfolding is_close is_connect
  route now o method role srt_url protocol path w =
      if role == codes "player" || role == codes "play"
      then (w, 200)
      else if is_close method
      then handle_close path w
      else if is_connect method srt_url role
      then handle_connect now o protocol path w
      else (w, 200)

  unfoldable pub serve_http : Decoders → Time → Opening F → Request → World F → World F × ℕ
  unfolding param extract_stream_path detect_protocol route
  serve_http d now o r w =
      let srt_url = param d r url_keys in
      if contains r.path (codes "stat")
      then handle_stats_push d.unmarshal_stats now r.body w
      else route now o (to_lower (param d r method_keys)) (to_lower (param d r role_keys)) srt_url
          (detect_protocol w.handler.srtla_port (d.parse_query r.raw_query) srt_url)
          (extract_stream_path d.parse_query srt_url) w
