-- ===== src/Srt/Stats.antt =====
-- internal/ingest/srt/stats.go: what a push of irl-srt-server says about a stream. The JSON decoder
-- is an argument.
use irl_universal_ingest.Prelude.{
  ◌≡◌, ◌↔◌, Bool, true, false, List, [], ◌∷◌, Option, none, some, ℤ, pos, Text, text_eq,
  text_beq_iff, ◌==◌, if◌then◌else◌, Any, arith, refl,
}
use irl_universal_ingest.Go.Strings.{codes, trim_prefix}

pub record StreamMetric : Type 0 where
  pub stream_id : Text
  pub bitrate_kbps : ℤ
  pub found : Bool

pub record SlsStatEntry : Type 0 where
  pub role : Text
  pub stream_name : Text
  pub url : Text
  pub kbit_rate : ℤ

unfoldable pub normalize_publisher_key : Text → Text
unfolding trim_prefix
normalize_publisher_key key = trim_prefix (trim_prefix key (codes "publish/")) (codes "/")

-- The loop over the entries, with the metric found so far.
unfoldable pub find_entry : Text → StreamMetric → List SlsStatEntry → StreamMetric
find_entry target metric [] = metric
find_entry target metric (e ∷ es) =
    let rest = find_entry target metric es in
    if e.role == codes "publisher"
    then (if normalize_publisher_key e.url == target
        then record metric { bitrate_kbps = e.kbit_rate; found = true }
        else rest)
    else rest

-- `none` is an error of the decoder.
unfoldable pub parse_stats : (Text → Option (List SlsStatEntry)) → Text → Text → Option StreamMetric
unfolding find_entry
parse_stats unmarshal bytes target = elim (unmarshal bytes) [
  | none ↦ none
  | some entries ↦ some (
      find_entry (normalize_publisher_key target)
        (record { stream_id = target; bitrate_kbps = pos 0; found = false }) entries)
]

-- An entry that publishes a stream.
abbrev pub Publishes : Text → SlsStatEntry → Type 0
Publishes target e =
    (e.role ≡ codes "publisher") × (normalize_publisher_key e.url ≡ normalize_publisher_key target)

found_iff :
    (target : Text) (metric : StreamMetric) (es : List SlsStatEntry)
    → metric.found ≡ false
    → ((find_entry (normalize_publisher_key target) metric es).found ≡ true)
      ↔ Any (Publishes target) es
unfolding find_entry
found_iff target metric [] h = (λ e. cc (e, h), λ e. absurd e)
found_iff target metric (e ∷ es) h = ground (
  arith,
  text_beq_iff e.role (codes "publisher"),
  text_beq_iff (normalize_publisher_key e.url) (normalize_publisher_key target),
  found_iff target metric es h,
)

-- A decoded push shows a stream exactly if one of its entries is that of a publisher whose URL is
-- the stream's, both without the prefix of the domain and the leading slash.
pub parse_stats-found :
    (unmarshal : Text → Option (List SlsStatEntry)) (bytes target : Text) (es : List SlsStatEntry)
    → unmarshal bytes ≡ some es
    → (m : StreamMetric) × (parse_stats unmarshal bytes target ≡ some m)
      × ((m.found ≡ true) ↔ Any (Publishes target) es)
unfolding parse_stats
parse_stats-found unmarshal bytes target es h =
    let start : StreamMetric = record { stream_id = target; bitrate_kbps = pos 0; found = false } in
    (
      find_entry (normalize_publisher_key target) start es,
      rw (parse_stats, h) refl,
      found_iff target start es refl,
    )
