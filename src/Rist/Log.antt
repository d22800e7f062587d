-- ===== src/Rist/Log.antt =====
-- internal/ingest/rist/stats.go: what a line of ristreceiver says. The JSON decoder and strconv's
-- ParseFloat are arguments; the regular expressions stand in Rist/Patterns.antt.
pub mod Liveness
use irl_universal_ingest.Prelude.{
  ℕ, ◌*◌, ◌^◌, ◌<◌, Bool, true, false, ◌&&◌, ◌||◌, List, [], ◌∷◌, Option, none, some, ℤ, pos, quot,
  int_eq, nat_eq, Text, text_eq, ◌==◌, if◌then◌else◌,
}
use irl_universal_ingest.Go.Strings.{codes, contains, to_lower, trim_space}
use irl_universal_ingest.Go.Floats.{Floats}
use irl_universal_ingest.Go.Format.{parse_uint}
use irl_universal_ingest.Rist.Patterns.{
  connection_status, find_cname, find_rtt, find_bitrate, find_lost, find_quality,
}

pub record StatsMetric (F : Type 0) : Type 0 where
  pub cname : Text
  pub bitrate_kbps : ℤ
  pub rtt_ms : ℤ
  pub quality : F
  pub lost_packets : ℕ
  pub connected : Bool
  pub disconnected : Bool
  pub has_stats : Bool

pub record Peer (F : Type 0) : Type 0 where
  pub dead : ℤ
  pub rtt : F
  pub bitrate : ℤ

-- The "flowinstant" of "receiver-stats".
pub record RistStatsPayload (F : Type 0) : Type 0 where
  pub dead : ℤ
  pub quality : F
  pub lost : ℕ
  pub peers : List (Peer F)

-- json.Unmarshal and strconv.ParseFloat; `none` is an error.
pub record Parsers (F : Type 0) : Type 0 where
  pub unmarshal : Text → Option (RistStatsPayload F)
  pub parse_float : Text → Option F

-- line[idx:] for the first place of a brace.
unfoldable pub from_brace : Text → Option Text
from_brace [] = none
from_brace (c ∷ s) = elim (c == b'{') [ true ↦ some (c ∷ s) | false ↦ from_brace s ]

abbrev pub bind : {A B : Type 0} → Option A → (A → Option B) → Option B
bind none f = none
bind (some a) f = f a

module _ {F : Type 0} ⦃fl : Floats F⦄ where
  abbrev pub no_metric : StatsMetric F
  no_metric = record {
    cname = [];
    bitrate_kbps = pos 0;
    rtt_ms = pos 0;
    quality = fl.of_int (pos 0);
    lost_packets = 0;
    connected = false;
    disconnected = false;
    has_stats = false;
  }

  -- The metric of a blob whose flow and first peer are not dead.
  unfoldable pub metric_of : RistStatsPayload F → Option (StatsMetric F)
  metric_of flow = elim flow.peers [
    | [] ↦ none
    | p ∷ ps ↦
        if flow.dead == pos 0 && p.dead == pos 0
        then some (record no_metric {
          has_stats = true;
          rtt_ms = fl.to_int p.rtt;
          bitrate_kbps = quot p.bitrate 1000;
          quality = flow.quality;
          lost_packets = flow.lost;
        })
        else none
  ]

  unfoldable pub json_metric : Parsers F → Text → Option (StatsMetric F)
  unfolding from_brace metric_of
  json_metric ps line = bind (from_brace line) (λ json. bind (ps.unmarshal json) metric_of)

  -- The connection status of a line, from the line in lower case.
  unfoldable pub with_status : Text → StatsMetric F → StatsMetric F
  unfolding connection_status
  with_status lower m = elim (connection_status lower) [
    | some status ↦
        if status == codes "0" || status == codes "2"
        then record m { connected = true }
        else if status == codes "1" || status == codes "3"
        then record m { disconnected = true }
        else m
    | none ↦
        if contains lower (codes "disconnected")
          || contains lower (codes "peer removed")
          || contains lower (codes "connection closed")
        then record m { disconnected = true }
        else if contains lower (codes "connected") || contains lower (codes "peer added")
        then record m { connected = true }
        else m
  ]

  abbrev pub with_cname : Option Text → StatsMetric F → StatsMetric F
  with_cname none m = m
  with_cname (some name) m = record m { cname = trim_space name }

  abbrev pub with_rtt : Option F → StatsMetric F → StatsMetric F
  with_rtt none m = m
  with_rtt (some x) m = record m { rtt_ms = fl.to_int x }

  unfoldable pub to_kbps : Text → F → ℤ
  unfolding to_lower
  to_kbps unit x =
      let u = to_lower unit in
      if u == codes "mbps"
      then fl.to_int (fl.mul x (fl.of_int (pos 1000)))
      else if u == codes "bps"
      then fl.to_int (fl.div x (fl.of_int (pos 1000)))
      else fl.to_int x

  abbrev pub with_bitrate : Option (F × Text) → StatsMetric F → StatsMetric F
  with_bitrate none m = m
  with_bitrate (some (x, unit)) m = record m { bitrate_kbps = to_kbps unit x }

  abbrev pub with_lost : Option ℕ → StatsMetric F → StatsMetric F
  with_lost none m = m
  with_lost (some n) m = record m { lost_packets = n }

  abbrev pub with_quality : Option F → StatsMetric F → StatsMetric F
  with_quality none m = m
  with_quality (some x) m = record m { quality = x }

  unfoldable pub bitrate_of : Parsers F → Text → Option (F × Text)
  unfolding find_bitrate
  bitrate_of ps line =
      bind (find_bitrate line) (λ g. bind (ps.parse_float g.0) (λ x. some (x, g.1)))

  unfoldable pub text_metric : Parsers F → Text → StatsMetric F
  unfolding with_status bitrate_of find_cname find_rtt find_lost find_quality parse_uint
  text_metric ps line = with_quality (bind (find_quality line) ps.parse_float) (
      with_lost (bind (find_lost line) parse_uint) (
        with_bitrate (bitrate_of ps line) (
          with_rtt (bind (find_rtt line) ps.parse_float)
            (with_cname (find_cname line) (with_status (to_lower line) no_metric)))))

  unfoldable pub parse_log_line : Parsers F → Text → StatsMetric F
  unfolding json_metric text_metric
  parse_log_line ps line = elim (json_metric ps line) [ some m ↦ m | none ↦ text_metric ps line ]
