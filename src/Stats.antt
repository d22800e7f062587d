-- ===== src/Stats.antt =====
-- internal/stats/collector.go: the statistics of each path.
pub mod Listener
pub mod Active
pub mod Server
mod Tests
use irl_universal_ingest.Prelude.{
  ℕ, Bool, true, false, ◌&&◌, ◌||◌, not, List, [], ◌∷◌, ◌++◌, Option, none, some, ℤ, pos, Text,
  text_eq, ◌==◌, if◌then◌else◌,
}
use irl_universal_ingest.Go.Clock.{Time, since}
use irl_universal_ingest.Go.Floats.{Floats}
use irl_universal_ingest.Auth.{normalize_path}
use irl_universal_ingest.Arbitration.{Manager, SlotInfo, active_info}
use irl_universal_ingest.Relay.{Relay, is_running}

pub record PathStat (F : Type 0) : Type 0 where
  pub path : Text
  pub active : Bool
  pub protocol : Text
  pub uptime : ℤ
  pub bitrate : ℤ
  pub rtt : Option F

unfoldable pub has : Text → List Text → Bool
has p [] = false
has p (q ∷ qs) = q == p || has p qs

-- seenPaths holds the members of paths.
unfoldable pub add_path : Text → List Text → List Text
unfolding normalize_path has
add_path p paths =
    let norm = normalize_path p in if has norm paths then paths else paths ++ (norm ∷ [])

unfoldable pub add_paths : List Text → List Text → List Text
add_paths [] paths = paths
add_paths (p ∷ ps) paths = add_paths ps (add_path p paths)

unfoldable pub healthy : {F E : Type 0} → Manager F E → Relay → Bool
healthy m r = elim (active_info m) [ none ↦ true | some _ ↦ is_running r ]

module _ {F : Type 0} where
  abbrev pub all_paths : List Text → Option (SlotInfo F) → List Text
  all_paths allowed none = add_paths allowed []
  all_paths allowed (some s) = add_path s.path (add_paths allowed [])

  abbrev pub inactive : Text → PathStat F
  inactive p = record {
    path = p;
    active = false;
    protocol = [];
    uptime = pos 0;
    bitrate = pos 0;
    rtt = none;
  }

  module _ ⦃fl : Floats F⦄ where
    abbrev pub path_stat : Time → Bool → Option (SlotInfo F) → Text → PathStat F
    path_stat now running none p = inactive p
    path_stat now running (some s) p =
        if running && normalize_path s.path == p
        then record {
          path = p;
          active = true;
          protocol = s.protocol;
          uptime = fl.to_int (fl.seconds (since now s.started_at));
          bitrate = s.bitrate_kbps;
          rtt = s.rtt;
        }
        else inactive p

    unfoldable pub stats_of : Time → Bool → Option (SlotInfo F) → List Text → List (PathStat F)
    stats_of now running slot [] = []
    stats_of now running slot (p ∷ ps) = path_stat now running slot p ∷ stats_of now running slot ps

    unfoldable pub collect :
        {E : Type 0} → Time → List Text → Manager F E → Relay → List (PathStat F)
    unfolding stats_of add_paths
    collect now allowed m r =
        let slot = active_info m in stats_of now (is_running r) slot (all_paths allowed slot)
