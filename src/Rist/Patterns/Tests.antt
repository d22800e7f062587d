-- ===== src/Rist/Patterns/Tests.antt =====
-- The expressions on the lines of server_test.go.
use irl_universal_ingest.Prelude.{◌≡◌, refl, [], none, some, Text}
use irl_universal_ingest.Go.Strings.{codes, to_lower}
use irl_universal_ingest.Go.Format.{parse_uint}
use irl_universal_ingest.Rist.Patterns.{
  connection_status, find_cname, find_rtt, find_bitrate, find_lost, find_quality,
}

abbrev stats : Text
stats = codes "[STATS] cname: /live/stream, rtt: 45ms, bitrate: 5500kbps, lost: 2, quality: 99.8%"

test_cname : find_cname stats ≡ some (codes "/live/stream")
unfolding find_cname
test_cname = refl

test_rtt : find_rtt stats ≡ some (codes "45")
unfolding find_rtt
test_rtt = refl

test_bitrate : find_bitrate stats ≡ some (codes "5500", codes "kbps")
unfolding find_bitrate
test_bitrate = refl

test_lost : find_lost stats ≡ some (codes "2")
unfolding find_lost
test_lost = refl

test_quality : find_quality stats ≡ some (codes "99.8")
unfolding find_quality
test_quality = refl

test_bandwidth : find_bitrate (codes "bandwidth=4.5mbps rtt=20") ≡ some (codes "4.5", codes "mbps")
unfolding find_bitrate
test_bandwidth = refl

-- No unit, and a unit in upper case.
test_unit : find_bitrate (codes "Bitrate=7") ≡ some (codes "7", [])
unfolding find_bitrate
test_unit = refl

-- The disconnection that itself says "connected".
test_timed_out :
    connection_status (
      to_lower (
        codes
          "1787176098.560110|0.0|[INFO] Connection Status changed for Peer 134442744024176, new status is 1, peer connected count is 0"))
    ≡ some (codes "1")
unfolding connection_status to_lower
test_timed_out = refl

test_uint : parse_uint (codes "18446744073709551616") ≡ none
unfolding parse_uint
test_uint = refl
