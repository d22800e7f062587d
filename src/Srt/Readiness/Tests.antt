-- ===== src/Srt/Readiness/Tests.antt =====
-- The readiness poll on concrete rounds.
use irl_universal_ingest.Prelude.{
  ℕ, suc, ◌+◌, ◌*◌, ◌≡◌, ◌≤◌, refl, false, Option, none, some, pos, ltb, arith,
}
use irl_universal_ingest.Go.Strings.{codes}
use irl_universal_ingest.Go.Format.{print_int}
use irl_universal_ingest.Backoff.{millisecond, second}
use irl_universal_ingest.Srt.Readiness.{
  Poll, pause, wait_for_server_ready, Verdict, wait_for_server_ready-Verdict,
}

-- A server that listens from a round on; each round takes 60 ms.
abbrev from_round : ℕ → ℕ → Poll
from_round n k = record {
  now = 7 + k * (60 * millisecond);
  cancelled = false;
  answers = ltb n (1 + k);
}

test_ready : wait_for_server_ready (pos 8181) (5 * second) 7 (from_round 3) ≡ some none
unfolding wait_for_server_ready
test_ready = refl

-- The server would listen in round 100, the 84th round is past the deadline.
test_late :
    wait_for_server_ready (pos 8181) (5 * second) 7 (from_round 100)
    ≡ some (some (codes "timed out waiting for irl-srt-server on port 8181"))
unfolding wait_for_server_ready print_int
test_late = refl

each_later : (n i : ℕ) → (from_round n i).now + pause ≤ (from_round n (suc i)).now
each_later n i = omega arith

wait_for_server_ready-Verdict_example :
    (r : Option _) × (wait_for_server_ready (pos 8181) (5 * second) 7 (from_round 3) ≡ some r)
    × Verdict (pos 8181) (7 + 5 * second) (from_round 3) 0 r
wait_for_server_ready-Verdict_example =
    wait_for_server_ready-Verdict (pos 8181) (5 * second) 7 (from_round 3) (omega arith)
      (each_later 3)
