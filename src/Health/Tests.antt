-- ===== src/Health/Tests.antt =====
-- A component that fails and recovers.
use irl_universal_ingest.Prelude.{◌≡◌, refl, List, [], ◌∷◌, text_eq, text_beq}
use irl_universal_ingest.Prelude.Assoc.{insert, erase}
use irl_universal_ingest.Health.{new_tracker, set_unhealthy, clear_unhealthy, problems}
use irl_universal_ingest.Go.Strings.{codes}
use irl_universal_ingest.Health.Reports.{Report, fails, recovers, run}

abbrev restarts : List Report
restarts =
    fails (codes "rist") (codes "exit status 1")
    ∷ fails (codes "srt_server") (codes "not found")
    ∷ recovers (codes "rist")
    ∷ []

test_problems : problems (run restarts new_tracker) ≡ (codes "srt_server", codes "not found") ∷ []
unfolding problems run new_tracker set_unhealthy clear_unhealthy insert erase text_beq
test_problems = refl
