-- ===== src/Health.antt =====
-- internal/health/health.go: which components report a failure, and why. A method returns the new
-- tracker.
pub mod Reports
mod Tests
use irl_universal_ingest.Prelude.{List, [], Text, text_eq, Option, none, some}
use irl_universal_ingest.Prelude.Assoc.{insert, erase}

pub record Tracker : Type 0 where
  pub errors : List (Text × Text)

unfoldable pub new_tracker : Tracker
new_tracker = record { errors = [] }

unfoldable pub set_unhealthy : Text → Text → Tracker → Tracker
set_unhealthy component reason t = record { errors = insert component reason t.errors }

unfoldable pub clear_unhealthy : Text → Tracker → Tracker
clear_unhealthy component t = record { errors = erase component t.errors }

-- The copy of a map is the map.
unfoldable pub problems : Tracker → List (Text × Text)
problems t = t.errors
