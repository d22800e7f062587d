-- ===== src/Health/Reports.antt =====
-- What /healthz shows after a history of reports.
use irl_universal_ingest.Prelude.{
  ◌≡◌, refl, List, [], ◌∷◌, Option, none, some, Text, text_eq, ◌==◌, if◌then◌else◌,
}
use irl_universal_ingest.Prelude.Assoc.{lookup, lookup-insert, lookup-erase}
use irl_universal_ingest.Health.{Tracker, new_tracker, set_unhealthy, clear_unhealthy, problems}

pub data Report : Type 0 where
  fails : Text → Text → Report
  recovers : Text → Report

unfoldable pub run : List Report → Tracker → Tracker
run [] t = t
run (fails component reason ∷ rs) t = run rs (set_unhealthy component reason t)
run (recovers component ∷ rs) t = run rs (clear_unhealthy component t)

-- The last report about a component: its reason, or none if it recovered; `before` if there is no
-- report.
pub last_report : Text → List Report → Option Text → Option Text
last_report c [] before = before
last_report c (fails component reason ∷ rs) before =
    last_report c rs (if component == c then some reason else before)
last_report c (recovers component ∷ rs) before =
    last_report c rs (if component == c then none else before)

from_here :
    (c : Text) (rs : List Report) (t : Tracker)
    → lookup c (problems (run rs t)) ≡ last_report c rs (lookup c (problems t))
unfolding run problems last_report set_unhealthy clear_unhealthy
from_here c [] t = refl
from_here c (fails component reason ∷ rs) t =
    rw
      (from_here c rs (set_unhealthy component reason t), lookup-insert component c reason t.errors)
      refl
from_here c (recovers component ∷ rs) t =
    rw (from_here c rs (clear_unhealthy component t), lookup-erase component c t.errors) refl

-- After any history of reports to a new tracker the problem shown for a component is that of the
-- last report about it, and there is none if that was a recovery or if there was no report.
pub problems-last_report :
    (c : Text) (rs : List Report) → lookup c (problems (run rs new_tracker)) ≡ last_report c rs none
unfolding new_tracker problems lookup
problems-last_report c rs = from_here c rs new_tracker
