-- ===== src/Stats/Listener.antt =====
-- internal/stats/server.go: the start and the shutdown of the HTTP server.
use irl_universal_ingest.Prelude.{
  Bool, true, false, List, ◌∷◌, ◌++◌, Option, none, some, ℤ, Text, if◌then◌else◌,
}
use irl_universal_ingest.Go.Strings.{codes}
use irl_universal_ingest.Go.Format.{print_int}
use irl_universal_ingest.Machine.{unlisten}

-- Whether s.httpServer is set, and the port that it serves.
pub record Server : Type 0 where
  pub port : ℤ
  pub http_server : Bool
  pub listener : Option ℤ

unfoldable pub new_server : ℤ → Server
new_server port = record { port = port; http_server = false; listener = none }

-- For the error of net.Listen, on the ports that are listened on.
unfoldable pub start : Option Text → Server × List ℤ → (Server × List ℤ) × Option Text
start (some e) (s, ps) = (
  (record s { http_server = true }, ps),
  some (codes "binding stats listener on port " ++ (print_int s.port ++ (codes ": " ++ e))),
)
start none (s, ps) = ((record s { http_server = true; listener = some s.port }, s.port ∷ ps), none)

-- The listener is closed; the wait for the requests in hand is net/http's.
unfoldable pub shutdown : Server × List ℤ → Server × List ℤ
unfolding unlisten
shutdown (s, ps) =
    if s.http_server then (s, elim s.listener [ none ↦ ps | some p ↦ unlisten p ps ]) else (s, ps)
