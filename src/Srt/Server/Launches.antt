-- ===== src/Srt/Server/Launches.antt =====
-- The outcomes of the two launches.
use irl_universal_ingest.Prelude.{
  ℕ, ◌*◌, ◌≡◌, refl, ◌∷◌, ℤ, pos, ltb_ℤ, Text, text_eq, Option, none, some, ◌⊎◌, inl, inr, arith,
  Option-cases, Bool-cases, if◌then◌else◌,
}
use irl_universal_ingest.Go.Strings.{codes}
use irl_universal_ingest.Backoff.{second}
use irl_universal_ingest.Srt.Readiness.{wait_for_server_ready}
use irl_universal_ingest.Srt.Server.{
  World, Answers, launch_srt, launch_srtla, set_unhealthy_if, clear_unhealthy_if, report_ready,
  await_ready, loopback, find_srt, started_srt, started_srtla,
}

-- A report changes the tracker only.
pub set_unhealthy_if-rest :
    (component reason : Text) (w : World)
    → let v = set_unhealthy_if component reason w in
      (v.machine ≡ w.machine) × (v.server ≡ w.server) × (v.polled ≡ w.polled)
unfolding set_unhealthy_if
set_unhealthy_if-rest component reason w = ground (arith, Option-cases w.health)

pub clear_unhealthy_if-rest :
    (component : Text) (w : World)
    → let v = clear_unhealthy_if component w in
      (v.machine ≡ w.machine) × (v.server ≡ w.server) × (v.polled ≡ w.polled)
unfolding clear_unhealthy_if
clear_unhealthy_if-rest component w = ground (arith, Option-cases w.health)

pub report_ready-rest :
    (r : Option (Option Text)) (w : World)
    → let v = report_ready r w in
      (v.machine ≡ w.machine) × (v.server ≡ w.server) × (v.polled ≡ w.polled)
unfolding report_ready
report_ready-rest none w = (refl, refl, refl)
report_ready-rest (some none) w = clear_unhealthy_if-rest (codes "srt_server") w
report_ready-rest (some (some reason)) w = set_unhealthy_if-rest (codes "srt_server") reason w

pub await_ready-rest :
    (a : Answers) (port : ℤ) (w : World)
    → let v = await_ready a port w in
      (v.machine ≡ w.machine)
      × (v.server ≡ w.server)
      × (v.polled ≡ loopback port (codes "/stats") ∷ w.polled)
unfolding await_ready
await_ready-rest a port w =
    report_ready-rest (wait_for_server_ready port (5 * second) a.now a.polls)
      (record w { polled = loopback port (codes "/stats") ∷ w.polled })

pub Sum-cases : {A B : Type 0} (s : A ⊎ B) → ((a : A) × (s ≡ inl a)) ⊎ ((b : B) × (s ≡ inr b))
Sum-cases (inl a) = inl (a, refl)
Sum-cases (inr b) = inr (b, refl)

module _ (a : Answers) where
  pub launch_srt-cases :
      (path : Text) (w : World)
      → ((find_srt a ≡ none) × (launch_srt a path w ≡ w))
        ⊎ (((binary : Text) × (reason : Text) × (find_srt a ≡ some binary)
              × (a.start_srt ≡ inl reason)
              × (launch_srt a path w ≡ set_unhealthy_if (codes "srt_server") reason w))
            ⊎ ((binary : Text) × (pid : ℕ) × (find_srt a ≡ some binary)
                × (a.start_srt ≡ inr pid)
                × (launch_srt a path w
                    ≡ await_ready a w.server.opts.http_port (started_srt pid binary path w))))
  unfolding launch_srt
  launch_srt-cases path w = ground (arith, Option-cases (find_srt a), Sum-cases a.start_srt)

  -- srtla_rec, where it is wanted.
  abbrev pub find_srtla : ℤ → Option Text
  find_srtla port = if ltb_ℤ (pos 0) port then a.look_path (codes "srtla_rec") else none

  pub launch_srtla-cases :
      (w : World)
      → ((find_srtla w.server.opts.srtla_port ≡ none) × (launch_srtla a w ≡ w))
        ⊎ (((binary : Text) × (reason : Text) × (find_srtla w.server.opts.srtla_port ≡ some binary)
              × (a.start_srtla ≡ inl reason)
              × (launch_srtla a w ≡ set_unhealthy_if (codes "srtla_rec") reason w))
            ⊎ ((binary : Text) × (pid : ℕ) × (find_srtla w.server.opts.srtla_port ≡ some binary)
                × (a.start_srtla ≡ inr pid)
                × (launch_srtla a w
                    ≡ clear_unhealthy_if (codes "srtla_rec") (started_srtla pid binary w))))
  unfolding launch_srtla
  launch_srtla-cases w = ground (
    arith,
    Bool-cases (ltb_ℤ (pos 0) w.server.opts.srtla_port),
    Option-cases (a.look_path (codes "srtla_rec")),
    Sum-cases a.start_srtla,
  )
