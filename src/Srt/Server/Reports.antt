-- ===== src/Srt/Server/Reports.antt =====
-- What the tracker shows of the SRT adapter after Start.
use irl_universal_ingest.Prelude.{
  ◌∷◌, ℕ, ◌*◌, ◌≡◌, refl, Text, text_eq, ◌==◌, if◌then◌else◌, Option, none, some, ◌⊎◌, inl, inr,
  Option-cases, text_beq, ◌↔◌, ◌+◌, ◌≤◌, suc,
}
use irl_universal_ingest.Prelude.Assoc.{lookup, lookup-insert, lookup-erase}
use irl_universal_ingest.Go.Strings.{codes}
use irl_universal_ingest.Backoff.{second}
use irl_universal_ingest.Health.{Tracker, problems, set_unhealthy, clear_unhealthy}
use irl_universal_ingest.Srt.Readiness.{
  IsReached, none_iff-IsReached, pause, wait_for_server_ready-Verdict,
}
use irl_universal_ingest.Srt.Ports.{ServerOptions}
use irl_universal_ingest.Machine.{Machine}
use irl_universal_ingest.Srt.Server.Release.{new_world}
use irl_universal_ingest.Srt.Server.Outcomes.{
  Outcome, not_listening, no_dir, not_written, running, prepared, start-Outcome,
}
use irl_universal_ingest.Srt.Server.{
  serve_webhooks, await_ready, loopback, World, Answers, launch_srt, launch_srtla, set_unhealthy_if,
  clear_unhealthy_if, report_ready, find_srt, started_srt, started_srtla,
}
use irl_universal_ingest.Srt.Server.Lifecycle.{start, make_dir, write_in}
use irl_universal_ingest.Srt.Server.Launches.{launch_srt-cases, launch_srtla-cases}

-- The problem of a component, if there is a tracker.
abbrev pub problem : Text → Option Tracker → Option Text
problem c none = none
problem c (some t) = lookup c (problems t)

set-problem :
    (component reason c : Text) (w : World) (t : Tracker)
    → w.health ≡ some t
    → problem c (set_unhealthy_if component reason w).health
      ≡ (if component == c then some reason else problem c w.health)
unfolding set_unhealthy_if set_unhealthy problems
set-problem component reason c w t e =
    simp (set_unhealthy_if, e) (lookup-insert component c reason t.errors)

clear-problem :
    (component c : Text) (w : World) (t : Tracker)
    → w.health ≡ some t
    → problem c (clear_unhealthy_if component w).health
      ≡ (if component == c then none else problem c w.health)
unfolding clear_unhealthy_if clear_unhealthy problems
clear-problem component c w t e = simp (clear_unhealthy_if, e) (lookup-erase component c t.errors)

-- The reports about srtla_rec do not change what is shown of srt_server.
launch_srtla-other :
    (a : Answers) (w : World)
    → problem (codes "srt_server") (launch_srtla a w).health ≡ problem (codes "srt_server") w.health
unfolding text_beq set_unhealthy_if clear_unhealthy_if
launch_srtla-other a w = elim (launch_srtla-cases a w) [
  | inl (_, e) ↦ rw (e) refl
  | inr (inl (b, reason, _, _, e)) ↦ rw (e) (elim (Option-cases w.health) [
    | inl n ↦ simp (set_unhealthy_if, n) refl
    | inr (t, n) ↦ set-problem (codes "srtla_rec") reason (codes "srt_server") w t n
  ])
  | inr (inr (b, pid, _, _, e)) ↦ rw (e) (elim (Option-cases w.health) [
    | inl n ↦ simp (clear_unhealthy_if, n) refl
    | inr (t, n) ↦
        clear-problem (codes "srtla_rec") (codes "srt_server") (started_srtla pid b w) t n
  ])
]

-- irl-srt-server is not there, or it has started and has answered in time.
abbrev pub IsWell : Answers → Type 0
IsWell a =
    (find_srt a ≡ none)
    ⊎ ((pid : ℕ) × (a.start_srt ≡ inr pid) × IsReached (a.now + 5 * second) a.polls)

abbrev IsShown : Answers → Option Tracker → Type 0
IsShown a h = (problem (codes "srt_server") h ≡ none) ↔ IsWell a

module _ (a : Answers) (t : Tracker) (clean : lookup (codes "srt_server") (problems t) ≡ none)
    (begun : a.now ≤ (a.polls 0).now)
    (slow : (i : ℕ) → (a.polls i).now + pause ≤ (a.polls (suc i)).now) where
  report_ready-problem :
      (r : Option Text) (w : World)
      → w.health ≡ some t
      → problem (codes "srt_server") (report_ready (some r) w).health ≡ r
  unfolding report_ready text_beq
  report_ready-problem none w h = clear-problem (codes "srt_server") (codes "srt_server") w t h
  report_ready-problem (some reason) w h =
      set-problem (codes "srt_server") reason (codes "srt_server") w t h

  waited-IsShown :
      (path binary : Text) (pid : ℕ) (w : World)
      → w.health ≡ some t
      → find_srt a ≡ some binary
      → a.start_srt ≡ inr pid
      → IsShown a (await_ready a w.server.opts.http_port (started_srt pid binary path w)).health
  unfolding await_ready
  waited-IsShown path binary pid w h f s =
      let (r, e, v) =
        wait_for_server_ready-Verdict w.server.opts.http_port (5 * second) a.now a.polls begun
          slow in
      let v0 = started_srt pid binary path w in
      let url = loopback w.server.opts.http_port (codes "/stats") in
      let shown = report_ready-problem r (record v0 { polled = url ∷ v0.polled }) h in
      let (to, from) = none_iff-IsReached v in
      rw (await_ready, e, shown)
        (
          λ x. inr (pid, s, to x),
          λ y. elim y [ inl n ↦ absurd (let q = f in cc) | inr (_, _, reached) ↦ from reached ],
        )

  launch_srt-IsShown :
      (path : Text) (w : World) → w.health ≡ some t → IsShown a (launch_srt a path w).health
  unfolding text_beq
  launch_srt-IsShown path w h = elim (launch_srt-cases a path w) [
    | inl (f, e) ↦ rw (e, h) (λ _. inl f, λ _. clean)
    | inr (inl (b, reason, f, s, e)) ↦
        let shown = set-problem (codes "srt_server") reason (codes "srt_server") w t h in
        rw (e, shown)
          (
            λ x. cc,
            λ y. elim y [
              | inl n ↦ absurd (let q = f in cc)
              | inr (p, s', _) ↦ absurd (let q = s in cc)
            ],
          )
    | inr (inr (b, pid, f, s, e)) ↦ rw (e) (waited-IsShown path b pid w h f s)
  ]

  started-IsShown :
      (o : ServerOptions) (m : Machine) (r : World × Option Text)
      → Outcome a (new_world o m (some t)) r
      → r.1 ≡ none
      → IsShown a r.0.health
  unfolding serve_webhooks make_dir write_in
  started-IsShown o m _ (not_listening e g) n = absurd (let q = n in cc)
  started-IsShown o m _ (no_dir port e g g') n = absurd (let q = n in cc)
  started-IsShown o m _ (not_written port dir e g g' g'') n = absurd (let q = n in cc)
  started-IsShown o m _ (running port dir g g' g'') n =
      let path = a.join dir (codes "sls.conf") in
      let w = prepared a port dir (new_world o m (some t)) in
      rw (launch_srtla-other a (launch_srt a path w)) (launch_srt-IsShown path w refl)

-- If Start returns nil, with a tracker that shows no problem of srt_server before, and if each round
-- of the poll that fails advances the clock by its sleep, then no problem of srt_server is shown
-- afterwards iff neither srt_server nor sls is on the PATH, or it has started and a request of the
-- poll was answered within five seconds. What happens to srtla_rec does not matter.
pub start-srt_problem :
    (a : Answers) (o : ServerOptions) (m : Machine) (t : Tracker)
    → lookup (codes "srt_server") (problems t) ≡ none
    → a.now ≤ (a.polls 0).now
    → ((i : ℕ) → (a.polls i).now + pause ≤ (a.polls (suc i)).now)
    → (start a (new_world o m (some t))).1 ≡ none
    → (problem (codes "srt_server") (start a (new_world o m (some t))).0.health ≡ none) ↔ IsWell a
start-srt_problem a o m t clean begun slow =
    started-IsShown a t clean begun slow o m _ (start-Outcome a (new_world o m (some t)))
