-- ===== src/Srt/Server/Failure.antt =====
-- The errors of Start.
use irl_universal_ingest.Prelude.{
  ◌≡◌, ◌≢◌, refl, [], ℤ, nat_eq, int_eq, text_eq, Text, Option, none, ◌⊎◌, inl, inr, ◌↔◌,
}
use irl_universal_ingest.Machine.{Machine, erase_absent, erase-insert}
use irl_universal_ingest.Srt.Ports.{ServerOptions}
use irl_universal_ingest.Srt.Server.{World, Answers, serve_webhooks, close_webhooks, new_server}
use irl_universal_ingest.Health.{Tracker}
use irl_universal_ingest.Srt.Server.Outcomes.{
  Outcome, not_listening, no_dir, not_written, running, start-Outcome,
}
use irl_universal_ingest.Srt.Server.Lifecycle.{start, make_dir, remove_all}
use irl_universal_ingest.Srt.Server.Release.{AreFresh, new_world, relisten}

abbrev Prepares : Answers → Type 0
Prepares a =
    (p : ℤ) × (d : Text) × (a.listen ≡ inr p) × (a.mkdir_temp ≡ inr d) × (a.write_file ≡ none)

-- An error, after which nothing is held, or none.
abbrev Settles : Answers → World → World × Option Text → Type 0
Settles a w r =
    ((r.1 ≡ none) × Prepares a)
    ⊎ ((r.1 ≢ none) × (Prepares a → ⊥) × (r.0.machine ≡ w.machine) × (r.0.health ≡ w.health))

module _ (a : Answers) (o : ServerOptions) (m : Machine) (h : Option Tracker) where
  settles :
      AreFresh a m
      → (r : World × Option Text) → Outcome a (new_world o m h) r
      → Settles a (new_world o m h) r
  unfolding serve_webhooks close_webhooks make_dir remove_all new_server
  settles f _ (not_listening e g) = inr (λ x. cc, λ (p, d, k, _, _). cc, refl, refl)
  settles f _ (no_dir port e g g') =
      inr
        (λ x. cc, λ (p, d, _, k, _). cc, rw (relisten port m.listeners (f.port port g)) refl, refl)
  settles f _ (not_written port dir e g g' g'') = inr (
    λ x. cc,
    λ (p, d, _, _, k). cc,
    rw
        (
          relisten port m.listeners (f.port port g),
          erase-insert dir [] m.dirs,
          erase_absent dir m.dirs (f.dir dir g').1,
        )
        refl,
    refl,
  )
  settles f _ (running port dir g g' g'') = inl (refl, (port, dir, g, g', g''))

-- Start returns nil iff it can listen, make its directory and write sls.conf; a process that does
-- not start is no error. If it returns an error, it has given back the listener and the directory,
-- no process runs, and the tracker is as before.
pub start_failed :
    (a : Answers) (o : ServerOptions) (m : Machine) (h : Option Tracker)
    → AreFresh a m
    → let (v, e) = start a (new_world o m h) in
      ((e ≡ none) ↔ (
        (p : ℤ) × (d : Text) × (a.listen ≡ inr p) × (a.mkdir_temp ≡ inr d) × (a.write_file ≡ none)))
      × (e ≢ none → (v.machine ≡ m) × (v.health ≡ h))
start_failed a o m h f = elim (settles a o m h f _ (start-Outcome a (new_world o m h))) [
  | inl (e, p) ↦ ((λ _. p, λ _. e), λ n. absurd (n e))
  | inr (e, p, em, eh) ↦ ((λ n. absurd (e n), λ q. absurd (p q)), λ _. (em, eh))
]
