-- ===== src/Main/Shutdown.antt =====
-- What the shutdown gives back.
use irl_universal_ingest.Prelude.{
  ℕ, true, ◌≡◌, ◌≢◌, ◌∙◌, refl, sym, ap, List, [], ◌∷◌, Option, none, some, ℤ, Text, All, int_eq,
  arith, Option-cases,
}
use irl_universal_ingest.Go.Strings.{codes}
use irl_universal_ingest.Config.{Config}
use irl_universal_ingest.Machine.{Machine, unlisten, unlisten_comm}
use irl_universal_ingest.Rtmp.Server as Rtmp
use irl_universal_ingest.Srt.Server.Lifecycle as SrtLifecycle
use irl_universal_ingest.Srt.Server.Release.{
  AreFresh, relisten, left, unlisten_of, close-left, close-start,
}
use irl_universal_ingest.Rist.Receiver as Rist
use irl_universal_ingest.Rist.Receiver.Steps.{member, run}
use irl_universal_ingest.Rist.Receiver.Close.{close_receiver_final}
use irl_universal_ingest.Stats.Listener as Stats
use irl_universal_ingest.Main.{
  App, Answers, Startup, ready, srt_options, new_app, start_rtmp, start_srt, start_rist,
  start_stats, then_or_fatal, startup, shutdown, failure, go_on_srt, go_on_rist, go_on_stats,
  srt_view,
}

succeeded :
    (message : Text) (r : App × Option Text) (rest : App → Startup) (w : App)
    → then_or_fatal message r rest ≡ ready w
    → (r.1 ≡ none) × (rest r.0 ≡ ready w)
unfolding then_or_fatal
succeeded message (v, none) rest w e = (refl, e)
succeeded message (v, some x) rest w e = absurd (cc)

pub start_rtmp-none :
    (a : Answers) (w : App)
    → (start_rtmp a w).1 ≡ none
    → (start_rtmp a w).0 ≡ record w {
      rtmp = record w.rtmp { listener = some w.rtmp.port };
      machine = record w.machine { listeners = w.rtmp.port ∷ w.machine.listeners };
    }
unfolding start_rtmp Rtmp.start
start_rtmp-none a w e = ground (arith, Option-cases a.rtmp_listen, e)

start_stats-none :
    (a : Answers) (w : App)
    → (start_stats a w).1 ≡ none
    → (start_stats a w).0 ≡ record w {
      stats = record w.stats { http_server = true; listener = some w.stats.port };
      machine = record w.machine { listeners = w.stats.port ∷ w.machine.listeners };
    }
unfolding start_stats Stats.start
start_stats-none a w e = ground (arith, Option-cases a.stats_listen, e)

-- The RIST server's start opens no listener, directory or process of the machine.
start_rist-rest :
    (a : Answers) (w : App)
    → let v = (start_rist a w).0 in
      (v.machine ≡ w.machine) × (v.rtmp ≡ w.rtmp) × (v.srt ≡ w.srt) × (v.stats ≡ w.stats)
unfolding start_rist
start_rist-rest a w = (refl, refl, refl, refl)

ready_injective : (v w : App) → ready v ≡ ready w → v ≡ w
ready_injective v w e = cc

-- The first listener and the last one around those of the SRT server, closed in the order they were
-- opened.
closed_in_order :
    (first last : ℤ) (middle : Option ℤ) (ps ms : List ℤ)
    → unlisten_of middle ps ≡ first ∷ ms
    → All (λ q. q ≢ first) ms
    → All (λ q. q ≢ last) ps
    → unlisten last (unlisten_of middle (unlisten first (last ∷ ps))) ≡ ms
closed_in_order first last none ps ms e h1 h2 =
    unlisten_comm last first (last ∷ ps)
    ∙ (ap (unlisten first) (relisten last ps h2 ∙ e) ∙ relisten first ms h1)
closed_in_order first last (some p) ps ms e h1 h2 =
    ap (unlisten last) (unlisten_comm p first (last ∷ ps))
    ∙ (unlisten_comm last first (unlisten p (last ∷ ps))
        ∙ (ap (unlisten first)
              (unlisten_comm last p (last ∷ ps) ∙ (ap (unlisten p) (relisten last ps h2) ∙ e))
            ∙ relisten first ms h1))

-- A port that can be listened on is not listened on yet; what the SRT server's calls name is new.
pub record IsFree (cfg : Config) (a : Answers) (m : Machine) (y : Rist.System) : Type 0 where
  pub rtmp : All (λ q. q ≢ cfg.rtmp.port) m.listeners
  pub srt : AreFresh a.srt (record m { listeners = cfg.rtmp.port ∷ m.listeners })
  pub stats :
      All
        (λ q. q ≢ cfg.stats_port)
        (start_srt a (start_rtmp a (new_app cfg m y)).0).0.machine.listeners

-- All four servers are started.
abbrev all_started : Config → Answers → Machine → Rist.System → App
all_started cfg a m y =
    (start_stats a (start_rist a (start_srt a (start_rtmp a (new_app cfg m y)).0).0).0).0

module _ (cfg : Config) (a : Answers) (m : Machine) (y : Rist.System) where
  startup-ready :
      (w : App)
      → startup cfg a m y ≡ ready w
      → ((start_rtmp a (new_app cfg m y)).1 ≡ none)
        × ((start_stats a (start_rist a (start_srt a (start_rtmp a (new_app cfg m y)).0).0).0).1
            ≡ none)
        × (all_started cfg a m y ≡ w)
  unfolding startup
  startup-ready w e =
      let w1 = start_rtmp a (new_app cfg m y) in
      let w2 = start_srt a w1.0 in
      let w3 = start_rist a w2.0 in
      let (e1, f1) = succeeded (failure (codes "RTMP")) w1 (go_on_srt a) w e in
      let (_, f2) = succeeded (failure (codes "SRT")) w2 (go_on_rist a) w f1 in
      let (_, f3) = succeeded (failure (codes "RIST")) w3 (go_on_stats a) w f2 in
      let (e4, f4) = succeeded (failure (codes "stats")) (start_stats a w3.0) ready w f3 in
      (e1, e4, ready_injective (start_stats a w3.0).0 w f4)

close-some :
    (s : Rtmp.Server) (p : ℤ) (ps : List ℤ)
    → s.listener ≡ some p
    → (Rtmp.close (s, ps)).1 ≡ unlisten p ps
unfolding Rtmp.close
close-some s p ps e = ground (arith, Option-cases s.listener, e)

shutdown-some :
    (s : Stats.Server) (p : ℤ) (ps : List ℤ)
    → s.http_server ≡ true
    → s.listener ≡ some p
    → (Stats.shutdown (s, ps)).1 ≡ unlisten p ps
unfolding Stats.shutdown
shutdown-some s p ps e1 e2 = ground (arith, Option-cases s.listener, e1, e2)

-- The machine after the shutdown of servers that all listen, by its three parts.
shutdown-machine :
    (w : App) (first last : ℤ) (ps : List ℤ) (m : Machine)
    → w.rtmp.listener ≡ some first
    → w.stats.http_server ≡ true
    → w.stats.listener ≡ some last
    → w.machine.listeners ≡ last ∷ ps
    → left (record {
      server = w.srt;
      machine = record w.machine { listeners = ps };
      health = w.health;
      polled = [];
    })
      ≡ record m { listeners = first ∷ m.listeners }
    → All (λ q. q ≢ first) m.listeners
    → All (λ q. q ≢ last) ps
    → (shutdown w).machine ≡ m
unfolding shutdown
shutdown-machine w first last ps m e1 e2 e3 e4 e5 h1 h2 =
    let all =
      closed_in_order first last w.srt.webhook_server ps m.listeners (ap (λ n. n.listeners) e5) h1
        h2 in
    let u = record (srt_view w) {
      machine = record w.machine { listeners = (Rtmp.close (w.rtmp, w.machine.listeners)).1 };
    } in
    let after : Machine → Machine =
      λ n. record n { listeners = (Stats.shutdown (w.stats, n.listeners)).1 } in
    let ended : after (left u) ≡ m =
      rw
        (
          shutdown-some w.stats last (left u).listeners e2 e3,
          close-some w.rtmp first w.machine.listeners e1,
          e4,
          all,
          ap (λ n. n.dirs) e5,
          ap (λ n. n.running) e5,
        )
        refl in
    ap after (close-left u) ∙ ended

-- The receiver's processes after the shutdown.
rist-killed :
    (w : App) (pid : ℕ)
    → member pid (shutdown w).rist.1.alive ≡ true
    → member pid (shutdown w).rist.1.killed ≡ true
unfolding shutdown Rist.close_receiver run
rist-killed w pid alive = (close_receiver_final w.rist.0 w.rist.1 [] tt).1 pid alive

rist-closed :
    (w : App) → ((shutdown w).rist.0.cancelled ≡ true) × ((shutdown w).rist.0.stopping ≡ true)
unfolding shutdown Rist.close_receiver
rist-closed w = (refl, refl)

module _ (cfg : Config) (a : Answers) (m : Machine) (y : Rist.System) (f : IsFree cfg a m y) where
  all_started-back :
      (start_rtmp a (new_app cfg m y)).1 ≡ none
      → (start_stats a (start_rist a (start_srt a (start_rtmp a (new_app cfg m y)).0).0).0).1 ≡ none
      → (shutdown (all_started cfg a m y)).machine ≡ m
  unfolding start_srt start_rist new_app start_rtmp
  all_started-back e1 e4 =
      let w1 = (start_rtmp a (new_app cfg m y)).0 in
      let w2 = (start_srt a w1).0 in
      let w3 = (start_rist a w2).0 in
      let same = start_stats-none a w3 e4 in
      let b1 = start_rtmp-none a (new_app cfg m y) e1 in
      let m1 : Machine = record m { listeners = cfg.rtmp.port ∷ m.listeners } in
      let v = (SrtLifecycle.start a.srt (srt_view w1)).0 in
      let left_m1 : left v ≡ m1 =
        sym (close-left v)
        ∙ (ap (λ x. (SrtLifecycle.close (SrtLifecycle.start a.srt (srt_view x)).0).machine) b1
            ∙ close-start a.srt (srt_options cfg) m1 (new_app cfg m y).health f.srt) in
      ap (λ w. (shutdown w).machine) same
      ∙ shutdown-machine _ cfg.rtmp.port cfg.stats_port w2.machine.listeners m
          (ap (λ w. w.rtmp.listener) b1) refl refl refl left_m1 f.rtmp f.stats

-- If main gets to its wait for a signal, then the shutdown leaves the machine's listeners,
-- directories and processes as they were before main, and every process that the RIST server still
-- has alive has been sent a kill signal, and its context is done.
pub shutdown-startup :
    (cfg : Config) (a : Answers) (m : Machine) (y : Rist.System) (w : App)
    → IsFree cfg a m y
    → startup cfg a m y ≡ ready w
    → ((shutdown w).machine ≡ m)
      × ((pid : ℕ)
          → member pid (shutdown w).rist.1.alive ≡ true
          → member pid (shutdown w).rist.1.killed ≡ true)
      × ((shutdown w).rist.0.cancelled ≡ true)
      × ((shutdown w).rist.0.stopping ≡ true)
shutdown-startup cfg a m y w f e =
    let (e1, e4, same) = startup-ready cfg a m y w e in
    let (cancelled, stopping) = rist-closed w in
    (
      ap (λ v. (shutdown v).machine) (sym same) ∙ all_started-back cfg a m y f e1 e4,
      rist-killed w,
      cancelled,
      stopping,
    )
