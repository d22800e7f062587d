-- ===== src/Main/Fatal.antt =====
-- What a fatal error leaves behind.
use irl_universal_ingest.Prelude.{
  ℕ, ◌≡◌, ◌∙◌, refl, ap, [], ◌∷◌, ◌++◌, Option, none, some, ℤ, Text, text_eq,
}
use irl_universal_ingest.Prelude.Assoc.{lookup}
use irl_universal_ingest.Go.Strings.{codes}
use irl_universal_ingest.Config.{Config}
use irl_universal_ingest.Machine.{Machine}
use irl_universal_ingest.Rtmp.Server as Rtmp
use irl_universal_ingest.Srt.Config.{generate_sls_config}
use irl_universal_ingest.Srt.Server.{sls_options}
use irl_universal_ingest.Srt.Server.Lifecycle as SrtLifecycle
use irl_universal_ingest.Srt.Server.Wiring.{AllStart, processes, start-both, start-launched}
use irl_universal_ingest.Rist.Receiver as Rist
use irl_universal_ingest.Main.{
  App, Answers, Startup, fatal, srt_options, new_app, start_rtmp, start_srt, start_rist,
  then_or_fatal, startup, failure, go_on_srt, go_on_rist, go_on_stats, srt_view,
}
use irl_universal_ingest.Main.Shutdown.{start_rtmp-none}

went_on :
    (message : Text) (r : App × Option Text) (rest : App → Startup)
    → r.1 ≡ none
    → then_or_fatal message r rest ≡ rest r.0
unfolding then_or_fatal
went_on message (v, none) rest e = refl
went_on message (v, some x) rest e = absurd (cc)

stopped :
    (message : Text) (r : App × Option Text) (rest : App → Startup) (reason : Text)
    → r.1 ≡ some reason
    → then_or_fatal message r rest ≡ fatal (message ++ reason) r.0
unfolding then_or_fatal
stopped message (v, none) rest reason e = absurd (cc)
stopped message (v, some x) rest reason e = cc

start_rist_error :
    (a : Answers) (w : App) (bin reason : Text)
    → a.ristreceiver ≡ some bin
    → Rist.launch_error a.rist_launch ≡ some reason
    → (start_rist a w).1 ≡ some reason
unfolding start_rist Rist.start Rist.start_process
start_rist_error a w bin reason e1 e2 =
    simp (start_rist, Rist.start, Rist.start_process, e1, e2) refl

-- If the RTMP server and both processes of the SRT adapter start, and then ristreceiver, which is
-- there, cannot be started, then main ends with its error, and both processes still run, and the
-- temporary directory with sls.conf is there. Nothing is assumed of the texts of the configuration.
pub startup-orphans :
    (cfg : Config) (a : Answers) (m : Machine) (y : Rist.System) (port : ℤ) (dir b c : Text)
    (n k : ℕ) (bin reason : Text)
    → a.rtmp_listen ≡ none
    → AllStart a.srt (srt_options cfg) port dir b c n k
    → a.ristreceiver ≡ some bin
    → Rist.launch_error a.rist_launch ≡ some reason
    → let path = a.srt.join dir (codes "sls.conf") in
      let o = srt_options cfg in
      (w : App) × (startup cfg a m y ≡ fatal (failure (codes "RIST") ++ reason) w)
      × (w.machine.running ≡ processes path b n c k o ++ m.running)
      × ((content : Text) × (lookup dir w.machine.dirs ≡ some ((path, content) ∷ [])))
unfolding startup start_srt start_rist new_app
startup-orphans cfg a m y port dir b c n k bin reason e1 all e2 e3 =
    let w0 = new_app cfg m y in
    let ok1 : (start_rtmp a w0).1 ≡ none = simp (start_rtmp, Rtmp.start, e1) refl in
    let w1 = (start_rtmp a w0).0 in
    let b1 = ap srt_view (start_rtmp-none a w0 ok1) in
    let m1 : Machine = record m { listeners = cfg.rtmp.port ∷ m.listeners } in
    let same = ap (SrtLifecycle.start a.srt) b1 in
    let both = start-both a.srt (srt_options cfg) m1 w0.health port dir b c n k all in
    let ok2 : (start_srt a w1).1 ≡ none = ap (λ r. r.1) same ∙ ap (λ r. r.1) both in
    let w2 = (start_srt a w1).0 in
    let o = srt_options cfg in
    let (h1, h2, _, _) = start-launched a.srt (srt_options cfg) m1 w0.health port dir b c n k all in
    let em = ap (λ r. r.0.machine) same in
    (
      (start_rist a w2).0,
      went_on (failure (codes "RTMP")) (start_rtmp a w0) (go_on_srt a) ok1
          ∙ (went_on (failure (codes "SRT")) (start_srt a w1) (go_on_rist a) ok2
              ∙ stopped (failure (codes "RIST")) (start_rist a w2) (go_on_stats a) reason
                  (start_rist_error a w2 bin reason e2 e3)),
      rw (em) h2,
      (generate_sls_config (sls_options a.srt port dir o), rw (em) h1),
    )
