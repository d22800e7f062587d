-- ===== src/Srt/Server/Wiring.antt =====
-- The ports and files by which the webhook server, srt_server and srtla_rec find each other.
use irl_universal_ingest.Prelude.{
  ℕ, ◌≡◌, ◌≢◌, ◌∙◌, refl, ap, true, false, List, [], ◌∷◌, ◌++◌, ℤ, pos, ◌+ℤ◌, ltb_ℤ, text_eq, ◌==◌,
  Text, text_beq, Option, none, some, inl, inr, arith, Bool-cases,
}
use irl_universal_ingest.Prelude.Assoc.{lookup, insert, lookup-insert}
use irl_universal_ingest.Go.Strings.{codes}
use irl_universal_ingest.Go.Format.{print_int}
use irl_universal_ingest.Health.{Tracker}
use irl_universal_ingest.Srt.Config.{
  SlsConfigOptions, or_text, with_defaults, generate_sls_config, build_srtla_args,
}
use irl_universal_ingest.Srt.Config.Reader.{read_settings}
use irl_universal_ingest.Srt.Config.Settings.{IsPlain, settings}
use irl_universal_ingest.Srt.Config.Roundtrip.{read_settings-generate_sls_config}
use irl_universal_ingest.Srt.Ports.{
  ServerOptions, pick_internal_srtla_port, pick_internal_srtla_port-IsFree, IsFree,
}
use irl_universal_ingest.Machine.{Machine, Process}
use irl_universal_ingest.Srt.Server.{
  World, Answers, sls_options, loopback, find_srt, launch_srt, launch_srtla, started_srt,
  started_srtla, serve_webhooks, new_server,
}
use irl_universal_ingest.Srt.Server.Lifecycle.{start, configure, make_dir, write_in}
use irl_universal_ingest.Srt.Server.Launches.{clear_unhealthy_if-rest, await_ready-rest}
use irl_universal_ingest.Srt.Server.Outcomes.{prepared}
use irl_universal_ingest.Srt.Server.Release.{new_world}

filled : (s : Text) → s ≢ [] → (s == []) ≡ false
filled s h = ground (arith, text_eq.beq_iff s [])

loopback_some : (port : ℤ) (route : Text) → loopback port route ≢ []
loopback_some port route e = cc

-- The settings by which the parts are joined.
lookup-settings :
    (c : SlsConfigOptions)
    → c.webhook_url ≢ []
    → c.stat_post_url ≢ []
    → ltb_ℤ (pos 0) c.srtla_port ≡ true
    → let s = settings (with_defaults c) in
      (lookup (codes "listen_publisher_srtla") s ≡ some (print_int c.srtla_port))
      × (lookup (codes "http_port") s ≡ some (print_int c.http_port))
      × (lookup (codes "on_event_url") s ≡ some c.webhook_url)
      × (lookup (codes "stat_post_url") s ≡ some c.stat_post_url)
unfolding lookup text_beq with_defaults
lookup-settings c h1 h2 h3 =
    let e1 = filled c.webhook_url h1 in
    let e2 = filled c.stat_post_url h2 in
    elim (Bool-cases (c.passphrase == [])) [
      | inl e ↦ rw (h3, e1, e2, e) (refl, refl, refl, refl)
      | inr e ↦ rw (h3, e1, e2, e) (refl, refl, refl, refl)
    ]

picked_positive :
    (o : ServerOptions)
    → ltb_ℤ (pos 0) o.srt_port ≡ true
    → ltb_ℤ (pos 0) (pick_internal_srtla_port o) ≡ true
unfolding ◌+ℤ◌
picked_positive o h =
    let (_, (k, _, e)) = pick_internal_srtla_port-IsFree o in rw (e) (ground (arith, h))

-- The two processes of a Start, the later one first.
abbrev pub processes : Text → Text → ℕ → Text → ℕ → ServerOptions → List Process
processes path srt_binary srt_pid srtla_binary srtla_pid o =
    record {
      pid = srtla_pid;
      program = srtla_binary;
      args =
          codes "--srtla_port"
          ∷ print_int o.srtla_port
          ∷ codes "--srt_hostname"
          ∷ codes "127.0.0.1"
          ∷ codes "--srt_port"
          ∷ print_int (pick_internal_srtla_port o)
          ∷ codes "--log_level"
          ∷ or_text (codes "info") o.log_level
          ∷ [];
    }
    ∷ record { pid = srt_pid; program = srt_binary; args = codes "-c" ∷ path ∷ [] }
    ∷ []

module _ (a : Answers) (w : World) where
  srt_launched :
      (path binary : Text) (pid : ℕ)
      → find_srt a ≡ some binary
      → a.start_srt ≡ inr pid
      → let v = launch_srt a path w in
        let v' = started_srt pid binary path w in
        (v.machine ≡ v'.machine)
        × (v.server ≡ v'.server)
        × (v.polled ≡ loopback w.server.opts.http_port (codes "/stats") ∷ w.polled)
  unfolding launch_srt
  srt_launched path binary pid f s =
      simp (launch_srt, f, s)
        (await_ready-rest a w.server.opts.http_port (started_srt pid binary path w))

  srtla_launched :
      (binary : Text) (pid : ℕ)
      → ltb_ℤ (pos 0) w.server.opts.srtla_port ≡ true
      → a.look_path (codes "srtla_rec") ≡ some binary
      → a.start_srtla ≡ inr pid
      → let v = launch_srtla a w in
        let v' = started_srtla pid binary w in
        (v.machine ≡ v'.machine) × (v.server ≡ v'.server) × (v.polled ≡ w.polled)
  unfolding launch_srtla
  srtla_launched binary pid p f s =
      simp (launch_srtla, p, f, s)
        (clear_unhealthy_if-rest (codes "srtla_rec") (started_srtla pid binary w))

-- The answers with which both processes start.
pub record AllStart (a : Answers) (o : ServerOptions) (port : ℤ)
    (dir srt_binary srtla_binary : Text) (srt_pid srtla_pid : ℕ) : Type 0 where
  pub listens : a.listen ≡ inr port
  pub makes : a.mkdir_temp ≡ inr dir
  pub writes : a.write_file ≡ none
  pub finds_srt : find_srt a ≡ some srt_binary
  pub starts_srt : a.start_srt ≡ inr srt_pid
  pub finds_srtla : a.look_path (codes "srtla_rec") ≡ some srtla_binary
  pub starts_srtla : a.start_srtla ≡ inr srtla_pid
  pub srtla_port : ltb_ℤ (pos 0) o.srtla_port ≡ true

module _ (a : Answers) (o : ServerOptions) (m : Machine) (h : Option Tracker) (port : ℤ)
    (dir b c : Text) (n k : ℕ) (all : AllStart a o port dir b c n k) where
  abbrev pub both : World
  both =
      launch_srtla a
        (launch_srt a (a.join dir (codes "sls.conf")) (prepared a port dir (new_world o m h)))

  pub start-both : start a (new_world o m h) ≡ (both, none)
  unfolding start configure
  start-both = simp (start, configure, all.listens, all.makes, all.writes) refl

  both-machine :
      let path = a.join dir (codes "sls.conf") in
      both.machine
        ≡ (started_srtla k c (started_srt n b path (prepared a port dir (new_world o m h)))).machine
      × (both.polled ≡ loopback o.http_port (codes "/stats") ∷ [])
  unfolding serve_webhooks make_dir write_in new_server
  both-machine =
      let w = prepared a port dir (new_world o m h) in
      let path = a.join dir (codes "sls.conf") in
      let (em, es, ep) = srt_launched a w path b n all.finds_srt all.starts_srt in
      let u = launch_srt a path w in
      let wanted : ltb_ℤ (pos 0) u.server.opts.srtla_port ≡ true = rw (es) all.srtla_port in
      let (e, _, e') = srtla_launched a u c k wanted all.finds_srtla all.starts_srtla in
      (e ∙ (rw (em, es) refl), e' ∙ ep)

  written :
      lookup dir (prepared a port dir (new_world o m h)).machine.dirs
      ≡ some ((a.join dir (codes "sls.conf"), generate_sls_config (sls_options a port dir o)) ∷ [])
  unfolding serve_webhooks make_dir write_in new_server
  written =
      let content = generate_sls_config (sls_options a port dir o) in
      lookup-insert dir dir ((a.join dir (codes "sls.conf"), content) ∷ []) (insert dir [] m.dirs)
      ∙ (rw ((text_eq.beq_iff dir dir).1 refl) refl)

-- What a Start leaves with which both processes start.
pub start-launched :
    (a : Answers) (o : ServerOptions) (m : Machine) (h : Option Tracker) (port : ℤ) (dir b c : Text)
    (n k : ℕ)
    → AllStart a o port dir b c n k
    → let v = (start a (new_world o m h)).0 in
      let path = a.join dir (codes "sls.conf") in
      (lookup dir v.machine.dirs
        ≡ some ((path, generate_sls_config (sls_options a port dir o)) ∷ []))
      × (v.machine.running ≡ processes path b n c k o ++ m.running)
      × (v.machine.listeners ≡ port ∷ m.listeners)
      × (v.polled ≡ loopback o.http_port (codes "/stats") ∷ [])
unfolding serve_webhooks make_dir write_in new_server build_srtla_args text_beq sls_options
start-launched a o m h port dir b c n k all =
    let same = start-both a o m h port dir b c n k all in
    let (em, ep) = both-machine a o m h port dir b c n k all in
    let e = ap (λ r. r.0.machine) same ∙ em in
    (
      rw (e) (written a o m h port dir b c n k all),
      rw (e) refl,
      rw (e) refl,
      ap (λ r. r.0.polled) same ∙ ep,
    )

-- If both processes start, the SRT and the SRTLA port are positive, and no text of the options holds
-- a semicolon or a newline, then srt_server runs on the one file of the new directory, and srtla_rec
-- forwards to a port that this file makes srt_server listen on and that is none of the adapter's four
-- ports; the only URL that Start polls is at the port that the file sets as srt_server's HTTP port,
-- and the events and the statistics are sent to the port the webhook server listens on.
pub start-wiring :
    (a : Answers) (o : ServerOptions) (m : Machine) (h : Option Tracker) (port : ℤ) (dir b c : Text)
    (n k : ℕ)
    → AllStart a o port dir b c n k
    → ltb_ℤ (pos 0) o.srt_port ≡ true
    → IsPlain (sls_options a port dir o)
    → let v = (start a (new_world o m h)).0 in
      let path = a.join dir (codes "sls.conf") in
      (content : Text) × (lookup dir v.machine.dirs ≡ some ((path, content) ∷ []))
      × (v.machine.running ≡ processes path b n c k o ++ m.running)
      × (v.machine.listeners ≡ port ∷ m.listeners)
      × (v.polled ≡ loopback o.http_port (codes "/stats") ∷ [])
      × IsFree o (pick_internal_srtla_port o)
      × (let s = read_settings content in
          (lookup (codes "listen_publisher_srtla") s
            ≡ some (print_int (pick_internal_srtla_port o)))
          × (lookup (codes "http_port") s ≡ some (print_int o.http_port))
          × (lookup (codes "on_event_url") s ≡ some (loopback port (codes "/sls/on_event")))
          × (lookup (codes "stat_post_url") s ≡ some (loopback port (codes "/sls/stat"))))
unfolding sls_options
start-wiring a o m h port dir b c n k all positive plain =
    let (files, runs, listens, polled) = start-launched a o m h port dir b c n k all in
    (
      generate_sls_config (sls_options a port dir o),
      files,
      runs,
      listens,
      polled,
      (pick_internal_srtla_port-IsFree o).0,
      rw (read_settings-generate_sls_config (sls_options a port dir o) plain) (
          lookup-settings (sls_options a port dir o) (loopback_some port (codes "/sls/on_event"))
            (loopback_some port (codes "/sls/stat")) (picked_positive o positive)),
    )
