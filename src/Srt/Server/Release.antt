-- ===== src/Srt/Server/Release.antt =====
-- What Close gives back, after any Start.
use irl_universal_ingest.Prelude.{
  ℕ, ◌≡◌, ◌≢◌, ◌∙◌, refl, ap, List, [], ◌∷◌, ℤ, nat_eq, int_eq, ◌==◌, text_eq, if◌then◌else◌, Text,
  Option, none, some, inl, inr, All, arith, nat_beq_iff, int_beq_iff, Option-cases, Bool-cases,
  text_beq,
}
use irl_universal_ingest.Prelude.Assoc.{lookup, insert, erase}
use irl_universal_ingest.Go.Strings.{codes}
use irl_universal_ingest.Machine.{
  Machine, Process, unlisten, stop, unlisten_absent, stop_absent, erase_absent, erase-insert,
}
use irl_universal_ingest.Srt.Ports.{ServerOptions}
use irl_universal_ingest.Srt.Server.{
  World, Server, Answers, serve_webhooks, close_webhooks, launch_srt, launch_srtla, new_server,
  started_srt, started_srtla,
}
use irl_universal_ingest.Srt.Server.Launches.{
  set_unhealthy_if-rest, clear_unhealthy_if-rest, await_ready-rest, launch_srt-cases,
  launch_srtla-cases,
}
use irl_universal_ingest.Health.{Tracker}
use irl_universal_ingest.Srt.Server.Outcomes.{
  Outcome, not_listening, no_dir, not_written, running, prepared, start-Outcome,
}
use irl_universal_ingest.Srt.Server.Lifecycle.{
  start, make_dir, write_in, remove_all, close, stop_cmd, remove_temp_dir,
}

abbrev pub unlisten_of : Option ℤ → List ℤ → List ℤ
unlisten_of none ps = ps
unlisten_of (some p) ps = unlisten p ps

abbrev pub stop_of : Option ℕ → List Process → List Process
stop_of none ps = ps
stop_of (some pid) ps = stop pid ps

abbrev pub erase_of : Text → List (Text × List (Text × Text)) → List (Text × List (Text × Text))
erase_of dir ds = if dir == [] then ds else erase dir ds

-- What Close leaves.
abbrev pub left : World → Machine
left w =
    let s = w.server in
    let m = w.machine in
    record {
      listeners = unlisten_of s.webhook_server m.listeners;
      dirs = erase_of s.temp_dir m.dirs;
      running = stop_of s.srtla_cmd (stop_of s.srt_cmd m.running);
    }

pub close-left : (w : World) → (close w).machine ≡ left w
unfolding close close_webhooks stop_cmd remove_temp_dir remove_all
close-left w = ground (
  arith,
  Option-cases w.server.webhook_server,
  Option-cases w.server.srt_cmd,
  Option-cases w.server.srtla_cmd,
  Bool-cases (w.server.temp_dir == []),
)

-- The answers name what the machine does not have yet: a free port, a new directory, new process ids.
pub record AreFresh (a : Answers) (m : Machine) : Type 0 where
  pub port : (p : ℤ) → a.listen ≡ inr p → All (λ q. q ≢ p) m.listeners
  pub dir : (d : Text) → a.mkdir_temp ≡ inr d → (d ≢ []) × (lookup d m.dirs ≡ none)
  pub srt : (n : ℕ) → a.start_srt ≡ inr n → All (λ p. p.pid ≢ n) m.running
  pub srtla : (n : ℕ) → a.start_srtla ≡ inr n → All (λ p. p.pid ≢ n) m.running

-- What stops after a process is started, whether srt_server runs or not.
stop-started :
    (s : Option ℕ) (p : Process) (ps : List Process)
    → stop p.pid (stop_of s (p ∷ ps)) ≡ stop p.pid (stop_of s ps)
unfolding stop
stop-started none p ps = ground (arith, nat_beq_iff p.pid p.pid)
stop-started (some n) p ps = ground (arith, nat_beq_iff p.pid p.pid, Bool-cases (p.pid == n))

-- What Close gives back is the machine m.
record Returns (m : Machine) (s : Server) (n : Machine) : Type 0 where
  listeners : unlisten_of s.webhook_server n.listeners ≡ m.listeners
  dirs : erase_of s.temp_dir n.dirs ≡ m.dirs
  running : stop_of s.srtla_cmd (stop_of s.srt_cmd n.running) ≡ m.running

returns : {m : Machine} (w : World) → Returns m w.server w.machine → (close w).machine ≡ m
returns {m} w r = close-left w ∙ (rw (r.listeners, r.dirs, r.running) refl)

module _ (a : Answers) (m : Machine) (f : AreFresh a m) where
  started_srt-Returns :
      (path binary : Text) (pid : ℕ) (w : World)
      → a.start_srt ≡ inr pid
      → Returns m w.server w.machine
      → w.server.srt_cmd ≡ none
      → w.server.srtla_cmd ≡ none
      → let v = started_srt pid binary path w in Returns m v.server v.machine
  unfolding stop
  started_srt-Returns path binary pid w h r e1 e2 = record {
    listeners = r.listeners;
    dirs = r.dirs;
    running =
        let same = rw (e1, e2) at r.running in
        let absent = stop_absent pid m.running (f.srt pid h) in
        rw (e2) (ground (arith, same, absent, nat_beq_iff pid pid));
  }

  started_srtla-Returns :
      (binary : Text) (pid : ℕ) (w : World)
      → a.start_srtla ≡ inr pid
      → Returns m w.server w.machine
      → w.server.srtla_cmd ≡ none
      → let v = started_srtla pid binary w in Returns m v.server v.machine
  started_srtla-Returns binary pid w h r e = record {
    listeners = r.listeners;
    dirs = r.dirs;
    running =
        stop-started w.server.srt_cmd _ w.machine.running
        ∙ (ap (stop pid) (rw (e) at r.running) ∙ stop_absent pid m.running (f.srtla pid h));
  }

  launch_srt-Returns :
      (path : Text) (w : World)
      → Returns m w.server w.machine
      → w.server.srt_cmd ≡ none
      → w.server.srtla_cmd ≡ none
      → let v = launch_srt a path w in Returns m v.server v.machine × (v.server.srtla_cmd ≡ none)
  launch_srt-Returns path w r e1 e2 = elim (launch_srt-cases a path w) [
    | inl (_, e) ↦ rw (e) (r, e2)
    | inr (inl (b, reason, _, _, e)) ↦
        let (em, es, _) = set_unhealthy_if-rest (codes "srt_server") reason w in
        rw (e, em, es) (r, e2)
    | inr (inr (b, pid, _, h, e)) ↦
        let v = started_srt pid b path w in
        let (em, es, _) = await_ready-rest a w.server.opts.http_port v in
        rw (e, em, es) (started_srt-Returns path b pid w h r e1 e2, e2)
  ]

  launch_srtla-Returns :
      (w : World)
      → Returns m w.server w.machine
      → w.server.srtla_cmd ≡ none
      → let v = launch_srtla a w in Returns m v.server v.machine
  launch_srtla-Returns w r none_yet = elim (launch_srtla-cases a w) [
    | inl (_, e) ↦ rw (e) r
    | inr (inl (b, reason, _, _, e)) ↦
        let (em, es, _) = set_unhealthy_if-rest (codes "srtla_rec") reason w in rw (e, em, es) r
    | inr (inr (b, pid, _, h, e)) ↦
        let (em, es, _) = clear_unhealthy_if-rest (codes "srtla_rec") (started_srtla pid b w) in
        rw (e, em, es) (started_srtla-Returns b pid w h r none_yet)
  ]

-- A new adapter on a machine.
abbrev pub new_world : ServerOptions → Machine → Option Tracker → World
new_world o m h = record { server = new_server o; machine = m; health = h; polled = [] }

pub relisten : (port : ℤ) (ps : List ℤ) → All (λ q. q ≢ port) ps → unlisten port (port ∷ ps) ≡ ps
unfolding unlisten
relisten port ps absent = ground (arith, unlisten_absent port ps absent, int_beq_iff port port)

erase_of_some :
    (dir : Text) (ds : List (Text × List (Text × Text))) → dir ≢ [] → erase_of dir ds ≡ erase dir ds
erase_of_some dir ds named = ground (arith, text_eq.beq_iff dir [])

module _ (a : Answers) (o : ServerOptions) (m : Machine) (h : Option Tracker) where
  -- Start before it launches the processes.
  prepared-Returns :
      (port : ℤ) (dir : Text)
      → All (λ q. q ≢ port) m.listeners
      → (dir ≢ []) × (lookup dir m.dirs ≡ none)
      → let v = prepared a port dir (new_world o m h) in Returns m v.server v.machine
  unfolding serve_webhooks make_dir write_in new_server
  prepared-Returns port dir absent (named, new) = record {
    listeners = relisten port m.listeners absent;
    dirs =
        erase_of_some dir _ named
        ∙ (erase-insert dir _ (insert dir [] m.dirs)
            ∙ (erase-insert dir [] m.dirs ∙ erase_absent dir m.dirs new));
    running = refl;
  }

  closed :
      AreFresh a m
      → (r : World × Option Text) → Outcome a (new_world o m h) r
      → (close r.0).machine ≡ m
  unfolding serve_webhooks close_webhooks make_dir write_in remove_all new_server text_beq
  closed f _ (not_listening e g) =
      returns (new_world o m h) (record { listeners = refl; dirs = refl; running = refl })
  closed f _ (no_dir port e g g') =
      let same = relisten port m.listeners (f.port port g) in
      returns (close_webhooks (serve_webhooks port (new_world o m h))) (record {
        listeners = ap (unlisten port) same ∙ unlisten_absent port m.listeners (f.port port g);
        dirs = refl;
        running = refl;
      })
  closed f _ (not_written port dir e g g' g'') =
      let same = relisten port m.listeners (f.port port g) in
      let (named, new) = f.dir dir g' in
      let erased = erase-insert dir [] m.dirs ∙ erase_absent dir m.dirs new in
      returns
        (remove_all dir (close_webhooks (make_dir dir (serve_webhooks port (new_world o m h)))))
        (record {
          listeners = ap (unlisten port) same ∙ unlisten_absent port m.listeners (f.port port g);
          dirs = erase_of_some dir _ named ∙ (ap (erase dir) erased ∙ erase_absent dir m.dirs new);
          running = refl;
        })
  closed f _ (running port dir g g' g'') =
      let w = prepared a port dir (new_world o m h) in
      let path = a.join dir (codes "sls.conf") in
      let r = prepared-Returns port dir (f.port port g) (f.dir dir g') in
      let (r', none_yet) = launch_srt-Returns a m f path w r refl refl in
      returns (launch_srtla a (launch_srt a path w))
        (launch_srtla-Returns a m f (launch_srt a path w) r' none_yet)

-- After any Start of a new adapter, also one that fails, Close leaves the machine's listeners,
-- directories and processes as they were before Start.
pub close-start :
    (a : Answers) (o : ServerOptions) (m : Machine) (h : Option Tracker)
    → AreFresh a m
    → (close (start a (new_world o m h)).0).machine ≡ m
close-start a o m h f = closed a o m h f _ (start-Outcome a (new_world o m h))
