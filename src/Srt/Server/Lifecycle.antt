-- ===== src/Srt/Server/Lifecycle.antt =====
-- internal/ingest/srt/server.go: Start and Close.
use irl_universal_ingest.Prelude.{
  ℕ, true, [], ◌∷◌, ◌++◌, ℤ, nat_eq, int_eq, ◌==◌, text_eq, if◌then◌else◌, Text, Option, none, some,
  inl, inr,
}
use irl_universal_ingest.Prelude.Assoc.{insert, erase}
use irl_universal_ingest.Go.Strings.{codes}
use irl_universal_ingest.Srt.Config.{generate_sls_config}
use irl_universal_ingest.Machine.{stop}
use irl_universal_ingest.Srt.Server.{
  World, Answers, serve_webhooks, close_webhooks, sls_options, launch_srt, launch_srtla,
}

unfoldable pub make_dir : Text → World → World
unfolding insert
make_dir dir w = record w {
  server = record w.server { temp_dir = dir };
  machine = record w.machine { dirs = insert dir [] w.machine.dirs };
}

unfoldable pub write_in : Text → Text → Text → World → World
unfolding insert
write_in dir path content w = record w {
  machine = record w.machine { dirs = insert dir ((path, content) ∷ []) w.machine.dirs };
}

unfoldable pub remove_all : Text → World → World
unfolding erase
remove_all dir w = record w { machine = record w.machine { dirs = erase dir w.machine.dirs } }

-- The state, and the error that is returned.
unfoldable pub configure : Answers → ℤ → Text → World → World × Option Text
unfolding close_webhooks remove_all write_in launch_srt launch_srtla sls_options
configure a port dir w =
    let path = a.join dir (codes "sls.conf") in
    elim a.write_file [
      | some e ↦ (remove_all dir (close_webhooks w), some (codes "writing sls.conf: " ++ e))
      | none ↦
          let content = generate_sls_config (sls_options a port dir w.server.opts) in
          (launch_srtla a (launch_srt a path (write_in dir path content w)), none)
    ]

unfoldable pub start : Answers → World → World × Option Text
unfolding serve_webhooks close_webhooks make_dir configure
start a w = elim a.listen [
  | inl e ↦ (w, some (codes "starting internal srt webhook listener: " ++ e))
  | inr port ↦
      let w' = serve_webhooks port w in
      elim a.mkdir_temp [
        | inl e ↦ (close_webhooks w', some (codes "creating sls temp directory: " ++ e))
        | inr dir ↦ configure a port dir (make_dir dir w')
      ]
]

-- srt_server has exited within 500 ms of the cancellation, or it is sent a kill signal, for whose
-- effect Close does not wait; srtla_rec is only sent the signal. A process that was sent the signal
-- counts as one that no longer runs.
unfoldable pub stop_cmd : Option ℕ → World → World
unfolding stop
stop_cmd none w = w
stop_cmd (some pid) w = record w {
  machine = record w.machine { running = stop pid w.machine.running };
}

unfoldable pub remove_temp_dir : World → World
unfolding remove_all
remove_temp_dir w = let dir = w.server.temp_dir in if dir == [] then w else remove_all dir w

unfoldable pub close : World → World
unfolding close_webhooks stop_cmd remove_temp_dir
close w =
    let w' = close_webhooks (record w { server = record w.server { cancelled = true } }) in
    remove_temp_dir (stop_cmd w'.server.srtla_cmd (stop_cmd w'.server.srt_cmd w'))
