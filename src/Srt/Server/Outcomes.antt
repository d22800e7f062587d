-- ===== src/Srt/Server/Outcomes.antt =====
-- The four outcomes of Start.
use irl_universal_ingest.Prelude.{
  ◌≡◌, ◌++◌, ℤ, Text, Option, none, some, inl, inr, Option-cases, text_eq,
}
use irl_universal_ingest.Go.Strings.{codes}
use irl_universal_ingest.Srt.Config.{generate_sls_config}
use irl_universal_ingest.Srt.Server.{
  World, Answers, serve_webhooks, close_webhooks, sls_options, launch_srt, launch_srtla,
}
use irl_universal_ingest.Srt.Server.Lifecycle.{start, configure, make_dir, write_in, remove_all}
use irl_universal_ingest.Srt.Server.Launches.{Sum-cases}

-- Before the processes: the webhooks are served and sls.conf is written.
abbrev pub prepared : Answers → ℤ → Text → World → World
prepared a port dir w =
    let v = make_dir dir (serve_webhooks port w) in
    write_in dir (a.join dir (codes "sls.conf"))
      (generate_sls_config (sls_options a port dir v.server.opts)) v

pub data Outcome (a : Answers) (w : World) : World × Option Text → Type 0 where
  not_listening :
      (e : Text)
      → a.listen ≡ inl e
      → Outcome a w (w, some (codes "starting internal srt webhook listener: " ++ e))
  no_dir :
      (port : ℤ) (e : Text)
      → a.listen ≡ inr port
      → a.mkdir_temp ≡ inl e
      → Outcome a w (
        close_webhooks (serve_webhooks port w),
        some (codes "creating sls temp directory: " ++ e),
      )
  not_written :
      (port : ℤ) (dir e : Text)
      → a.listen ≡ inr port
      → a.mkdir_temp ≡ inr dir
      → a.write_file ≡ some e
      → Outcome a w (
        remove_all dir (close_webhooks (make_dir dir (serve_webhooks port w))),
        some (codes "writing sls.conf: " ++ e),
      )
  running :
      (port : ℤ) (dir : Text)
      → a.listen ≡ inr port
      → a.mkdir_temp ≡ inr dir
      → a.write_file ≡ none
      → Outcome a w (
        launch_srtla a (launch_srt a (a.join dir (codes "sls.conf")) (prepared a port dir w)),
        none,
      )

pub start-Outcome : (a : Answers) (w : World) → Outcome a w (start a w)
unfolding start configure
start-Outcome a w = elim (Sum-cases a.listen) [
  | inl (e, h) ↦ simp (start, h) (not_listening e h)
  | inr (port, h) ↦ elim (Sum-cases a.mkdir_temp) [
    | inl (e, h') ↦ simp (start, h, h') (no_dir port e h h')
    | inr (dir, h') ↦ elim (Option-cases a.write_file) [
      | inl g ↦ simp (start, configure, h, h', g) (running port dir h h' g)
      | inr (e, g) ↦ simp (start, configure, h, h', g) (not_written port dir e h h' g)
    ]
  ]
]
