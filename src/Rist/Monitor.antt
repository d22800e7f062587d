-- ===== src/Rist/Monitor.antt =====
-- internal/ingest/rist/server.go: monitorOutput, which hands each line of ristreceiver to the handler.
use irl_universal_ingest.Prelude.{ℕ, suc, ◌^◌, ◌≡◌, refl, Bool, List, [], ◌∷◌, Text, All, false}
use irl_universal_ingest.Go.Bufio.{scan_lines, unlines, IsPlainLine, scan_lines-unlines}
use irl_universal_ingest.Go.Clock.{Time}
use irl_universal_ingest.Go.Floats.{Floats}
use irl_universal_ingest.Opening.{alone}
use irl_universal_ingest.Relay as FfmpegRelay
use irl_universal_ingest.Rist.Log.{Parsers}
use irl_universal_ingest.Rist.Receiver.{Launch}
use irl_universal_ingest.Rist.Server.{World, handle_log_line}

abbrev pub scanner_max_token_bytes : ℕ
scanner_max_token_bytes = 2 ^ 20

module _ {F : Type 0} ⦃fl : Floats F⦄ (ps : Parsers F)
    (answers : ℕ → Time × (FfmpegRelay.Launch × Launch)) where
  -- The lines from the k-th on; each is handled at its time, with the launches that its handler may
  -- ask for.
  unfoldable pub handle_lines : ℕ → List Text → World F → World F
  unfolding handle_log_line
  handle_lines k [] w = w
  handle_lines k (line ∷ lines) w =
      let (now, (launch, relaunch)) = answers k in
      handle_lines (suc k) lines (handle_log_line ps now (alone launch) relaunch line w)

  -- The output of one pipe up to its end, when nothing else acts on the server: the lines are
  -- handled, and an error of the scanner ends the loop.
  unfoldable pub monitor_output : Text → World F → World F × Bool
  unfolding scan_lines handle_lines
  monitor_output output w =
      let (lines, failed) = scan_lines scanner_max_token_bytes output in
      (handle_lines 0 lines w, failed)

  -- Lines below a megabyte are all handled, one by one, and the scanner finds no error.
  monitor_output-lines :
      (lines : List Text) (w : World F)
      → All (IsPlainLine scanner_max_token_bytes) lines
      → monitor_output (unlines lines) w ≡ (handle_lines 0 lines w, false)
  unfolding monitor_output
  monitor_output-lines lines w h = rw (scan_lines-unlines scanner_max_token_bytes lines h) refl
