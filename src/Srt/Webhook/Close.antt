-- ===== src/Srt/Webhook/Close.antt =====
-- What a close event does after the slot has gone to another source.
use irl_universal_ingest.Prelude.{
  ◌≡◌, ◌≢◌, inl, true, false, some, Text, arith, text_beq_iff, text_eq,
}
use irl_universal_ingest.Go.Strings.{to_upper}
use irl_universal_ingest.Arbitration.{SlotInfo, Release}
use irl_universal_ingest.Arbitration.Sessions.{release_foreign}
use irl_universal_ingest.Relay.{stop_session, stop_unlocked, is_running}
use irl_universal_ingest.Srt.Webhook.{World, handle_close}

module _ {F : Type 0} where
  -- The handler keeps its session when the watchdog frees the slot. If a source of another protocol
  -- has the slot by then, the close event of the old stream leaves the slot to it, but stops the
  -- relay that it runs, and no restart follows.
  pub handle_close-foreign :
      (r : Release) (s : SlotInfo F) (path : Text) (w : World F)
      → w.handler.active_slot ≡ some r
      → w.handler.active_path ≡ path
      → w.manager.active_slot ≡ some s
      → s.protocol ≢ to_upper r.protocol
      → let v = (handle_close path w).0 in
        (v.manager.active_slot ≡ some s)
        × (is_running v.relay.0 ≡ false)
        × (v.relay.0.stopped ≡ true)
  unfolding handle_close stop_session stop_unlocked is_running
  handle_close-foreign r s path w slot at active other = ground (
    arith,
    release_foreign r s w.manager w.relay active (inl other),
    text_beq_iff w.handler.active_path path,
  )
