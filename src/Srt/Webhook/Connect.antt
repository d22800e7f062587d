-- ===== src/Srt/Webhook/Connect.antt =====
-- What a connection of a publisher does, on each of its answers.
use irl_universal_ingest.Opening.{alone}
use irl_universal_ingest.Prelude.{
  ◌≡◌, ◌≢◌, ◌⊎◌, text_eq, text_beq_iff, refl, true, false, none, some, Text, arith, Bool-cases,
  Option-cases, inl, inr,
}
use irl_universal_ingest.Go.Strings.{to_upper}
use irl_universal_ingest.Go.Strings.Laws.{to_upper_idem}
use irl_universal_ingest.Go.Clock.{Time}
use irl_universal_ingest.Auth.{is_allowed}
use irl_universal_ingest.Arbitration.{Release, try_acquire, release, release_slot, contains}
use irl_universal_ingest.Arbitration.Exclusion.{holder}
use irl_universal_ingest.Relay.{Launch, start_session, start_locked, is_running}
use irl_universal_ingest.Srt.Webhook.{World, handle_connect, start_relay}

module _ {F : Type 0} where
  -- What a started or a failed relay leaves of the slot that was acquired.
  start_relay-holder :
      (launch : Launch) (path : Text) (r : Release) (w : World F)
      → holder w.manager ≡ some (r.protocol, r.path)
      → to_upper r.protocol ≡ r.protocol
      → contains r.session w.manager.released ≡ false
      → let (v, status) = start_relay launch path r w in
        ((status ≡ 200) × (holder v.manager ≡ holder w.manager) × (is_running v.relay.0 ≡ true))
        ⊎ ((status ≡ 500) × (holder v.manager ≡ none))
  unfolding start_relay start_session start_locked is_running release release_slot
  start_relay-holder launch path r w held upper fresh =
      ground (arith, text_beq_iff (to_upper r.protocol) r.protocol, text_beq_iff r.path r.path)

  -- A publisher's connection is answered with 200 only if its path is allowed, the slot was free and
  -- ffmpeg was started; then it holds the slot and the relay runs. With any other answer the slot is
  -- held as it was before. The session's number is a new one.
  pub handle_connect-holder :
      (now : Time) (launch : Launch) (protocol path : Text) (w : World F)
      → contains w.manager.sessions w.manager.released ≡ false
      → let (v, status) = handle_connect now (alone launch) protocol path w in
        (status ≡ 200
          → (is_allowed path w.handler.allowed_paths ≡ true)
            × (holder w.manager ≡ none)
            × (holder v.manager ≡ some (to_upper protocol, path))
            × (is_running v.relay.0 ≡ true))
        × (status ≢ 200 → holder v.manager ≡ holder w.manager)
  unfolding handle_connect start_relay try_acquire
  handle_connect-holder now launch protocol path w h =
      let m = (try_acquire now protocol path w.manager).0 in
      let r : Release = record {
        session = w.manager.sessions;
        protocol = to_upper protocol;
        path = path;
      } in
      elim (Bool-cases (is_allowed path w.handler.allowed_paths)) [
        | inr shut ↦ ground arith
        | inl allowed ↦ elim (Option-cases w.manager.active_slot) [
          | inr (s, taken) ↦ ground arith
          | inl free ↦ ground (
            arith,
            start_relay-holder launch path r (record w { manager = m })
                (rw (try_acquire, free) refl) (to_upper_idem protocol) (rw (try_acquire, free) h),
          )
        ]
      ]
