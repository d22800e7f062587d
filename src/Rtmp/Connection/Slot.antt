-- ===== src/Rtmp/Connection/Slot.antt =====
-- What a connection does to the slot.
use irl_universal_ingest.Opening.{alone}
use irl_universal_ingest.Prelude.{
  ℕ, ◌≡◌, ◌≢◌, ◌∙◌, refl, sym, ap, true, false, List, Option, none, some, Text, text_eq,
  text_beq_iff, nat_eq, arith, Bool-cases, Option-cases, inl, inr,
}
use irl_universal_ingest.Go.Strings.{codes, to_upper, upper_byte}
use irl_universal_ingest.Go.Clock.{Time}
use irl_universal_ingest.Go.Floats.{Floats}
use irl_universal_ingest.Auth.{is_allowed}
use irl_universal_ingest.Arbitration.{
  Manager, Release, try_acquire, touch, add_bytes, release, release_slot, contains,
}
use irl_universal_ingest.Arbitration.Exclusion.{holder}
use irl_universal_ingest.Relay.{
  Relay, Host, Launch, start_session, start_locked, stop_session, stop_unlocked, is_running,
}
use irl_universal_ingest.Rtmp.Flv.{Codes, Marshalled, write_flv_header}
use irl_universal_ingest.Rtmp.Stream.{Read}
use irl_universal_ingest.Rtmp.Stream.Keeps.{stream_to_relay-keeps}
use irl_universal_ingest.Rtmp.Connection.{
  Shared, Admission, unauthorized, occupied, failed, streams, stream_path, meter_of, open_conn,
  close_conn, serve, go_on, handle_conn,
}

-- The manager still has the slot of m for the same session.
Same : {F E : Type 0} → Manager F E → Manager F E → Type 0
Same m n =
    (holder n ≡ holder m) × (n.released ≡ m.released) × (n.on_slot_release ≡ m.on_slot_release)

-- The callback that main gives to the manager.
abbrev pub StopsRelay : {F : Type 0} → Manager F (Relay × Host) → Type 0
StopsRelay m = m.on_slot_release ≡ some (λ protocol path w. stop_session w)

stop_session_stops :
    (w : Relay × Host)
    → (is_running (stop_session w).0 ≡ false) × ((stop_session w).0.stopped ≡ true)
unfolding stop_session stop_unlocked is_running
stop_session_stops w = (refl, refl)

module _ {F : Type 0} where
  -- A granted connection takes the free slot for its session, with a relay that runs.
  abbrev pub Granted : Text → Shared F → Shared F → Release → Type 0
  Granted path w v r =
      (holder w.manager ≡ none)
      × (holder v.manager ≡ some (codes "RTMP", path))
      × (r.protocol ≡ codes "RTMP")
      × (r.path ≡ path)
      × (contains r.session v.manager.released ≡ false)
      × (is_running v.relay.0 ≡ true)
      × (v.manager.on_slot_release ≡ w.manager.on_slot_release)

  abbrev pub Admitted : Text → List Text → Shared F → Shared F → Admission → Type 0
  Admitted path allowed w v unauthorized = (is_allowed path allowed ≡ false) × (v ≡ w)
  Admitted path allowed w v occupied =
      (holder w.manager ≢ none) × (v.relay ≡ w.relay) × (holder v.manager ≡ holder w.manager)
  Admitted path allowed w v (failed e) = (holder w.manager ≡ none) × (holder v.manager ≡ none)
  Admitted path allowed w v (streams r p) = (is_allowed path allowed ≡ true) × Granted path w v r

  pub open_conn-Admitted :
      (allowed : List Text) (now : Time) (launch : Launch) (url : Option Text) (w : Shared F)
      → contains w.manager.sessions w.manager.released ≡ false
      → let (v, admission) = open_conn allowed now (alone launch) url w in
        Admitted (stream_path url) allowed w v admission
  unfolding open_conn close_conn try_acquire start_session start_locked is_running release
      release_slot to_upper upper_byte
  open_conn-Admitted allowed now launch url w fresh =
      let path = stream_path url in
      elim (Bool-cases (is_allowed path allowed)) [
        | inr shut ↦ rw (open_conn, shut) (shut, refl)
        | inl allows ↦ elim (Option-cases w.manager.active_slot) [
          | inr (s, taken) ↦
              rw (open_conn, allows, try_acquire, taken) (ground arith, refl, ground arith)
          | inl free ↦
              ground (arith, text_beq_iff path path, text_beq_iff (codes "RTMP") (codes "RTMP"))
        ]
      ]

  close_conn_frees :
      (r : Release) (path : Text) (w : Shared F)
      → holder w.manager ≡ some (codes "RTMP", path)
      → r.protocol ≡ codes "RTMP"
      → r.path ≡ path
      → contains r.session w.manager.released ≡ false
      → let v = close_conn r w in
        (holder v.manager ≡ none) × (StopsRelay w.manager → v.relay ≡ stop_session w.relay)
  unfolding close_conn release release_slot to_upper upper_byte
  close_conn_frees r path w held protocol same fresh =
      ground (arith, text_beq_iff path path, text_beq_iff (codes "RTMP") (codes "RTMP"))

  module _ {W B E X : Type 0} (write : Text → W → W × Option X) (k : Codes)
      (marshal : B → Marshalled E) ⦃fl : Floats F⦄ where
    serve-Same :
        (start : Time) (rs : List (Read B)) (end : Time) (pipe : W) (w : Shared F)
        → let u = (serve write k marshal start rs end (pipe, w)).1 in
          Same w.manager u.manager × (u.relay ≡ w.relay)
    unfolding serve Same touch add_bytes
    serve-Same start rs end pipe w = elim (Option-cases (write_flv_header write pipe).1) [
      | inr (x, e) ↦ rw (serve, e) ((refl, refl, refl), refl)
      | inl e ↦
          rw (serve, e)
            (
              stream_to_relay-keeps write k marshal meter_of (Same w.manager)
                  (λ now n m h. ground (arith, h)) (λ now m h. ground (arith, h)) start rs _
                  w.manager end (refl, refl, refl),
              refl,
            )
    ]

    -- A connection with a stream, to its end.
    go_on_frees :
        (start : Time) (rs : List (Read B)) (end : Time) (path : Text) (pipe : W) (w v : Shared F)
        (r : Release) (p : Option ℕ)
        → Granted path w v r
        → let u = (go_on write k marshal start rs end (streams r p) (pipe, v)).1 in
          (holder u.manager ≡ none) × (StopsRelay w.manager → u.relay ≡ stop_session v.relay)
    unfolding go_on Same
    go_on_frees start rs end path pipe w v r p
          (free, held, protocol, same, fresh, running, callback) =
        let u = (serve write k marshal start rs end (pipe, v)).1 in
        let ((h, released, kept), relay) = serve-Same start rs end pipe v in
        let (gone, stops) =
          close_conn_frees r path u (h ∙ held) protocol same (rw released fresh) in
        (gone, λ s. stops (kept ∙ callback ∙ s) ∙ ap stop_session relay)

    go_on-holder :
        (allowed : List Text) (start : Time) (rs : List (Read B)) (end : Time) (path : Text)
        (pipe : W) (w u : Shared F) (a : Admission)
        → Admitted path allowed w u a
        → let (pipe', v) = go_on write k marshal start rs end a (pipe, u) in
          (holder v.manager ≡ holder w.manager)
          × ((r : Release) (p : Option ℕ)
              → a ≡ streams r p
              → StopsRelay w.manager
              → (is_running v.relay.0 ≡ false) × (v.relay.0.stopped ≡ true))
          × (holder w.manager ≢ none → (v.relay ≡ w.relay) × (pipe' ≡ pipe))
    unfolding go_on
    go_on-holder allowed start rs end path pipe w u unauthorized (shut, same) =
        (rw same refl, λ r p e. absurd (cc), λ _. (rw same refl, refl))
    go_on-holder allowed start rs end path pipe w u occupied (taken, relay, held) =
        (held, λ r p e. absurd (cc), λ _. (relay, refl))
    go_on-holder allowed start rs end path pipe w u (failed e) (free, none_held) =
        (none_held ∙ sym free, λ r p e. absurd (cc), λ taken. absurd (taken free))
    go_on-holder allowed start rs end path pipe w u (streams r p) (allows, granted) =
        let (gone, stops) = go_on_frees start rs end path pipe w u r p granted in
        (
          gone ∙ sym granted.0,
          λ _ _ _ s. rw (stops s) (stop_session_stops u.relay),
          λ taken. absurd (taken granted.0),
        )

    -- A connection served alone, its session's number a new one: whatever is read and wherever a
    -- write fails, when the handler returns, the slot is held as it was before. An admitted
    -- stream's relay is then stopped, if the manager's callback stops it; a connection that finds
    -- the slot taken leaves the relay and the pipe.
    pub handle_conn-holder :
        (allowed : List Text) (now : Time) (launch : Launch) (url : Option Text)
        (rs : List (Read B)) (end : Time) (pipe : W) (w : Shared F)
        → contains w.manager.sessions w.manager.released ≡ false
        → let ((pipe', v), admission) =
            handle_conn write k marshal allowed now launch url rs end (pipe, w) in
          (holder v.manager ≡ holder w.manager)
          × ((r : Release) (p : Option ℕ)
              → admission ≡ streams r p
              → StopsRelay w.manager
              → (is_running v.relay.0 ≡ false) × (v.relay.0.stopped ≡ true))
          × (holder w.manager ≢ none → (v.relay ≡ w.relay) × (pipe' ≡ pipe))
    unfolding handle_conn
    handle_conn-holder allowed now launch url rs end pipe w fresh =
        let (u, admission) = open_conn allowed now (alone launch) url w in
        go_on-holder allowed now rs end (stream_path url) pipe w u admission
          (open_conn-Admitted allowed now launch url w fresh)
