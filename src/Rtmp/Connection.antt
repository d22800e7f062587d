-- ===== src/Rtmp/Connection.antt =====
-- internal/ingest/rtmp/server.go: handleConn, from the accepted connection to the deferred release.
-- The handshake is gortmplib's: a connection that fails it never gets here. The pipe is a writer with
-- a state W.
pub mod Slot
mod Tests
use irl_universal_ingest.Opening.{Opening, alone}
use irl_universal_ingest.Prelude.{
  ℕ, Bool, true, false, not, List, [], Option, none, some, Text, ◌==◌, text_eq, if◌then◌else◌,
}
use irl_universal_ingest.Go.Strings.{codes}
use irl_universal_ingest.Go.Clock.{Time}
use irl_universal_ingest.Go.Floats.{Floats}
use irl_universal_ingest.Auth.{is_allowed}
use irl_universal_ingest.Arbitration.{Manager, Release, try_acquire, touch, add_bytes, release}
use irl_universal_ingest.Relay.{Relay, Host, Launch, StartError, ok, err, start_session}
use irl_universal_ingest.Rtmp.Flv.{Codes, Marshalled, write_flv_header}
use irl_universal_ingest.Rtmp.Stream.{Meter, Read, State, stream_to_relay}

-- The manager, and the relay with its host.
pub record Shared (F : Type 0) : Type 0 where
  pub manager : Manager F (Relay × Host)
  pub relay : Relay × Host

-- What becomes of a connection: with a stream, the release that is deferred and the relay's pipe.
pub data Admission : Type 0 where
  unauthorized : Admission
  occupied : Admission
  failed : StartError → Admission
  streams : Release → Option ℕ → Admission

-- The path of the connection's URL, `none` for a nil URL.
unfoldable pub stream_path : Option Text → Text
stream_path none = codes "/"
stream_path (some path) = if not (path == []) then path else codes "/"

abbrev pub meter_of : {F E : Type 0} ⦃fl : Floats F⦄ → Meter (Manager F E)
meter_of = record { add_bytes = add_bytes; touch = touch }

module _ {F : Type 0} where
  unfoldable pub close_conn : Release → Shared F → Shared F
  close_conn r w =
      let (m, back) = release r (w.manager, w.relay) in record { manager = m; relay = back }

  -- Up to the relay's session. TryAcquire and StartSession hold different mutexes.
  unfoldable pub open_conn :
      List Text → Time → Opening F → Option Text → Shared F → Shared F × Admission
  unfolding stream_path close_conn
  open_conn allowed now o url w =
      let path = stream_path url in
      if not (is_allowed path allowed)
      then (w, unauthorized)
      else let (m, acquired) = try_acquire now (codes "rtmp") path w.manager in
        elim acquired [
          | none ↦ (record w { manager = m }, occupied)
          | some r ↦
              let (m', relay) = o.between (m, w.relay) in
              let (back, started) = start_session o.launch [] path relay in
              elim started [
                | err e ↦ (close_conn r (record { manager = m'; relay = back }), failed e)
                | ok pipe ↦ (record { manager = m'; relay = back }, streams r pipe)
              ]
        ]

  module _ {W B E X : Type 0} (write : Text → W → W × Option X) (k : Codes)
      (marshal : B → Marshalled E) ⦃fl : Floats F⦄ where
    -- What a stream writes and counts, after the header is written.
    unfoldable pub serve : Time → List (Read B) → Time → W × Shared F → W × Shared F
    serve start rs end (pipe, w) =
        let (pipe', failure) = write_flv_header write pipe in
        let s = stream_to_relay write k marshal meter_of start rs pipe' w.manager end in
        elim failure [ some _ ↦ (pipe', w) | none ↦ (s.sink, record w { manager = s.meter }) ]

    -- A connection with a stream is served, and then the slot is released.
    unfoldable pub go_on : Time → List (Read B) → Time → Admission → W × Shared F → W × Shared F
    unfolding serve
    go_on start rs end (streams r p) x =
        let (pipe, w) = serve start rs end x in (pipe, close_conn r w)
    go_on start rs end unauthorized x = x
    go_on start rs end occupied x = x
    go_on start rs end (failed e) x = x

    -- The whole handler, when nothing else acts on the manager and the relay.
    unfoldable pub handle_conn :
        List Text
        → Time
        → Launch
        → Option Text
        → List (Read B)
        → Time
        → W × Shared F
        → (W × Shared F) × Admission
    unfolding open_conn go_on
    handle_conn allowed now launch url rs end (pipe, w) =
        let (v, admission) = open_conn allowed now (alone launch) url w in
        (go_on now rs end admission (pipe, v), admission)
