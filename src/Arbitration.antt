-- ===== src/Arbitration.antt =====
-- internal/arbitration/manager.go: one source at a time. A method that changes the manager returns
-- the new one. E is the world that the callback onSlotRelease acts on, F the type of floats.
-- The times that the methods read from the clock are arguments.
pub mod Steps
pub mod Valid
pub mod Exclusion
pub mod History
pub mod Sessions
pub mod Watchdog
pub mod Bitrate
mod Tests
use irl_universal_ingest.Prelude.{
  ℕ, suc, ◌+◌, ◌*◌, ◌^◌, ◌%◌, Bool, true, false, ◌&&◌, not, List, [], ◌∷◌, Option, none, some, ℤ,
  pos, pos_part, ltb_ℤ, leb, ◌==◌, nat_eq, int_eq, text_eq, if◌then◌else◌, Text,
}
use irl_universal_ingest.Go.Strings.{to_upper}
use irl_universal_ingest.Go.Clock.{Time, since}
use irl_universal_ingest.Go.Floats.{Floats}
use irl_universal_ingest.Backoff.{second}

pub record SlotInfo (F : Type 0) : Type 0 where
  pub protocol : Text
  pub path : Text
  pub started_at : Time
  pub last_seen : Time
  pub bitrate_kbps : ℤ
  pub rtt : Option F

-- The timer of time.AfterFunc: when it is due, unless it has fired, and the arguments of the call
-- of handleTimeout that it makes.
pub record Timer : Type 0 where
  pub due : Option Time
  pub protocol : Text
  pub path : Text

-- The last three fields are the objects that TryAcquire makes: it numbers the sessions, and the
-- number names the session's release closure and its decay channel. `released` holds the closures
-- whose sync.Once is spent, `closed` the closed channels.
pub record Manager (F E : Type 0) : Type 0 where
  pub source_timeout : ℤ
  pub active_slot : Option (SlotInfo F)
  pub timer : Option Timer
  pub on_slot_release : Option (Text → Text → E → E)
  pub last_bytes_check : Time
  pub bytes_in_period : ℕ
  pub last_bitrate_update : Time
  pub decay_stop : Option ℕ
  pub sessions : ℕ
  pub released : List ℕ
  pub closed : List ℕ

-- The release closure of a session.
pub record Release : Type 0 where
  pub session : ℕ
  pub protocol : Text
  pub path : Text

abbrev pub bitrate_decay_threshold : ℕ
bitrate_decay_threshold = 2 * second

-- A positive timeout, as nanoseconds.
abbrev pub start_timer : Time → ℤ → Text → Text → Option Timer
start_timer now timeout protocol path =
    if ltb_ℤ (pos 0) timeout
    then some (record { due = some (now + pos_part timeout); protocol = protocol; path = path })
    else none

abbrev pub new_slot : {F : Type 0} → Time → Text → Text → SlotInfo F
new_slot now protocol path = record {
  protocol = protocol;
  path = path;
  started_at = now;
  last_seen = now;
  bitrate_kbps = pos 0;
  rtt = none;
}

-- timer.Reset(m.sourceTimeout), which also sets a timer that has fired.
abbrev pub reset : Time → ℤ → Option Timer → Option Timer
reset now timeout none = none
reset now timeout (some t) = some (record t { due = some (now + pos_part timeout) })

abbrev pub close_channel : Option ℕ → List ℕ → List ℕ
close_channel none closed = closed
close_channel (some c) closed = c ∷ closed

abbrev pub call_back : {E : Type 0} → Option (Text → Text → E → E) → Text → Text → E → E
call_back none protocol path e = e
call_back (some f) protocol path e = f protocol path e

unfoldable pub contains : ℕ → List ℕ → Bool
contains n [] = false
contains n (k ∷ ks) = if k == n then true else contains n ks

-- The rate over a period: int64(bits / (1000.0 * seconds)), bits a uint64.
abbrev pub kbps_over : {F : Type 0} → Floats F → ℕ → ℕ → ℤ
kbps_over fl bytes elapsed = fl.to_int (
    fl.div (fl.of_int (pos (bytes * 8 % 2 ^ 64)))
      (fl.mul (fl.of_int (pos 1000)) (fl.seconds elapsed)))

module _ {F E : Type 0} where
  unfoldable pub new_manager : ℤ → Option (Text → Text → E → E) → Manager F E
  new_manager timeout callback = record {
    source_timeout = timeout;
    active_slot = none;
    timer = none;
    on_slot_release = callback;
    last_bytes_check = 0;
    bytes_in_period = 0;
    last_bitrate_update = 0;
    decay_stop = none;
    sessions = 0;
    released = [];
    closed = [];
  }

  -- The result is the release closure, if the slot was free.
  unfoldable pub try_acquire : Time → Text → Text → Manager F E → Manager F E × Option Release
  try_acquire now protocol path m = elim m.active_slot [
    | some _ ↦ (m, none)
    | none ↦
        let upper = to_upper protocol in
        (
          record m {
            active_slot = some (new_slot now upper path);
            timer = start_timer now m.source_timeout upper path;
            last_bytes_check = now;
            bytes_in_period = 0;
            last_bitrate_update = now;
            decay_stop = some m.sessions;
            sessions = suc m.sessions;
          },
          some (record { session = m.sessions; protocol = upper; path = path }),
        )
  ]

  unfoldable pub touch : Time → Manager F E → Manager F E
  touch now m = elim m.active_slot [
    | none ↦ m
    | some s ↦ record m {
      active_slot = some (record s { last_seen = now });
      timer = reset now m.source_timeout m.timer;
    }
  ]

  unfoldable pub set_rtt : F → Manager F E → Manager F E
  set_rtt rtt_ms m = elim m.active_slot [
    | none ↦ m
    | some s ↦ record m { active_slot = some (record s { rtt = some rtt_ms }) }
  ]

  unfoldable pub set_bitrate : Time → ℤ → Manager F E → Manager F E
  set_bitrate now kbps m = elim m.active_slot [
    | none ↦ m
    | some s ↦ record m {
      active_slot = some (record s { bitrate_kbps = kbps });
      last_bitrate_update = now;
    }
  ]

  -- `none` is the answer (SlotInfo{}, false).
  unfoldable pub active_info : Manager F E → Option (SlotInfo F)
  active_info m = m.active_slot

  unfoldable pub release_slot : Text → Text → Manager F E × E → Manager F E × E
  release_slot protocol path (m, e) = elim m.active_slot [
    | none ↦ (m, e)
    | some s ↦
        let upper = to_upper protocol in
        if s.protocol == upper && s.path == path
        then (
          record m {
            timer = none;
            closed = close_channel m.decay_stop m.closed;
            decay_stop = none;
            active_slot = none;
          },
          call_back m.on_slot_release upper path e,
        )
        else (m, e)
  ]

  -- Calling a release closure: sync.Once lets one call of it through.
  unfoldable pub release : Release → Manager F E × E → Manager F E × E
  unfolding release_slot contains
  release r (m, e) =
      if contains r.session m.released
      then (m, e)
      else release_slot r.protocol r.path (record m { released = r.session ∷ m.released }, e)

  -- One round of decayLoop at a tick: whether the loop goes on, and the manager.
  unfoldable pub decay_tick : Time → Manager F E → Manager F E × Bool
  decay_tick now m = elim m.active_slot [
    | none ↦ (m, false)
    | some s ↦ (
      if not (s.bitrate_kbps == pos 0)
            && leb bitrate_decay_threshold (since now m.last_bitrate_update)
          then record m { active_slot = some (record s { bitrate_kbps = pos 0 }) }
          else m,
      true,
    )
  ]

  unfoldable pub handle_timeout : Text → Text → Manager F E × E → Manager F E × E
  unfolding release_slot
  handle_timeout protocol path w = release_slot protocol path w

  module _ ⦃fl : Floats F⦄ where
    unfoldable pub add_bytes : Time → ℕ → Manager F E → Manager F E
    add_bytes now n m = elim m.active_slot [
      | none ↦ m
      | some s ↦
          let bytes = (m.bytes_in_period + n) % 2 ^ 64 in
          let elapsed = since now m.last_bytes_check in
          if leb second elapsed
          then record m {
            active_slot = some (record s { bitrate_kbps = kbps_over fl bytes elapsed });
            last_bitrate_update = now;
            bytes_in_period = 0;
            last_bytes_check = now;
          }
          else record m { bytes_in_period = bytes }
    ]
