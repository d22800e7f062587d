-- ===== src/Arbitration/Valid.antt =====
-- The invariant of the manager, and that every step of a history keeps it.
use irl_universal_ingest.Prelude.{
  ℕ, suc, ◌+◌, ◌<◌, ◌^◌, ◌≡◌, refl, Bool, true, false, List, [], ◌∷◌, Option, none, some, ℤ, pos,
  pos_part, ltb_ℤ, arith, ltb, ◌&&◌, Bool-cases, Option-cases, inl, inr, pick, Text,
}
use irl_universal_ingest.Go.Clock.{Time}
use irl_universal_ingest.Go.Floats.{Floats}
use irl_universal_ingest.Go.Strings.{to_upper}
use irl_universal_ingest.Go.Strings.Laws.{to_upper_idem}
use irl_universal_ingest.Arbitration.{
  SlotInfo, Manager, Timer, Release, contains, new_manager, try_acquire, touch, add_bytes, set_rtt,
  set_bitrate, release_slot, release, decay_tick, handle_timeout, close_channel,
}
use irl_universal_ingest.Arbitration.Steps.{
  World, Event, acquires, touches, receives, measures, reports, releases, ticks, fires, times_out,
  fire, time_out, step, run, start,
}

-- A timer that has not fired is due one timeout after the last activity.
abbrev pub Due : Option Time → Time → Type 0
Due none at = Unit
Due (some due) at = due ≡ at

-- The watchdog runs exactly if the timeout is positive, and it is about this slot.
abbrev pub Watched : {F : Type 0} → SlotInfo F → ℤ → Option Timer → Type 0
Watched s timeout none = ltb_ℤ (pos 0) timeout ≡ false
Watched s timeout (some t) =
    (ltb_ℤ (pos 0) timeout ≡ true)
    × (t.protocol ≡ s.protocol)
    × (t.path ≡ s.path)
    × Due t.due (s.last_seen + pos_part timeout)

-- The decay channel is one of this manager's, and is open.
abbrev pub Open : Option ℕ → List ℕ → ℕ → Type 0
Open none closed sessions = ⊥
Open (some c) closed sessions = (c < sessions) × (contains c closed ≡ false)

abbrev pub Slot : {F E : Type 0} → Manager F E → Option (SlotInfo F) → Type 0
Slot m none = (m.timer ≡ none) × (m.decay_stop ≡ none)
Slot m (some s) =
    Watched s m.source_timeout m.timer
    × Open m.decay_stop m.closed m.sessions
    × (to_upper s.protocol ≡ s.protocol)

-- The closed channels are this manager's.
pub is_below : ℕ → List ℕ → Bool
is_below n [] = true
is_below n (k ∷ ks) = ltb k n && is_below n ks

pub record IsValid {F E : Type 0} (m : Manager F E) : Type 0 where
  pub slot : Slot m m.active_slot
  pub channels : is_below m.sessions m.closed ≡ true
  pub counter : m.bytes_in_period < 2 ^ 64

contains_above : (n : ℕ) (ks : List ℕ) → is_below n ks ≡ true → contains n ks ≡ false
unfolding contains is_below
contains_above n [] h = refl
contains_above n (k ∷ ks) h = ground (arith, contains_above n ks)

is_below-suc : (n : ℕ) (ks : List ℕ) → is_below n ks ≡ true → is_below (suc n) ks ≡ true
unfolding is_below
is_below-suc n [] h = refl
is_below-suc n (k ∷ ks) h = ground (arith, is_below-suc n ks)

is_below-cons : (n k : ℕ) (ks : List ℕ) → k < n → is_below n ks ≡ true → is_below n (k ∷ ks) ≡ true
unfolding is_below
is_below-cons n k ks h i = ground arith

is_below-close :
    (n : ℕ) (stop : Option ℕ) (ks : List ℕ)
    → Open stop ks n
    → is_below n ks ≡ true
    → is_below n (close_channel stop ks) ≡ true
is_below-close n none ks o h = absurd o
is_below-close n (some c) ks o h = is_below-cons n c ks o.0 h

module _ {F E : Type 0} where
  pub new_manager-IsValid :
      (timeout : ℤ) (callback : Option (Text → Text → E → E))
      → IsValid {F = F} (new_manager timeout callback)
  unfolding new_manager is_below
  new_manager-IsValid timeout callback = ground arith

  pub try_acquire-IsValid :
      (now : Time) (protocol path : Text) (m : Manager F E)
      → IsValid m
      → IsValid (try_acquire now protocol path m).0
  unfolding try_acquire
  try_acquire-IsValid now protocol path m v = ground (
    arith,
    contains_above m.sessions m.closed,
    is_below-suc m.sessions m.closed,
    to_upper_idem protocol,
  )

  pub touch-IsValid : (now : Time) (m : Manager F E) → IsValid m → IsValid (touch now m)
  unfolding touch
  touch-IsValid now m v = ground arith

  pub set_rtt-IsValid : (x : F) (m : Manager F E) → IsValid m → IsValid (set_rtt x m)
  unfolding set_rtt
  set_rtt-IsValid x m v = ground arith

  pub set_bitrate-IsValid :
      (now : Time) (kbps : ℤ) (m : Manager F E) → IsValid m → IsValid (set_bitrate now kbps m)
  unfolding set_bitrate
  set_bitrate-IsValid now kbps m v = ground arith

  pub decay_tick-IsValid : (now : Time) (m : Manager F E) → IsValid m → IsValid (decay_tick now m).0
  unfolding decay_tick
  decay_tick-IsValid now m v = ground arith

  pub release_slot-IsValid :
      (protocol path : Text) (m : Manager F E) (e : E)
      → IsValid m
      → IsValid (release_slot protocol path (m, e)).0
  unfolding release_slot
  release_slot-IsValid protocol path m e v =
      ground (arith, is_below-close m.sessions m.decay_stop m.closed)

  pub add_bytes-IsValid :
      ⦃fl : Floats F⦄ (now : Time) (n : ℕ) (m : Manager F E)
      → IsValid m
      → IsValid (add_bytes now n m)
  unfolding add_bytes
  add_bytes-IsValid now n m v = ground arith

  released_IsValid :
      (m : Manager F E) (rs : List ℕ) → IsValid m → IsValid (record m { released = rs })
  released_IsValid m rs v = record {
    slot = same m.active_slot v.slot;
    channels = v.channels;
    counter = v.counter;
  }
    where
      same : (o : Option (SlotInfo F)) → Slot m o → Slot (record m { released = rs }) o
      same none h = h
      same (some s) h = h

  pub release-IsValid :
      (r : Release) (m : Manager F E) (e : E) → IsValid m → IsValid (release r (m, e)).0
  unfolding release
  release-IsValid r m e v = elim (Bool-cases (contains r.session m.released)) [
    | inl once ↦ rw (release, once) v
    | inr first ↦
        rw (release, first)
          (release_slot-IsValid r.protocol r.path _ e
            (released_IsValid m (r.session ∷ m.released) v))
  ]

  pub fire-IsValid : (now : Time) (w : World F E) → IsValid w.manager → IsValid (fire now w).manager
  unfolding fire
  fire-IsValid now w v = ground arith

  pub time_out-IsValid :
      (n : ℕ) (w : World F E) → IsValid w.manager → IsValid (time_out n w).manager
  unfolding time_out handle_timeout
  time_out-IsValid n w v = elim (Option-cases (pick n w.fired)) [
    | inl e ↦ rw (e, time_out) v
    | inr (c, e) ↦ rw (e, time_out) (release_slot-IsValid c.0.0 c.0.1 w.manager w.env v)
  ]

  module _ ⦃fl : Floats F⦄ where
    -- Every event keeps the invariant.
    pub step-IsValid :
        (ev : Event F) (w : World F E) → IsValid w.manager → IsValid (step ev w).manager
    unfolding step
    step-IsValid (acquires now protocol path) w v =
        try_acquire-IsValid now protocol path w.manager v
    step-IsValid (touches now) w v = touch-IsValid now w.manager v
    step-IsValid (receives now n) w v = add_bytes-IsValid now n w.manager v
    step-IsValid (measures x) w v = set_rtt-IsValid x w.manager v
    step-IsValid (reports now kbps) w v = set_bitrate-IsValid now kbps w.manager v
    step-IsValid (releases r) w v = release-IsValid r w.manager w.env v
    step-IsValid (ticks now) w v = decay_tick-IsValid now w.manager v
    step-IsValid (fires now) w v = fire-IsValid now w v
    step-IsValid (times_out n) w v = time_out-IsValid n w v

    run-IsValid :
        (es : List (Event F)) (w : World F E) → IsValid w.manager → IsValid (run es w).manager
    unfolding run
    run-IsValid [] w v = v
    run-IsValid (ev ∷ es) w v = run-IsValid es (step ev w) (step-IsValid ev w v)

    -- The invariant holds after any history of a new manager.
    pub run-new_manager-IsValid :
        (timeout : ℤ) (callback : Option (Text → Text → E → E)) (e : E) (es : List (Event F))
        → IsValid (run es (start (new_manager timeout callback) e)).manager
    run-new_manager-IsValid timeout callback e es =
        run-IsValid es _ (new_manager-IsValid timeout callback)
