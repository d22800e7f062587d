-- ===== src/Arbitration/Exclusion.antt =====
-- The manager as a lock: each event leaves the slot, grants it or frees it.
use irl_universal_ingest.Prelude.{
  ℕ, ◌≡◌, refl, List, Option, none, some, arith, Text, Option-cases, ◌⊎◌, ◌==◌, ◌&&◌, text_eq, pick,
  Bool-cases, inl, inr, text_beq_iff,
}
use irl_universal_ingest.Go.Clock.{Time}
use irl_universal_ingest.Go.Floats.{Floats}
use irl_universal_ingest.Go.Strings.{to_upper}
use irl_universal_ingest.Arbitration.{
  SlotInfo, Manager, Release, contains, call_back, try_acquire, touch, add_bytes, set_rtt,
  set_bitrate, release_slot, release, decay_tick, handle_timeout,
}
use irl_universal_ingest.Arbitration.Steps.{
  World, Event, acquires, touches, receives, measures, reports, releases, ticks, fires, times_out,
  fire, time_out, step,
}

-- Who holds the slot.
abbrev pub Holder : Type 0
Holder = Option (Text × Text)

abbrev holder_of : {F : Type 0} → Option (SlotInfo F) → Holder
holder_of none = none
holder_of (some s) = some (s.protocol, s.path)

abbrev pub holder : {F E : Type 0} → Manager F E → Holder
holder m = holder_of m.active_slot

abbrev pub callback : {F E : Type 0} → World F E → Text → Text → E → E
callback w = call_back w.manager.on_slot_release

-- An acquisition: the protocol and the path, if the event is one.
abbrev pub claim : {F : Type 0} → Event F → Holder
claim (acquires now protocol path) = some (to_upper protocol, path)
claim _ = none

-- What an event does to the lock and to the world that the callback acts on.
pub data Move {F E : Type 0} (ev : Event F) (v w : World F E) : Type 0 where
  keep :
      ((claim ev ≡ none) ⊎ ((h : Text × Text) × (holder v.manager ≡ some h)))
      → holder w.manager ≡ holder v.manager
      → w.env ≡ v.env
      → Move ev v w
  grant :
      (protocol path : Text)
      → claim ev ≡ some (protocol, path)
      → holder v.manager ≡ none
      → holder w.manager ≡ some (protocol, path)
      → w.env ≡ v.env
      → Move ev v w
  free :
      (protocol path : Text)
      → claim ev ≡ none
      → holder v.manager ≡ some (protocol, path)
      → holder w.manager ≡ none
      → w.env ≡ callback v protocol path v.env
      → Move ev v w

module _ {F E : Type 0} where
  acquire-Move :
      ⦃fl : Floats F⦄ (now : Time) (protocol path : Text) (w : World F E)
      → Move (acquires now protocol path) w (step (acquires now protocol path) w)
  unfolding step try_acquire
  acquire-Move now protocol path w = elim (Option-cases w.manager.active_slot) [
    | inl e ↦ grant (to_upper protocol) path refl (ground arith) (ground arith) refl
    | inr (s, e) ↦ keep (inr ((s.protocol, s.path), ground arith)) (ground arith) refl
  ]

  -- Releasing a slot, as a move of any event that is no claim.
  release_slot-Move :
      (ev : Event F) (protocol path : Text) (v : World F E) (m : Manager F E)
      (calls : List (Text × Text))
      → claim ev ≡ none
      → holder m ≡ holder v.manager
      → m.on_slot_release ≡ v.manager.on_slot_release
      → let (m', e') = release_slot protocol path (m, v.env) in
        Move ev v (record { manager = m'; env = e'; fired = calls })
  unfolding release_slot
  release_slot-Move ev protocol path v m calls c h k = elim (Option-cases m.active_slot) [
    | inl e ↦ keep (inl c) (ground arith) (ground arith)
    | inr (s, e) ↦ elim (Bool-cases (s.protocol == to_upper protocol && s.path == path)) [
      | inl match ↦
          free s.protocol s.path c (ground arith) (ground arith)
            (ground (arith, text_beq_iff s.protocol (to_upper protocol), text_beq_iff s.path path))
      | inr other ↦ keep (inl c) (ground arith) (ground arith)
    ]
  ]

  release-Move :
      ⦃fl : Floats F⦄ (r : Release) (w : World F E) → Move (releases r) w (step (releases r) w)
  unfolding step release
  release-Move r w = elim (Bool-cases (contains r.session w.manager.released)) [
    | inl once ↦ rw (release, once) (keep (inl refl) refl refl)
    | inr first ↦
        rw (release, first)
          (release_slot-Move (releases r) r.protocol r.path w _ w.fired refl refl refl)
  ]

  time_out-Move :
      ⦃fl : Floats F⦄ (n : ℕ) (w : World F E) → Move (times_out n) w (step (times_out n) w)
  unfolding step time_out handle_timeout
  time_out-Move n w = elim (Option-cases (pick n w.fired)) [
    | inl e ↦ rw (e, time_out) (keep (inl refl) refl refl)
    | inr (c, e) ↦
        rw (e, time_out)
          (release_slot-Move (times_out n) c.0.0 c.0.1 w w.manager c.1 refl refl refl)
  ]

  -- Each event either leaves the holder of the slot and the callback's world, grants the free slot
  -- to the claim that it makes, or frees the slot and runs the callback once, on the holder's
  -- protocol and path. A claim on the free slot is always granted.
  pub step-Move : ⦃fl : Floats F⦄ (ev : Event F) (w : World F E) → Move ev w (step ev w)
  unfolding step touch add_bytes set_rtt set_bitrate decay_tick fire
  step-Move (acquires now protocol path) w = acquire-Move now protocol path w
  step-Move (touches now) w = keep (inl refl) (ground arith) refl
  step-Move (receives now n) w = keep (inl refl) (ground arith) refl
  step-Move (measures x) w = keep (inl refl) (ground arith) refl
  step-Move (reports now kbps) w = keep (inl refl) (ground arith) refl
  step-Move (releases r) w = release-Move r w
  step-Move (ticks now) w = keep (inl refl) (ground arith) refl
  step-Move (fires now) w = keep (inl refl) (ground arith) (ground arith)
  step-Move (times_out n) w = time_out-Move n w
