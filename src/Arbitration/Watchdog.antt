-- ===== src/Arbitration/Watchdog.antt =====
-- The inactivity watchdog: when the timer fires, and what it does.
use irl_universal_ingest.Prelude.{
  ◌∷◌, ◌+◌, ◌<◌, ◌≤◌, ◌≡◌, ◌≢◌, true, Option, none, some, pos, pos_part, ltb_ℤ, arith, text_beq_iff,
  text_eq, pick,
}
use irl_universal_ingest.Go.Clock.{Time}
use irl_universal_ingest.Arbitration.{SlotInfo, Timer, touch, release_slot, handle_timeout}
use irl_universal_ingest.Arbitration.Steps.{World, fire, time_out}
use irl_universal_ingest.Arbitration.Valid.{IsValid}
use irl_universal_ingest.Arbitration.Exclusion.{callback, holder}

-- The timer has not fired since it was set.
abbrev pub Armed : Option Timer → Type 0
Armed none = ⊥
Armed (some t) = t.due ≢ none

module _ {F E : Type 0} (now : Time) (s : SlotInfo F) (w : World F E) (valid : IsValid w.manager)
    (active : w.manager.active_slot ≡ some s) where
  -- While a slot is held and the invariant holds, an armed timer fires once the timeout has passed
  -- since the last activity, and the call that it starts frees the slot and runs the callback on its
  -- holder.
  pub fire_frees :
      Armed w.manager.timer
      → s.last_seen + pos_part w.manager.source_timeout ≤ now
      → let v = time_out 0 (fire now w) in
        (holder v.manager ≡ none)
        × (v.env ≡ callback w s.protocol s.path w.env)
        × (v.fired ≡ w.fired)
  unfolding fire time_out handle_timeout release_slot pick
  fire_frees armed late =
      ground (arith, text_beq_iff s.protocol s.protocol, text_beq_iff s.path s.path)

  -- While a slot is held, the invariant holds and the timeout is positive, Touch arms the timer,
  -- also one that has fired: it does not fire before another timeout has passed since the Touch, and
  -- from then on it fires, with a call of handleTimeout for the slot's holder.
  pub touch_arms :
      ltb_ℤ (pos 0) w.manager.source_timeout ≡ true
      → let v = record w { manager = touch now w.manager } in
        let due = now + pos_part w.manager.source_timeout in
        Armed v.manager.timer
        × ((later : Time) → later < due → fire later v ≡ v)
        × ((later : Time) → due ≤ later → (fire later v).fired ≡ (s.protocol, s.path) ∷ w.fired)
  unfolding fire touch
  touch_arms positive = (ground arith, λ later early. ground arith, λ later late. ground arith)
