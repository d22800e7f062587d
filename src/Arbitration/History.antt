-- ===== src/Arbitration/History.antt =====
-- Acquisitions and releases over a whole history.
use irl_universal_ingest.Prelude.{
  ℕ, suc, ◌+◌, ◌≡◌, refl, ◌∙◌, List, [], ◌∷◌, Option, none, some, ℤ, arith, Text, inl, inr, ap,
}
use irl_universal_ingest.Go.Floats.{Floats}
use irl_universal_ingest.Arbitration.{
  Manager, new_manager, try_acquire, touch, add_bytes, set_rtt, set_bitrate, release_slot, release,
  decay_tick, handle_timeout, call_back,
}
use irl_universal_ingest.Arbitration.Steps.{
  World, Event, acquires, touches, receives, measures, reports, releases, ticks, fires, times_out,
  fire, time_out, step, run, start,
}
use irl_universal_ingest.Arbitration.Exclusion.{Move, keep, grant, free, step-Move, claim, holder}

-- The callback that counts how often it runs.
abbrev pub count_releases : Option (Text → Text → ℕ → ℕ)
count_releases = some (λ _ _ n. suc n)

abbrev one_if_some {ℓ} : {A : Type ℓ} → Option A → ℕ
one_if_some none = 0
one_if_some (some _) = 1

-- 1 if the slot is held.
abbrev pub held : {F E : Type 0} → Manager F E → ℕ
held m = one_if_some m.active_slot

module _ {F E : Type 0} where
  -- 1 if the event acquires the slot, by what TryAcquire answers.
  pub wins : Event F → World F E → ℕ
  unfolding try_acquire
  wins (acquires now protocol path) w = one_if_some (try_acquire now protocol path w.manager).1
  wins _ w = 0

  module _ ⦃fl : Floats F⦄ where
    pub count_wins : List (Event F) → World F E → ℕ
    count_wins [] w = 0
    count_wins (ev ∷ es) w = wins ev w + count_wins es (step ev w)

    pub step-on_slot_release :
        (ev : Event F) (w : World F E)
        → (step ev w).manager.on_slot_release ≡ w.manager.on_slot_release
    unfolding step try_acquire touch add_bytes set_rtt set_bitrate decay_tick release release_slot
        handle_timeout fire time_out
    step-on_slot_release (acquires now protocol path) w = ground arith
    step-on_slot_release (touches now) w = ground arith
    step-on_slot_release (receives now n) w = ground arith
    step-on_slot_release (measures x) w = ground arith
    step-on_slot_release (reports now kbps) w = ground arith
    step-on_slot_release (releases r) w = ground arith
    step-on_slot_release (ticks now) w = ground arith
    step-on_slot_release (fires now) w = ground arith
    step-on_slot_release (times_out n) w = ground arith

  wins_of_claim : (ev : Event F) (w : World F E) → claim ev ≡ none → wins ev w ≡ 0
  unfolding wins
  wins_of_claim (acquires now protocol path) w c = cc
  wins_of_claim _ w c = refl

  wins_of_held :
      (ev : Event F) (w : World F E) (h : Text × Text) → holder w.manager ≡ some h → wins ev w ≡ 0
  unfolding wins try_acquire
  wins_of_held (acquires now protocol path) w h k = ground arith
  wins_of_held _ w h k = refl

  wins_of_free :
      (ev : Event F) (w : World F E) (h : Text × Text)
      → claim ev ≡ some h
      → holder w.manager ≡ none
      → wins ev w ≡ 1
  unfolding wins try_acquire
  wins_of_free (acquires now protocol path) w h c k = ground arith
  wins_of_free _ w h c k = cc

  held-holder : (m : Manager F E) → held m ≡ one_if_some (holder m)
  held-holder m = ground arith

module _ {F : Type 0} where
  balance :
      (ev : Event F) (v w : World F ℕ)
      → v.manager.on_slot_release ≡ count_releases
      → Move ev v w
      → wins ev v + held v.manager + v.env ≡ w.env + held w.manager
  balance ev v w c (keep (inl k) h e) =
      ground (arith, wins_of_claim ev v k, held-holder v.manager, held-holder w.manager, h)
  balance ev v w c (keep (inr k) h e) =
      ground (arith, wins_of_held ev v k.0 k.1, held-holder v.manager, held-holder w.manager, h)
  balance ev v w c (grant protocol path k h g e) =
      ground (
        arith,
        wins_of_free ev v (protocol, path) k h,
        held-holder v.manager,
        held-holder w.manager,
      )
  balance ev v w c (free protocol path k h g e) = ground (
    arith,
    wins_of_claim ev v k,
    held-holder v.manager,
    held-holder w.manager,
    ap (λ o. call_back o protocol path v.env) c,
  )

  module _ ⦃fl : Floats F⦄ where
    balance_run :
        (es : List (Event F)) (w : World F ℕ)
        → w.manager.on_slot_release ≡ count_releases
        → count_wins es w + held w.manager + w.env ≡ (run es w).env + held (run es w).manager
    unfolding count_wins run
    balance_run [] w c = omega arith
    balance_run (ev ∷ es) w c = omega (
      arith,
      balance ev w (step ev w) c (step-Move ev w),
      balance_run es (step ev w) (step-on_slot_release ev w ∙ c),
    )

    -- Over any history of a new manager the slot was acquired as often as the release callback ran,
    -- and once more if it is held at the end.
    pub count_wins_balance :
        (timeout : ℤ) (es : List (Event F))
        → let w = start (new_manager timeout count_releases) 0 in
          count_wins es w ≡ (run es w).env + held (run es w).manager
    unfolding new_manager
    count_wins_balance timeout es =
        omega (arith, balance_run es (start (new_manager timeout count_releases) 0) refl)
