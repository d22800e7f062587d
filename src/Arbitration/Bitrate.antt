-- ===== src/Arbitration/Bitrate.antt =====
-- The rolling bitrate: batching and decay.
use native.Mathlib.Nat.{zero-add}
use irl_universal_ingest.Prelude.{
  ℕ, ◌+◌, ◌<◌, ◌≡◌, ◌⊎◌, List, [], ◌∷◌, some, pos, arith, All, ◌∙◌, ap,
}
use irl_universal_ingest.Go.Clock.{Time, since}
use irl_universal_ingest.Go.Floats.{Floats}
use irl_universal_ingest.Backoff.{second}
use irl_universal_ingest.Arbitration.{
  SlotInfo, Manager, bitrate_decay_threshold, add_bytes, decay_tick,
}

pub total : List (Time × ℕ) → ℕ
total [] = 0
total ((now, n) ∷ ps) = n + total ps

module _ {F E : Type 0} ⦃fl : Floats F⦄ where
  -- A call within the running period can be merged with the next one.
  merge :
      (now later : Time) (a b : ℕ) (m : Manager F E)
      → since now m.last_bytes_check < second
      → add_bytes later b (add_bytes now a m) ≡ add_bytes later (a + b) m
  unfolding add_bytes
  merge now later a b m h = ground arith

  pub add_all : List (Time × ℕ) → Manager F E → Manager F E
  add_all [] m = m
  add_all ((now, n) ∷ ps) m = add_all ps (add_bytes now n m)

  within_period :
      (now : Time) (n : ℕ) (m : Manager F E)
      → since now m.last_bytes_check < second
      → (add_bytes now n m).last_bytes_check ≡ m.last_bytes_check
  unfolding add_bytes
  within_period now n m h = ground arith

  -- Counts of bytes that arrive before the period is over may be added up first: the next count
  -- has the same effect on the manager as one call with the sum.
  pub add_bytes-add_all :
      (ps : List (Time × ℕ)) (later : Time) (n : ℕ) (m : Manager F E)
      → All (λ p. since p.0 m.last_bytes_check < second) ps
      → add_bytes later n (add_all ps m) ≡ add_bytes later (total ps + n) m
  unfolding add_all total
  add_bytes-add_all [] later n m h = rw zero-add
  add_bytes-add_all ((now, k) ∷ ps) later n m (h, hs) =
      let rest = rw (← within_period now k m h) at hs in
      add_bytes-add_all ps later n (add_bytes now k m) rest
      ∙ (merge now later k (total ps + n) m h ∙ ap (λ t. add_bytes later t m) (omega arith))

module _ {F E : Type 0} where
  -- After a tick of the decay loop the slot shows 0 or a rate that was set less than two seconds
  -- ago, and a rate that young is left as it is.
  pub decay_tick_fresh :
      (now : Time) (m : Manager F E) (s : SlotInfo F)
      → (decay_tick now m).0.active_slot ≡ some s
      → ((s.bitrate_kbps ≡ pos 0) ⊎ (since now m.last_bitrate_update < bitrate_decay_threshold))
        × (since now m.last_bitrate_update < bitrate_decay_threshold → (decay_tick now m).0 ≡ m)
  unfolding decay_tick
  decay_tick_fresh now m s h = (ground arith, λ k. ground arith)
