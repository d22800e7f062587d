-- ===== src/System/Gaps.antt =====
-- The calls that come between a TryAcquire and the StartSession after it.
use irl_universal_ingest.Prelude.{
  ℕ, ◌+◌, ◌<◌, ◌≤◌, ◌^◌, ◌≡◌, refl, List, [], ◌∷◌, some, Text, inl, inr, arith, Option-cases,
  length, All, suc,
}
use irl_universal_ingest.Go.Clock.{Time}
use irl_universal_ingest.Go.Floats.{Floats}
use irl_universal_ingest.Arbitration.{
  try_acquire, touch, add_bytes, set_rtt, set_bitrate, decay_tick, handle_timeout,
}
use irl_universal_ingest.Arbitration.Exclusion.{holder}
use irl_universal_ingest.Arbitration.Steps.{fire_timer}
use irl_universal_ingest.Opening.{
  Opening, Call, acquires, touches, receives, measures, reports, ticks, fires, releases, times_out,
  relay_starts, relay_stops, relay_exits, relay_proceeds, spend, call, run_calls, opening,
}
use irl_universal_ingest.Relay.{Relay, Host, Launch}
use irl_universal_ingest.Relay.Single.{start_session-IsSingle}
use irl_universal_ingest.Relay.Steps.{exits, proceeds}
use irl_universal_ingest.System.Sound.{
  Sound, SharedManager, weaken, keep-Sound, stop-Sound, step-Sound, release-Sound,
  release_slot-Sound, try_acquire-Sound, start_session-session_id,
}

-- Any call but StartSession.
abbrev pub StartsNothing : Call → Type 0
StartsNothing (relay_starts launch input path) = ⊥
StartsNothing _ = Unit

-- Any call but StartSession and those that may free the slot.
abbrev pub KeepsSlot : Call → Type 0
KeepsSlot (relay_starts launch input path) = ⊥
KeepsSlot (releases r) = ⊥
KeepsSlot (times_out protocol path) = ⊥
KeepsSlot _ = Unit

-- An opening that keeps the invariant, up to the bound k, until the relay is started; if P holds, it
-- keeps the holder of the slot too.
pub record IsKept {F : Type 0} (P : Type 0) (n k : ℕ) (o : Opening F) : Type 0 where
  pub more : n ≤ k
  pub kept :
      (m : SharedManager F) (back : Relay × Host) (h : Text × Text)
      → holder m ≡ some h
      → Sound P n m back
      → let (m', back') = o.between (m, back) in Sound P k m' back' × (P → holder m' ≡ some h)

moved : (n k : ℕ) → n + suc k ≡ n + 1 + k
moved n k = omega arith

none_more : (n : ℕ) → n + length {A = Call} [] ≡ n
none_more n = omega arith

KeepsSlot-StartsNothing : (c : Call) → KeepsSlot c → StartsNothing c
KeepsSlot-StartsNothing (relay_starts launch input path) k = k
KeepsSlot-StartsNothing _ k = tt

module _ {F : Type 0} ⦃fl : Floats F⦄ where
  call-holder :
      (c : Call) (m : SharedManager F) (back : Relay × Host) (h : Text × Text)
      → KeepsSlot c
      → holder m ≡ some h
      → holder (call c (m, back)).0 ≡ some h
  unfolding call spend try_acquire touch add_bytes set_rtt set_bitrate decay_tick
  call-holder (acquires now protocol path) m back h calm held = ground arith
  call-holder (touches now) m back h calm held = ground arith
  call-holder (receives now k) m back h calm held = ground arith
  call-holder (measures ms) m back h calm held = ground arith
  call-holder (reports now kbps) m back h calm held = ground arith
  call-holder (ticks now) m back h calm held = ground arith
  call-holder (fires now) m back h calm held = ground (arith, Option-cases (fire_timer now m.timer))
  call-holder (releases r) m back h calm held = absurd calm
  call-holder (times_out protocol path) m back h calm held = absurd calm
  call-holder (relay_starts launch input path) m back h calm held = absurd calm
  call-holder relay_stops m back h calm held = held
  call-holder (relay_exits pid) m back h calm held = held
  call-holder (relay_proceeds k launch) m back h calm held = held

module _ {F : Type 0} ⦃fl : Floats F⦄ {P : Type 0} where
  spend-Sound :
      (n : ℕ) (now : Time) (m : SharedManager F) (back : Relay × Host)
      → Sound P n m back
      → Sound P n (spend now m) back
  unfolding spend
  spend-Sound n now m back s = elim (Option-cases (fire_timer now m.timer)) [
    | inl e ↦ simp (spend, e) s
    | inr (t, e) ↦ simp (spend, e) (keep-Sound n m (record m { timer = some t.0 }) back refl refl s)
  ]

  pub started-Sound :
      (n : ℕ) (c : Call) (m : SharedManager F) (back : Relay × Host)
      → n + 1 < 2 ^ 64
      → (P → StartsNothing c)
      → Sound P n m back
      → let (m', back') = call c (m, back) in Sound P (n + 1) m' back'
  unfolding call touch add_bytes set_rtt set_bitrate decay_tick handle_timeout
  started-Sound n (acquires now protocol path) m back small calm s =
      weaken n _ back (try_acquire-Sound n now protocol path m back s)
  started-Sound n (touches now) m back small calm s =
      weaken n _ back (keep-Sound n m (touch now m) back (ground arith) (ground arith) s)
  started-Sound n (receives now k) m back small calm s =
      weaken n _ back (keep-Sound n m (add_bytes now k m) back (ground arith) (ground arith) s)
  started-Sound n (measures ms) m back small calm s =
      weaken n _ back
        (keep-Sound n m (set_rtt (fl.of_int ms) m) back (ground arith) (ground arith) s)
  started-Sound n (reports now kbps) m back small calm s =
      weaken n _ back (keep-Sound n m (set_bitrate now kbps m) back (ground arith) (ground arith) s)
  started-Sound n (ticks now) m back small calm s =
      weaken n _ back (keep-Sound n m (decay_tick now m).0 back (ground arith) (ground arith) s)
  started-Sound n (fires now) m back small calm s = weaken n _ back (spend-Sound n now m back s)
  started-Sound n (releases r) m back small calm s = weaken n _ _ (release-Sound n r m back s)
  started-Sound n (times_out protocol path) m back small calm s =
      weaken n _ _ (release_slot-Sound n protocol path m back s)
  started-Sound n (relay_starts launch input path) m back small calm s = record {
    callback = s.callback;
    single =
        start_session-IsSingle launch input path back.0 back.1 (omega (arith, s.bound)) s.single;
    bound = omega (arith, s.bound, start_session-session_id launch input path back);
    idle = λ p free. absurd (calm p);
  }
  started-Sound n relay_stops m back small calm s = weaken n _ _ (stop-Sound n m back s)
  started-Sound n (relay_exits pid) m back small calm s = step-Sound n m back (exits pid) small tt s
  started-Sound n (relay_proceeds k launch) m back small calm s =
      step-Sound n m back (proceeds k launch) small tt s

  run_calls-Sound :
      (calls : List Call) (n : ℕ) (m : SharedManager F) (back : Relay × Host) (h : Text × Text)
      → n + length calls < 2 ^ 64
      → (P → All KeepsSlot calls)
      → (P → holder m ≡ some h)
      → Sound P n m back
      → let (m', back') = run_calls calls (m, back) in
        Sound P (n + length calls) m' back' × (P → holder m' ≡ some h)
  unfolding run_calls
  run_calls-Sound [] n m back h small calm held s = (rw (none_more n) s, held)
  run_calls-Sound (c ∷ cs) n m back h small calm held s =
      let x = call c (m, back) in
      let nothing = λ (p : P). KeepsSlot-StartsNothing c (calm p).0 in
      let next = started-Sound n c m back (omega arith) nothing s in
      let (t, same) =
        run_calls-Sound cs (n + 1) x.0 x.1 h (omega arith) (λ p. (calm p).1)
          (λ p. call-holder c m back h (calm p).0 (held p)) next in
      (rw (moved n (length cs)) t, same)

  pub opening-IsKept :
      (launch : Launch) (calls : List Call) (n : ℕ)
      → n + length calls < 2 ^ 64
      → (P → All KeepsSlot calls)
      → IsKept {F = F} P n (n + length calls) (opening launch calls)
  opening-IsKept launch calls n small calm = record {
    more = omega arith;
    kept = λ m back h held s. run_calls-Sound calls n m back h small calm (λ _. held) s;
  }
