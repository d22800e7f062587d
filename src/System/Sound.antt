-- ===== src/System/Sound.antt =====
-- The invariant of the manager and the relay together: while no source holds the slot, no ffmpeg is
-- alive and none will be restarted. What the manager's operations and the relay's do to it.
use irl_universal_ingest.Prelude.{
  ℕ, ◌+◌, ◌<◌, ◌≤◌, ◌^◌, ◌≡◌, ◌⊎◌, ◌∙◌, refl, sym, true, false, [], ◌∷◌, none, some, Text, inl, inr,
  arith, Bool-cases, pick, text_eq,
}
use irl_universal_ingest.Go.Clock.{Time}
use irl_universal_ingest.Arbitration.{
  Manager, Release, try_acquire, release_slot, release, contains,
}
use irl_universal_ingest.Arbitration.Exclusion.{holder}
use irl_universal_ingest.Relay.{
  Relay, Host, Launch, start_session, stop_session, stop_unlocked, start_locked,
}
use irl_universal_ingest.Relay.Single.{
  IsSingle, reap-nil, start_session-IsSingle, stop_session-IsSingle,
}
use irl_universal_ingest.Relay.History.{step-IsSingle, step-session_id}
use irl_universal_ingest.Relay.Steps.{Event, exits, proceeds, step, stops, starts}
use irl_universal_ingest.Relay.Stop.{NoStart, stop-Quiet, step-Quiet}
use irl_universal_ingest.System.{stop_relay}

-- Stopped for good, or never started: nothing runs, and nothing waits to run.
abbrev pub Idle : Relay × Host → Type 0
Idle (r, h) = (r.running ≡ false) × (h.alive ≡ []) × ((r.stopped ≡ true) ⊎ (h.tasks ≡ []))

abbrev pub SharedManager : Type 0 → Type 0
SharedManager F = Manager F (Relay × Host)

-- n bounds the sessions that were started, and P is a condition on the history under which a free slot
-- means an idle relay.
pub record Sound {F : Type 0} (P : Type 0) (n : ℕ) (m : SharedManager F) (back : Relay × Host)
    : Type 0 where
  pub callback : m.on_slot_release ≡ some stop_relay
  pub single : IsSingle back
  pub bound : back.0.session_id ≤ n
  pub idle : P → holder m ≡ none → Idle back

pub stop_session-Idle : (back : Relay × Host) → IsSingle back → Idle (stop_session back)
stop_session-Idle back v =
    let (stopped, off, gone) = stop-Quiet back.0 back.1 v.single in (off, gone, inl stopped)

pub stop_session-session_id :
    (back : Relay × Host) → (stop_session back).0.session_id ≡ back.0.session_id
unfolding stop_session stop_unlocked
stop_session-session_id back = refl

pub start_session-session_id :
    (launch : Launch) (input path : Text) (back : Relay × Host)
    → back.0.session_id + 1 < 2 ^ 64
    → (start_session launch input path back).0.0.session_id ≤ back.0.session_id + 1
unfolding start_session start_locked stop_unlocked
start_session-session_id launch input path back small = ground arith

-- No goroutine of the relay ends the idleness.
step-Idle : (ev : Event) (w : Relay × Host) → NoStart ev → Idle w → Idle (step ev w)
unfolding step stop_session pick
step-Idle ev w quiet (off, gone, inl stopped) =
    let (stopped', off', gone') = step-Quiet ev w quiet (stopped, off, gone) in
    (off', gone', inl stopped')
step-Idle (starts launch input path) w quiet i = absurd quiet
step-Idle stops (r, h) quiet (off, gone, inr none_waits) =
    let (stopped, off', gone') =
      step-Quiet stops (record r { stopped = true }, h) tt (refl, off, gone) in
    (off', gone', inl stopped)
step-Idle (exits pid) (r, h) quiet (off, gone, inr none_waits) =
    (off, reap-nil pid h.alive gone, inr none_waits)
step-Idle (proceeds n launch) (r, h) quiet (off, gone, inr none_waits) =
    rw (step, none_waits) (off, gone, inr none_waits)

module _ {F : Type 0} {P : Type 0} where
  pub weaken :
      (n : ℕ) (m : SharedManager F) (back : Relay × Host)
      → Sound P n m back
      → Sound P (n + 1) m back
  weaken n m back s = record {
    callback = s.callback;
    single = s.single;
    bound = omega (arith, s.bound);
    idle = s.idle;
  }

  pub lift :
      (n k : ℕ) (m : SharedManager F) (back : Relay × Host)
      → n ≤ k
      → Sound P n m back
      → Sound P k m back
  lift n k m back more s = record {
    callback = s.callback;
    single = s.single;
    bound = omega (arith, s.bound);
    idle = s.idle;
  }

  -- A call that leaves the holder.
  pub keep-Sound :
      (n : ℕ) (m m' : SharedManager F) (back : Relay × Host)
      → holder m' ≡ holder m
      → m'.on_slot_release ≡ m.on_slot_release
      → Sound P n m back
      → Sound P n m' back
  keep-Sound n m m' back same call s = record {
    callback = call ∙ s.callback;
    single = s.single;
    bound = s.bound;
    idle = λ p free. s.idle p (sym same ∙ free);
  }

  pub stop-Sound :
      (n : ℕ) (m : SharedManager F) (back : Relay × Host)
      → Sound P n m back
      → Sound P n m (stop_session back)
  stop-Sound n m back s = record {
    callback = s.callback;
    single = stop_session-IsSingle back.0 back.1 s.single;
    bound = rw (stop_session-session_id back) s.bound;
    idle = λ _ _. stop_session-Idle back s.single;
  }

  -- The relay starts a session for the source that holds the slot.
  pub start-Sound :
      (n : ℕ) (m : SharedManager F) (back : Relay × Host) (h : Text × Text) (launch : Launch)
      (input path : Text)
      → n + 1 < 2 ^ 64
      → (P → holder m ≡ some h)
      → Sound P n m back
      → Sound P (n + 1) m (start_session launch input path back).0
  start-Sound n m back h launch input path small held s = record {
    callback = s.callback;
    single =
        start_session-IsSingle launch input path back.0 back.1 (omega (arith, s.bound)) s.single;
    bound = omega (arith, s.bound, start_session-session_id launch input path back);
    idle = λ p free. absurd (let e = held p in cc);
  }

  pub step-Sound :
      (n : ℕ) (m : SharedManager F) (back : Relay × Host) (ev : Event)
      → n + 1 < 2 ^ 64
      → NoStart ev
      → Sound P n m back
      → Sound P (n + 1) m (step ev back)
  step-Sound n m back ev small quiet s = record {
    callback = s.callback;
    single = step-IsSingle ev back.0 back.1 (omega (arith, s.bound)) s.single;
    bound = omega (arith, s.bound, step-session_id ev back.0 back.1);
    idle = λ p free. step-Idle ev back quiet (s.idle p free);
  }

module _ {F : Type 0} where
  -- A release either leaves the holder and the relay, or it stops the relay.
  pub release_slot-outcome :
      (protocol path : Text) (m : SharedManager F) (back : Relay × Host)
      → m.on_slot_release ≡ some stop_relay
      → let (m', back') = release_slot protocol path (m, back) in
        (m'.on_slot_release ≡ m.on_slot_release)
        × (((holder m' ≡ holder m) × (back' ≡ back)) ⊎ (back' ≡ stop_session back))
  unfolding release_slot
  release_slot-outcome protocol path m back call = ground (arith, call)

module _ {F : Type 0} {P : Type 0} where
  outcome-Sound :
      (n : ℕ) (m m' : SharedManager F) (back back' : Relay × Host)
      → (m'.on_slot_release ≡ m.on_slot_release)
        × (((holder m' ≡ holder m) × (back' ≡ back)) ⊎ (back' ≡ stop_session back))
      → Sound P n m back
      → Sound P n m' back'
  outcome-Sound n m m' back back' (call, inl (same, e)) s =
      rw e (keep-Sound n m m' back same call s)
  outcome-Sound n m m' back back' (call, inr e) s =
      let t = stop-Sound n m back s in
      rw e (record {
        callback = call ∙ s.callback;
        single = t.single;
        bound = t.bound;
        idle = λ _ _. stop_session-Idle back s.single;
      })

  pub release_slot-Sound :
      (n : ℕ) (protocol path : Text) (m : SharedManager F) (back : Relay × Host)
      → Sound P n m back
      → let (m', back') = release_slot protocol path (m, back) in Sound P n m' back'
  release_slot-Sound n protocol path m back s =
      outcome-Sound n m (release_slot protocol path (m, back)).0 back
        (release_slot protocol path (m, back)).1
        (release_slot-outcome protocol path m back s.callback) s

  pub release-Sound :
      (n : ℕ) (r : Release) (m : SharedManager F) (back : Relay × Host)
      → Sound P n m back
      → let (m', back') = release r (m, back) in Sound P n m' back'
  unfolding release
  release-Sound n r m back s = elim (Bool-cases (contains r.session m.released)) [
    | inl once ↦ rw (release, once) s
    | inr first ↦
        let m' = record m { released = r.session ∷ m.released } in
        rw (release, first)
          (release_slot-Sound n r.protocol r.path m' back (keep-Sound n m m' back refl refl s))
  ]

  -- The slot is left to its holder, or it is claimed while the relay is idle.
  pub try_acquire-Sound :
      (n : ℕ) (now : Time) (protocol path : Text) (m : SharedManager F) (back : Relay × Host)
      → Sound P n m back
      → Sound P n (try_acquire now protocol path m).0 back
  unfolding try_acquire
  try_acquire-Sound n now protocol path m back s = record {
    callback = ground (arith, s.callback);
    single = s.single;
    bound = s.bound;
    idle = λ p free. s.idle p (ground arith);
  }

module _ {F : Type 0} where
  pub try_acquire-held :
      (now : Time) (protocol path : Text) (m : SharedManager F) (r : Release)
      → (try_acquire now protocol path m).1 ≡ some r
      → holder (try_acquire now protocol path m).0 ≡ some (r.protocol, r.path)
  unfolding try_acquire
  try_acquire-held now protocol path m r e = ground arith
