-- ===== src/Arbitration/Sessions.antt =====
-- The release closures of different sessions.
use irl_universal_ingest.Prelude.{
  ℕ, ◌≡◌, ◌≢◌, ◌<◌, ◌⊎◌, refl, true, false, List, [], ◌∷◌, none, some, arith, Text, Bool-cases, inl,
  inr, text_beq_iff, text_eq,
}
use irl_universal_ingest.Go.Clock.{Time}
use irl_universal_ingest.Go.Floats.{Floats}
use irl_universal_ingest.Go.Strings.{to_upper}
use irl_universal_ingest.Arbitration.{
  SlotInfo, Manager, Release, contains, try_acquire, touch, add_bytes, set_rtt, set_bitrate,
  release_slot, release, decay_tick, handle_timeout,
}
use irl_universal_ingest.Arbitration.Steps.{
  World, Event, acquires, touches, receives, measures, reports, releases, ticks, fires, times_out,
  fire, time_out, step, run,
}

module _ {F E : Type 0} where
  release_slot-released :
      (protocol path : Text) (m : Manager F E) (e : E)
      → (release_slot protocol path (m, e)).0.released ≡ m.released
  unfolding release_slot
  release_slot-released protocol path m e = ground arith

  spend :
      (r : Release) (m : Manager F E) (e : E)
      → contains r.session (release r (m, e)).0.released ≡ true
  unfolding release contains
  spend r m e = elim (Bool-cases (contains r.session m.released)) [
    | inl once ↦ rw (release, once) once
    | inr first ↦ rw (release, first, release_slot-released r.protocol r.path _ e) (ground arith)
  ]

  spent_release :
      (k : ℕ) (r : Release) (m : Manager F E) (e : E)
      → contains k m.released ≡ true
      → contains k (release r (m, e)).0.released ≡ true
  unfolding release contains
  spent_release k r m e h = elim (Bool-cases (contains r.session m.released)) [
    | inl once ↦ rw (release, once) h
    | inr first ↦ rw (release, first, release_slot-released r.protocol r.path _ e) (ground arith)
  ]

  no_op :
      (r : Release) (m : Manager F E) (e : E)
      → contains r.session m.released ≡ true
      → release r (m, e) ≡ (m, e)
  unfolding release
  no_op r m e h = rw (release, h) refl

  -- A release by another protocol or path than the holder's leaves the slot, its timer and the
  -- callback's world alone.
  pub release_foreign :
      (r : Release) (s : SlotInfo F) (m : Manager F E) (e : E)
      → m.active_slot ≡ some s
      → (s.protocol ≢ to_upper r.protocol) ⊎ (s.path ≢ r.path)
      → let (m', e') = release r (m, e) in
        (m'.active_slot ≡ some s) × (m'.timer ≡ m.timer) × (e' ≡ e)
  unfolding release release_slot contains
  release_foreign r s m e h d =
      ground (arith, text_beq_iff s.protocol (to_upper r.protocol), text_beq_iff s.path r.path)

  -- The closure of a session tells itself from a later one by protocol and path alone: while it is
  -- not spent, it ends whatever session was acquired since for the same protocol and path.
  pub release_stale :
      (r : Release) (now : Time) (protocol : Text) (m : Manager F E) (e : E)
      → r.session < m.sessions
      → contains r.session m.released ≡ false
      → m.active_slot ≡ none
      → to_upper r.protocol ≡ to_upper protocol
      → let (m', r') = try_acquire now protocol r.path m in
        ((s : Release) × (r' ≡ some s) × (r.session < s.session))
        × ((release r (m', e)).0.active_slot ≡ none)
  unfolding release release_slot contains try_acquire
  release_stale r now protocol m e older unspent idle same = (
    (
      record { session = m.sessions; protocol = to_upper protocol; path = r.path },
      ground arith,
      older,
    ),
    ground
        (arith, text_beq_iff (to_upper protocol) (to_upper r.protocol), text_beq_iff r.path r.path),
  )

  module _ ⦃fl : Floats F⦄ where
    spent_step :
        (k : ℕ) (ev : Event F) (w : World F E)
        → contains k w.manager.released ≡ true
        → contains k (step ev w).manager.released ≡ true
    unfolding step try_acquire touch add_bytes set_rtt set_bitrate decay_tick release_slot
        handle_timeout fire time_out
    spent_step k (acquires now protocol path) w h = ground arith
    spent_step k (touches now) w h = ground arith
    spent_step k (receives now n) w h = ground arith
    spent_step k (measures x) w h = ground arith
    spent_step k (reports now kbps) w h = ground arith
    spent_step k (releases r) w h = spent_release k r w.manager w.env h
    spent_step k (ticks now) w h = ground arith
    spent_step k (fires now) w h = ground arith
    spent_step k (times_out n) w h = ground arith

    spent_run :
        (k : ℕ) (es : List (Event F)) (w : World F E)
        → contains k w.manager.released ≡ true
        → contains k (run es w).manager.released ≡ true
    unfolding run
    spent_run k [] w h = h
    spent_run k (ev ∷ es) w h = spent_run k es (step ev w) (spent_step k ev w h)

    -- A release closure acts at most once: called again after any further history, it changes
    -- neither the manager nor the callback's world.
    pub release_once :
        (r : Release) (es : List (Event F)) (w : World F E)
        → let v = run es (step (releases r) w) in release r (v.manager, v.env) ≡ (v.manager, v.env)
    release_once r es w =
        let v = run es (step (releases r) w) in
        no_op r v.manager v.env
          (spent_run r.session es (step (releases r) w) (unfold step in spend r w.manager w.env))
