-- ===== src/Srt/Webhook/Push.antt =====
-- What a push of statistics does to the watchdog.
use irl_universal_ingest.Prelude.{
  Option-cases, none, ℕ, ◌≡◌, ◌≢◌, ◌⊎◌, inl, inr, refl, true, false, ◌||◌, List, [], ◌∷◌, Option,
  some, ℤ, pos, ltb_ℤ, Text, arith, text_eq, text_beq_iff, Bool-cases, Any, ◌==◌,
}
use irl_universal_ingest.Go.Strings.{codes}
use irl_universal_ingest.Go.Clock.{Time}
use irl_universal_ingest.Arbitration.{
  Manager, SlotInfo, touch, set_bitrate, active_info, reset, Timer,
}
use irl_universal_ingest.Relay.{Relay, Host}
use irl_universal_ingest.Srt.Stats.{
  SlsStatEntry, StreamMetric, parse_stats, Publishes, parse_stats-found,
}
use irl_universal_ingest.Srt.Webhook.{World, handle_stats_push, report}

-- A push that announces the stream of a path: it is not empty, it decodes, and one of its
-- entries is that of the path's publisher.
abbrev pub Announces : (Text → Option (List SlsStatEntry)) → Text → Text → Type 0
Announces unmarshal path bytes =
    (bytes ≢ [])
    × ((es : List SlsStatEntry) × (unmarshal bytes ≡ some es) × Any (Publishes path) es)

module _ {F : Type 0} where
  -- The slot and the timer after activity.
  abbrev Refreshed : Time → SlotInfo F → Option Timer → Manager F (Relay × Host) → Type 0
  Refreshed now s timer m =
      ((t : SlotInfo F) × (m.active_slot ≡ some t) × (t.last_seen ≡ now) × (t.path ≡ s.path))
      × (m.timer ≡ timer)

  touch-Refreshed :
      (now : Time) (s : SlotInfo F) (m : Manager F (Relay × Host))
      → m.active_slot ≡ some s
      → Refreshed now s (reset now m.source_timeout m.timer) (touch now m)
  unfolding touch
  touch-Refreshed now s m active =
      ((record s { last_seen = now }, rw (touch, active) refl, refl, refl), rw (touch, active) refl)

  rate_kept :
      (now : Time) (kbps : ℤ) (s : SlotInfo F) (m : Manager F (Relay × Host))
      → m.active_slot ≡ some s
      → ((set_bitrate now kbps m).active_slot ≡ some (record s { bitrate_kbps = kbps }))
        × ((set_bitrate now kbps m).timer ≡ m.timer)
        × ((set_bitrate now kbps m).source_timeout ≡ m.source_timeout)
  unfolding set_bitrate
  rate_kept now kbps s m active =
      (rw (set_bitrate, active) refl, rw (set_bitrate, active) refl, rw (set_bitrate, active) refl)

  report-Refreshed :
      (now : Time) (metric : StreamMetric) (s : SlotInfo F) (m : Manager F (Relay × Host))
      → m.active_slot ≡ some s
      → metric.found ≡ true
      → Refreshed now s (reset now m.source_timeout m.timer) (report now (some metric) m)
  unfolding set_bitrate
  report-Refreshed now metric s m active e = elim (Bool-cases (ltb_ℤ (pos 0) metric.bitrate_kbps)) [
    | inr none_set ↦ rw (e, none_set) (touch-Refreshed now s m active)
    | inl positive ↦
        let n = set_bitrate now metric.bitrate_kbps m in
        let (slot, timer, timeout) = rate_kept now metric.bitrate_kbps s m active in
        let t = record s { bitrate_kbps = metric.bitrate_kbps } in
        let (there, again) = touch-Refreshed now t n slot in
        rw (e, positive) (there, rw (timer, timeout) at again)
  ]

  report_missing :
      (now : Time) (metric : StreamMetric) (m : Manager F (Relay × Host))
      → metric.found ≡ false
      → report now (some metric) m ≡ m
  report_missing now metric m e = rw e refl

  -- The manager that a push of an SRT source leaves.
  push_manager :
      (unmarshal : Text → Option (List SlsStatEntry)) (now : Time) (b : ℕ) (bytes : Text)
      (s : SlotInfo F) (metric : StreamMetric) (w : World F)
      → w.manager.active_slot ≡ some s
      → (s.protocol ≡ codes "SRT") ⊎ (s.protocol ≡ codes "SRTLA")
      → parse_stats unmarshal (b ∷ bytes) s.path ≡ some metric
      → (handle_stats_push unmarshal now (b ∷ bytes) w).0.manager
        ≡ report now (some metric) w.manager
  unfolding handle_stats_push active_info
  push_manager unmarshal now b bytes s metric w active srt parsed =
      let ours : (s.protocol == codes "SRT" || s.protocol == codes "SRTLA") ≡ true =
        ground
          (arith, text_beq_iff s.protocol (codes "SRT"), text_beq_iff s.protocol (codes "SRTLA")) in
      simp (handle_stats_push, active, ours, parsed) refl

  -- A push that does not decode.
  push_undecoded :
      (unmarshal : Text → Option (List SlsStatEntry)) (now : Time) (b : ℕ) (bytes : Text)
      (s : SlotInfo F) (w : World F)
      → w.manager.active_slot ≡ some s
      → (s.protocol ≡ codes "SRT") ⊎ (s.protocol ≡ codes "SRTLA")
      → unmarshal (b ∷ bytes) ≡ none
      → (handle_stats_push unmarshal now (b ∷ bytes) w).0.manager ≡ w.manager
  unfolding handle_stats_push active_info parse_stats
  push_undecoded unmarshal now b bytes s w active srt undecoded =
      let ours : (s.protocol == codes "SRT" || s.protocol == codes "SRTLA") ≡ true =
        ground
          (arith, text_beq_iff s.protocol (codes "SRT"), text_beq_iff s.protocol (codes "SRTLA")) in
      let none_found : parse_stats unmarshal (b ∷ bytes) s.path ≡ none =
        rw (parse_stats, undecoded) refl in
      simp (handle_stats_push, active, ours, none_found) refl

  -- While an SRT or SRTLA source has the slot, a push is activity, and sets the watchdog's timer
  -- again, if it is not empty, decodes, and has an entry of the publisher of the slot's path; any
  -- other push, also one that is empty or does not decode, leaves the manager as it is.
  pub handle_stats_push-activity :
      (unmarshal : Text → Option (List SlsStatEntry)) (now : Time) (bytes : Text) (s : SlotInfo F)
      (w : World F)
      → w.manager.active_slot ≡ some s
      → (s.protocol ≡ codes "SRT") ⊎ (s.protocol ≡ codes "SRTLA")
      → let v = (handle_stats_push unmarshal now bytes w).0 in
        (Announces unmarshal s.path bytes
          → ((t : SlotInfo F) × (v.manager.active_slot ≡ some t)
              × (t.last_seen ≡ now)
              × (t.path ≡ s.path))
            × (v.manager.timer ≡ reset now w.manager.source_timeout w.manager.timer))
        × ((Announces unmarshal s.path bytes → ⊥) → v.manager ≡ w.manager)
  unfolding handle_stats_push active_info
  handle_stats_push-activity unmarshal now [] s w active srt = (λ a. absurd (a.0 refl), λ _. refl)
  handle_stats_push-activity unmarshal now (b ∷ bytes) s w active srt =
      elim (Option-cases (unmarshal (b ∷ bytes))) [
        | inl bad ↦ (
          λ a. absurd (let e = a.1.1 in cc),
          λ _. push_undecoded unmarshal now b bytes s w active srt bad,
        )
        | inr (es, decoded) ↦
            let (metric, parsed, shown) =
              parse_stats-found unmarshal (b ∷ bytes) s.path es decoded in
            rw (push_manager unmarshal now b bytes s metric w active srt parsed) (
              λ a.
                  let (fs, again, found) = a.1 in
                  let same : fs ≡ es = cc in
                  report-Refreshed now metric s w.manager active (shown.1 (rw (same) at found)),
              λ n. elim (Bool-cases metric.found) [
                | inl e ↦ absurd (n (λ q. cc, (es, decoded, shown.0 e)))
                | inr e ↦ report_missing now metric w.manager e
              ],
            )
      ]
