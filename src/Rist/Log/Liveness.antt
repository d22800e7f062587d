-- ===== src/Rist/Log/Liveness.antt =====
-- Which lines are statistics of a live connection.
use irl_universal_ingest.Prelude.{
  ℕ, ◌≡◌, ◌↔◌, ◌⊎◌, ◌∙◌, refl, true, false, List, [], ◌∷◌, Option, none, some, pos, quot, int_eq,
  int_beq_iff, Text, text_eq, arith, Option-cases, inl, inr,
}
use irl_universal_ingest.Go.Strings.{to_lower}
use irl_universal_ingest.Go.Floats.{Floats}
use irl_universal_ingest.Rist.Log.{
  StatsMetric, Peer, RistStatsPayload, Parsers, from_brace, no_metric, metric_of, json_metric,
  with_status, with_cname, with_rtt, with_bitrate, with_lost, with_quality, text_metric,
  parse_log_line,
}

-- The flow and its first peer are not dead.
abbrev pub IsLive : {F : Type 0} → RistStatsPayload F → Type 0
IsLive {F} flow =
    (p : Peer F) × (ps : List (Peer F)) × (flow.peers ≡ p ∷ ps)
    × (flow.dead ≡ pos 0)
    × (p.dead ≡ pos 0)

List-cases : {A : Type 0} (xs : List A) → (xs ≡ []) ⊎ ((x : A) × (ys : List A) × (xs ≡ x ∷ ys))
List-cases [] = inl refl
List-cases (x ∷ xs) = inr (x, xs, refl)

module _ {F : Type 0} ⦃fl : Floats F⦄ where
  kept_cname : (o : Option Text) (m : StatsMetric F) → (with_cname o m).has_stats ≡ m.has_stats
  kept_cname none m = refl
  kept_cname (some x) m = refl

  kept_rtt : (o : Option F) (m : StatsMetric F) → (with_rtt o m).has_stats ≡ m.has_stats
  kept_rtt none m = refl
  kept_rtt (some x) m = refl

  kept_bitrate :
      (o : Option (F × Text)) (m : StatsMetric F) → (with_bitrate o m).has_stats ≡ m.has_stats
  kept_bitrate none m = refl
  kept_bitrate (some x) m = refl

  kept_lost : (o : Option ℕ) (m : StatsMetric F) → (with_lost o m).has_stats ≡ m.has_stats
  kept_lost none m = refl
  kept_lost (some x) m = refl

  kept_quality : (o : Option F) (m : StatsMetric F) → (with_quality o m).has_stats ≡ m.has_stats
  kept_quality none m = refl
  kept_quality (some x) m = refl

  kept_status : (lower : Text) (m : StatsMetric F) → (with_status lower m).has_stats ≡ m.has_stats
  unfolding with_status
  kept_status lower m = ground arith

  -- A line that is no blob of a live connection carries no statistics.
  text_metric-has_stats : (ps : Parsers F) (line : Text) → (text_metric ps line).has_stats ≡ false
  unfolding text_metric
  text_metric-has_stats ps line =
      kept_quality _ _
      ∙ (kept_lost _ _
          ∙ (kept_bitrate _ _
              ∙ (kept_rtt _ _ ∙ (kept_cname _ _ ∙ kept_status (to_lower line) no_metric))))

  metric_of-IsLive :
      (flow : RistStatsPayload F) (m : StatsMetric F)
      → metric_of flow ≡ some m
      → IsLive flow × (m.has_stats ≡ true)
  unfolding metric_of
  metric_of-IsLive flow m h = elim (List-cases flow.peers) [
    | inl e ↦ absurd (ground arith)
    | inr (p, ps, e) ↦ (
      (
        p,
        ps,
        e,
        ground (arith, int_beq_iff flow.dead (pos 0)),
        ground (arith, int_beq_iff p.dead (pos 0)),
      ),
      ground arith,
    )
  ]

  IsLive-metric_of :
      (flow : RistStatsPayload F)
      → IsLive flow
      → (m : StatsMetric F) × (metric_of flow ≡ some m) × (m.has_stats ≡ true)
  unfolding metric_of
  IsLive-metric_of flow (p, ps, e, live, peer) = (
    record no_metric {
      has_stats = true;
      rtt_ms = fl.to_int p.rtt;
      bitrate_kbps = quot p.bitrate 1000;
      quality = flow.quality;
      lost_packets = flow.lost;
    },
    ground arith,
    refl,
  )

  json_metric-none :
      (ps : Parsers F) (line : Text)
      → json_metric ps line ≡ none
      → (parse_log_line ps line).has_stats ≡ false
  unfolding parse_log_line
  json_metric-none ps line e = rw (parse_log_line, e) (text_metric-has_stats ps line)

  json_metric-some :
      (ps : Parsers F) (line : Text) (m : StatsMetric F)
      → json_metric ps line ≡ some m
      → parse_log_line ps line ≡ m
  unfolding parse_log_line
  json_metric-some ps line m e = rw (parse_log_line, e) refl

  -- The blob behind a metric.
  json_metric-IsLive :
      (ps : Parsers F) (line : Text) (m : StatsMetric F)
      → json_metric ps line ≡ some m
      → (json : Text) × (flow : RistStatsPayload F) × (from_brace line ≡ some json)
        × (ps.unmarshal json ≡ some flow)
        × IsLive flow
  unfolding json_metric
  json_metric-IsLive ps line m h = elim (Option-cases (from_brace line)) [
    | inl e ↦ cc (rw e at h)
    | inr (json, e) ↦
        let g = rw e at h in
        elim (Option-cases (ps.unmarshal json)) [
          | inl u ↦ cc (rw u at g)
          | inr (flow, u) ↦ (json, flow, e, u, (metric_of-IsLive flow m (rw u at g)).0)
        ]
  ]

  -- A line counts as statistics exactly if from its first brace on it decodes to a payload whose flow
  -- has a peer, and neither the flow nor its first peer is dead.
  pub parse_log_line-has_stats :
      (ps : Parsers F) (line : Text)
      → ((parse_log_line ps line).has_stats ≡ true) ↔ (
          (json : Text) × (flow : RistStatsPayload F) × (from_brace line ≡ some json)
          × (ps.unmarshal json ≡ some flow)
          × IsLive flow)
  unfolding json_metric
  parse_log_line-has_stats ps line = (
    λ h. elim (Option-cases (json_metric ps line)) [
      | inl e ↦ cc (h, json_metric-none ps line e)
      | inr (m, e) ↦ json_metric-IsLive ps line m e
    ],
    λ (json, flow, e, u, live).
        let (m, metric, stats) = IsLive-metric_of flow live in
        rw (json_metric-some ps line m (rw (e, u) metric)) stats,
  )
