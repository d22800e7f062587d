-- ===== src/Stats/Server.antt =====
-- internal/stats/server.go: the HTTP handlers. A body is what is encoded as JSON.
use irl_universal_ingest.Prelude.{
  ℕ, ◌≡◌, ◌≢◌, ◌⊎◌, ◌↔◌, refl, true, not, List, [], ◌∷◌, Option, none, some, Text, text_eq,
  text_beq_iff, ◌==◌, if◌then◌else◌, arith, Bool-cases, inl, inr,
}
use irl_universal_ingest.Prelude.Assoc.{lookup, insert, lookup-insert}
use irl_universal_ingest.Go.Strings.{codes}
use irl_universal_ingest.Go.Clock.{Time}
use irl_universal_ingest.Go.Floats.{Floats}
use irl_universal_ingest.Arbitration.{Manager, active_info}
use irl_universal_ingest.Relay.{Relay, is_running}
use irl_universal_ingest.Health.{Tracker, problems}
use irl_universal_ingest.Stats.{PathStat, collect, healthy}

pub data Body (F : Type 0) : Type 0 where
  refused : Text → Body F
  paths : List (PathStat F) → Body F
  failing : List (Text × Text) → Body F
  status_ok : Body F

unfoldable pub tracked : Option Tracker → List (Text × Text)
unfolding problems
tracked none = []
tracked (some t) = problems t

abbrev pub relay_problem : Text
relay_problem = codes "arbitration slot active but relay is not running"

-- 503 with the problems, if there are any.
abbrev pub answer : {F : Type 0} → List (Text × Text) → ℕ × Body F
answer [] = (200, status_ok)
answer (p ∷ ps) = (503, failing (p ∷ ps))

module _ {F E : Type 0} where
  -- The problems of a request; the tracker gives a copy.
  unfoldable pub all_problems : Option Tracker → Manager F E → Relay → List (Text × Text)
  unfolding tracked healthy insert
  all_problems t m r =
      if not (healthy m r) then insert (codes "relay") relay_problem (tracked t) else tracked t

  unfoldable pub handle_healthz : Option Tracker → Manager F E → Relay → ℕ × Body F
  unfolding all_problems
  handle_healthz t m r = answer (all_problems t m r)

  module _ ⦃fl : Floats F⦄ where
    unfoldable pub handle_stats : Time → Text → List Text → Manager F E → Relay → ℕ × Body F
    unfolding collect
    handle_stats now method allowed m r =
        if not (method == codes "GET")
        then (405, refused (codes "Method Not Allowed"))
        else (200, paths (collect now allowed m r))

insert-nonempty : (k v : Text) (ps : List (Text × Text)) → insert k v ps ≢ []
unfolding insert
insert-nonempty k v [] = λ e. cc
insert-nonempty k v ((at, old) ∷ ps) = elim (Bool-cases (at == k)) [
  | inl e ↦ rw (insert, e) (λ x. cc)
  | inr e ↦ rw (insert, e) (λ x. cc)
]

answer-status :
    {F : Type 0} (ps : List (Text × Text))
    → ((answer {F = F} ps).0 ≡ 200 ↔ ps ≡ [])
      × (((answer {F = F} ps).0 ≡ 200)
          ⊎ (((answer {F = F} ps).0 ≡ 503) × ((answer {F = F} ps).1 ≡ failing ps)))
answer-status [] = ((λ e. refl, λ e. refl), inl refl)
answer-status (p ∷ ps) = ((λ e. absurd (ground arith), λ e. absurd (cc)), inr (refl, refl))

module _ {F E : Type 0} where
  all_problems-lookup :
      (t : Option Tracker) (m : Manager F E) (r : Relay) (component : Text)
      → component ≢ codes "relay"
      → lookup component (all_problems t m r) ≡ lookup component (tracked t)
  unfolding all_problems
  all_problems-lookup t m r component other = ground (
    arith,
    lookup-insert (codes "relay") component relay_problem (tracked t),
    text_beq_iff (codes "relay") component,
  )

  all_problems-nil :
      (t : Option Tracker) (m : Manager F E) (r : Relay)
      → (all_problems t m r ≡ [])
        ↔ ((tracked t ≡ []) × ((active_info m ≡ none) ⊎ (is_running r ≡ true)))
  unfolding all_problems healthy active_info
  all_problems-nil t m r = (
    λ e. ground (arith, insert-nonempty (codes "relay") relay_problem (tracked t)),
    λ (none_tracked, fine). ground arith,
  )

  -- The health check answers 200 exactly if no component has a problem and no source holds the slot
  -- without a relay that runs; otherwise 503, and then it shows what the tracker says of every
  -- component but the relay.
  pub handle_healthz_iff :
      (t : Option Tracker) (m : Manager F E) (r : Relay)
      → let (status, body) = handle_healthz t m r in
        ((status ≡ 200) ↔ ((tracked t ≡ []) × ((active_info m ≡ none) ⊎ (is_running r ≡ true))))
        × ((status ≡ 200)
            ⊎ ((status ≡ 503)
                × ((ps : List (Text × Text)) × (body ≡ failing ps)
                    × ((component : Text)
                        → component ≢ codes "relay"
                        → lookup component ps ≡ lookup component (tracked t)))))
  unfolding handle_healthz
  handle_healthz_iff t m r =
      let ps = all_problems t m r in
      let ((to, from), result) = answer-status ps in
      let (fine, back) = all_problems-nil t m r in
      (
        (λ e. fine (to e), λ h. from (back h)),
        elim result [
          | inl ok ↦ inl ok
          | inr (bad, shown) ↦ inr (bad, (ps, shown, all_problems-lookup t m r))
        ],
      )
