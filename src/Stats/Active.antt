-- ===== src/Stats/Active.antt =====
-- How many paths are shown as active.
use irl_universal_ingest.Prelude.{
  ℕ, ◌+◌, ◌≡◌, refl, Bool, true, ◌||◌, List, [], ◌∷◌, ◌++◌, none, some, Text, text_eq, text_beq_iff,
  ◌==◌, if◌then◌else◌, arith,
}
use irl_universal_ingest.Go.Clock.{Time}
use irl_universal_ingest.Go.Floats.{Floats}
use irl_universal_ingest.Auth.{normalize_path}
use irl_universal_ingest.Arbitration.{Manager, SlotInfo, active_info}
use irl_universal_ingest.Relay.{Relay, is_running}
use irl_universal_ingest.Stats.{PathStat, has, add_path, add_paths, stats_of, collect}

pub count : Text → List Text → ℕ
count p [] = 0
count p (q ∷ qs) = (if q == p then 1 else 0) + count p qs

count-append :
    (p m : Text) (ps : List Text)
    → count p (ps ++ (m ∷ [])) ≡ count p ps + (if m == p then 1 else 0)
unfolding count
count-append p m [] = omega arith
count-append p m (q ∷ qs) = omega (arith, count-append p m qs)

has-append : (p m : Text) (ps : List Text) → has p (ps ++ (m ∷ [])) ≡ (has p ps || m == p)
unfolding has
has-append p m [] = ground arith
has-append p m (q ∷ qs) = ground (arith, has-append p m qs)

-- Each path stands once.
abbrev Once : List Text → Type 0
Once ps = (p : Text) → count p ps ≡ (if has p ps then 1 else 0)

add_path-Once : (q : Text) (ps : List Text) → Once ps → Once (add_path q ps)
unfolding add_path
add_path-Once q ps once p =
    let m = normalize_path q in
    ground (arith, once p, once m, count-append p m ps, has-append p m ps, text_beq_iff m p)

add_paths-Once : (qs ps : List Text) → Once ps → Once (add_paths qs ps)
unfolding add_paths
add_paths-Once [] ps once = once
add_paths-Once (q ∷ qs) ps once = add_paths-Once qs (add_path q ps) (add_path-Once q ps once)

Once-nil : Once []
unfolding count has
Once-nil p = refl

add_path-has : (q : Text) (ps : List Text) → has (normalize_path q) (add_path q ps) ≡ true
unfolding add_path
add_path-has q ps = let m = normalize_path q in ground (arith, has-append m m ps, text_beq_iff m m)

pub count_active : {F : Type 0} → List (PathStat F) → ℕ
count_active [] = 0
count_active (s ∷ ss) = (if s.active then 1 else 0) + count_active ss

count_active-none :
    (F : Type 0) ⦃fl : Floats F⦄ (now : Time) (running : Bool) (ps : List Text)
    → count_active {F = F} (stats_of now running none ps) ≡ 0
unfolding count_active stats_of
count_active-none F now running [] = refl
count_active-none F now running (p ∷ ps) = omega (arith, count_active-none F now running ps)

module _ {F : Type 0} ⦃fl : Floats F⦄ where
  count_active-stats_of :
      (now : Time) (running : Bool) (s : SlotInfo F) (ps : List Text)
      → count_active (stats_of now running (some s) ps)
        ≡ (if running then count (normalize_path s.path) ps else 0)
  unfolding count_active stats_of count
  count_active-stats_of now running s [] = ground arith
  count_active-stats_of now running s (p ∷ ps) = ground (
    arith,
    count_active-stats_of now running s ps,
    text_beq_iff (normalize_path s.path) p,
    text_beq_iff p (normalize_path s.path),
  )

  -- Exactly one path is shown as active if the slot is held and the relay runs, and none otherwise,
  -- also where the held path is not an allowed one or several allowed paths are cleaned to it.
  pub collect-count_active :
      {E : Type 0} (now : Time) (allowed : List Text) (m : Manager F E) (r : Relay)
      → ((active_info m ≡ none) → count_active (collect now allowed m r) ≡ 0)
        × ((s : SlotInfo F)
            → active_info m ≡ some s
            → count_active (collect now allowed m r) ≡ (if is_running r then 1 else 0))
  unfolding collect
  collect-count_active now allowed m r = (
    λ e. rw (collect, e) (count_active-none F now (is_running r) (add_paths allowed [])),
    λ s e.
        let n = normalize_path s.path in
        let before = add_paths-Once allowed [] Once-nil in
        let once = add_path-Once s.path (add_paths allowed []) before n in
        let here = add_path-has s.path (add_paths allowed []) in
        let total =
          count_active-stats_of now (is_running r) s (add_path s.path (add_paths allowed [])) in
        rw (collect, e) (ground (arith, total, once, here)),
  )
