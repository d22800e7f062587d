-- ===== src/Srt/Readiness.antt =====
-- internal/ingest/srt/server.go: the poll of irl-srt-server's HTTP port.
mod Tests
use irl_universal_ingest.Prelude.{
  ℕ, zero, suc, ◌+◌, ◌*◌, ◌/◌, ◌≡◌, ◌∙◌, ◌≤◌, ◌≢◌, ◌<◌, ◌⊎◌, ◌↔◌, inl, inr, refl, Bool, true, false,
  ◌++◌, ℤ, Option, none, some, Text, ltb, if◌then◌else◌, arith, Bool-cases,
}
use irl_universal_ingest.Go.Strings.{codes}
use irl_universal_ingest.Go.Format.{print_int}
use irl_universal_ingest.Go.Clock.{Time}
use irl_universal_ingest.Backoff.{millisecond}

-- One round: the clock at its test, whether the context is done, and whether the request is built and
-- answered.
pub record Poll : Type 0 where
  pub now : Time
  pub cancelled : Bool
  pub answers : Bool

abbrev pub timed_out : ℤ → Text
timed_out port = codes "timed out waiting for irl-srt-server on port " ++ print_int port

-- The rounds from one on, with the error that is returned; none if the fuel runs out.
unfoldable pub poll_from : ℕ → ℤ → Time → (ℕ → Poll) → ℕ → Option (Option Text)
poll_from zero port deadline polls k = none
poll_from (suc fuel) port deadline polls k =
    let rest = poll_from fuel port deadline polls (suc k) in
    if ltb (polls k).now deadline
    then (if (polls k).cancelled
        then some (some (codes "context canceled"))
        else if (polls k).answers
        then some none
        else rest)
    else some (some (timed_out port))

-- A round that fails sleeps this long.
abbrev pub pause : ℕ
pause = 50 * millisecond

unfoldable pub wait_for_server_ready : ℤ → ℕ → Time → (ℕ → Poll) → Option (Option Text)
unfolding poll_from
wait_for_server_ready port timeout start polls =
    poll_from (suc (suc (timeout / pause))) port (start + timeout) polls 0

-- A round that goes on to the next one.
abbrev pub GoesOn : Time → Poll → Type 0
GoesOn deadline p = (p.now < deadline) × (p.cancelled ≡ false) × (p.answers ≡ false)

abbrev pub Succeeds : Time → Poll → Type 0
Succeeds deadline p = (p.now < deadline) × (p.cancelled ≡ false) × (p.answers ≡ true)

-- What a round that is the last one returns.
abbrev pub Ends : ℤ → Time → Poll → Option Text → Type 0
Ends port deadline p r =
    (r ≡ none × Succeeds deadline p)
    ⊎ ((r ≡ some (codes "context canceled") × (p.now < deadline) × (p.cancelled ≡ true))
        ⊎ (r ≡ some (timed_out port) × (deadline ≤ p.now)))

-- What the rounds from k on come to, and in which round.
pub record Verdict (port : ℤ) (deadline : Time) (polls : ℕ → Poll) (k : ℕ) (r : Option Text)
    : Type 0 where
  pub last : ℕ
  pub after : k ≤ last
  pub earlier : (i : ℕ) → k ≤ i → i < last → GoesOn deadline (polls i)
  pub result : Ends port deadline (polls last) r

module _ (port : ℤ) (deadline : Time) (polls : ℕ → Poll) where
  stops_here :
      (k : ℕ) (r : Option Text) → Ends port deadline (polls k) r → Verdict port deadline polls k r
  stops_here k r h = record {
    last = k;
    after = omega arith;
    earlier = λ i a b. absurd (omega arith);
    result = h;
  }

  goes_on :
      (k : ℕ) (r : Option Text)
      → GoesOn deadline (polls k)
      → Verdict port deadline polls (suc k) r
      → Verdict port deadline polls k r
  goes_on k r h v = record {
    last = v.last;
    after = let a = v.after in omega arith;
    earlier = λ i a b. elim (here_or_later i a) [
      | inl here ↦ rw (here) h
      | inr later ↦ v.earlier i later b
    ];
    result = v.result;
  }
    where
      here_or_later : (i : ℕ) → k ≤ i → (i ≡ k) ⊎ (suc k ≤ i)
      here_or_later i a = ground (arith, Bool-cases (ltb k i))

  -- A round ends with an answer, or the answer is that of the next one.
  one_round :
      (fuel k : ℕ)
      → ((r : Option Text) × (poll_from (suc fuel) port deadline polls k ≡ some r)
          × Ends port deadline (polls k) r)
        ⊎ (GoesOn deadline (polls k)
            × (poll_from (suc fuel) port deadline polls k
                ≡ poll_from fuel port deadline polls (suc k)))
  unfolding poll_from
  one_round fuel k = ground (
    arith,
    Bool-cases (ltb (polls k).now deadline),
    Bool-cases (polls k).cancelled,
    Bool-cases (polls k).answers,
  )

  poll_from-Verdict :
      (fuel k : ℕ)
      → ((i : ℕ) → (polls i).now + pause ≤ (polls (suc i)).now)
      → deadline ≤ (polls k).now + fuel * pause
      → (r : Option Text) × (poll_from (suc fuel) port deadline polls k ≡ some r)
        × Verdict port deadline polls k r
  poll_from-Verdict zero k slow enough = elim (one_round zero k) [
    | inl (r, e, h) ↦ (r, e, stops_here k r h)
    | inr (h, e) ↦ absurd (let b = h.0 in omega arith)
  ]
  poll_from-Verdict (suc fuel) k slow enough = elim (one_round (suc fuel) k) [
    | inl (r, e, h) ↦ (r, e, stops_here k r h)
    | inr (h, e) ↦
        let (r, e', v) = poll_from-Verdict fuel (suc k) slow (let s = slow k in omega arith) in
        (r, e ∙ e', goes_on k r h v)
  ]

-- If each round that fails advances the clock by its sleep, the poll returns within its fuel, which
-- is one round for each 50 ms of the timeout and two more: nil in the first round before the deadline
-- whose request is answered, the context's error in the first one that finds it done, or the timeout
-- once the deadline has passed.
pub wait_for_server_ready-Verdict :
    (port : ℤ) (timeout : ℕ) (start : Time) (polls : ℕ → Poll)
    → start ≤ (polls 0).now
    → ((i : ℕ) → (polls i).now + pause ≤ (polls (suc i)).now)
    → (r : Option Text) × (wait_for_server_ready port timeout start polls ≡ some r)
      × Verdict port (start + timeout) polls 0 r
unfolding wait_for_server_ready
wait_for_server_ready-Verdict port timeout start polls begun slow =
    poll_from-Verdict port (start + timeout) polls (suc (timeout / pause)) 0 slow (omega arith)

-- A round whose request is answered in time, after rounds that all go on.
abbrev pub IsReached : Time → (ℕ → Poll) → Type 0
IsReached deadline polls =
    (k : ℕ) × Succeeds deadline (polls k) × ((i : ℕ) → i < k → GoesOn deadline (polls i))

module _ {port : ℤ} {deadline : Time} {polls : ℕ → Poll} {r : Option Text} where
  pub none_iff-IsReached : Verdict port deadline polls 0 r → (r ≡ none) ↔ IsReached deadline polls
  none_iff-IsReached v = (reached, none_back)
    where
      reached : r ≡ none → IsReached deadline polls
      reached e = elim v.result [
        | inl (_, h) ↦ (v.last, h, λ i b. v.earlier i (omega arith) b)
        | inr (inl (e', _, _)) ↦ absurd (let x = e' in cc)
        | inr (inr (e', _)) ↦ absurd (let x = e' in cc)
      ]

      none_back : IsReached deadline polls → r ≡ none
      none_back (k, h, earlier) = elim (Bool-cases (ltb k v.last)) [
        | inl b ↦ absurd (let g = v.earlier k (omega arith) (ground (arith, b)) in cc)
        | inr b ↦ elim (Bool-cases (ltb v.last k)) [
          | inl c ↦ let g = earlier v.last (ground (arith, c)) in ground (arith, v.result, g)
          | inr c ↦
              let same : v.last ≡ k = ground (arith, b, c) in ground (arith, v.result, h, same)
        ]
      ]
