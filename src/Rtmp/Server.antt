-- ===== src/Rtmp/Server.antt =====
-- internal/ingest/rtmp/server.go: the listener and the loop that accepts connections.
mod Tests
use irl_universal_ingest.Prelude.{
  ◌↔◌, Any, inl, inr, ℕ, zero, suc, ◌*◌, ◌^◌, ◌≡◌, ◌≤◌, ◌∙◌, refl, ap, min, Bool, true, false, ◌||◌,
  List, [], ◌∷◌, ◌++◌, Option, none, some, ℤ, pos, Text, All, if◌then◌else◌, arith,
}
use irl_universal_ingest.Go.Strings.{codes}
use irl_universal_ingest.Go.Format.{print_int}
use irl_universal_ingest.Backoff.{millisecond, second}
use irl_universal_ingest.Rtmp.Accept.{accept_delay, accept_delay_exact}
use irl_universal_ingest.Machine.{unlisten}

-- A listener goes by its port.
pub record Server : Type 0 where
  pub port : ℤ
  pub listener : Option ℤ
  pub cancelled : Bool

unfoldable pub new_server : ℤ → Server
new_server port = record { port = port; listener = none; cancelled = false }

-- Start, for the error of net.Listen, on the ports that are listened on: the error that is returned.
unfoldable pub start : Option Text → Server × List ℤ → (Server × List ℤ) × Option Text
start (some e) (s, ps) =
    ((s, ps), some (codes "starting rtmp listener on :" ++ (print_int s.port ++ (codes ": " ++ e))))
start none (s, ps) = ((record s { listener = some s.port }, s.port ∷ ps), none)

-- Close, which then waits for acceptLoop and the connections.
unfoldable pub close : Server × List ℤ → Server × List ℤ
unfolding unlisten
close (s, ps) =
    (record s { cancelled = true }, elim s.listener [ none ↦ ps | some p ↦ unlisten p ps ])

-- A round of acceptLoop: a connection; or an error, with whether the context is done at once, and
-- whether it is done before the pause is over.
pub data Round (C : Type 0) : Type 0 where
  accepts : C → Round C
  fails : Bool → Bool → Round C

pub data Action (C : Type 0) : Type 0 where
  handles : C → Action C
  pauses : ℤ → Action C

-- A pause is between 10 ms and a second.
abbrev pub IsPause : ℤ → Type 0
IsPause d = (n : ℕ) × (d ≡ pos n) × (10 * millisecond ≤ n) × (n ≤ second)

power_positive : (n : ℕ) → 1 ≤ 2 ^ n
power_positive zero = omega arith
power_positive (suc n) = let h = power_positive n in omega arith

accept_delay-IsPause : (k : ℕ) → IsPause (accept_delay k)
accept_delay-IsPause k =
    let h = power_positive k in
    (min (10_000_000 * 2 ^ k) 1_000_000_000, accept_delay_exact k, omega arith, omega arith)

module _ {C : Type 0} where
  -- What the loop does, and whether it returns; the count of the errors since the last connection.
  unfoldable pub accept_loop : ℕ → List (Round C) → List (Action C) × Bool
  accept_loop consecutive_errors [] = ([], false)
  accept_loop consecutive_errors (accepts conn ∷ rs) =
      let (actions, returns) = accept_loop 0 rs in (handles conn ∷ actions, returns)
  accept_loop consecutive_errors (fails done asleep ∷ rs) =
      let (actions, returns) = accept_loop (suc consecutive_errors) rs in
      if done
      then ([], true)
      else let pause = pauses (accept_delay consecutive_errors) in
        if asleep then (pause ∷ [], true) else (pause ∷ actions, returns)

  -- A round ends the loop if its error finds the context done, at once or during the pause.
  abbrev pub ends : Round C → Bool
  ends (accepts conn) = false
  ends (fails done asleep) = done || asleep

  -- The rounds up to the first one that ends the loop, that one included.
  unfoldable pub rounds_run : List (Round C) → List (Round C)
  rounds_run [] = []
  rounds_run (r ∷ rs) = let rest = rounds_run rs in if ends r then r ∷ [] else r ∷ rest

  -- What is due in a round: a connection is handled; an error is paused for, unless the context is
  -- done at once.
  abbrev pub due : Round C → List (Option C)
  due (accepts conn) = some conn ∷ []
  due (fails done asleep) = if done then [] else none ∷ []

  unfoldable pub all_due : List (Round C) → List (Option C)
  all_due [] = []
  all_due (r ∷ rs) = due r ++ all_due rs

  -- The actions without the lengths of the pauses.
  unfoldable pub kinds : List (Action C) → List (Option C)
  kinds [] = []
  kinds (handles conn ∷ actions) = some conn ∷ kinds actions
  kinds (pauses d ∷ actions) = none ∷ kinds actions

  abbrev pub IsMeasured : Action C → Type 0
  IsMeasured (handles conn) = Unit
  IsMeasured (pauses d) = IsPause d

  -- Whatever Accept answers, the loop runs up to the first error whose context is done, at once or
  -- during its pause, and returns iff there is one. Up to there it handles each connection and
  -- pauses for each error whose context is not done at once, in the order of the rounds, and does
  -- nothing else; each pause is of at least 10 ms and at most a second.
  pub accept_loop-admitted :
      (k : ℕ) (rs : List (Round C))
      → let (actions, returns) = accept_loop k rs in
        (kinds actions ≡ all_due (rounds_run rs))
        × ((returns ≡ true) ↔ Any (λ r. ends r ≡ true) rs)
        × All IsMeasured actions
  unfolding accept_loop rounds_run all_due kinds
  accept_loop-admitted k [] = (refl, (λ x. cc, λ x. absurd x), tt)
  accept_loop-admitted k (accepts conn ∷ rs) =
      let (e, (to, from), h) = accept_loop-admitted 0 rs in
      (
        ap (λ x. some conn ∷ x) e,
        (λ x. inr (to x), λ x. elim x [ inl y ↦ absurd (cc) | inr y ↦ from y ]),
        (tt, h),
      )
  accept_loop-admitted k (fails true asleep ∷ rs) = (refl, (λ _. inl refl, λ _. refl), tt)
  accept_loop-admitted k (fails false true ∷ rs) =
      (refl, (λ _. inl refl, λ _. refl), (accept_delay-IsPause k, tt))
  accept_loop-admitted k (fails false false ∷ rs) =
      let (e, (to, from), h) = accept_loop-admitted (suc k) rs in
      (
        ap (λ x. none ∷ x) e,
        (λ x. inr (to x), λ x. elim x [ inl y ↦ absurd (cc) | inr y ↦ from y ]),
        (accept_delay-IsPause k, h),
      )
