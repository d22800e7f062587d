-- ===== src/Rtmp/Server/Tests.antt =====
-- The listener and the accept loop on concrete answers.
use irl_universal_ingest.Prelude.{
  ℕ, ◌≡◌, refl, true, false, List, [], ◌∷◌, some, pos, All, Any, ◌↔◌,
}
use irl_universal_ingest.Go.Strings.{codes}
use irl_universal_ingest.Go.Format.{print_int}
use irl_universal_ingest.Rtmp.Accept.{accept_delay}
use irl_universal_ingest.Rtmp.Server.{
  Round, accepts, fails, handles, pauses, new_server, start, accept_loop, rounds_run, all_due,
  kinds, ends, IsMeasured, accept_loop-admitted,
}

test_bind :
    (start (some (codes "address already in use")) (new_server (pos 1935), [])).1
    ≡ some (codes "starting rtmp listener on :1935: address already in use")
unfolding start new_server print_int
test_bind = refl

-- The count of errors starts again after a connection.
abbrev rounds : List (Round ℕ)
rounds =
    fails false false
    ∷ fails false false
    ∷ accepts 7
    ∷ fails false false
    ∷ accepts 8
    ∷ fails true false
    ∷ accepts 9
    ∷ []

test_rounds : accept_loop 0 rounds ≡ (
  pauses (pos 10_000_000)
      ∷ pauses (pos 20_000_000)
      ∷ handles 7
      ∷ pauses (pos 10_000_000)
      ∷ handles 8
      ∷ [],
  true,
)
unfolding accept_loop accept_delay
test_rounds = refl

accept_loop-admitted_example :
    let (actions, returns) = accept_loop 0 rounds in
    (kinds actions ≡ all_due (rounds_run rounds))
    × ((returns ≡ true) ↔ Any (λ r. ends r ≡ true) rounds)
    × All IsMeasured actions
accept_loop-admitted_example = accept_loop-admitted 0 rounds
