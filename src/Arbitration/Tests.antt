-- ===== src/Arbitration/Tests.antt =====
-- The manager on a concrete history, with whole numbers for floats.
use irl_universal_ingest.Prelude.{
  ltb_ℤ, ℕ, ◌+◌, ◌*◌, ◌/◌, ◌<◌, ◌≤◌, ◌≡◌, pick, refl, true, false, List, [], ◌∷◌, none, some, ℤ,
  ltb_ℤ, pos, pos_part, text_beq, arith, All,
}
use irl_universal_ingest.Go.Strings.{codes, to_upper, upper_byte}
use irl_universal_ingest.Go.Clock.{Time, since}
use irl_universal_ingest.Go.Floats.{Floats}
use irl_universal_ingest.Backoff.{second}
use irl_universal_ingest.Arbitration.{
  Manager, SlotInfo, Release, new_manager, try_acquire, touch, add_bytes, release, contains,
}
use irl_universal_ingest.Arbitration.Steps.{
  World, Event, acquires, touches, receives, releases, fires, times_out, start, run, step, fire,
  time_out,
}
use irl_universal_ingest.Arbitration.Valid.{IsValid, run-new_manager-IsValid}
use irl_universal_ingest.Arbitration.Exclusion.{Move, step-Move, holder, callback}
use irl_universal_ingest.Arbitration.History.{count_releases, count_wins, held, count_wins_balance}
use irl_universal_ingest.Arbitration.Sessions.{release_stale}
use irl_universal_ingest.Arbitration.Watchdog.{Armed, fire_frees, touch_arms}
use irl_universal_ingest.Arbitration.Bitrate.{total, add_all, add_bytes-add_all}

instance abbrev whole : Floats ℕ
whole = record {
  of_int = pos_part;
  to_int = pos;
  mul = λ x y. x * y;
  div = λ x y. x / y;
  seconds = λ n. n / second;
}

abbrev timeout : ℤ
timeout = pos (10 * second)

abbrev idle : World ℕ ℕ
idle = start (new_manager timeout count_releases) 0

-- A source at second 1 that sends 2 MB, an attempt of another source, and activity.
abbrev morning : List (Event ℕ)
morning =
    acquires (1 * second) (codes "rtmp") (codes "/live")
    ∷ receives (2 * second) 2_000_000
    ∷ acquires (3 * second) (codes "srt") (codes "/cam")
    ∷ touches (4 * second)
    ∷ []

abbrev first : Release
first = record { session = 0; protocol = codes "RTMP"; path = codes "/live" }

abbrev other : Release
other = record { session = 7; protocol = codes "SRT"; path = codes "/live" }

abbrev busy : World ℕ ℕ
busy = run morning idle

abbrev slot : SlotInfo ℕ
slot = record {
  protocol = codes "RTMP";
  path = codes "/live";
  started_at = 1 * second;
  last_seen = 4 * second;
  bitrate_kbps = pos 16_000;
  rtt = none;
}

busy_slot : busy.manager.active_slot ≡ some slot
unfolding run step try_acquire touch add_bytes new_manager to_upper upper_byte
busy_slot = refl

busy_timer : Armed busy.manager.timer
unfolding run step try_acquire touch add_bytes new_manager to_upper upper_byte
busy_timer = λ e. cc

busy-IsValid : IsValid busy.manager
busy-IsValid = run-new_manager-IsValid timeout count_releases 0 morning

test_released : (run (releases first ∷ []) busy).env ≡ 1
unfolding run step try_acquire touch add_bytes new_manager release contains text_beq to_upper
    upper_byte
test_released = refl

test_kept : (run (releases other ∷ []) busy).manager.active_slot ≡ some slot
unfolding run step try_acquire touch add_bytes new_manager release contains text_beq to_upper
    upper_byte
test_kept = refl

test_watchdog : (run (fires (14 * second) ∷ times_out 0 ∷ []) busy).manager.active_slot ≡ none
unfolding run step try_acquire touch add_bytes new_manager fire time_out text_beq pick to_upper
    upper_byte
test_watchdog = refl

step-Move_example : Move (releases first) busy (step (releases first) busy)
step-Move_example = step-Move (releases first) busy

count_wins_balance_example :
    count_wins morning idle ≡ (run morning idle).env + held (run morning idle).manager
count_wins_balance_example = count_wins_balance timeout morning

abbrev after : World ℕ ℕ
after = run (touches (5 * second) ∷ []) (step (releases first) busy)

-- The watchdog has freed the slot, and the first connection is still to call its closure.
abbrev freed : Manager ℕ ℕ
freed = (run (fires (14 * second) ∷ times_out 0 ∷ []) busy).manager

freed_sessions : first.session < freed.sessions
unfolding run step try_acquire touch add_bytes new_manager fire time_out text_beq pick to_upper
    upper_byte
freed_sessions = omega arith

freed_closures : contains first.session freed.released ≡ false
unfolding run step try_acquire touch add_bytes new_manager fire time_out text_beq contains pick
    to_upper upper_byte
freed_closures = refl

same_protocol : to_upper first.protocol ≡ to_upper (codes "rtmp")
unfolding to_upper upper_byte
same_protocol = refl

release_stale_example :
    let (m, r) = try_acquire (15 * second) (codes "rtmp") (codes "/live") freed in
    ((s : Release) × (r ≡ some s) × (first.session < s.session))
    × ((release first (m, 1)).0.active_slot ≡ none)
release_stale_example =
    release_stale first (15 * second) (codes "rtmp") freed 1 freed_sessions freed_closures
      test_watchdog same_protocol

limited : ltb_ℤ (pos 0) busy.manager.source_timeout ≡ true
unfolding run step touch try_acquire add_bytes new_manager
limited = refl

touch_arms_example :
    let v = record busy { manager = touch (5 * second) busy.manager } in
    let due = 5 * second + pos_part busy.manager.source_timeout in
    Armed v.manager.timer
    × ((later : Time) → later < due → fire later v ≡ v)
    × ((later : Time)
        → due ≤ later
        → (fire later v).fired ≡ (codes "RTMP", codes "/live") ∷ busy.fired)
touch_arms_example = touch_arms (5 * second) slot busy busy-IsValid busy_slot limited

late : slot.last_seen + pos_part busy.manager.source_timeout ≤ 14 * second
unfolding run step try_acquire touch add_bytes new_manager to_upper upper_byte
late = omega arith

fire_frees_example :
    let v = time_out 0 (fire (14 * second) busy) in
    (holder v.manager ≡ none)
    × (v.env ≡ callback busy (codes "RTMP") (codes "/live") busy.env)
    × (v.fired ≡ busy.fired)
fire_frees_example = fire_frees (14 * second) slot busy busy-IsValid busy_slot busy_timer late

abbrev packets : List (Time × ℕ)
packets = (2 * second + 1, 1316) ∷ (2 * second + 2, 1316) ∷ []

packets_early : All (λ p. since p.0 busy.manager.last_bytes_check < second) packets
unfolding run step try_acquire touch add_bytes new_manager to_upper upper_byte
packets_early = (omega arith, (omega arith, tt))

add_bytes-add_all_example :
    add_bytes (3 * second) 188 (add_all packets busy.manager)
    ≡ add_bytes (3 * second) (total packets + 188) busy.manager
add_bytes-add_all_example = add_bytes-add_all packets (3 * second) 188 busy.manager packets_early
