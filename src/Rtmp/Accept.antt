-- ===== src/Rtmp/Accept.antt =====
-- internal/ingest/rtmp/server.go: the pause of acceptLoop after an error.
use irl_universal_ingest.Prelude.{ℕ, ◌*◌, ◌^◌, ◌≡◌, refl, true, min, ℤ, pos, arith, all_below}
use irl_universal_ingest.Backoff.{millisecond, second, backoff}
use irl_universal_ingest.Backoff.Bounds.{backoff_exact, exact_table}

abbrev pub accept_error_base_delay : ℕ
accept_error_base_delay = 10 * millisecond

abbrev pub accept_error_max_delay : ℕ
accept_error_max_delay = 1 * second

unfoldable pub accept_delay : ℕ → ℤ
unfolding backoff
accept_delay consecutive_errors =
    backoff accept_error_base_delay accept_error_max_delay consecutive_errors

accept_table : exact_table accept_error_base_delay accept_error_max_delay ≡ true
unfolding all_below backoff
accept_table = refl

-- The pause doubles from 10 ms and stays at one second.
pub accept_delay_exact : (n : ℕ) → accept_delay n ≡ pos (min (10_000_000 * 2 ^ n) 1_000_000_000)
unfolding accept_delay
accept_delay_exact n =
    backoff_exact accept_error_base_delay accept_error_max_delay n accept_table (omega arith)
