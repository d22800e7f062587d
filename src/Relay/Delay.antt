-- ===== src/Relay/Delay.antt =====
-- The restart backoff.
use irl_universal_ingest.Prelude.{ℕ, ◌*◌, ◌^◌, ◌≡◌, refl, true, min, pos, arith, all_below}
use irl_universal_ingest.Backoff.{backoff}
use irl_universal_ingest.Backoff.Bounds.{backoff_exact, exact_table}
use irl_universal_ingest.Relay.{restart_base_delay, restart_max_delay, restart_delay}

restart_table : exact_table restart_base_delay restart_max_delay ≡ true
unfolding all_below backoff
restart_table = refl

-- The delay doubles from half a second and stays at 30 seconds, also where the shift of the int64
-- overflows.
pub restart_delay_exact : (n : ℕ) → restart_delay n ≡ pos (min (500_000_000 * 2 ^ n) 30_000_000_000)
unfolding restart_delay
restart_delay_exact n =
    backoff_exact restart_base_delay restart_max_delay n restart_table (omega arith)
