-- ===== src/Backoff/Bounds.antt =====
-- The overflow test catches every overflow.
use native.Mathlib.Nat.{pow-suc, suc-add}
use native.Mathlib.Decide.{dec_lt}
use irl_universal_ingest.Prelude.{
  ℕ, zero, suc, ◌+◌, ◌-◌, ◌*◌, ◌^◌, ◌%◌, ◌≤◌, ◌≡◌, min, pos, int_beq, int_beq_iff, all_below,
  all_below_sound, Bool, true, arith,
}
use irl_universal_ingest.Backoff.{backoff}

-- The delay is exact at an attempt.
abbrev pub is_exact : ℕ → ℕ → ℕ → Bool
is_exact base max n = int_beq (backoff base max n) (pos (min (base * 2 ^ n) max))

-- The 64 attempts whose shift keeps a bit.
abbrev pub exact_table : ℕ → ℕ → Bool
exact_table base max = all_below 64 (is_exact base max)

doubled : (base k : ℕ) → base * 2 ^ (suc k + 64) ≡ base * 2 ^ (k + 64) * 2
doubled base k = rw (suc-add k 64, pow-suc 2 (k + 64)) (omega arith)

shifted_out : (base k : ℕ) → (base * 2 ^ (k + 64)) % 2 ^ 64 ≡ 0
shifted_out base zero = omega arith
shifted_out base (suc k) = rw (doubled base k) (omega (arith, shifted_out base k))

grows : (base k : ℕ) → base * 2 ^ 64 ≤ base * 2 ^ (k + 64)
grows base zero = omega arith
grows base (suc k) = rw (doubled base k) (omega (arith, grows base k))

late :
    (base max k : ℕ)
    → max ≤ base * 2 ^ 64
    → backoff base max (k + 64) ≡ pos (min (base * 2 ^ (k + 64)) max)
unfolding backoff
late base max k h =
    let big : max ≤ base * 2 ^ (k + 64) = omega (arith, grows base k) in
    rw (backoff, shifted_out base k) (ground arith)

-- Where the first 64 attempts are exact and the limit is below the first delay shifted out, every
-- attempt is: the wrapped shift never passes for a delay.
pub backoff_exact :
    (base max n : ℕ)
    → exact_table base max ≡ true
    → max ≤ base * 2 ^ 64
    → backoff base max n ≡ pos (min (base * 2 ^ n) max)
backoff_exact base max n table h = elim (dec_lt n 64) [
  | yes p ↦ (int_beq_iff _ _).0 (all_below_sound 64 (is_exact base max) n table p)
  | no p ↦ let e : n ≡ n - 64 + 64 = omega arith in rw e (late base max (n - 64) h)
]
