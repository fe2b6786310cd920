-- ===== src/Numeric/Power.antt =====
-- src/Base.C: `logBase2` and `isPowerOfTwo`.
pub mod Laws
use pebil.Common.{
  ℕ, zero, suc, ◌+◌, ◌*◌, ◌/◌, ◌%◌, ◌^◌, Bool, true, false, Option, none, some, ◌==◌, not, ensure,
  ◌>>◌,
}

-- while (n){ n >>= 1; l++; }, on fuel.
unfoldable pub log_loop : ℕ → ℕ → ℕ → Option ℕ
log_loop zero n l = none
log_loop (suc fuel) n l = elim (n == 0) [ true ↦ some l | false ↦ log_loop fuel (n / 2) (l + 1) ]

-- The argument is a uint32_t, so 33 rounds are enough.
unfoldable pub log_base2 : ℕ → Option ℕ
log_base2 n = ensure (not (n == 0)) >> log_loop 33 (n / 2) 0

-- for (i …){ if (n == currVal) return true; currVal *= 2; }, with the rounds left; `currVal` is a
-- uint32_t.
unfoldable pub power_loop : ℕ → ℕ → ℕ → Bool
power_loop zero curr_val n = false
power_loop (suc rounds) curr_val n = elim (n == curr_val) [
  | true ↦ true
  | false ↦ power_loop rounds (curr_val * 2 % 2 ^ 32) n
]

unfoldable pub is_power_of_two : ℕ → Bool
is_power_of_two n = power_loop 32 1 n
