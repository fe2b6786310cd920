-- ===== src/Numeric/Power/Laws.antt =====
-- `logBase2` is the logarithm, rounded down, and `isPowerOfTwo` is right.
use native.Mathlib.Nat.{pow-suc, pow-zero}
use pebil.Common.{
  ℕ, zero, suc, ◌+◌, ◌*◌, ◌/◌, ◌%◌, ◌^◌, ◌≤◌, ◌<◌, ◌≡◌, ◌↔◌, ◌⊎◌, inl, inr, refl, true, some, ◌==◌,
  Bool-cases, arith, tabulate, tabulate_ext,
}
use pebil.Numeric.Power.{log_loop, log_base2, power_loop, is_power_of_two}

-- From `n`, the loop adds to `l` the number of binary digits of `n`.
log_loop_lem :
    (fuel n l : ℕ)
    → n < 2 ^ fuel
    → (r : ℕ) × (log_loop (suc fuel) n l ≡ some (l + r))
      × (n < 2 ^ r)
      × ((0 < n) × (2 ^ r ≤ 2 * n) ⊎ (n ≡ 0) × (r ≡ 0))
unfolding log_loop
log_loop_lem zero n l h =
    let e : n ≡ 0 = omega (arith, pow-zero 2) in
    (0, ground arith, omega (arith, pow-zero 2), inr (e, refl))
log_loop_lem (suc fuel) n l h = elim (Bool-cases (n == 0)) [
  | inl done ↦ (0, ground arith, ground (arith, pow-zero 2), inr (ground arith, refl))
  | inr more ↦
      let half : n / 2 < 2 ^ fuel = omega (arith, pow-suc 2 fuel) in
      let (r, run, above, below) = log_loop_lem fuel (n / 2) (l + 1) half in
      let pos : 0 < n = ground arith in
      let double = pow-suc 2 r in
      (
        suc r,
        ground (arith, run),
        omega (arith, double),
        inl (
          pos,
          elim below [
            | inl (p, q) ↦ omega (arith, double)
            | inr (p, q) ↦ rw q (omega (arith, pow-suc 2 0, pow-zero 2))
          ],
        ),
      )
]

-- On a positive uint32_t, `logBase2` ends within its fuel and returns the logarithm rounded down:
-- the `l` with 2 ^ l ≤ n < 2 ^ (l + 1).
pub log_base2-floor :
    (n : ℕ) → 0 < n → n < 2 ^ 32 → (l : ℕ) × (log_base2 n ≡ some l) × (2 ^ l ≤ n) × (n < 2 ^ suc l)
unfolding log_base2
log_base2-floor n pos h =
    let (r, run, above, below) = log_loop_lem 32 (n / 2) 0 (omega arith) in
    (
      r,
      ground (arith, run),
      elim below [ inl (p, q) ↦ omega arith | inr (p, q) ↦ rw q (omega (arith, pow-zero 2)) ],
      omega (arith, pow-suc 2 r),
    )

-- `power_loop` compares with `curr_val` and the values behind it, and stops at a match.
is_power_table : (k : ℕ) → k < 32 → is_power_of_two (2 ^ k) ≡ true
unfolding is_power_of_two power_loop tabulate
is_power_table = tabulate_ext 32 (λ k. is_power_of_two (2 ^ k)) (λ k. true) refl

-- 2 ^ (k + 1) is no wrap below the last bit.
double_power : (k : ℕ) → k < 31 → 2 ^ k * 2 % 2 ^ 32 ≡ 2 ^ suc k
unfolding tabulate
double_power = tabulate_ext 31 (λ k. 2 ^ k * 2 % 2 ^ 32) (λ k. 2 ^ suc k) refl

power_loop_sound :
    (rounds k n : ℕ)
    → k + rounds ≤ 32
    → power_loop rounds (2 ^ k) n ≡ true
    → (j : ℕ) × (j < 32) × (n ≡ 2 ^ j)
unfolding power_loop
power_loop_sound zero k n h t = absurd (cc)
power_loop_sound (suc zero) k n h t = (k, omega arith, ground arith)
power_loop_sound (suc (suc r)) k n h t = elim (Bool-cases (n == 2 ^ k)) [
  | inl here ↦ (k, omega arith, ground arith)
  | inr later ↦
      power_loop_sound (suc r) (suc k) n (omega arith)
        (rw (← double_power k (omega arith)) (rw (later, power_loop) at t))
]

-- `isPowerOfTwo` holds exactly at 2 ^ 0, …, 2 ^ 31.
pub is_power_of_two_iff : (n : ℕ) → (is_power_of_two n ≡ true) ↔ ((k : ℕ) × (k < 32) × (n ≡ 2 ^ k))
unfolding is_power_of_two
is_power_of_two_iff n =
    (λ t. power_loop_sound 32 0 n (omega arith) t, λ w. rw w.2 (is_power_table w.0 w.1))
