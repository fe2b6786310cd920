-- ===== src/Numeric/Align/Mask.antt =====
-- `nextAlignAddress`: the mask rounds down, and the sum rounds up.
use Prim.Native.Nat.{bit_and, bit_and-bitwise, digits, min}
use native.Mathlib.Nat.{
  zero-mod, mod-one, mod_self, add-mod_right, mul_assoc, pow-succ', pow-suc, pow-zero,
  div-mul-le_self, lt-div-mul-add, div-div-eq-div-mul, mul-mod_left,
}
use pebil.Common.{
  ℕ, zero, suc, ◌+◌, ◌-◌, ◌*◌, ◌/◌, ◌%◌, ◌^◌, ◌≤◌, ◌<◌, ◌≡◌, refl, ap, ◌∙◌, sym, true, false, some,
  inl, inr, Bool-cases, ◌==◌, ltb, arith, tabulate, tabulate_ext, ◌>>=◌, if◌then◌else◌,
}
use pebil.Numeric.Power.{is_power_of_two, power_loop, log_loop}
use pebil.Numeric.Align.{next_align_address, align_mask_or}
use pebil.Numeric.Align.Laws.{IsNextMultiple}

pow_pos : (k : ℕ) → 0 < 2 ^ k
pow_pos zero = omega (arith, pow-zero 2)
pow_pos (suc k) = omega (arith, pow-suc 2 k, pow_pos k)

pow_le : (p w : ℕ) → p ≤ w → 2 ^ p ≤ 2 ^ w
pow_le zero w h = omega (arith, pow-zero 2, pow_pos w)
pow_le (suc p) zero h = absurd (omega arith)
pow_le (suc p) (suc w) h = omega (arith, pow-suc 2 p, pow-suc 2 w, pow_le p w (omega arith))

round_one : (a : ℕ) → a / 2 ^ 0 * 2 ^ 0 ≡ a
round_one a = omega arith

-- Rounding `a` down to a multiple of 2 * m is rounding its half.
round_half : (a p : ℕ) → a / 2 / 2 ^ p * 2 ^ p * 2 ≡ a / 2 ^ suc p * 2 ^ suc p
round_half a p =
    ap (λ q. q * 2 ^ p * 2) (div-div-eq-div-mul a 2 (2 ^ p))
    ∙ mul_assoc (a / (2 * 2 ^ p)) (2 ^ p) 2
    ∙ ap (λ m. a / m * (2 ^ p * 2)) (sym (pow-succ' 2 p))
    ∙ ap (λ m. a / 2 ^ suc p * m) (sym (pow-suc 2 p))

and_mask :
    (p w n a : ℕ)
    → a ≤ n
    → a < 2 ^ w
    → p ≤ w
    → digits (λ b. zero) min n a (2 ^ w - 2 ^ p) ≡ a / 2 ^ p * 2 ^ p
and_mask p w zero zero h k l = omega (arith, div-mul-le_self 0 (2 ^ p))
and_mask p w zero (suc a) h k l = absurd (omega arith)
and_mask p w (suc n) zero h k l = omega (arith, div-mul-le_self 0 (2 ^ p))
and_mask p zero (suc n) (suc a) h k l = absurd (omega (arith, pow-zero 2))
and_mask zero (suc w) (suc n) (suc a) h k l =
    let half : (2 ^ suc w - 2 ^ 0) / 2 ≡ 2 ^ w - 2 ^ 0 = omega (arith, pow-suc 2 w, pow_pos w) in
    let low : (2 ^ suc w - 2 ^ 0) % 2 ≡ 1 = omega (arith, pow-suc 2 w, pow_pos w) in
    let rest =
      and_mask zero w n (suc a / 2) (omega arith) (omega (arith, pow-suc 2 w)) (omega arith) in
    rw (half, low, rest) (omega arith)
and_mask (suc p) (suc w) (suc n) (suc a) h k l =
    let half : (2 ^ suc w - 2 ^ suc p) / 2 ≡ 2 ^ w - 2 ^ p =
      omega (arith, pow-suc 2 w, pow-suc 2 p) in
    let low : (2 ^ suc w - 2 ^ suc p) % 2 ≡ 0 =
      omega (arith, pow-suc 2 w, pow-suc 2 p, pow_le p w (omega arith)) in
    let rest =
      and_mask p w n (suc a / 2) (omega arith) (omega (arith, pow-suc 2 w)) (omega arith) in
    rw (half, low, rest) (omega (arith, round_half (suc a) p))

bit_and_mask : (a p : ℕ) → a < 2 ^ 32 → p ≤ 32 → bit_and a (2 ^ 32 - 2 ^ p) ≡ a / 2 ^ p * 2 ^ p
bit_and_mask a p h k = bit_and-bitwise a (2 ^ 32 - 2 ^ p) ∙ and_mask p 32 a a (omega arith) h k

power_test : (k : ℕ) → k < 32 → is_power_of_two (2 ^ k) ≡ true
unfolding tabulate is_power_of_two power_loop
power_test = tabulate_ext 32 (λ k. is_power_of_two (2 ^ k)) (λ k. true) refl

align_power_lem :
    (k : ℕ) → k < 32 → (log_loop 33 (2 ^ k) 0 >>= λ digits. some (digits - 1)) ≡ some k
unfolding tabulate log_loop
align_power_lem =
    tabulate_ext 32 (λ k. log_loop 33 (2 ^ k) 0 >>= λ digits. some (digits - 1)) (λ k. some k) refl

-- The address itself, where it is a multiple already.
stays : (w a : ℕ) → a % w ≡ 0 → 0 < w → IsNextMultiple w a a
stays w a e h = record { divides = e; above = omega arith; nearest = omega arith }

rounds_up :
    (w a : ℕ) → 0 < w → IsNextMultiple w a (if ltb (a / w * w) a then a / w * w + w else a / w * w)
rounds_up w a h = elim (Bool-cases (ltb (a / w * w) a)) [
  | inl less ↦ rw less (record {
    divides = add-mod_right (a / w * w) w ∙ mul-mod_left (a / w) w;
    above = omega (arith, lt-div-mul-add {a = a} {b = w} h);
    nearest = ground arith;
  })
  | inr not_less ↦ rw not_less (record {
    divides = mul-mod_left (a / w) w;
    above = ground arith;
    nearest = omega (arith, div-mul-le_self a w);
  })
]

module _ (addr k : ℕ) (h : addr < 2 ^ 32) (hk : k < 32) where
  far :
      (addr == 0) ≡ false
      → (2 ^ k == 1) ≡ false
      → ltb addr (2 ^ k) ≡ false
      → next_align_address addr (2 ^ k)
        ≡ some (
            if ltb (addr / 2 ^ k * 2 ^ k) addr
            then addr / 2 ^ k * 2 ^ k + 2 ^ k
            else addr / 2 ^ k * 2 ^ k)
  unfolding next_align_address align_mask_or
  far z one less =
      let nz : (2 ^ k == 0) ≡ false = ground (arith, pow_pos k) in
      let no_wrap : (addr / 2 ^ k * 2 ^ k + 2 ^ k) % 2 ^ 64 ≡ addr / 2 ^ k * 2 ^ k + 2 ^ k =
        omega (arith, div-mul-le_self addr (2 ^ k), pow_le k 32 (omega arith)) in
      rw
        (
          nz,
          one,
          z,
          less,
          power_test k hk,
          align_power_lem k hk,
          bit_and_mask addr k h (omega arith),
          no_wrap,
        )
        refl

  below :
      (addr == 0) ≡ false
      → (2 ^ k == 1) ≡ false
      → ltb addr (2 ^ k) ≡ true
      → next_align_address addr (2 ^ k) ≡ some (2 ^ k)
  unfolding next_align_address
  below z one less =
      let nz : (2 ^ k == 0) ≡ false = ground (arith, pow_pos k) in rw (nz, one, z, less) refl

  at_zero : (addr == 0) ≡ true → next_align_address addr (2 ^ k) ≡ some addr
  unfolding next_align_address
  at_zero z =
      let nz : (2 ^ k == 0) ≡ false = ground (arith, pow_pos k) in
      elim (Bool-cases (2 ^ k == 1)) [
        | inl one ↦ rw (nz, one) refl
        | inr one ↦ rw (nz, one, z) refl
      ]

  by_one : (2 ^ k == 1) ≡ true → next_align_address addr (2 ^ k) ≡ some addr
  unfolding next_align_address
  by_one one = let nz : (2 ^ k == 0) ≡ false = ground (arith, pow_pos k) in rw (nz, one) refl

  is_next_below :
      (addr == 0) ≡ false → ltb addr (2 ^ k) ≡ true → IsNextMultiple (2 ^ k) addr (2 ^ k)
  is_next_below z less = record {
    divides = mod_self (2 ^ k);
    above = ground arith;
    nearest = ground arith;
  }

-- `nextAlignAddress` with a power of two that fits in 32 bits returns the least multiple of it that is
-- not below the address, for each address below 2 ^ 32.
pub next_align_address_lem :
    (addr k : ℕ)
    → addr < 2 ^ 32
    → k < 32
    → (r : ℕ) × (next_align_address addr (2 ^ k) ≡ some r) × IsNextMultiple (2 ^ k) addr r
next_align_address_lem addr k h hk = elim (Bool-cases (addr == 0)) [
  | inl z ↦ (
    addr,
    at_zero addr k h hk z,
    stays (2 ^ k) addr (let e : addr ≡ 0 = ground arith in rw e (zero-mod (2 ^ k))) (pow_pos k),
  )
  | inr nz ↦ elim (Bool-cases (2 ^ k == 1)) [
    | inl one ↦ (
      addr,
      by_one addr k h hk one,
      stays (2 ^ k) addr (let e : 2 ^ k ≡ 1 = ground arith in rw e (mod-one addr)) (pow_pos k),
    )
    | inr many ↦ elim (Bool-cases (ltb addr (2 ^ k))) [
      | inl less ↦ (2 ^ k, below addr k h hk nz many less, is_next_below addr k h hk nz less)
      | inr more ↦ (_, far addr k h hk nz many more, rounds_up (2 ^ k) addr (pow_pos k))
    ]
  ]
]
