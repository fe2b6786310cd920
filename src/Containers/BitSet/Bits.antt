-- ===== src/Containers/BitSet/Bits.antt =====
-- Single bits of a word.
use Prim.Native.Nat.{bit_and, bit_or, bit_and-bitwise, bit_or-bitwise, digits, max, min}
use native.Mathlib.Nat.{pow-suc, pow-zero, div-div-eq-div-mul, pow-succ', mul_assoc}
use pebil.Common.{
  ℕ, zero, suc, ◌+◌, ◌*◌, ◌/◌, ◌%◌, ◌^◌, ◌≤◌, ◌<◌, ◌≡◌, refl, ap, sym, ◌∙◌, true, false, ◌==◌,
  if◌then◌else◌, arith, ◌⊎◌, inl, inr,
}

pub pow_pos : (k : ℕ) → 0 < 2 ^ k
pow_pos zero = omega (arith, pow-zero 2)
pow_pos (suc k) = omega (arith, pow-suc 2 k, pow_pos k)

-- Bit `j`.
abbrev pub bit : ℕ → ℕ → ℕ
bit a j = a / 2 ^ j % 2

pub bit-suc : (a j : ℕ) → bit a (suc j) ≡ bit (a / 2) j
bit-suc a j =
    ap (λ m. a / m % 2) (pow-succ' 2 j) ∙ ap (λ q. q % 2) (sym (div-div-eq-div-mul a 2 (2 ^ j)))

pub bit-zero : (j : ℕ) → bit 0 j ≡ 0
bit-zero zero = refl
bit-zero (suc j) = bit-suc 0 j ∙ bit-zero j

suc-== : (k j : ℕ) → (suc k == suc j) ≡ (k == j)
suc-== k j = ground arith

and_zero : (n a : ℕ) → digits (λ b. zero) min n a 0 ≡ 0
and_zero zero a = refl
and_zero (suc n) zero = refl
and_zero (suc n) (suc a) = rw (and_zero n (suc a / 2)) (omega arith)

or_zero : (n a : ℕ) → a ≤ n → digits (λ b. b) max n a 0 ≡ a
or_zero zero zero h = refl
or_zero zero (suc a) h = absurd (omega arith)
or_zero (suc n) zero h = refl
or_zero (suc n) (suc a) h = rw (or_zero n (suc a / 2) (omega arith)) (omega arith)

or_first : (a j : ℕ) → bit (a / 2 * 2 + max (a % 2) 1) j ≡ (if 0 == j then 1 else bit a j)
or_first a zero = omega arith
or_first a (suc j) =
    let quotient : (a / 2 * 2 + max (a % 2) 1) / 2 ≡ a / 2 = omega arith in
    let other : (0 == suc j) ≡ false = ground arith in
    rw (other, bit-suc (a / 2 * 2 + max (a % 2) 1) j, quotient, bit-suc a j) refl

pub bit_power : (k j : ℕ) → bit (2 ^ k) j ≡ (if k == j then 1 else 0)
bit_power zero zero = refl
bit_power zero (suc j) =
    let other : (0 == suc j) ≡ false = ground arith in rw other (bit-suc 1 j ∙ bit-zero j)
bit_power (suc k) zero =
    let other : (suc k == 0) ≡ false = ground arith in rw other (omega (arith, pow-suc 2 k))
bit_power (suc k) (suc j) =
    let half : 2 ^ suc k / 2 ≡ 2 ^ k = omega (arith, pow-suc 2 k) in
    let same : (suc k == suc j) ≡ (k == j) = suc-== k j in
    rw (same, bit-suc (2 ^ suc k) j, half) (bit_power k j)

and_power : (j n a : ℕ) → a ≤ n → digits (λ b. zero) min n a (2 ^ j) ≡ bit a j * 2 ^ j
and_power j zero zero h = rw (bit-zero j) (omega arith)
and_power j zero (suc a) h = absurd (omega arith)
and_power j (suc n) zero h = rw (bit-zero j) (omega arith)
and_power zero (suc n) (suc a) h = rw (and_zero n (suc a / 2)) (omega arith)
and_power (suc j) (suc n) (suc a) h =
    let half : 2 ^ suc j / 2 ≡ 2 ^ j = omega (arith, pow-suc 2 j) in
    let low : 2 ^ suc j % 2 ≡ 0 = omega (arith, pow-suc 2 j) in
    let rest = and_power j n (suc a / 2) (omega arith) in
    let twice : bit (suc a / 2) j * 2 ^ suc j ≡ bit (suc a / 2) j * 2 ^ j * 2 =
      ap (λ m. bit (suc a / 2) j * m) (pow-suc 2 j)
      ∙ sym (mul_assoc (bit (suc a / 2) j) (2 ^ j) 2) in
    rw (half, low, rest, bit-suc (suc a) j) (omega (arith, twice))

or_power :
    (k n a j : ℕ)
    → a ≤ n
    → bit (digits (λ b. b) max n a (2 ^ k)) j ≡ (if k == j then 1 else bit a j)
or_power k zero zero j h = rw (bit-zero j) (bit_power k j)
or_power k zero (suc a) j h = absurd (omega arith)
or_power k (suc n) zero j h = rw (bit-zero j) (bit_power k j)
or_power zero (suc n) (suc a) j h = rw (or_zero n (suc a / 2) (omega arith)) (or_first (suc a) j)
or_power (suc k) (suc n) (suc a) zero h =
    let low : 2 ^ suc k % 2 ≡ 0 = omega (arith, pow-suc 2 k) in
    let other : (suc k == 0) ≡ false = ground arith in rw (low, other) (omega arith)
or_power (suc k) (suc n) (suc a) (suc j) h =
    let half : 2 ^ suc k / 2 ≡ 2 ^ k = omega (arith, pow-suc 2 k) in
    let low : 2 ^ suc k % 2 ≡ 0 = omega (arith, pow-suc 2 k) in
    let rest = digits (λ b. b) max n (suc a / 2) (2 ^ k) in
    let quotient : (rest * 2 + max (suc a % 2) 0) / 2 ≡ rest = omega arith in
    rw
      (
        half,
        low,
        bit-suc (rest * 2 + max (suc a % 2) 0) j,
        quotient,
        or_power k n (suc a / 2) j (omega arith),
        suc-== k j,
        bit-suc (suc a) j,
      )
      refl

pub bit-or_power : (k a j : ℕ) → bit (bit_or a (2 ^ k)) j ≡ (if k == j then 1 else bit a j)
bit-or_power k a j = rw (bit_or-bitwise a (2 ^ k)) (or_power k a a j (omega arith))

pub bit-cases : (a j : ℕ) → (bit a j ≡ 0) ⊎ (bit a j ≡ 1)
bit-cases a j = ground arith

-- The test of a bit by its mask.
pub bit_and-power_zero : (a j : ℕ) → (bit_and a (2 ^ j) == 0) ≡ (bit a j == 0)
bit_and-power_zero a j =
    rw (bit_and-bitwise a (2 ^ j), and_power j a a (omega arith))
      (elim (bit-cases a j) [
        | inl z ↦ let mask : (0 * 2 ^ j == 0) ≡ true = ground arith in rw (z, mask) refl
        | inr o ↦
            let mask : (1 * 2 ^ j == 0) ≡ false = ground (arith, pow_pos j) in rw (o, mask) refl
      ])
