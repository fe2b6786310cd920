-- ===== src/Containers/BitSet/Words.antt =====
-- The bits of a word that is computed from two words.
use Prim.Native.Nat.{bit_and, bit_or, bit_and-bitwise, bit_or-bitwise, digits, max, min}
use native.Mathlib.Nat.{pow-suc, pow-zero}
use pebil.Common.{
  ℕ, zero, suc, ◌+◌, ◌-◌, ◌*◌, ◌/◌, ◌%◌, ◌^◌, ◌≤◌, ◌<◌, ◌≡◌, refl, Bool, not, ◌&&◌, ◌||◌, ◌==◌,
  arith, inl, inr,
}
use pebil.Containers.BitSet.Bits.{bit, bit-suc, bit-zero, bit-cases, pow_pos}

-- The test of bit `j`.
unfoldable pub has : ℕ → ℕ → Bool
has a j = not (bit a j == 0)

bit-and_digits :
    (m a b j : ℕ) → a ≤ m → bit (digits (λ x. zero) min m a b) j ≡ min (bit a j) (bit b j)
bit-and_digits zero zero b j h = rw (bit-zero j) (omega arith)
bit-and_digits zero (suc a) b j h = absurd (omega arith)
bit-and_digits (suc m) zero b j h = rw (bit-zero j) (omega arith)
bit-and_digits (suc m) (suc a) b zero h = omega arith
bit-and_digits (suc m) (suc a) b (suc j) h =
    let rest = digits (λ x. zero) min m (suc a / 2) (b / 2) in
    let quotient : (rest * 2 + min (suc a % 2) (b % 2)) / 2 ≡ rest = omega arith in
    rw
      (
        bit-suc (rest * 2 + min (suc a % 2) (b % 2)) j,
        quotient,
        bit-and_digits m (suc a / 2) (b / 2) j (omega arith),
        bit-suc (suc a) j,
        bit-suc b j,
      )
      refl

bit-or_digits : (m a b j : ℕ) → a ≤ m → bit (digits (λ x. x) max m a b) j ≡ max (bit a j) (bit b j)
bit-or_digits zero zero b j h = rw (bit-zero j) (omega arith)
bit-or_digits zero (suc a) b j h = absurd (omega arith)
bit-or_digits (suc m) zero b j h = rw (bit-zero j) (omega arith)
bit-or_digits (suc m) (suc a) b zero h = omega arith
bit-or_digits (suc m) (suc a) b (suc j) h =
    let rest = digits (λ x. x) max m (suc a / 2) (b / 2) in
    let quotient : (rest * 2 + max (suc a % 2) (b % 2)) / 2 ≡ rest = omega arith in
    rw
      (
        bit-suc (rest * 2 + max (suc a % 2) (b % 2)) j,
        quotient,
        bit-or_digits m (suc a / 2) (b / 2) j (omega arith),
        bit-suc (suc a) j,
        bit-suc b j,
      )
      refl

bit-not : (k y j : ℕ) → y < 2 ^ k → j < k → bit (2 ^ k - 1 - y) j ≡ 1 - bit y j
bit-not zero y j h l = absurd (omega arith)
bit-not (suc k) y zero h l = omega (arith, pow-suc 2 k, pow-zero 2)
bit-not (suc k) y (suc j) h l =
    let half : (2 ^ suc k - 1 - y) / 2 ≡ 2 ^ k - 1 - y / 2 = omega (arith, pow-suc 2 k) in
    rw
      (
        bit-suc (2 ^ suc k - 1 - y) j,
        half,
        bit-not k (y / 2) j (omega (arith, pow-suc 2 k)) (omega arith),
        bit-suc y j,
      )
      refl

and_bound : (m a b : ℕ) → digits (λ x. zero) min m a b ≤ a
and_bound zero a b = omega arith
and_bound (suc m) zero b = omega arith
and_bound (suc m) (suc a) b = omega (arith, and_bound m (suc a / 2) (b / 2))

or_bound : (k m a b : ℕ) → a ≤ m → a < 2 ^ k → b < 2 ^ k → digits (λ x. x) max m a b < 2 ^ k
or_bound k zero a b h l r = r
or_bound k (suc m) zero b h l r = r
or_bound zero (suc m) (suc a) b h l r = absurd (omega (arith, pow-zero 2))
or_bound (suc k) (suc m) (suc a) b h l r =
    let half : digits (λ x. x) max m (suc a / 2) (b / 2) < 2 ^ k =
      or_bound k m (suc a / 2) (b / 2) (omega arith) (omega (arith, pow-suc 2 k))
        (omega (arith, pow-suc 2 k)) in
    omega (arith, pow-suc 2 k)

pub bit_or-narrow : (k a b : ℕ) → a < 2 ^ k → b < 2 ^ k → bit_or a b < 2 ^ k
bit_or-narrow k a b l r = rw (bit_or-bitwise a b) (or_bound k a a b (omega arith) l r)

pub bit_and-le : (a b : ℕ) → bit_and a b ≤ a
bit_and-le a b = rw (bit_and-bitwise a b) (and_bound a a b)

min_test : (x y : ℕ) → not (min x y == 0) ≡ (not (x == 0) && not (y == 0))
min_test x y = ground arith

max_test : (x y : ℕ) → not (max x y == 0) ≡ (not (x == 0) || not (y == 0))
max_test x y = ground arith

pub has-or : (a b j : ℕ) → has (bit_or a b) j ≡ (has a j || has b j)
unfolding has
has-or a b j =
    rw (bit_or-bitwise a b, bit-or_digits a a b j (omega arith)) (max_test (bit a j) (bit b j))

pub has-and : (a b j : ℕ) → has (bit_and a b) j ≡ (has a j && has b j)
unfolding has
has-and a b j =
    rw (bit_and-bitwise a b, bit-and_digits a a b j (omega arith)) (min_test (bit a j) (bit b j))

pub has-not : (k y j : ℕ) → y < 2 ^ k → j < k → has (2 ^ k - 1 - y) j ≡ not (has y j)
unfolding has
has-not k y j h l =
    rw (bit-not k y j h l) (elim (bit-cases y j) [ inl z ↦ rw z refl | inr o ↦ rw o refl ])

pub power_narrow : (k j : ℕ) → j < k → 2 ^ j < 2 ^ k
power_narrow zero j h = absurd (omega arith)
power_narrow (suc k) zero h = omega (arith, pow-zero 2, pow-suc 2 k, pow_pos k)
power_narrow (suc k) (suc j) h =
    omega (arith, pow-suc 2 j, pow-suc 2 k, power_narrow k j (omega arith))
