-- ===== src/Containers/BitSet/Count.antt =====
-- include/BitSet.h: the count of the bits of a word, in count_bits and in cardinalize.
use Prim.Native.Nat.{bit_and, bit_and-bitwise, digits, min}
use native.Mathlib.Nat.{pow-suc, pow-zero}
use pebil.Common.{
  ℕ, zero, suc, ◌+◌, ◌*◌, ◌/◌, ◌%◌, ◌^◌, ◌≤◌, ◌<◌, ◌≡◌, refl, ap, sym, ◌∙◌, some, not, ◌==◌,
  if◌then◌else◌, arith, inl, inr, ◌⊎◌, Bool,
}
use pebil.Containers.BitSet.{count_bits}
use pebil.Containers.BitSet.Bits.{bit, bit-suc}
use pebil.Containers.BitSet.Laws.{members, members-ext}

-- The bits below `k` that are set, from the lowest.
unfoldable ones : ℕ → ℕ → ℕ
ones zero n = 0
ones (suc k) n = n % 2 + ones k (n / 2)

and_self : (m a : ℕ) → a ≤ m → digits (λ b. zero) min m a a ≡ a
and_self zero zero h = refl
and_self zero (suc a) h = absurd (omega arith)
and_self (suc m) zero h = refl
and_self (suc m) (suc a) h = rw (and_self m (suc a / 2) (omega arith)) (omega arith)

digits-step :
    (m a b : ℕ)
    → digits (λ b. zero) min (suc m) (suc a) b
      ≡ digits (λ b. zero) min m (suc a / 2) (b / 2) * 2 + min (suc a % 2) (b % 2)
digits-step m a b = refl

parity : (n : ℕ) → (n % 2 ≡ 0) ⊎ (n % 2 ≡ 1)
parity n = ground arith

ones-double : (k d : ℕ) → ones (suc k) (d * 2) ≡ ones k d
unfolding ones
ones-double k d =
    let half : d * 2 / 2 ≡ d = omega arith in
    let low : d * 2 % 2 ≡ 0 = omega arith in rw (half, low) (omega arith)

-- The lowest bit that is set is cleared.
ones-clear :
    (k m n b : ℕ)
    → suc b ≡ n
    → n ≤ m
    → n < 2 ^ k
    → ones k (digits (λ b. zero) min m n b) + 1 ≡ ones k n
unfolding ones
ones-clear zero m n b e h l = absurd (omega (arith, pow-zero 2))
ones-clear (suc k) m zero b e h l = absurd (omega arith)
ones-clear (suc k) zero (suc a) b e h l = absurd (omega arith)
ones-clear (suc k) (suc m) (suc a) b e h l = elim (parity (suc a)) [
  | inr odd ↦
      let half : b / 2 ≡ suc a / 2 = omega arith in
      let low : b % 2 ≡ 0 = omega arith in
      let same = and_self m (suc a / 2) (omega arith) in
      let none_left : suc a / 2 * 2 + min 1 0 ≡ suc a / 2 * 2 = omega arith in
      rw (digits-step m a b, half, low, odd, same, none_left, ones-double k (suc a / 2))
        (omega arith)
  | inl even ↦
      let half : suc (b / 2) ≡ suc a / 2 = omega arith in
      let low : b % 2 ≡ 1 = omega arith in
      let rest = digits (λ b. zero) min m (suc a / 2) (b / 2) in
      let none_left : rest * 2 + min 0 1 ≡ rest * 2 = omega arith in
      rw (digits-step m a b, low, even, none_left, ones-double k rest)
        (let rest_lem =
            ones-clear k m (suc a / 2) (b / 2) half (omega arith) (omega (arith, pow-suc 2 k)) in
          omega arith)
]

and_le : (m a b : ℕ) → digits (λ b. zero) min m a b ≤ a
and_le zero a b = omega arith
and_le (suc m) zero b = omega arith
and_le (suc m) (suc a) b = omega (arith, and_le m (suc a / 2) (b / 2))

ones-positive : (k n : ℕ) → 0 < n → n < 2 ^ k → 0 < ones k n
unfolding ones
ones-positive zero n p l = absurd (omega (arith, pow-zero 2))
ones-positive (suc k) n p l = elim (parity n) [
  | inr odd ↦ rw odd (omega arith)
  | inl even ↦
      let up = ones-positive k (n / 2) (omega arith) (omega (arith, pow-suc 2 k)) in omega arith
]

ones-zero : (k : ℕ) → ones k 0 ≡ 0
unfolding ones
ones-zero zero = refl
ones-zero (suc k) = rw (ones-zero k) refl

count_bits-ones :
    (fuel k n c : ℕ) → ones k n ≤ fuel → n < 2 ^ k → count_bits fuel n c ≡ some (c + ones k n)
unfolding count_bits
count_bits-ones zero k zero c h l = rw (ones-zero k) (ap some (omega arith))
count_bits-ones (suc fuel) k zero c h l = rw (ones-zero k) (ap some (omega arith))
count_bits-ones zero k (suc n) c h l =
    absurd (omega (arith, ones-positive k (suc n) (omega arith) l))
count_bits-ones (suc fuel) k (suc n) c h l =
    let step : bit_and (suc n) n ≡ digits (λ b. zero) min (suc n) (suc n) n =
      bit_and-bitwise (suc n) n in
    let rest = digits (λ b. zero) min (suc n) (suc n) n in
    let fewer : ones k rest + 1 ≡ ones k (suc n) =
      ones-clear k (suc n) (suc n) n refl (omega arith) l in
    let less = and_le (suc n) (suc n) n in
    ap (λ w. count_bits fuel w (c + 1)) step
    ∙ count_bits-ones fuel k rest (c + 1) (omega arith) (omega arith)
    ∙ ap some (omega arith)

ones-le : (k n : ℕ) → ones k n ≤ k
unfolding ones
ones-le zero n = omega arith
ones-le (suc k) n = omega (arith, ones-le k (n / 2))

members-shift :
    (f : ℕ → Bool) (n : ℕ) → members f (suc n) ≡ (if f 0 then 1 else 0) + members (λ j. f (suc j)) n
unfolding members
members-shift f zero = refl
members-shift f (suc n) = rw (members-shift f n) (omega arith)

lowest : (n : ℕ) → n % 2 ≡ (if not (bit n 0 == 0) then 1 else 0)
lowest n =
    let first : bit n 0 ≡ n % 2 = omega (arith, pow-zero 2) in
    elim (parity n) [ inl even ↦ rw (first, even) refl | inr odd ↦ rw (first, odd) refl ]

ones-members : (k n : ℕ) → ones k n ≡ members (λ j. not (bit n j == 0)) k
unfolding ones members
ones-members zero n = refl
ones-members (suc k) n =
    let low : n % 2 ≡ (if not (bit n 0 == 0) then 1 else 0) = lowest n in
    let high =
      members-ext (λ j. not (bit (n / 2) j == 0)) (λ j. not (bit n (suc j) == 0)) k
        (λ j l. rw (bit-suc n j) refl) in
    rw (ones-members k (n / 2), low, high) (sym (members-shift (λ j. not (bit n j == 0)) k))

-- The loop ends within as many rounds as the word has bits and counts the bits that are set.
pub count_bits-members :
    (k n c : ℕ) → n < 2 ^ k → count_bits k n c ≡ some (c + members (λ j. not (bit n j == 0)) k)
count_bits-members k n c l =
    count_bits-ones k k n c (ones-le k n) l ∙ ap (λ m. some (c + m)) (ones-members k n)
