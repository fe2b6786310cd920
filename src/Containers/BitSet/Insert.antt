-- ===== src/Containers/BitSet/Insert.antt =====
-- insert of include/BitSet.h and the bits beyond the maximum.
use Prim.Native.Nat.{bit_or}
use pebil.Common.{
  ℕ, ◌/◌, ◌%◌, ◌^◌, ◌≤◌, ◌<◌, ◌≡◌, sym, subst, false, not, leb, ◌==◌, arith, inl, inr, Bool-cases,
  get_or, get_or-set, length,
}
use pebil.Containers.BitSet.{BitSet, word_of, mask_of, insert}
use pebil.Containers.BitSet.Bits.{bit}
use pebil.Containers.BitSet.Words.{has, bit_or-narrow, power_narrow}
use pebil.Containers.BitSet.Laws.{
  inside_words, insert-maximum, insert-contains, insert-beyond, bit-insert,
}
use pebil.Containers.BitSet.Operators.{IsProper}

module _ (n : ℕ) (s : BitSet) (proper : IsProper s) (less : n < s.maximum) where
  narrow-insert : (i : ℕ) → get_or (insert n s).bits i 0 < 2 ^ 32
  unfolding insert
  narrow-insert i =
      let room : leb s.maximum n ≡ false = ground arith in
      let wide : n / 32 < length s.bits =
        subst (λ k. n / 32 < k) (sym proper.valid.words) (inside_words n s.maximum less) in
      let written = get_or-set s.bits (n / 32) i (bit_or (word_of s n) (mask_of n)) 0 wide in
      elim (Bool-cases (n / 32 == i)) [
        | inl here ↦
            rw (room, written, here)
              (bit_or-narrow 32 (word_of s n) (mask_of n) (proper.narrow (n / 32))
                (power_narrow 32 (n % 32) (omega arith)))
        | inr other ↦ rw (room, written, other) (proper.narrow i)
      ]

  beyond-insert : (j : ℕ) → s.maximum ≤ j → has (word_of (insert n s) j) (j % 32) ≡ false
  unfolding has
  beyond-insert j h =
      let other : (n == j) ≡ false = ground arith in
      rw (bit-insert n s proper.valid less j, other) (old j h)
    where
      old : (j : ℕ) → s.maximum ≤ j → not (bit (word_of s j) (j % 32) == 0) ≡ false
      old j h = proper.beyond j h

-- An insertion sets no bit beyond the maximum.
pub insert-IsProper : (n : ℕ) (s : BitSet) → IsProper s → IsProper (insert n s)
insert-IsProper n s proper = elim (Bool-cases (leb s.maximum n)) [
  | inl beyond ↦ rw (insert-beyond n s beyond) proper
  | inr inside ↦
      let less : n < s.maximum = ground arith in
      let (valid, members) = insert-contains n s proper.valid in
      record {
        valid = valid;
        fits = subst (λ m. m < 2 ^ 32) (sym (insert-maximum n s)) proper.fits;
        narrow = narrow-insert n s proper less;
        beyond = λ j h. beyond-insert n s proper less j (subst (λ m. m ≤ j) (insert-maximum n s) h);
      }
]
