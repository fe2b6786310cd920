-- ===== src/Containers/BitSet/Remove.antt =====
-- remove of include/BitSet.h, on the words and on the members.
use Prim.Native.Nat.{bit_and}
use pebil.Common.{
  ℕ, ◌-◌, ◌/◌, ◌%◌, ◌^◌, ◌≤◌, ◌<◌, ◌≡◌, refl, ap, sym, ◌∙◌, subst, true, false, not, ◌&&◌, ◌||◌,
  ltb, leb, ◌==◌, if◌then◌else◌, arith, inl, inr, Bool-cases, get_or, get_or-set, set, length,
  length-set,
}
use pebil.Containers.BitSet.{BitSet, word_of, mask_of, contains, remove}
use pebil.Containers.BitSet.Bits.{bit_power}
use pebil.Containers.BitSet.Words.{has, has-and, has-not, bit_and-le, power_narrow}
use pebil.Containers.BitSet.Laws.{
  members, members-ext, members-add, inside_words, contains-mask, and_true,
}
use pebil.Containers.BitSet.Operators.{
  IsProper, row, contains-row, contains-proper, contains-outside,
}

has-power : (k j : ℕ) → has (2 ^ k) j ≡ (k == j)
unfolding has
has-power k j = elim (Bool-cases (k == j)) [
  | inl same ↦ rw (bit_power k j, same) refl
  | inr other ↦ rw (bit_power k j, other) refl
]

has-cleared :
    (w k j : ℕ)
    → k < 32
    → j < 32
    → has (bit_and w (2 ^ 32 - 1 - 2 ^ k)) j ≡ (has w j && not (k == j))
has-cleared w k j h l =
    has-and w (2 ^ 32 - 1 - 2 ^ k) j
    ∙ ap (λ b. has w j && b) (has-not 32 (2 ^ k) j (power_narrow 32 k h) l ∙ ap not (has-power k j))

remove-beyond : (n : ℕ) (s : BitSet) → leb s.maximum n ≡ true → remove n s ≡ s
unfolding remove
remove-beyond n s h = rw h refl

-- What is no member can be taken away.
unchanged :
    (n : ℕ) (s : BitSet)
    → contains s n ≡ false
    → (j : ℕ) → contains s j ≡ (contains s j && not (n == j))
unchanged n s missing j = elim (Bool-cases (n == j)) [
  | inl e ↦
      let out : contains s j ≡ false =
        subst (λ k. contains s k ≡ false) (let p : n ≡ j = ground arith in p) missing in
      rw (e, out) refl
  | inr ne ↦ rw ne (sym (and_true (contains s j)))
]

module _ (n : ℕ) (s : BitSet) (proper : IsProper s) (less : n < s.maximum) where
  abbrev cleared : ℕ
  cleared = bit_and (word_of s n) (2 ^ 32 - 1 - mask_of n)

  abbrev left_over : BitSet
  left_over = record s {
    bits = set s.bits (n / 32) cleared;
    cardinality = if contains s n then s.cardinality - 1 else s.cardinality;
  }

  remove-left_over : remove n s ≡ left_over
  unfolding remove
  remove-left_over =
      let room : leb s.maximum n ≡ false = ground arith in
      let inside : ltb n s.maximum ≡ true = ground arith in
      elim (Bool-cases (bit_and (word_of s n) (mask_of n) == 0)) [
        | inl out ↦ rw (contains-mask s n, room, inside, out) refl
        | inr there ↦ rw (contains-mask s n, room, inside, there) refl
      ]

  word-left_over :
      (i : ℕ) → get_or left_over.bits i 0 ≡ (if n / 32 == i then cleared else get_or s.bits i 0)
  word-left_over i =
      let wide : n / 32 < length s.bits =
        subst (λ k. n / 32 < k) (sym proper.valid.words) (inside_words n s.maximum less) in
      get_or-set s.bits (n / 32) i cleared 0 wide

  row-left_over : (j : ℕ) → row left_over.bits j ≡ (contains s j && not (n == j))
  row-left_over j = elim (Bool-cases (n / 32 == j / 32)) [
    | inl same ↦
        let words : word_of s n ≡ word_of s j =
          ap (λ k. get_or s.bits k 0) (let e : n / 32 ≡ j / 32 = ground arith in e) in
        let numbers : (n % 32 == j % 32) ≡ (n == j) = ground arith in
        rw
          (
            word-left_over (j / 32),
            same,
            has-cleared (word_of s n) (n % 32) (j % 32) (omega arith) (omega arith),
            numbers,
            words,
            contains-proper s proper j,
          )
          refl
    | inr other ↦
        let numbers : (n == j) ≡ false = ground arith in
        rw (word-left_over (j / 32), other, contains-proper s proper j, numbers)
          (sym (and_true (row s.bits j)))
  ]

  left_over-narrow : (i : ℕ) → get_or left_over.bits i 0 < 2 ^ 32
  left_over-narrow i = elim (Bool-cases (n / 32 == i)) [
    | inl here ↦
        let less = bit_and-le (word_of s n) (2 ^ 32 - 1 - mask_of n) in
        let old = proper.narrow (n / 32) in rw (word-left_over i, here) (omega arith)
    | inr other ↦ rw (word-left_over i, other) (proper.narrow i)
  ]

  left_over-beyond : (j : ℕ) → s.maximum ≤ j → row left_over.bits j ≡ false
  left_over-beyond j h = let out = contains-outside s proper j h in row-left_over j ∙ (rw out refl)

  contains-left_over : (j : ℕ) → contains left_over j ≡ (contains s j && not (n == j))
  contains-left_over j = elim (Bool-cases (ltb j s.maximum)) [
    | inl inside ↦ contains-row left_over j ∙ (rw (inside, row-left_over j) refl)
    | inr outside ↦
        let out = contains-outside s proper j (ground arith) in
        contains-row left_over j ∙ (rw (outside, out) refl)
  ]

  -- A member of before is the one removed or is left.
  before : contains s n ≡ true → (j : ℕ) → contains s j ≡ ((n == j) || contains left_over j)
  before there j = elim (Bool-cases (n == j)) [
    | inl e ↦
        let here : contains s j ≡ true =
          subst (λ k. contains s k ≡ true) (let p : n ≡ j = ground arith in p) there in
        rw (contains-left_over j, e, here) refl
    | inr ne ↦ rw (contains-left_over j, ne) (sym (and_true (contains s j)))
  ]

  left_over-counted : left_over.cardinality ≡ members (contains left_over) s.maximum
  left_over-counted = elim (Bool-cases (contains s n)) [
    | inl there ↦
        let gone : contains left_over n ≡ false =
          let same : (n == n) ≡ true = ground arith in
          contains-left_over n ∙ (rw (there, same) refl) in
        let one =
          members-add (contains left_over) (contains s) n s.maximum (λ j l. before there j) gone
            less in
        let old = proper.valid.counted in
        let fewer : s.cardinality - 1 ≡ members (contains left_over) s.maximum = omega arith in
        ap (λ b. if b then s.cardinality - 1 else s.cardinality) there ∙ fewer
    | inr missing ↦
        let same =
          members-ext (contains left_over) (contains s) s.maximum
            (λ j l. contains-left_over j ∙ sym (unchanged n s missing j)) in
        ap (λ b. if b then s.cardinality - 1 else s.cardinality) missing
        ∙ proper.valid.counted
        ∙ sym same
  ]

  left_over-IsProper : IsProper left_over
  left_over-IsProper = record {
    valid = record {
      words = length-set s.bits (n / 32) cleared ∙ proper.valid.words;
      counted = left_over-counted;
    };
    fits = proper.fits;
    narrow = left_over-narrow;
    beyond = left_over-beyond;
  }

-- On a set of 32-bit words none of whose bits is set beyond the maximum, the removal of a number returns
-- such a set, whose count is that of its members; they are those of before without that number.
pub remove-contains :
    (n : ℕ) (s : BitSet)
    → IsProper s
    → IsProper (remove n s) × ((j : ℕ) → contains (remove n s) j ≡ (contains s j && not (n == j)))
remove-contains n s proper = elim (Bool-cases (leb s.maximum n)) [
  | inl beyond ↦
      let out = contains-outside s proper n (ground arith) in
      rw (remove-beyond n s beyond) (proper, unchanged n s out)
  | inr inside ↦
      let less : n < s.maximum = ground arith in
      rw (remove-left_over n s proper less)
        (left_over-IsProper n s proper less, contains-left_over n s proper less)
]
