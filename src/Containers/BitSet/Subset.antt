-- ===== src/Containers/BitSet/Subset.antt =====
-- isSubsetOf of include/BitSet.h, on the words and on the members.
use native.Mathlib.Nat.{pow-suc, pow-zero}
use pebil.Common.{
  ℕ, zero, suc, ◌+◌, ◌-◌, ◌*◌, ◌/◌, ◌%◌, ◌^◌, ◌<◌, ◌≡◌, refl, ap, sym, ◌∙◌, Bool, true, false, not,
  ◌&&◌, some, List, [], ◌∷◌, ◌==◌, arith, get_or, length, ◌↔◌,
}
use pebil.Containers.BitSet.{BitSet, internal_count, contains, without, all_within, is_subset_of}
use pebil.Containers.BitSet.Bits.{bit, bit-suc, bit-zero}
use pebil.Containers.BitSet.Words.{has, has-and, has-not, bit_and-le}
use pebil.Containers.BitSet.Operators.{IsProper, contains-proper}

-- A word none of whose bits is set is zero.
no_bit : (k n : ℕ) → n < 2 ^ k → ((j : ℕ) → j < k → bit n j ≡ 0) → n ≡ 0
no_bit zero n l h = omega (arith, pow-zero 2)
no_bit (suc k) n l h =
    let half =
      no_bit k (n / 2) (omega (arith, pow-suc 2 k))
        (λ j m. sym (bit-suc n j) ∙ h (suc j) (omega arith)) in
    let low = h 0 (omega arith) in omega (arith, pow-zero 2)

has-zero : (j : ℕ) → has 0 j ≡ false
unfolding has
has-zero j = rw (bit-zero j) refl

has-none : (n j : ℕ) → has n j ≡ false → bit n j ≡ 0
unfolding has
has-none n j h = ground arith

has-without : (x y j : ℕ) → y < 2 ^ 32 → j < 32 → has (without x y) j ≡ (has x j && not (has y j))
has-without x y j l k = has-and x (2 ^ 32 - 1 - y) j ∙ ap (λ b. has x j && b) (has-not 32 y j l k)

implied : (x y : Bool) → (x && not y) ≡ false → x ≡ true → y ≡ true
implied x y h e = ground arith

excluded : (x y : Bool) → (x ≡ true → y ≡ true) → (x && not y) ≡ false
excluded true true h = refl
excluded true false h = sym (h refl)
excluded false y h = refl

-- Of one word.
within-bits :
    (x y : ℕ) → y < 2 ^ 32 → without x y ≡ 0 → (j : ℕ) → j < 32 → has x j ≡ true → has y j ≡ true
within-bits x y l e j k =
    implied (has x j) (has y j) (sym (has-without x y j l k) ∙ ap (λ w. has w j) e ∙ has-zero j)

bits-within :
    (x y : ℕ)
    → x < 2 ^ 32
    → y < 2 ^ 32
    → ((j : ℕ) → j < 32 → has x j ≡ true → has y j ≡ true)
    → without x y ≡ 0
bits-within x y l r h =
    no_bit 32 (without x y) (let less = bit_and-le x (2 ^ 32 - 1 - y) in omega arith) (λ j k.
      has-none (without x y) j (has-without x y j r k ∙ excluded (has x j) (has y j) (h j k)))

all_within-words :
    (xs ys : List ℕ)
    → length xs ≡ length ys
    → all_within xs ys ≡ true
    → (i : ℕ) → without (get_or xs i 0) (get_or ys i 0) ≡ 0
unfolding all_within
all_within-words [] [] e h i = refl
all_within-words [] (y ∷ ys) e h i = absurd (omega arith)
all_within-words (x ∷ xs) [] e h i = absurd (omega arith)
all_within-words (x ∷ xs) (y ∷ ys) e h zero = ground arith
all_within-words (x ∷ xs) (y ∷ ys) e h (suc i) =
    all_within-words xs ys (omega arith) (ground arith) i

words-all_within :
    (xs ys : List ℕ)
    → ((i : ℕ) → without (get_or xs i 0) (get_or ys i 0) ≡ 0)
    → all_within xs ys ≡ true
unfolding all_within
words-all_within [] ys h = refl
words-all_within (x ∷ xs) [] h = refl
words-all_within (x ∷ xs) (y ∷ ys) h =
    let first : (without x y == 0) ≡ true = ground (arith, h 0) in
    rw (first, words-all_within xs ys (λ i. h (suc i))) refl

module _ (s src : BitSet) (left : IsProper s) (right : IsProper src)
    (same : s.maximum ≡ src.maximum) where
  within-members :
      all_within s.bits src.bits ≡ true → (j : ℕ) → contains s j ≡ true → contains src j ≡ true
  within-members h j there =
      let word =
        all_within-words s.bits src.bits
          (left.valid.words ∙ ap internal_count same ∙ sym right.valid.words) h (j / 32) in
      contains-proper src right j
      ∙ within-bits (get_or s.bits (j / 32) 0) (get_or src.bits (j / 32) 0) (right.narrow (j / 32))
          word (j % 32) (omega arith) (sym (contains-proper s left j) ∙ there)

  row-place :
      (t : BitSet)
      → IsProper t
      → (i j : ℕ) → j < 32
      → contains t (i * 32 + j) ≡ has (get_or t.bits i 0) j
  row-place t p i j l =
      let word : (i * 32 + j) / 32 ≡ i = omega arith in
      let place : (i * 32 + j) % 32 ≡ j = omega arith in
      contains-proper t p (i * 32 + j)
      ∙ ap (λ k. has (get_or t.bits k 0) ((i * 32 + j) % 32)) word
      ∙ ap (has (get_or t.bits i 0)) place

  members-within :
      ((j : ℕ) → contains s j ≡ true → contains src j ≡ true) → all_within s.bits src.bits ≡ true
  members-within h = words-all_within s.bits src.bits (λ i.
      bits-within (get_or s.bits i 0) (get_or src.bits i 0) (left.narrow i) (right.narrow i)
        (λ j l there.
          sym (row-place src right i j l) ∙ h (i * 32 + j) (row-place s left i j l ∙ there)))

-- On two sets of 32-bit words with one maximum, none of whose bits is set beyond it, isSubsetOf returns an
-- answer, and it is true exactly when every member of the first set is one of the second.
pub is_subset_of_iff :
    (s src : BitSet)
    → IsProper s
    → IsProper src
    → s.maximum ≡ src.maximum
    → (b : Bool) × (is_subset_of s src ≡ some b)
      × ((b ≡ true) ↔ ((j : ℕ) → contains s j ≡ true → contains src j ≡ true))
unfolding is_subset_of
is_subset_of_iff s src left right same =
    let agree : (s.maximum == src.maximum) ≡ true = ground arith in
    (
      all_within s.bits src.bits,
      rw agree refl,
      (within-members s src left right same, members-within s src left right same),
    )
