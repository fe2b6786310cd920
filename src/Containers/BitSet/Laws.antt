-- ===== src/Containers/BitSet/Laws.antt =====
-- include/BitSet.h: the constructor, insert and clear, on the words and on the members.
use Prim.Native.Nat.{bit_and, bit_or}
use pebil.Common.{
  ℕ, zero, suc, ◌+◌, ◌/◌, ◌%◌, ◌^◌, ◌≤◌, ◌<◌, ◌≡◌, refl, ap, sym, ◌∙◌, subst, Bool, true, false,
  not, ◌&&◌, ◌||◌, ltb, leb, ◌==◌, if◌then◌else◌, arith, inl, inr, Bool-cases, get_or, get_or-set,
  replicate, length, length-set,
}
use pebil.Containers.BitSet.{BitSet, internal_count, new, word_of, mask_of, contains, insert, clear}
use pebil.Containers.BitSet.Bits.{bit, bit-zero, bit-or_power, bit_and-power_zero}

-- How many numbers below `n` pass a test.
unfoldable pub members : (ℕ → Bool) → ℕ → ℕ
members f zero = 0
members f (suc n) = (if f n then 1 else 0) + members f n

pub members-ext :
    (f g : ℕ → Bool) (n : ℕ) → ((i : ℕ) → i < n → f i ≡ g i) → members f n ≡ members g n
unfolding members
members-ext f g zero h = refl
members-ext f g (suc n) h =
    rw (h n (omega arith), members-ext f g n (λ i l. h i (omega arith))) refl

-- One number more passes.
pub members-add :
    (f g : ℕ → Bool) (m n : ℕ)
    → ((i : ℕ) → i < n → g i ≡ ((m == i) || f i))
    → f m ≡ false
    → m < n
    → members g n ≡ members f n + 1
unfolding members
members-add f g m zero h absent l = absurd (omega arith)
members-add f g m (suc n) h absent l = elim (Bool-cases (m == n)) [
  | inl last ↦
      let e : m ≡ n = ground arith in
      let f_no : f n ≡ false = subst (λ k. f k ≡ false) e absent in
      let below =
        members-ext g f n
          (λ i k. let ne : (m == i) ≡ false = ground arith in h i (omega arith) ∙ (rw ne refl)) in
      rw (h n (omega arith), last, f_no, below) (omega arith)
  | inr other ↦
      rw
        (
          h n (omega arith),
          other,
          members-add f g m n (λ i k. h i (omega arith)) absent (ground arith),
        )
        (omega arith)
]

pub record IsValid (s : BitSet) : Type 0 where
  pub words : length s.bits ≡ internal_count s.maximum
  pub counted : s.cardinality ≡ members (contains s) s.maximum

get_or-replicate : (n j : ℕ) → get_or {A = ℕ} (replicate n 0) j 0 ≡ 0
get_or-replicate zero j = refl
get_or-replicate (suc n) zero = refl
get_or-replicate (suc n) (suc j) = get_or-replicate n j

pub inside_words : (n maximum : ℕ) → n < maximum → n / 32 < internal_count maximum
unfolding internal_count
inside_words n maximum h = ground arith

pub contains-bit :
    (s : BitSet) (n : ℕ) → contains s n ≡ (ltb n s.maximum && not (bit (word_of s n) (n % 32) == 0))
unfolding contains
contains-bit s n = rw (bit_and-power_zero (word_of s n) (n % 32)) refl

pub contains-mask :
    (s : BitSet) (n : ℕ)
    → contains s n ≡ (ltb n s.maximum && not (bit_and (word_of s n) (mask_of n) == 0))
unfolding contains
contains-mask s n = refl

pub insert-maximum : (n : ℕ) (s : BitSet) → (insert n s).maximum ≡ s.maximum
unfolding insert
insert-maximum n s = elim (Bool-cases (leb s.maximum n)) [
  | inl beyond ↦ rw beyond refl
  | inr inside ↦ rw inside refl
]

-- Beyond the maximum nothing is inserted.
pub insert-beyond : (n : ℕ) (s : BitSet) → leb s.maximum n ≡ true → insert n s ≡ s
unfolding insert
insert-beyond n s h = rw h refl

module _ (n : ℕ) (s : BitSet) (valid : IsValid s) (less : n < s.maximum) where
  -- The word of a number after an insertion.
  word-insert :
      (j : ℕ)
      → word_of (insert n s) j
        ≡ (if n / 32 == j / 32 then bit_or (word_of s n) (2 ^ (n % 32)) else word_of s j)
  unfolding insert
  word-insert j =
      let room : leb s.maximum n ≡ false = ground arith in
      let wide : n / 32 < length s.bits =
        subst (λ k. n / 32 < k) (sym valid.words) (inside_words n s.maximum less) in
      rw room (get_or-set s.bits (n / 32) (j / 32) (bit_or (word_of s n) (2 ^ (n % 32))) 0 wide)

  pub bit-insert :
      (j : ℕ)
      → bit (word_of (insert n s) j) (j % 32) ≡ (if n == j then 1 else bit (word_of s j) (j % 32))
  bit-insert j = elim (Bool-cases (n / 32 == j / 32)) [
    | inl same ↦
        let words : word_of s n ≡ word_of s j =
          ap (λ k. get_or s.bits k 0) (let e : n / 32 ≡ j / 32 = ground arith in e) in
        let numbers : (n % 32 == j % 32) ≡ (n == j) = ground arith in
        rw (word-insert j, same, bit-or_power (n % 32) (word_of s n) (j % 32), numbers, words) refl
    | inr other ↦
        let numbers : (n == j) ≡ false = ground arith in rw (word-insert j, other, numbers) refl
  ]

  pub contains-insert : (j : ℕ) → contains (insert n s) j ≡ ((n == j) || contains s j)
  contains-insert j = elim (Bool-cases (n == j)) [
    | inl same ↦
        let inside : ltb j s.maximum ≡ true = ground arith in
        rw (contains-bit (insert n s) j, bit-insert j, insert-maximum n s, same, inside) refl
    | inr other ↦
        rw (contains-bit (insert n s) j, bit-insert j, insert-maximum n s, other, contains-bit s j)
          refl
  ]

  pub cardinality-insert :
      (insert n s).cardinality ≡ (if contains s n then s.cardinality else s.cardinality + 1)
  unfolding insert contains
  cardinality-insert =
      let room : leb s.maximum n ≡ false = ground arith in
      let inside : ltb n s.maximum ≡ true = ground arith in
      elim (Bool-cases (bit_and (word_of s n) (mask_of n) == 0)) [
        | inl new ↦ rw (room, new, inside) refl
        | inr old ↦ rw (room, old, inside) refl
      ]

  length-insert : length (insert n s).bits ≡ length s.bits
  unfolding insert
  length-insert =
      let room : leb s.maximum n ≡ false = ground arith in
      rw room (length-set s.bits (n / 32) (bit_or (word_of s n) (mask_of n)))

  insert-counted : (insert n s).cardinality ≡ members (contains (insert n s)) s.maximum
  insert-counted = elim (Bool-cases (contains s n)) [
    | inl there ↦
        let same = members-ext (contains (insert n s)) (contains s) s.maximum (λ j l.
          elim (Bool-cases (n == j)) [
            | inl e ↦
                let here : contains s j ≡ true =
                  subst (λ k. contains s k ≡ true) (let p : n ≡ j = ground arith in p) there in
                rw (contains-insert j, e, here) refl
            | inr ne ↦ rw (contains-insert j, ne) refl
          ]) in
        cardinality-insert ∙ (rw there valid.counted) ∙ sym same
    | inr missing ↦
        cardinality-insert
        ∙ (rw missing (ap (λ c. c + 1) valid.counted))
        ∙ sym (
            members-add (contains s) (contains (insert n s)) n s.maximum (λ j l. contains-insert j)
              missing less)
  ]

pub and_true : (b : Bool) → (b && true) ≡ b
and_true true = refl
and_true false = refl

and_false : (b : Bool) → (b && false) ≡ false
and_false true = refl
and_false false = refl

-- An insertion keeps a set valid, its count of the members included, and adds that number and no other
-- if it is below the maximum; else it changes nothing.
pub insert-contains :
    (n : ℕ) (s : BitSet)
    → IsValid s
    → IsValid (insert n s)
      × ((j : ℕ) → contains (insert n s) j ≡ ((n == j && ltb n s.maximum) || contains s j))
insert-contains n s valid = elim (Bool-cases (ltb n s.maximum)) [
  | inl less ↦
      let l : n < s.maximum = ground arith in
      (
        record {
          words =
              length-insert n s valid l
              ∙ valid.words
              ∙ ap internal_count (sym (insert-maximum n s));
          counted =
              insert-counted n s valid l
              ∙ ap (λ k. members (contains (insert n s)) k) (sym (insert-maximum n s));
        },
        λ j.
            rw less (
              contains-insert n s valid l j
              ∙ ap (λ b. b || contains s j) (sym (and_true (n == j)))),
      )
  | inr not_less ↦
      let beyond = insert-beyond n s (ground arith) in
      (
        rw beyond valid,
        λ j. rw (beyond, not_less) (sym (ap (λ b. b || contains s j) (and_false (n == j)))),
      )
]

members-none : (f : ℕ → Bool) (n : ℕ) → ((i : ℕ) → f i ≡ false) → members f n ≡ 0
unfolding members
members-none f zero h = refl
members-none f (suc n) h = rw (h n, members-none f n h) refl

length-zeros : (n : ℕ) → length {A = ℕ} (replicate n 0) ≡ n
length-zeros zero = refl
length-zeros (suc n) = ap suc (length-zeros n)

-- A new set is valid and has no member.
pub new-IsValid :
    (max_val : ℕ) → IsValid (new max_val) × ((j : ℕ) → contains (new max_val) j ≡ false)
unfolding new
new-IsValid max_val =
    let none_in : (j : ℕ) → contains (new max_val) j ≡ false = λ j.
      rw
        (
          contains-bit (new max_val) j,
          get_or-replicate (internal_count max_val) (j / 32),
          bit-zero (j % 32),
        )
        (and_false (ltb j max_val)) in
    (
      record {
        words = length-zeros (internal_count max_val);
        counted = sym (members-none (contains (new max_val)) max_val none_in);
      },
      none_in,
    )

module _ (s : BitSet) where
  pub contains-clear : (j : ℕ) → contains (clear s) j ≡ false
  unfolding clear
  contains-clear j =
      rw
        (
          contains-bit (clear s) j,
          get_or-replicate (internal_count s.maximum) (j / 32),
          bit-zero (j % 32),
        )
        (and_false (ltb j s.maximum))

  pub clear-maximum : (clear s).maximum ≡ s.maximum
  unfolding clear
  clear-maximum = refl

  -- A set that was cleared is valid.
  pub clear-IsValid : IsValid (clear s)
  unfolding clear
  clear-IsValid = record {
    words = length-zeros (internal_count s.maximum);
    counted = sym (members-none (contains (clear s)) s.maximum contains-clear);
  }

pub members-le : (f : ℕ → Bool) (n : ℕ) → members f n ≤ n
unfolding members
members-le f zero = omega arith
members-le f (suc n) = elim (Bool-cases (f n)) [
  | inl yes' ↦ rw yes' (omega (arith, members-le f n))
  | inr no' ↦ rw no' (omega (arith, members-le f n))
]
