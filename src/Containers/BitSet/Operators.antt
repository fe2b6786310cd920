-- ===== src/Containers/BitSet/Operators.antt =====
-- include/BitSet.h: the operators |=, &= and -=, word by word and then as sets.
use Prim.Native.Nat.{bit_and, bit_or}
use pebil.Common.{
  ℕ, zero, suc, ◌+◌, ◌-◌, ◌*◌, ◌/◌, ◌%◌, ◌^◌, ◌≤◌, ◌<◌, ◌≡◌, refl, ap, sym, ◌∙◌, subst, Bool, true,
  false, not, ◌&&◌, ◌||◌, Option, some, List, [], ◌∷◌, ltb, leb, ◌==◌, if◌then◌else◌, arith, inl,
  inr, Bool-cases, get_or, replicate, length, bind-some,
}
use pebil.Containers.BitSet.{
  BitSet, internal_count, new, word_of, contains, count_bits, count_words, cardinalize, merge,
  operate, without, unite, intersect, subtract,
}
use pebil.Containers.BitSet.Bits.{bit-zero}
use pebil.Containers.BitSet.Words.{has, has-or, has-and, has-not, bit_or-narrow, bit_and-le}
use pebil.Containers.BitSet.Laws.{
  members, members-ext, members-le, IsValid, contains-bit, new-IsValid,
}
use pebil.Containers.BitSet.Count.{count_bits-members}

-- A valid set of words of 32 bits, none of which is set beyond the maximum.
pub record IsProper (s : BitSet) : Type 0 where
  pub valid : IsValid s
  pub fits : s.maximum < 2 ^ 32
  pub narrow : (i : ℕ) → get_or s.bits i 0 < 2 ^ 32
  pub beyond : (j : ℕ) → s.maximum ≤ j → has (word_of s j) (j % 32) ≡ false

-- Is bit `j` of a row of words set?
abbrev pub row : List ℕ → ℕ → Bool
row ws j = has (get_or ws (j / 32) 0) (j % 32)

pub contains-row : (s : BitSet) (j : ℕ) → contains s j ≡ (ltb j s.maximum && row s.bits j)
unfolding has
contains-row s j = contains-bit s j

pub contains-proper : (s : BitSet) → IsProper s → (j : ℕ) → contains s j ≡ row s.bits j
contains-proper s p j = elim (Bool-cases (ltb j s.maximum)) [
  | inl less ↦ contains-row s j ∙ (rw less refl)
  | inr not_less ↦
      let out = p.beyond j (ground arith) in contains-row s j ∙ (rw (not_less, out) refl)
]

members-append :
    (f : ℕ → Bool) (m n t : ℕ) → t ≡ n + m → members f t ≡ members f m + members (λ j. f (m + j)) n
unfolding members
members-append f m zero t e = let same : t ≡ m = omega arith in ap (members f) same ∙ (omega arith)
members-append f m (suc n) zero e = absurd (omega arith)
members-append f m (suc n) (suc t) e =
    let at : t ≡ m + n = omega arith in
    let last : ◌≡◌ {A = ℕ} (if f t then 1 else 0) (if f (m + n) then 1 else 0) =
      ap (λ k. if f k then 1 else 0) at in
    let below = members-append f m n t (omega arith) in omega (arith, last, below)

members-prefix :
    (f : ℕ → Bool) (m n : ℕ) → m ≤ n → ((j : ℕ) → m ≤ j → f j ≡ false) → members f n ≡ members f m
unfolding members
members-prefix f m zero h none_in = let same : 0 ≡ m = omega arith in ap (members f) same
members-prefix f m (suc n) h none_in = elim (Bool-cases (leb m n)) [
  | inl more ↦
      let out = none_in n (ground arith) in
      let below = members-prefix f m n (ground arith) none_in in rw (out, below) (omega arith)
  | inr last ↦ let same : suc n ≡ m = ground arith in ap (members f) same
]

row-first : (w : ℕ) (ws : List ℕ) (j : ℕ) → j < 32 → row (w ∷ ws) j ≡ has w j
row-first w ws j l =
    let word : j / 32 ≡ 0 = omega arith in
    let place : j % 32 ≡ j = omega arith in
    ap (λ i. has (get_or (w ∷ ws) i 0) (j % 32)) word ∙ ap (has w) place

row-later : (w : ℕ) (ws : List ℕ) (j : ℕ) → row (w ∷ ws) (32 + j) ≡ row ws j
row-later w ws j =
    let word : (32 + j) / 32 ≡ suc (j / 32) = omega arith in
    let place : (32 + j) % 32 ≡ j % 32 = omega arith in
    ap (λ i. has (get_or (w ∷ ws) i 0) ((32 + j) % 32)) word ∙ ap (has (get_or ws (j / 32) 0)) place

first_word : (w c : ℕ) → w < 2 ^ 32 → count_bits 32 w c ≡ some (c + members (has w) 32)
unfolding has
first_word w c l = count_bits-members 32 w c l

pub count_words-members :
    (ws : List ℕ) (c : ℕ)
    → ((i : ℕ) → get_or ws i 0 < 2 ^ 32)
    → count_words ws c ≡ some (c + members (row ws) (length ws * 32))
unfolding count_words members
count_words-members [] c narrow = ap some (omega arith)
count_words-members (w ∷ ws) c narrow =
    let first : count_bits 32 w c ≡ some (c + members (has w) 32) = first_word w c (narrow 0) in
    let parts =
      members-append (row (w ∷ ws)) 32 (length ws * 32) (suc (length ws) * 32) (omega arith) in
    let low = members-ext (row (w ∷ ws)) (has w) 32 (row-first w ws) in
    let high =
      members-ext (λ j. row (w ∷ ws) (32 + j)) (row ws) (length ws * 32)
        (λ j l. row-later w ws j) in
    bind-some (count_words ws) first
      (count_words-members ws (c + members (has w) 32) (λ i. narrow (suc i)))
    ∙ ap some (omega (arith, parts, low, high))

get_or-merge :
    (f : ℕ → ℕ → ℕ) (xs ys : List ℕ) (i : ℕ)
    → length xs ≡ length ys
    → f 0 0 ≡ 0
    → get_or (merge f xs ys) i 0 ≡ f (get_or xs i 0) (get_or ys i 0)
unfolding merge
get_or-merge f [] [] i h z = sym z
get_or-merge f [] (y ∷ ys) i h z = absurd (omega arith)
get_or-merge f (x ∷ xs) [] i h z = absurd (omega arith)
get_or-merge f (x ∷ xs) (y ∷ ys) zero h z = refl
get_or-merge f (x ∷ xs) (y ∷ ys) (suc i) h z = get_or-merge f xs ys i (omega arith) z

length-merge :
    (f : ℕ → ℕ → ℕ) (xs ys : List ℕ) → length xs ≡ length ys → length (merge f xs ys) ≡ length xs
unfolding merge
length-merge f [] [] h = refl
length-merge f [] (y ∷ ys) h = absurd (omega arith)
length-merge f (x ∷ xs) [] h = absurd (omega arith)
length-merge f (x ∷ xs) (y ∷ ys) h = ap suc (length-merge f xs ys (omega arith))

covered : (maximum : ℕ) → maximum ≤ internal_count maximum * 32
unfolding internal_count
covered maximum = ground arith

pub contains-outside : (s : BitSet) → IsProper s → (j : ℕ) → s.maximum ≤ j → contains s j ≡ false
contains-outside s p j h = contains-proper s p j ∙ p.beyond j h

-- An operation on words that is `g` on each bit.
record IsBitwise (f : ℕ → ℕ → ℕ) (g : Bool → Bool → Bool) : Type 0 where
  none_set : f 0 0 ≡ 0
  narrow : (x y : ℕ) → x < 2 ^ 32 → y < 2 ^ 32 → f x y < 2 ^ 32
  each : (x y j : ℕ) → y < 2 ^ 32 → j < 32 → has (f x y) j ≡ g (has x j) (has y j)

or-IsBitwise : IsBitwise bit_or (λ x y. x || y)
or-IsBitwise = record {
  none_set = refl;
  narrow = bit_or-narrow 32;
  each = λ x y j l k. has-or x y j;
}

and-IsBitwise : IsBitwise bit_and (λ x y. x && y)
and-IsBitwise = record {
  none_set = refl;
  narrow = λ x y l r. let less = bit_and-le x y in omega arith;
  each = λ x y j l k. has-and x y j;
}

without-IsBitwise : IsBitwise without (λ x y. x && not y)
without-IsBitwise = record {
  none_set = refl;
  narrow = λ x y l r. let less = bit_and-le x (2 ^ 32 - 1 - y) in omega arith;
  each = λ x y j l k. has-and x (2 ^ 32 - 1 - y) j ∙ ap (λ b. has x j && b) (has-not 32 y j l k);
}

module _ {f : ℕ → ℕ → ℕ} {g : Bool → Bool → Bool} (bitwise : IsBitwise f g)
    (outside : g false false ≡ false) (s src : BitSet) (left : IsProper s) (right : IsProper src)
    (same : s.maximum ≡ src.maximum) where
  words_same : length s.bits ≡ length src.bits
  words_same = left.valid.words ∙ ap internal_count same ∙ sym right.valid.words

  word-merge :
      (i : ℕ) → get_or (merge f s.bits src.bits) i 0 ≡ f (get_or s.bits i 0) (get_or src.bits i 0)
  word-merge i = get_or-merge f s.bits src.bits i words_same bitwise.none_set

  row-merge : (j : ℕ) → row (merge f s.bits src.bits) j ≡ g (contains s j) (contains src j)
  row-merge j =
      rw (word-merge (j / 32), contains-proper s left j, contains-proper src right j)
        (bitwise.each (get_or s.bits (j / 32) 0) (get_or src.bits (j / 32) 0) (j % 32)
          (right.narrow (j / 32)) (omega arith))

  abbrev result : BitSet
  result = record s {
    bits = merge f s.bits src.bits;
    cardinality =
        members (row (merge f s.bits src.bits)) (length (merge f s.bits src.bits) * 32) % 2 ^ 32;
  }

  narrow-merge : (i : ℕ) → get_or (merge f s.bits src.bits) i 0 < 2 ^ 32
  narrow-merge i =
      rw (word-merge i)
        (bitwise.narrow (get_or s.bits i 0) (get_or src.bits i 0) (left.narrow i) (right.narrow i))

  operate-result : operate f s src ≡ some result
  unfolding operate cardinalize
  operate-result =
      let agree : (s.maximum == src.maximum) ≡ true = ground arith in
      let total = count_words-members (merge f s.bits src.bits) 0 narrow-merge in
      rw (agree, total)
        (ap (λ c. some (record s { bits = merge f s.bits src.bits; cardinality = c % 2 ^ 32 }))
          (omega arith))

  result-beyond : (j : ℕ) → s.maximum ≤ j → row result.bits j ≡ false
  result-beyond j h =
      let mine = contains-outside s left j h in
      let other = contains-outside src right j (subst (λ m. m ≤ j) same h) in
      row-merge j ∙ (rw (mine, other) outside)

  words-result : length result.bits ≡ internal_count s.maximum
  words-result = length-merge f s.bits src.bits words_same ∙ left.valid.words

  result-counted : result.cardinality ≡ members (contains result) s.maximum
  result-counted =
      let wide : s.maximum ≤ length result.bits * 32 =
        subst (λ n. s.maximum ≤ n * 32) (sym words-result) (covered s.maximum) in
      let all =
        members-prefix (row result.bits) s.maximum (length result.bits * 32) wide result-beyond in
      let few = members-le (row result.bits) s.maximum in
      let counted : result.cardinality ≡ members (row result.bits) s.maximum =
        omega (arith, all, few, left.fits) in
      counted
      ∙ members-ext (row result.bits) (contains result) s.maximum (λ j l.
        let inside : ltb j s.maximum ≡ true = ground arith in
        sym (contains-row result j ∙ (rw inside refl)))

  result-IsProper : IsProper result
  result-IsProper = record {
    valid = record { words = words-result; counted = result-counted };
    fits = left.fits;
    narrow = narrow-merge;
    beyond = result-beyond;
  }

  contains-result : (j : ℕ) → contains result j ≡ g (contains s j) (contains src j)
  contains-result j = contains-proper result result-IsProper j ∙ row-merge j

-- `r` is a proper set of the numbers that `g` takes by their places in `s` and in `src`.
unfoldable pub Yields : (Bool → Bool → Bool) → BitSet → BitSet → Option BitSet → Type 0
Yields g s src r =
    (u : BitSet) × (r ≡ some u)
    × IsProper u
    × (u.maximum ≡ s.maximum)
    × ((j : ℕ) → contains u j ≡ g (contains s j) (contains src j))

operate-Yields :
    {f : ℕ → ℕ → ℕ} {g : Bool → Bool → Bool}
    → IsBitwise f g
    → g false false ≡ false
    → (s src : BitSet) → IsProper s
    → IsProper src
    → s.maximum ≡ src.maximum
    → Yields g s src (operate f s src)
unfolding Yields
operate-Yields b o s src left right same = (
  result b o s src left right same,
  operate-result b o s src left right same,
  result-IsProper b o s src left right same,
  refl,
  contains-result b o s src left right same,
)

-- On two sets of 32-bit words with one maximum, none of whose bits is set beyond it, each of `|=`, `&=`
-- and `-=` returns such a set: it has that maximum, its count is that of its members, and a number
-- is a member when it is one of either set, of both, or of the first and not of the second.
pub operators_lem :
    (s src : BitSet)
    → IsProper s
    → IsProper src
    → s.maximum ≡ src.maximum
    → Yields (λ x y. x || y) s src (unite s src)
      × Yields (λ x y. x && y) s src (intersect s src)
      × Yields (λ x y. x && not y) s src (subtract s src)
unfolding unite intersect subtract
operators_lem s src left right same = (
  operate-Yields or-IsBitwise refl s src left right same,
  operate-Yields and-IsBitwise refl s src left right same,
  operate-Yields without-IsBitwise refl s src left right same,
)

-- A new set is proper.
get_or-zeros : (n i : ℕ) → get_or {A = ℕ} (replicate n 0) i 0 ≡ 0
get_or-zeros zero i = refl
get_or-zeros (suc n) zero = refl
get_or-zeros (suc n) (suc i) = get_or-zeros n i

pub has_none : (j : ℕ) → has 0 j ≡ false
unfolding has
has_none j = rw (bit-zero j) refl

pub new-IsProper : (max_val : ℕ) → max_val < 2 ^ 32 → IsProper (new max_val)
unfolding new
new-IsProper max_val small =
    let zeros = get_or-zeros (internal_count max_val) in
    let (valid, empty) = new-IsValid max_val in
    record {
      valid = valid;
      fits = small;
      narrow = λ i. rw (zeros i) (omega arith);
      beyond = λ j h. rw (zeros (j / 32)) (has_none (j % 32));
    }
