-- ===== src/Containers/BitSet/Full.antt =====
-- setall of include/BitSet.h and the count that an operator makes after it.
use Prim.Native.Nat.{bit_or}
use pebil.Common.{
  ℕ, zero, suc, ◌-◌, ◌*◌, ◌/◌, ◌%◌, ◌^◌, ◌<◌, ◌≡◌, refl, ap, ◌∙◌, Bool, true, not, some, ◌∷◌, ◌==◌,
  arith, get_or, replicate, length,
}
use pebil.Containers.BitSet.{
  BitSet, internal_count, setall, count_words, cardinalize, merge, operate, unite,
}
use pebil.Containers.BitSet.Words.{has, has-not}
use pebil.Containers.BitSet.Laws.{members}
use pebil.Containers.BitSet.Operators.{row, count_words-members, has_none}

abbrev ones_word : ℕ
ones_word = 2 ^ 32 - 1

members-all : (f : ℕ → Bool) (n : ℕ) → ((j : ℕ) → j < n → f j ≡ true) → members f n ≡ n
unfolding members
members-all f zero h = refl
members-all f (suc n) h =
    rw (h n (omega arith), members-all f n (λ j l. h j (omega arith))) (omega arith)

get_or-ones : (n i : ℕ) → i < n → get_or (replicate n ones_word) i 0 ≡ ones_word
get_or-ones zero i h = absurd (omega arith)
get_or-ones (suc n) zero h = refl
get_or-ones (suc n) (suc i) h = get_or-ones n i (omega arith)

ones-narrow : (n i : ℕ) → get_or (replicate n ones_word) i 0 < 2 ^ 32
ones-narrow zero i = omega arith
ones-narrow (suc n) zero = omega arith
ones-narrow (suc n) (suc i) = ones-narrow n i

length-ones : (n : ℕ) → length (replicate n ones_word) ≡ n
length-ones zero = refl
length-ones (suc n) = ap suc (length-ones n)

has-ones : (j : ℕ) → j < 32 → has ones_word j ≡ true
has-ones j l = has-not 32 0 j (omega arith) l ∙ ap not (has_none j)

merge-ones :
    (n : ℕ) → merge bit_or (replicate n ones_word) (replicate n ones_word) ≡ replicate n ones_word
unfolding merge
merge-ones zero = refl
merge-ones (suc n) = ap (λ ws. ones_word ∷ ws) (merge-ones n)

ones-counted :
    (n : ℕ)
    → count_words (merge bit_or (replicate n ones_word) (replicate n ones_word)) 0 ≡ some (n * 32)
ones-counted n =
    let all_set = members-all (row (replicate n ones_word)) (n * 32) (λ j l.
      ap (λ w. has w (j % 32)) (get_or-ones n (j / 32) (omega arith))
      ∙ has-ones (j % 32) (omega arith)) in
    let wide : length (replicate n ones_word) * 32 ≡ n * 32 = ap (λ k. k * 32) (length-ones n) in
    ap (λ ws. count_words ws 0) (merge-ones n)
    ∙ count_words-members (replicate n ones_word) 0 (ones-narrow n)
    ∙ ap some (omega (arith, ap (members (row (replicate n ones_word))) wide, all_set))

-- After setall the union of the set with itself counts every bit of its words, those beyond the maximum
-- too, up to the 32 bits of the count.
pub unite-setall :
    (s : BitSet)
    → (u : BitSet) × (unite (setall s) (setall s) ≡ some u)
      × (u.cardinality ≡ internal_count s.maximum * 32 % 2 ^ 32)
unfolding unite operate cardinalize setall internal_count
unite-setall s =
    let agree : (s.maximum == s.maximum) ≡ true = ground arith in
    (
      record s {
        bits =
            merge bit_or (replicate (internal_count s.maximum) ones_word)
              (replicate (internal_count s.maximum) ones_word);
        cardinality = internal_count s.maximum * 32 % 2 ^ 32;
      },
      rw (agree, ones-counted (internal_count s.maximum)) refl,
      refl,
    )
