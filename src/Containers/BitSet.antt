-- ===== src/Containers/BitSet.antt =====
-- include/BitSet.h: a set of numbers below a maximum, as the bits of an array of 32-bit words. The
-- array that maps a number to an element of another type is not looked at here.
pub mod Bits
pub mod Laws
pub mod Count
pub mod Words
pub mod Operators
pub mod Remove
pub mod Subset
pub mod Insert
pub mod Full
use Prim.Native.Nat.{bit_and, bit_or}
use pebil.Common.{
  ℕ, zero, suc, ◌+◌, ◌-◌, ◌*◌, ◌/◌, ◌%◌, ◌^◌, Bool, true, false, not, ◌&&◌, Option, none, some,
  List, [], ◌∷◌, ltb, leb, ◌==◌, if◌then◌else◌, ensure, ◌>>=◌, ◌>>◌, get_or, set, replicate, map,
}

pub record BitSet : Type 0 where
  pub maximum : ℕ
  pub bits : List ℕ
  pub cardinality : ℕ

-- `maximum >> DivideLog`, and a word for what is left.
unfoldable pub internal_count : ℕ → ℕ
internal_count maximum = maximum / 32 + (if maximum % 32 == 0 then 0 else 1)

unfoldable pub new : ℕ → BitSet
unfolding internal_count
new max_val = record {
  maximum = max_val;
  bits = replicate (internal_count max_val) 0;
  cardinality = 0;
}

-- bits[index]
abbrev pub word_of : BitSet → ℕ → ℕ
word_of s n = get_or s.bits (n / 32) 0

abbrev pub mask_of : ℕ → ℕ
mask_of n = 2 ^ (n % 32)

unfoldable pub contains : BitSet → ℕ → Bool
contains s n = ltb n s.maximum && not (bit_and (word_of s n) (mask_of n) == 0)

unfoldable pub insert : ℕ → BitSet → BitSet
insert n s = if leb s.maximum n then s else record s {
  bits = set s.bits (n / 32) (bit_or (word_of s n) (mask_of n));
  cardinality = if bit_and (word_of s n) (mask_of n) == 0 then s.cardinality + 1 else s.cardinality;
}

unfoldable pub remove : ℕ → BitSet → BitSet
remove n s = if leb s.maximum n then s else record s {
  bits = set s.bits (n / 32) (bit_and (word_of s n) (2 ^ 32 - 1 - mask_of n));
  cardinality = if bit_and (word_of s n) (mask_of n) == 0 then s.cardinality else s.cardinality - 1;
}

-- `memset(bits, 0xff, count * sizeof(BitStorage))`
unfoldable pub setall : BitSet → BitSet
unfolding internal_count
setall s = record s {
  bits = replicate (internal_count s.maximum) (2 ^ 32 - 1);
  cardinality = s.maximum;
}

-- operator~
unfoldable pub complement : BitSet → BitSet
complement s = record s {
  bits = map (λ w. 2 ^ 32 - 1 - w) s.bits;
  cardinality = s.maximum - s.cardinality;
}

unfoldable pub clear : BitSet → BitSet
unfolding internal_count
clear s = record s { bits = replicate (internal_count s.maximum) 0; cardinality = 0 }

-- count_bits, and the loop of cardinalize: `while (n) { c++; n &= n - 1; }`. None where the fuel is
-- used up.
unfoldable pub count_bits : ℕ → ℕ → ℕ → Option ℕ
count_bits fuel zero c = some c
count_bits zero (suc n) c = none
count_bits (suc fuel) (suc n) c = count_bits fuel (bit_and (suc n) n) (c + 1)

unfoldable pub count_words : List ℕ → ℕ → Option ℕ
count_words [] c = some c
count_words (w ∷ ws) c = do total ← count_bits 32 w c; count_words ws total

-- The cardinality is a uint32_t, so the count is kept up to 2 ^ 32.
unfoldable pub cardinalize : BitSet → Option BitSet
unfolding count_words
cardinalize s = do total ← count_words s.bits 0; some (record s { cardinality = total % 2 ^ 32 })

-- A loop over the words of two sets that have as many of them.
unfoldable pub merge : (ℕ → ℕ → ℕ) → List ℕ → List ℕ → List ℕ
merge f (x ∷ xs) (y ∷ ys) = f x y ∷ merge f xs ys
merge f xs ys = []

unfoldable pub operate : (ℕ → ℕ → ℕ) → BitSet → BitSet → Option BitSet
unfolding cardinalize merge
operate f s src = do
  ensure (s.maximum == src.maximum)
  cardinalize (record s { bits = merge f s.bits src.bits })

abbrev pub without : ℕ → ℕ → ℕ
without x y = bit_and x (2 ^ 32 - 1 - y)

-- operator|=, operator&= and operator-=
unfoldable pub unite : BitSet → BitSet → Option BitSet
unfolding operate
unite s src = operate bit_or s src

unfoldable pub intersect : BitSet → BitSet → Option BitSet
unfolding operate
intersect s src = operate bit_and s src

unfoldable pub subtract : BitSet → BitSet → Option BitSet
unfolding operate
subtract s src = operate without s src

unfoldable pub all_within : List ℕ → List ℕ → Bool
all_within (x ∷ xs) (y ∷ ys) = without x y == 0 && all_within xs ys
all_within xs ys = true

unfoldable pub is_subset_of : BitSet → BitSet → Option Bool
unfolding all_within
is_subset_of s src = do ensure (s.maximum == src.maximum); some (all_within s.bits src.bits)
