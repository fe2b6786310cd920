-- ===== src/Hash/Sysv/File.antt =====
-- src/HashTable.C: `SysvHashTable::dump` and `SysvHashTable::read`, as bytes written and read in order.
pub mod Laws
pub mod Built
use pebil.Common.{
  ℕ, zero, suc, ◌+◌, ◌*◌, ◌%◌, ◌^◌, ◌++◌, Option, none, some, List, [], ◌∷◌, leb, ◌==◌, ensure,
  ◌>>=◌, ◌>>◌,
}
use pebil.X86.Bytes.{le_bytes, le_value}
use pebil.Hash.Sysv.{SysvTable}

-- copyBytes((char*)&xs[i], sizeof(uint32_t), …), for each of them in turn.
unfoldable pub put_words : List ℕ → List ℕ
unfolding le_bytes
put_words [] = []
put_words (x ∷ xs) = le_bytes 4 x ++ put_words xs

unfoldable pub dump : SysvTable → List ℕ
unfolding put_words le_bytes
dump t =
    le_bytes 4 t.number_of_buckets
    ++ le_bytes 4 t.number_of_entries
    ++ put_words t.buckets
    ++ put_words t.entries

-- copyBytesIterate of a uint32_t: it fails where the file ends.
unfoldable pub get_word : List ℕ → Option (ℕ × List ℕ)
unfolding le_value
get_word (a ∷ b ∷ c ∷ d ∷ rest) = some (le_value (a ∷ b ∷ c ∷ d ∷ []), rest)
get_word _ = none

unfoldable pub get_words : ℕ → List ℕ → Option (List ℕ × List ℕ)
unfolding get_word
get_words zero bs = some ([], bs)
get_words (suc n) bs = do
  first ← get_word bs
  others ← get_words n first.1
  some (first.0 ∷ others.0, others.1)

-- `size` is sizeInBytes, from the section header. The sum in the ASSERT is a uint32_t, its product
-- with sizeof is not.
unfoldable pub read : ℕ → List ℕ → Option (SysvTable × List ℕ)
unfolding get_word get_words
read size bs = do
  ensure (leb (4 * 2) size)
  b ← get_word bs
  e ← get_word b.1
  ensure (size == 4 * ((b.0 + e.0 + 2) % 2 ^ 32))
  buckets ← get_words b.0 e.1
  entries ← get_words e.0 buckets.1
  some (
    record {
      number_of_buckets = b.0;
      number_of_entries = e.0;
      buckets = buckets.0;
      entries = entries.0;
      size_in_bytes = size;
    },
    entries.1,
  )
