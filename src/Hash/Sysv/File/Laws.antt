-- ===== src/Hash/Sysv/File/Laws.antt =====
-- What `dump` writes, `read` reads.
use mathlib.Core.List.{append_assoc}
use pebil.Common.{
  leb, ◌==◌, true, subst, sym, ℕ, ◌+◌, ◌*◌, ◌%◌, ◌^◌, ◌<◌, ◌≡◌, refl, ◌++◌, some, List, [], ◌∷◌,
  length, arith,
}
use pebil.X86.Bytes.{le_bytes, le_value, le_value-bytes_four}
use pebil.Hash.Sysv.{SysvTable}
use pebil.Hash.Sysv.File.{put_words, dump, get_words, read}

-- Each of the words is a uint32_t.
pub data Words : List ℕ → Type 0 where
  none_left : Words []
  word : {x : ℕ} {xs : List ℕ} → x < 2 ^ 32 → Words xs → Words (x ∷ xs)

word_value : (x : ℕ) → x < 2 ^ 32 → le_value (le_bytes 4 x) ≡ x
word_value x h = omega (arith, le_value-bytes_four x)

get_words-put_words :
    (xs rest : List ℕ) → Words xs → get_words (length xs) (put_words xs ++ rest) ≡ some (xs, rest)
unfolding get_words put_words le_bytes
get_words-put_words [] rest none_left = refl
get_words-put_words (x ∷ xs) rest (word h ws) =
    rw (get_words-put_words xs rest ws, word_value x h) refl

-- A table in memory: the numbers count the arrays, each word is a uint32_t, the sizes do not wrap.
pub record IsStored (t : SysvTable) : Type 0 where
  pub buckets_count : t.number_of_buckets ≡ length t.buckets
  pub entries_count : t.number_of_entries ≡ length t.entries
  pub buckets_words : Words t.buckets
  pub entries_words : Words t.entries
  pub small : t.number_of_buckets + t.number_of_entries + 2 < 2 ^ 32
  pub size : t.size_in_bytes ≡ 4 * (2 + t.number_of_buckets + t.number_of_entries)

-- Reading what was dumped, with whatever follows it in the file, gives the table back, and stops
-- behind it.
pub read-dump :
    (t : SysvTable) (rest : List ℕ)
    → IsStored t
    → read t.size_in_bytes (dump t ++ rest) ≡ some (t, rest)
unfolding read dump le_bytes
read-dump t rest stored =
    let wide : leb (4 * 2) t.size_in_bytes ≡ true = ground (arith, stored.size) in
    let same : (t.size_in_bytes == 4 * ((t.number_of_buckets + t.number_of_entries + 2) % 2 ^ 32))
        ≡ true =
      ground (arith, stored.size, stored.small) in
    let bs : get_words t.number_of_buckets (put_words t.buckets ++ (put_words t.entries ++ rest))
        ≡ some (t.buckets, put_words t.entries ++ rest) =
      subst
        (λ n.
          get_words n (put_words t.buckets ++ (put_words t.entries ++ rest))
          ≡ some (t.buckets, put_words t.entries ++ rest))
        (sym stored.buckets_count)
        (get_words-put_words t.buckets (put_words t.entries ++ rest) stored.buckets_words) in
    let es : get_words t.number_of_entries (put_words t.entries ++ rest) ≡ some (t.entries, rest) =
      subst (λ n. get_words n (put_words t.entries ++ rest) ≡ some (t.entries, rest))
        (sym stored.entries_count) (get_words-put_words t.entries rest stored.entries_words) in
    rw
      (
        wide,
        word_value t.number_of_buckets (omega (arith, stored.small)),
        word_value t.number_of_entries (omega (arith, stored.small)),
        same,
        append_assoc (put_words t.buckets) (put_words t.entries) rest,
        bs,
        es,
      )
      refl
